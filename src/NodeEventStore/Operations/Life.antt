-- ===== src/NodeEventStore/Operations/Life.antt =====
-- The life of an Event in a slot of lib/node_event_store/src/node_event_store.h, and what its commits
-- make of the slots.
use argus_redline.Base.{
  ℕ, ◌<◌, ◌≡◌, ◌⊎◌, inl, inr, refl, ◌∙◌, arith, Bool, true, false, not, Option, none, some, List,
  leb, if◌then◌else◌,
}
use argus_redline.Base.Methods.{continue, After}
use argus_redline.EventProtocol.{Identity}
use argus_redline.EventRecords.NodeRecord.{NodeRecord, NodeState, max_attempts}
use argus_redline.NodeEventStore.Interface.{Storage}
use argus_redline.NodeEventStore.{
  SlotState, EventInput, MutationStatus, slot_at, is_free, is_queued, valid_input,
}
use argus_redline.NodeEventStore.Commits.{Machine, commit_mutation, rebuild_index}
use argus_redline.NodeEventStore.Commits.Writes.{
  IsWritten, commit_mutation-Writes, rebuild_index-slots,
}
use argus_redline.NodeEventStore.Operations.Reports.{mutated-slots}
use argus_redline.NodeEventStore.Operations.{
  next_generation, queued_record, free_record, armed_record, is_terminal, commit_indexed, mutated,
  guarded,
}

pub data Kind : Type 0 where
  creation ending reclamation release ageing arming : Kind

-- The life of an Event in a slot; the identity of a new one must be given.
pub data Moves (Given : Identity → Type 0) (old : NodeRecord) : Kind → NodeRecord → Type 0 where
  created :
      (input : EventInput) (i : Identity)
      → is_free old ≡ true
      → valid_input input ≡ true
      → Given i
      → Moves Given old creation (queued_record input old.generation i)
  ended :
      (state : NodeState)
      → is_queued old ≡ true
      → (state ≡ NodeState.failed) ⊎ (state ≡ NodeState.expired)
      → Moves Given old ending (record (next_generation old) { state = state })
  reclaimed : is_terminal old ≡ true → Moves Given old reclamation (free_record old)
  released : is_queued old ≡ true → Moves Given old release (free_record old)
  aged :
      (remaining : ℕ)
      → is_queued old ≡ true
      → 0 < remaining
      → remaining < old.remaining_active_seconds
      → Moves Given old ageing
          (record (next_generation old) { remaining_active_seconds = remaining })
  armed :
      is_queued old ≡ true
      → old.attempts_used < max_attempts
      → Moves Given old arming (armed_record old)

-- The slots are as before, or one of them has moved; what kinds of move may be made at which slots is given.
abbrev pub HasMoved :
    (Identity → Type 0) → (Kind → ℕ → Type 0) → List SlotState → List SlotState → Type 0
HasMoved Given May slots slots' =
    (slots' ≡ slots)
    ⊎ ((slot : ℕ) × (k : Kind) × (r : NodeRecord) × May k slot
        × Moves Given (slot_at slots slot).value k r
        × IsWritten slot r slots slots')

-- One kind of move at one slot.
abbrev pub Only : Kind → ℕ → Kind → ℕ → Type 0
Only kind slot k j = (k ≡ kind) × (j ≡ slot)

module _ (storage : Storage) where
  module _ (s : Machine storage) (slot : ℕ) (r : NodeRecord) where
    -- What a commit of the record makes of the slots, whether it returns or not.
    abbrev pub Wrote : Machine storage → Type 0
    Wrote t = (t.store.slots ≡ s.store.slots) ⊎ IsWritten slot r s.store.slots t.store.slots

    pub commit_mutation-Wrote : Wrote (commit_mutation storage slot r s).1
    commit_mutation-Wrote =
        go (commit_mutation storage slot r s)
          (commit_mutation-Writes storage s.store.slots slot r s refl)
      where
        go :
            (q : Option (Unit {0}) × Machine storage)
            → After
                (λ u t. IsWritten slot r s.store.slots t.store.slots)
                (λ t. t.store.slots ≡ s.store.slots)
                q
            → Wrote q.1
        go (some u, t) h = inr h
        go (none, t) h = inl h

    pub commit_indexed-Wrote : Wrote (commit_indexed storage slot r s).1
    unfolding commit_indexed
    commit_indexed-Wrote = go (commit_mutation storage slot r s) commit_mutation-Wrote
      where
        go :
            (q : Option (Unit {0}) × Machine storage)
            → Wrote q.1
            → Wrote (continue q.0 (λ _. rebuild_index storage) q.1).1
        go (some u, t) (inl h) = inl (rebuild_index-slots storage t ∙ h)
        go (some u, t) (inr (copy, h)) = inr (copy, rebuild_index-slots storage t ∙ h)
        go (none, t) h = h

  module _ (Given : Identity → Type 0) (May : Kind → ℕ → Type 0) (s : Machine storage) where
    abbrev pub Moved : Machine storage → Type 0
    Moved t = HasMoved Given May s.store.slots t.store.slots

    pub Moved-if :
        {A : Type 0} (test : Bool) (x y : A × Machine storage)
        → (test ≡ true → Moved x.1)
        → (test ≡ false → Moved y.1)
        → Moved (if test then x else y).1
    Moved-if true x y h k = h refl
    Moved-if false x y h k = k refl

    pub Moved-same : (t u : Machine storage) → u.store.slots ≡ t.store.slots → Moved t → Moved u
    Moved-same t u same (inl h) = inl (same ∙ h)
    Moved-same t u same (inr (slot, k, r, may, m, (copy, h))) =
        inr (slot, k, r, may, m, (copy, same ∙ h))

    pub Moved-write :
        (slot : ℕ) (k : Kind) (r : NodeRecord) (t : Machine storage)
        → May k slot
        → Moves Given (slot_at s.store.slots slot).value k r
        → Wrote s slot r t
        → Moved t
    Moved-write slot k r t may m (inl h) = inl h
    Moved-write slot k r t may m (inr w) = inr (slot, k, r, may, m, w)

    pub guarded-Moved :
        (slot : ℕ) (test : NodeRecord → Bool)
        (body : NodeRecord → Machine storage → MutationStatus × Machine storage)
        → (test (slot_at s.store.slots slot).value ≡ true
            → Moved (body (slot_at s.store.slots slot).value s).1)
        → Moved (guarded storage slot test body s).1
    unfolding guarded
    guarded-Moved slot test body h =
        Moved-if (not s.store.healthy) _ _ (λ _. inl refl)
          λ _.
            Moved-if (leb 8 slot) _ _ (λ _. inl refl)
              λ _.
                Moved-if (not (test (slot_at s.store.slots slot).value)) _ _ (λ _. inl refl)
                  (λ e. h (ground arith))

    pub mutation-Moved :
        (slot : ℕ) (k : Kind) (r : NodeRecord)
        → May k slot
        → Moves Given (slot_at s.store.slots slot).value k r
        → Moved (mutated storage (commit_indexed storage slot r s)).1
    mutation-Moved slot k r may m =
        Moved-same (commit_indexed storage slot r s).1
          (mutated storage (commit_indexed storage slot r s)).1
          (mutated-slots storage (commit_indexed storage slot r s))
          (Moved-write slot k r (commit_indexed storage slot r s).1 may m
            (commit_indexed-Wrote s slot r))
