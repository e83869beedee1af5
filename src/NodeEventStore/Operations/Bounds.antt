-- ===== src/NodeEventStore/Operations/Bounds.antt =====
-- The attempts and the lifetimes that the slots of lib/node_event_store/src/node_event_store.h count.
use argus_redline.Base.{All-set, ℕ, zero, suc, ◌≤◌, inl, inr, subst, sym, arith, List, [], ◌∷◌, All}
use argus_redline.EventRecords.NodeRecord.{NodeRecord, max_attempts}
use argus_redline.NodeEventStore.Interface.{Storage}
use argus_redline.NodeEventStore.{SlotState, empty_slot, slot_at}
use argus_redline.NodeEventStore.Commits.{Machine}
use argus_redline.NodeEventStore.Operations.Life.{
  Kind, Moves, created, ended, reclaimed, released, aged, armed, HasMoved,
}
use argus_redline.NodeEventStore.Operations.Transitions.{Call, Given, Makes, run, run-HasMoved}
use argus_redline.EventProtocol.{Identity}

pub record IsBoundedRecord (r : NodeRecord) : Type 0 where
  pub attempts : r.attempts_used ≤ max_attempts
  pub lifetime : r.remaining_active_seconds ≤ r.lifetime_budget_seconds

-- A slot whose record has counted at most five attempts, and has no more time left than it began with.
abbrev pub IsBounded : SlotState → Type 0
IsBounded s = IsBoundedRecord s.value

empty_slot-IsBounded : IsBounded empty_slot
empty_slot-IsBounded = record { attempts = omega arith; lifetime = omega arith }

slot_at-IsBounded :
    (slots : List SlotState) (slot : ℕ) → All IsBounded slots → IsBounded (slot_at slots slot)
slot_at-IsBounded [] slot h = empty_slot-IsBounded
slot_at-IsBounded (s ∷ slots) zero h = h.0
slot_at-IsBounded (s ∷ slots) (suc slot) h = slot_at-IsBounded slots slot h.1

Moves-IsBounded :
    (Given : Identity → Type 0) (old : NodeRecord) (k : Kind) (r : NodeRecord)
    → Moves Given old k r
    → IsBoundedRecord old
    → IsBoundedRecord r
Moves-IsBounded Given old _ _ (created input i f v g) b = record {
  attempts = omega arith;
  lifetime = omega arith;
}
Moves-IsBounded Given old _ _ (ended state q to) b = record {
  attempts = b.attempts;
  lifetime = b.lifetime;
}
Moves-IsBounded Given old _ _ (reclaimed t) b = record {
  attempts = omega arith;
  lifetime = omega arith;
}
Moves-IsBounded Given old _ _ (released q) b = record {
  attempts = omega arith;
  lifetime = omega arith;
}
Moves-IsBounded Given old _ _ (aged remaining q p l) b = record {
  attempts = b.attempts;
  lifetime = omega (arith, b.lifetime);
}
Moves-IsBounded Given old _ _ (armed q l) b = record {
  attempts = omega arith;
  lifetime = b.lifetime;
}

pub HasMoved-IsBounded :
    (Given : Identity → Type 0) (May : Kind → ℕ → Type 0) (slots slots' : List SlotState)
    → HasMoved Given May slots slots'
    → All IsBounded slots
    → All IsBounded slots'
HasMoved-IsBounded Given May slots slots' (inl same) h = subst (All IsBounded) (sym same) h
HasMoved-IsBounded Given May slots slots' (inr (slot, k, r, may, m, (copy, written))) h =
    subst (All IsBounded) (sym written) (
      All-set IsBounded slots slot _
        (Moves-IsBounded Given (slot_at slots slot).value k r m (slot_at-IsBounded slots slot h)) h)

module _ (storage : Storage) where
  pub runs : List Call → Machine storage → Machine storage
  runs [] s = s
  runs (call ∷ calls) s = runs calls (run storage call s)

  -- Whatever the storage answers, any calls of the public methods keep every slot at no more than five
  -- attempts, and at no more time left than the lifetime that its Event began with.
  pub runs-IsBounded :
      (calls : List Call) (s : Machine storage)
      → All IsBounded s.store.slots
      → All IsBounded (runs calls s).store.slots
  unfolding runs
  runs-IsBounded [] s h = h
  runs-IsBounded (call ∷ calls) s h = runs-IsBounded calls (run storage call s) (
      HasMoved-IsBounded (Given storage s) (Makes call) s.store.slots
        (run storage call s).store.slots (run-HasMoved storage call s) h)
