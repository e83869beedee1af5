-- ===== src/NodeEventStore/Operations/Transitions.antt =====
-- Every method of lib/node_event_store/src/node_event_store.h moves at most one slot, and only along the
-- life of an Event.
use argus_redline.Base.{
  ℕ, ◌+◌, ◌≡◌, ◌⊎◌, inl, inr, refl, subst, ◌∙◌, arith, true, false, not, Option, none, some, List,
  leb, Bool-cases, [], ◌∷◌, suc,
}
use argus_redline.EventIdentity
use argus_redline.EventProtocol.{Identity}
use argus_redline.EventIdentity.{AllocationResult, is_failure}
use argus_redline.EventRecords.NodeRecord.{NodeState, same_state, max_attempts}
use argus_redline.RuntimeState.{EventDiagnostic}
use argus_redline.NodeEventStore.Interface.{Storage}
use argus_redline.NodeEventStore.{
  SlotState, EventInput, slot_at, is_free, is_queued, valid_input, first_free,
}
use argus_redline.NodeEventStore.Commits.{Machine, commit_mutation}
use argus_redline.NodeEventStore.Operations.Life.{
  Kind, creation, ending, reclamation, release, ageing, arming, Only, Moves, created, ended,
  reclaimed, released, aged, armed, HasMoved, commit_mutation-Wrote, commit_indexed-Wrote, Moved,
  Moved-if, Moved-same, Moved-write, guarded-Moved, mutation-Moved,
}
use argus_redline.NodeEventStore.Operations.Reports.{
  mutated-slots, report_failure-slots, report_release-slots, report_transition-slots,
  after_attempt-slots, after_enqueue-slots,
}
use argus_redline.NodeEventStore.Operations.{
  next_generation, queued_record, free_record, armed_record, is_terminal, can_checkpoint,
  commit_indexed, after_enqueue, enqueue_with, enqueue_at, enqueue, mutated, transition, make_free,
  report_transition, mark_failed, mark_expired, report_failure, reclaim, report_release,
  release_queued, checkpoint_remaining, after_attempt, arm_attempt,
}

pub data Call : Type 0 where
  enqueue_call : EventInput → Call
  mark_failed_call mark_expired_call reclaim_call release_call arm_call : ℕ → Call
  checkpoint_call : ℕ → ℕ → Call

abbrev pub Creates : Kind → ℕ → Type 0
Creates k j = k ≡ creation

-- The one kind of move that a call may make, and where.
abbrev pub Makes : Call → Kind → ℕ → Type 0
Makes (enqueue_call input) = Creates
Makes (mark_failed_call slot) = Only ending slot
Makes (mark_expired_call slot) = Only ending slot
Makes (reclaim_call slot) = Only reclamation slot
Makes (release_call slot) = Only release slot
Makes (arm_call slot) = Only arming slot
Makes (checkpoint_call slot remaining) = Only ageing slot

module _ (storage : Storage) where
  unfoldable pub run : Call → Machine storage → Machine storage
  run (enqueue_call input) s = (enqueue storage input s).1
  run (mark_failed_call slot) s = (mark_failed storage slot s).1
  run (mark_expired_call slot) s = (mark_expired storage slot s).1
  run (reclaim_call slot) s = (reclaim storage slot s).1
  run (release_call slot) s = (release_queued storage slot s).1
  run (arm_call slot) s = (arm_attempt storage slot s).1
  run (checkpoint_call slot remaining) s = (checkpoint_remaining storage slot remaining s).1

  -- The identity is the one that the allocation of this call hands out, which has not failed.
  abbrev pub Given : Machine storage → Identity → Type 0
  Given s i =
      let (r, m) =
        EventIdentity.allocate storage.device
          (record { allocator = s.store.allocator; world = s.world }) in
      (is_failure r.status ≡ false) × (r.identity ≡ i)

  first_free-free :
      (slots : List SlotState) (n slot : ℕ)
      → first_free slots n ≡ some slot
      → (j : ℕ) × (slot ≡ n + j) × (is_free (slot_at slots j).value ≡ true)
  unfolding first_free
  first_free-free [] n slot h = absurd (cc (h))
  first_free-free (x ∷ slots) n slot h = elim (Bool-cases (is_free x.value)) [
    | inl e ↦ (0, ground arith, e)
    | inr e ↦
        (let rest : first_free slots (n + 1) ≡ some slot = ground arith in
          let (j, same, free) = first_free-free slots (n + 1) slot rest in
          (suc j, omega (arith, same), free))
  ]

  module _ (s : Machine storage) where
    transition-Moved :
        (slot : ℕ) (to : NodeState)
        → (to ≡ NodeState.failed) ⊎ (to ≡ NodeState.expired)
        → Moved storage
            (Given s)
            (Only ending slot)
            s
            (transition storage slot NodeState.queued to s).1
    unfolding transition
    transition-Moved slot to h =
        guarded-Moved storage (Given s) (Only ending slot) s slot
          (λ r. same_state r.state NodeState.queued)
          (λ r s.
            mutated storage
              (commit_indexed storage slot (record (next_generation r) { state = to }) s))
          λ e.
            mutation-Moved storage (Given s) (Only ending slot) s slot ending _ (refl, refl)
              (ended to e h)

    make_free-Moved :
        (kind : Kind) (slot : ℕ)
        → Moves
            (Given s)
            (slot_at s.store.slots slot).value
            kind
            (free_record (slot_at s.store.slots slot).value)
        → Moved storage
            (Given s)
            (Only kind slot)
            s
            (make_free storage slot (slot_at s.store.slots slot).value s).1
    unfolding make_free
    make_free-Moved kind slot m =
        mutation-Moved storage (Given s) (Only kind slot) s slot kind _ (refl, refl) m

    mark-Moved :
        (d : EventDiagnostic) (slot : ℕ) (to : NodeState)
        → (to ≡ NodeState.failed) ⊎ (to ≡ NodeState.expired)
        → Moved storage
            (Given s)
            (Only ending slot)
            s
            (report_transition storage d (transition storage slot NodeState.queued to s)).1
    mark-Moved d slot to h =
        Moved-same storage (Given s) (Only ending slot) s
          (transition storage slot NodeState.queued to s).1
          (report_transition storage d (transition storage slot NodeState.queued to s)).1
          (report_transition-slots storage d (transition storage slot NodeState.queued to s))
          (transition-Moved slot to h)

    reclaim-Moved :
        (slot : ℕ) → Moved storage (Given s) (Only reclamation slot) s (reclaim storage slot s).1
    unfolding reclaim
    reclaim-Moved slot =
        guarded-Moved storage (Given s) (Only reclamation slot) s slot is_terminal
          (λ r s. report_failure storage (make_free storage slot r s))
          λ e.
            Moved-same storage (Given s) (Only reclamation slot) s
              (make_free storage slot (slot_at s.store.slots slot).value s).1
              (report_failure storage
                (make_free storage slot (slot_at s.store.slots slot).value s)).1
              (report_failure-slots storage
                (make_free storage slot (slot_at s.store.slots slot).value s))
              (make_free-Moved reclamation slot (reclaimed e))

    release_queued-Moved :
        (slot : ℕ) → Moved storage (Given s) (Only release slot) s (release_queued storage slot s).1
    unfolding release_queued
    release_queued-Moved slot =
        guarded-Moved storage (Given s) (Only release slot) s slot is_queued
          (λ r s. report_release storage (make_free storage slot r s))
          λ e.
            Moved-same storage (Given s) (Only release slot) s
              (make_free storage slot (slot_at s.store.slots slot).value s).1
              (report_release storage
                (make_free storage slot (slot_at s.store.slots slot).value s)).1
              (report_release-slots storage
                (make_free storage slot (slot_at s.store.slots slot).value s))
              (make_free-Moved release slot (released e))

    checkpoint_remaining-Moved :
        (slot remaining : ℕ)
        → Moved storage
            (Given s)
            (Only ageing slot)
            s
            (checkpoint_remaining storage slot remaining s).1
    unfolding checkpoint_remaining
    checkpoint_remaining-Moved slot remaining =
        let old = (slot_at s.store.slots slot).value in
        let r = record (next_generation old) { remaining_active_seconds = remaining } in
        guarded-Moved storage (Given s) (Only ageing slot) s slot (can_checkpoint remaining)
          (λ r s. report_failure storage (
            mutated storage (
              commit_mutation storage slot
                (record (next_generation r) { remaining_active_seconds = remaining }) s)))
          λ e.
            Moved-same storage (Given s) (Only ageing slot) s (commit_mutation storage slot r s).1
              (report_failure storage (mutated storage (commit_mutation storage slot r s))).1
              (report_failure-slots storage (mutated storage (commit_mutation storage slot r s))
                ∙ mutated-slots storage (commit_mutation storage slot r s))
              (Moved-write storage (Given s) (Only ageing slot) s slot ageing r
                (commit_mutation storage slot r s).1 (refl, refl)
                (aged remaining (ground arith) (ground arith) (ground arith))
                (commit_mutation-Wrote storage s slot r))

    arm_attempt-Moved :
        (slot : ℕ) → Moved storage (Given s) (Only arming slot) s (arm_attempt storage slot s).1
    unfolding arm_attempt
    arm_attempt-Moved slot =
        let old = (slot_at s.store.slots slot).value in
        let r = armed_record old in
        Moved-if storage (Given s) (Only arming slot) s (not s.store.healthy) _ _ (λ _. inl refl)
          λ _.
            Moved-if storage (Given s) (Only arming slot) s (leb 8 slot) _ _ (λ _. inl refl)
              λ _.
                Moved-if storage (Given s) (Only arming slot) s (not (is_queued old)) _ _
                  (λ _. inl refl)
                  λ q.
                    Moved-if storage (Given s) (Only arming slot) s
                      (leb max_attempts old.attempts_used) _ _ (λ _. inl refl)
                      λ e.
                        Moved-same storage (Given s) (Only arming slot) s
                          (commit_mutation storage slot r s).1
                          (after_attempt storage (commit_mutation storage slot r s)).1
                          (after_attempt-slots storage (commit_mutation storage slot r s))
                          (Moved-write storage (Given s) (Only arming slot) s slot arming r
                            (commit_mutation storage slot r s).1 (refl, refl)
                            (armed (ground arith) (ground arith))
                            (commit_mutation-Wrote storage s slot r))

    enqueue_with-Moved :
        (G : Identity → Type 0) (input : EventInput) (slot : ℕ) (allocation : AllocationResult)
        → is_free (slot_at s.store.slots slot).value ≡ true
        → valid_input input ≡ true
        → (is_failure allocation.status ≡ false → G allocation.identity)
        → Moved storage G Creates s (enqueue_with storage input slot allocation s).1
    unfolding enqueue_with
    enqueue_with-Moved G input slot allocation f v g =
        let i = allocation.identity in
        let old = (slot_at s.store.slots slot).value in
        let r = queued_record input old.generation i in
        Moved-if storage G Creates s (is_failure allocation.status) _ _ (λ _. inl refl)
          λ e.
            Moved-same storage G Creates s (commit_indexed storage slot r s).1
              (after_enqueue storage slot i (commit_indexed storage slot r s)).1
              (after_enqueue-slots storage slot i (commit_indexed storage slot r s))
              (Moved-write storage G Creates s slot creation r (commit_indexed storage slot r s).1
                refl (created input i f v (g e)) (commit_indexed-Wrote storage s slot r))

  enqueue_at-Moved :
      (s : Machine storage) (input : EventInput) (found : Option ℕ)
      → ((slot : ℕ) → found ≡ some slot → is_free (slot_at s.store.slots slot).value ≡ true)
      → valid_input input ≡ true
      → Moved storage (Given s) Creates s (enqueue_at storage input found s).1
  unfolding enqueue_at
  enqueue_at-Moved s input none h v = inl refl
  enqueue_at-Moved s input (some slot) h v =
      let (allocation, m) =
        EventIdentity.allocate storage.device
          (record { allocator = s.store.allocator; world = s.world }) in
      enqueue_with-Moved
        (record { store = record s.store { allocator = m.allocator }; world = m.world }) (Given s)
        input slot allocation (h slot refl) v (λ e. (e, refl))

  enqueue-Moved :
      (s : Machine storage) (input : EventInput)
      → Moved storage (Given s) Creates s (enqueue storage input s).1
  unfolding enqueue
  enqueue-Moved s input =
      Moved-if storage (Given s) Creates s (not s.store.healthy) _ _ (λ _. inl refl)
        λ _.
          Moved-if storage (Given s) Creates s (not (valid_input input)) _ _ (λ _. inl refl)
            λ e.
              enqueue_at-Moved s input (first_free s.store.slots 0)
                (λ slot h.
                  let (j, same, free) = first_free-free s.store.slots 0 slot h in
                  subst (λ k. is_free (slot_at s.store.slots k).value ≡ true) (omega (arith, same))
                    free)
                (ground arith)

  -- Whatever the storage answers, a call of a public method that changes the store, other than recover,
  -- leaves all slots as they are or moves exactly one, by the method's own kind of move and at the slot that it is
  -- given: created in a free slot from a valid input, with the identity that the allocation of this
  -- call has handed out; aged to less time but not to none; armed while fewer than five attempts are
  -- used; ended as failed or expired; and freed when it has ended or is released.
  pub run-HasMoved :
      (call : Call) (s : Machine storage)
      → HasMoved (Given s) (Makes call) s.store.slots (run call s).store.slots
  unfolding mark_failed mark_expired run
  run-HasMoved (enqueue_call input) s = enqueue-Moved s input
  run-HasMoved (mark_failed_call slot) s =
      mark-Moved s EventDiagnostic.attempt_exhausted slot NodeState.failed (inl refl)
  run-HasMoved (mark_expired_call slot) s =
      mark-Moved s EventDiagnostic.event_expired slot NodeState.expired (inr refl)
  run-HasMoved (reclaim_call slot) s = reclaim-Moved s slot
  run-HasMoved (release_call slot) s = release_queued-Moved s slot
  run-HasMoved (arm_call slot) s = arm_attempt-Moved s slot
  run-HasMoved (checkpoint_call slot remaining) s = checkpoint_remaining-Moved s slot remaining
