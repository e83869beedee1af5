-- ===== src/NodeEventStore/Operations.antt =====
-- The public methods of lib/node_event_store/src/node_event_store.h that change the store, but for
-- `recover`.
pub mod Reports
pub mod Life
pub mod Transitions
pub mod Bounds
pub mod Routes
use argus_redline.Base.{
  ℕ, ◌+◌, Bool, false, not, ◌&&◌, ◌||◌, Option, none, some, ltb, leb, ◌==◌, if◌then◌else◌,
  replicate, copy, length,
}
use argus_redline.Base.Words.{u8, u32}
use argus_redline.Base.Methods.{Method, ◌>>◌}
use argus_redline.EventProtocol.{Identity}
use argus_redline.EventIdentity
use argus_redline.EventIdentity.{AllocationResult, no_identity, is_failure}
use argus_redline.EventRecords.NodeRecord.{NodeRecord, NodeState, same_state, max_attempts}
use argus_redline.RuntimeState.{
  EventDiagnostic, EventSnapshot, enqueue_accepted, queue_full_rejected, event_attempt,
  event_expired, attempt_exhausted, report, increment_event_diagnostic, set_event_queue,
  persistence_failed,
}
use argus_redline.NodeEventStore.Interface.{Storage}
use argus_redline.NodeEventStore.{
  EnqueueStatus, MutationStatus, AttemptStatus, Status, EventInput, EnqueueResult, Store,
  node_event_capacity, zero_record, slot_at, is_queued, valid_input, first_free,
}
use argus_redline.NodeEventStore.Commits.{Machine, change, commit_mutation, rebuild_index}

abbrev pub set_report : (EventSnapshot → EventSnapshot) → Store → Store
set_report f s = record s { diagnostics = report f s.diagnostics }

abbrev pub note : EventDiagnostic → Store → Store
note d s = set_report (increment_event_diagnostic d 1) s

abbrev pub note_persistence_failure : Store → Store
note_persistence_failure s = set_report persistence_failed s

abbrev pub update_queue_snapshot : Store → Store
update_queue_snapshot s = set_report (set_event_queue (u8 (length s.queue)) node_event_capacity) s

abbrev pub next_generation : NodeRecord → NodeRecord
next_generation r = record r { generation = u32 (r.generation + 1) }

-- The record of a new Event in a slot that was free.
abbrev pub queued_record : EventInput → ℕ → Identity → NodeRecord
queued_record input generation i = record {
  generation = u32 (generation + 1);
  state = NodeState.queued;
  flags = input.flags;
  family = input.family;
  body_length = input.body_length;
  event_epoch = i.epoch;
  event_id = i.id;
  lifetime_budget_seconds = input.lifetime_budget_seconds;
  remaining_active_seconds = input.lifetime_budget_seconds;
  attempts_used = 0;
  body = copy input.body_length (replicate 12 0) input.body;
}

-- The record of a slot that becomes free.
abbrev pub free_record : NodeRecord → NodeRecord
free_record r = record zero_record { generation = u32 (r.generation + 1) }

abbrev pub is_terminal : NodeRecord → Bool
is_terminal r = same_state r.state NodeState.failed || same_state r.state NodeState.expired

abbrev pub can_checkpoint : ℕ → NodeRecord → Bool
can_checkpoint remaining r =
    is_queued r && (not (remaining == 0) && ltb remaining r.remaining_active_seconds)

abbrev pub armed_record : NodeRecord → NodeRecord
armed_record r = record (next_generation r) { attempts_used = u8 (r.attempts_used + 1) }

abbrev refused : EnqueueStatus → EnqueueResult
refused status = record { status = status; identity = no_identity; slot = none }

module _ (storage : Storage) where
  -- A commit, and the index after it.
  pub commit_indexed : ℕ → NodeRecord → Method (Machine storage) (Unit {0})
  commit_indexed slot r = do commit_mutation storage slot r; rebuild_index storage

  pub after_enqueue :
      ℕ → Identity → Option (Unit {0}) × Machine storage → EnqueueResult × Machine storage
  after_enqueue slot i (some u, s) = (
    record { status = EnqueueStatus.enqueued; identity = i; slot = some slot },
    change storage (λ t. update_queue_snapshot (note enqueue_accepted t)) s,
  )
  after_enqueue slot i (none, s) =
      (refused EnqueueStatus.storage_failure, change storage note_persistence_failure s)

  -- An identity could not be allocated.
  abbrev identity_failed : EventIdentity.Status → Store → Store
  identity_failed status s =
      note_persistence_failure
        (record s { identity_status = status; healthy = false; status = Status.identity_failure })

  pub enqueue_with :
      EventInput → ℕ → AllocationResult → Machine storage → EnqueueResult × Machine storage
  unfolding commit_indexed after_enqueue
  enqueue_with input slot allocation s =
      if is_failure allocation.status
      then (
        refused EnqueueStatus.identity_failure,
        change storage (identity_failed allocation.status) s,
      )
      else (let r =
            queued_record input (slot_at s.store.slots slot).value.generation allocation.identity in
          after_enqueue slot allocation.identity (commit_indexed slot r s))

  pub enqueue_at : EventInput → Option ℕ → Machine storage → EnqueueResult × Machine storage
  unfolding enqueue_with
  enqueue_at input none s =
      (refused EnqueueStatus.queue_full, change storage (note queue_full_rejected) s)
  enqueue_at input (some slot) s =
      let (allocation, m) =
        EventIdentity.allocate storage.device
          (record { allocator = s.store.allocator; world = s.world }) in
      enqueue_with input slot allocation
        (record { store = record s.store { allocator = m.allocator }; world = m.world })

  pub enqueue : EventInput → Machine storage → EnqueueResult × Machine storage
  unfolding enqueue_at
  enqueue input s =
      if not s.store.healthy
      then (refused EnqueueStatus.degraded, s)
      else if not (valid_input input)
      then (refused EnqueueStatus.invalid_event, s)
      else enqueue_at input (first_free s.store.slots 0) s

  abbrev pub mutated : Option (Unit {0}) × Machine storage → MutationStatus × Machine storage
  mutated (some u, s) = (MutationStatus.ok, s)
  mutated (none, s) = (MutationStatus.storage_failure, s)

  -- The tests that the mutations share, before the one on the slot's record.
  pub guarded :
      ℕ
      → (NodeRecord → Bool)
      → (NodeRecord → Machine storage → MutationStatus × Machine storage)
      → Machine storage
      → MutationStatus × Machine storage
  guarded slot test body s =
      if not s.store.healthy
      then (MutationStatus.degraded, s)
      else if leb node_event_capacity slot
      then (MutationStatus.invalid_slot, s)
      else (let r = (slot_at s.store.slots slot).value in
          if not (test r) then (MutationStatus.invalid_transition, s) else body r s)

  pub transition : ℕ → NodeState → NodeState → Machine storage → MutationStatus × Machine storage
  unfolding guarded commit_indexed
  transition slot from to =
      guarded slot (λ r. same_state r.state from)
        (λ r s. mutated (commit_indexed slot (record (next_generation r) { state = to }) s))

  pub make_free : ℕ → NodeRecord → Machine storage → MutationStatus × Machine storage
  unfolding commit_indexed
  make_free slot r s = mutated (commit_indexed slot (free_record r) s)

  -- What `markFailed` and `markExpired` report of their transition.
  pub report_transition :
      EventDiagnostic → MutationStatus × Machine storage → MutationStatus × Machine storage
  report_transition d (MutationStatus.ok, s) =
      (MutationStatus.ok, change storage (λ t. update_queue_snapshot (note d t)) s)
  report_transition d (MutationStatus.storage_failure, s) =
      (MutationStatus.storage_failure, change storage note_persistence_failure s)
  report_transition d (MutationStatus.invalid_slot, s) = (MutationStatus.invalid_slot, s)
  report_transition d (MutationStatus.invalid_transition, s) =
      (MutationStatus.invalid_transition, s)
  report_transition d (MutationStatus.degraded, s) = (MutationStatus.degraded, s)

  pub mark_failed : ℕ → Machine storage → MutationStatus × Machine storage
  unfolding transition report_transition
  mark_failed slot s =
      report_transition attempt_exhausted (transition slot NodeState.queued NodeState.failed s)

  pub mark_expired : ℕ → Machine storage → MutationStatus × Machine storage
  unfolding transition report_transition
  mark_expired slot s =
      report_transition event_expired (transition slot NodeState.queued NodeState.expired s)

  pub report_failure : MutationStatus × Machine storage → MutationStatus × Machine storage
  report_failure (MutationStatus.storage_failure, s) =
      (MutationStatus.storage_failure, change storage note_persistence_failure s)
  report_failure (MutationStatus.ok, s) = (MutationStatus.ok, s)
  report_failure (MutationStatus.invalid_slot, s) = (MutationStatus.invalid_slot, s)
  report_failure (MutationStatus.invalid_transition, s) = (MutationStatus.invalid_transition, s)
  report_failure (MutationStatus.degraded, s) = (MutationStatus.degraded, s)

  pub reclaim : ℕ → Machine storage → MutationStatus × Machine storage
  unfolding guarded make_free report_failure
  reclaim slot = guarded slot is_terminal (λ r s. report_failure (make_free slot r s))

  pub report_release : MutationStatus × Machine storage → MutationStatus × Machine storage
  unfolding report_failure
  report_release (MutationStatus.ok, s) =
      (MutationStatus.ok, change storage update_queue_snapshot s)
  report_release (status, s) = report_failure (status, s)

  pub release_queued : ℕ → Machine storage → MutationStatus × Machine storage
  unfolding guarded make_free report_release
  release_queued slot = guarded slot is_queued (λ r s. report_release (make_free slot r s))

  pub checkpoint_remaining : ℕ → ℕ → Machine storage → MutationStatus × Machine storage
  unfolding guarded report_failure
  checkpoint_remaining slot remaining = guarded slot (can_checkpoint remaining) (λ r s.
      report_failure (
        mutated (
          commit_mutation storage slot
            (record (next_generation r) { remaining_active_seconds = remaining }) s)))

  pub after_attempt : Option (Unit {0}) × Machine storage → AttemptStatus × Machine storage
  after_attempt (some u, s) = (AttemptStatus.armed, change storage (note event_attempt) s)
  after_attempt (none, s) =
      (AttemptStatus.storage_failure, change storage note_persistence_failure s)

  pub arm_attempt : ℕ → Machine storage → AttemptStatus × Machine storage
  unfolding after_attempt
  arm_attempt slot s =
      if not s.store.healthy
      then (AttemptStatus.degraded, s)
      else if leb node_event_capacity slot
      then (AttemptStatus.invalid_slot, s)
      else (let r = (slot_at s.store.slots slot).value in
          if not (is_queued r)
          then (AttemptStatus.not_queued, s)
          else if leb max_attempts r.attempts_used
          then (AttemptStatus.exhausted, s)
          else after_attempt (commit_mutation storage slot (armed_record r) s))
