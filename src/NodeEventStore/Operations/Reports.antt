-- ===== src/NodeEventStore/Operations/Reports.antt =====
-- What the methods of lib/node_event_store/src/node_event_store.h report after a commit leaves the slots
-- alone.
use argus_redline.Base.{ℕ, ◌≡◌, refl, Option, none, some}
use argus_redline.EventProtocol.{Identity}
use argus_redline.RuntimeState.{EventDiagnostic}
use argus_redline.NodeEventStore.Interface.{Storage}
use argus_redline.NodeEventStore.{MutationStatus}
use argus_redline.NodeEventStore.Commits.{Machine}
use argus_redline.NodeEventStore.Operations.{
  after_enqueue, mutated, report_transition, report_failure, report_release, after_attempt,
}

module _ (storage : Storage) where
  pub mutated-slots :
      (q : Option (Unit {0}) × Machine storage)
      → (mutated storage q).1.store.slots ≡ q.1.store.slots
  mutated-slots (some u, t) = refl
  mutated-slots (none, t) = refl

  pub report_failure-slots :
      (q : MutationStatus × Machine storage)
      → (report_failure storage q).1.store.slots ≡ q.1.store.slots
  unfolding report_failure
  report_failure-slots (MutationStatus.ok, t) = refl
  report_failure-slots (MutationStatus.storage_failure, t) = refl
  report_failure-slots (MutationStatus.invalid_slot, t) = refl
  report_failure-slots (MutationStatus.invalid_transition, t) = refl
  report_failure-slots (MutationStatus.degraded, t) = refl

  pub report_release-slots :
      (q : MutationStatus × Machine storage)
      → (report_release storage q).1.store.slots ≡ q.1.store.slots
  unfolding report_release
  report_release-slots (MutationStatus.ok, t) = refl
  report_release-slots (MutationStatus.storage_failure, t) = refl
  report_release-slots (MutationStatus.invalid_slot, t) = refl
  report_release-slots (MutationStatus.invalid_transition, t) = refl
  report_release-slots (MutationStatus.degraded, t) = refl

  pub report_transition-slots :
      (d : EventDiagnostic) (q : MutationStatus × Machine storage)
      → (report_transition storage d q).1.store.slots ≡ q.1.store.slots
  unfolding report_transition
  report_transition-slots d (MutationStatus.ok, t) = refl
  report_transition-slots d (MutationStatus.storage_failure, t) = refl
  report_transition-slots d (MutationStatus.invalid_slot, t) = refl
  report_transition-slots d (MutationStatus.invalid_transition, t) = refl
  report_transition-slots d (MutationStatus.degraded, t) = refl

  pub after_attempt-slots :
      (q : Option (Unit {0}) × Machine storage)
      → (after_attempt storage q).1.store.slots ≡ q.1.store.slots
  unfolding after_attempt
  after_attempt-slots (some u, t) = refl
  after_attempt-slots (none, t) = refl

  pub after_enqueue-slots :
      (slot : ℕ) (i : Identity) (q : Option (Unit {0}) × Machine storage)
      → (after_enqueue storage slot i q).1.store.slots ≡ q.1.store.slots
  unfolding after_enqueue
  after_enqueue-slots slot i (some u, t) = refl
  after_enqueue-slots slot i (none, t) = refl
