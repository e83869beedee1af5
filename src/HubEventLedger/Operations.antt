-- ===== src/HubEventLedger/Operations.antt =====
-- `admit` and `consume` of lib/hub_event_ledger/src/hub_event_ledger.h, with what they call.
pub mod Ordinals
pub mod Admission
pub mod Reports
pub mod Refinement
pub mod Consumption
use argus_redline.Base.{
  ℕ, ◌+◌, ◌-◌, Bool, true, false, not, Option, none, some, List, ltb, ◌==◌, if◌then◌else◌,
  replicate, copy, get_elem?,
}
use argus_redline.Base.Words.{u8, u32}
use argus_redline.Base.Methods.{Method, ◌>>=◌, ◌>>◌, return, stop, modify}
use argus_redline.EventProtocol.{Event, Identity}
use argus_redline.EventRecords.HubRecord.{HubRecord, HubState, same_state}
use argus_redline.EventRecords.HubMetadata.{HubMetadata}
use argus_redline.EventStore.{CopySlot, b, opposite}
use argus_redline.RuntimeState.{
  EventDiagnostic, EventSnapshot, duplicate_retransmission, identity_content_mismatch,
  successful_admission, host_consumption, report, increment_event_diagnostic,
  set_active_event_count, persistence_failed,
}
use argus_redline.HubEventLedger.Interface.{Storage}
use argus_redline.HubEventLedger.{
  AdmissionStatus, durable_new_admission, exact_duplicate, AdmissionResult, ConsumeStatus,
  ConsumeResult, ordinal_exhausted, ordinal_reservation_block_size, uint32_max, SlotState, Ledger,
  same_canonical, event_identity, validate_admission, find_from, first_empty, oldest_reclaimable,
  count_state,
}
use argus_redline.HubEventLedger.Commits.{
  Machine, change, commit_record_to, commit_metadata, fail_ordinal,
}

abbrev pub set_report : (EventSnapshot → EventSnapshot) → Ledger → Ledger
set_report f s = record s { diagnostics = report f s.diagnostics }

abbrev pub note : EventDiagnostic → Ledger → Ledger
note d s = set_report (increment_event_diagnostic d 1) s

abbrev pub note_persistence_failure : Ledger → Ledger
note_persistence_failure s = set_report persistence_failed s

abbrev pub update_active_snapshot : Ledger → Ledger
update_active_snapshot s =
    set_report (set_active_event_count (u8 (count_state HubState.active s))) s

abbrev copy_at_slot : Option SlotState → CopySlot
copy_at_slot none = b
copy_at_slot (some s) = s.active_copy

abbrev pub active_copy : ℕ → Ledger → CopySlot
active_copy slot s = copy_at_slot (get_elem? s.slots slot)

abbrev generation_at_slot : Option SlotState → ℕ
generation_at_slot none = 0
generation_at_slot (some s) = s.value.generation

abbrev pub generation_at : ℕ → Ledger → ℕ
generation_at slot s = generation_at_slot (get_elem? s.slots slot)

-- The record of a new admission.
abbrev pub admitted_record : Event → ℕ → ℕ → HubRecord
admitted_record e generation ordinal = record {
  generation = u32 (generation + 1);
  state = HubState.active;
  source_device_id = e.source;
  family = e.family;
  flags = e.flags;
  body_length = e.body_length;
  event_epoch = e.epoch;
  event_id = e.id;
  lifetime_budget_seconds = e.lifetime_budget_seconds;
  admission_ordinal = ordinal;
  body = copy e.body_length (replicate 12 0) e.body;
}

abbrev pub consumed_record : HubRecord → HubRecord
consumed_record r = record r { generation = u32 (r.generation + 1); state = HubState.consumed }

abbrev pub next_metadata : HubMetadata → HubMetadata
next_metadata m = record m {
  generation = u32 (m.generation + 1);
  next_unreserved_admission_ordinal =
      u32 (m.next_unreserved_admission_ordinal + ordinal_reservation_block_size);
}

abbrev pub set_block : ℕ → Ledger → Ledger
set_block start s = record s {
  next_volatile_ordinal = start;
  volatile_end_exclusive = u32 (start + ordinal_reservation_block_size);
}

abbrev pub admission : AdmissionStatus → Option ℕ → ℕ → AdmissionResult
admission status slot ordinal = record { status = status; slot = slot; admission_ordinal = ordinal }

abbrev pub is_new : AdmissionStatus → Bool
is_new durable_new_admission = true
is_new _ = false

module _ (storage : Storage) where
  pub commit_record : ℕ → HubRecord → Method (Machine storage) (Unit {0})
  commit_record slot next s =
      commit_record_to storage slot next (opposite (active_copy slot s.ledger)) s

  pub reserve : Method (Machine storage) (Unit {0})
  reserve s =
      let m = s.ledger.metadata in
      if ltb (uint32_max - ordinal_reservation_block_size) m.next_unreserved_admission_ordinal
      then stop (change storage (fail_ordinal ordinal_exhausted)) s
      else (commit_metadata storage (next_metadata m) (opposite s.ledger.metadata_copy)
            >> modify (change storage (set_block m.next_unreserved_admission_ordinal)))
          s

  -- `nextVolatileOrdinal_++`
  pub take_ordinal : Method (Machine storage) ℕ
  take_ordinal s = (
    some s.ledger.next_volatile_ordinal,
    change storage (λ l. record l { next_volatile_ordinal = u32 (l.next_volatile_ordinal + 1) }) s,
  )

  pub allocate_ordinal : Method (Machine storage) ℕ
  unfolding reserve take_ordinal
  allocate_ordinal s =
      if not s.ledger.ordinal_ready
      then (none, s)
      else if s.ledger.next_volatile_ordinal == s.ledger.volatile_end_exclusive
      then (reserve >> take_ordinal) s
      else take_ordinal s

  -- The ordinal and the commit of a new admission.
  pub store_new : Event → ℕ → Method (Machine storage) ℕ
  unfolding allocate_ordinal commit_record
  store_new e target = do
    ordinal ← allocate_ordinal
    λ s.
        (commit_record target (admitted_record e (generation_at target s.ledger) ordinal)
            >> return ordinal)
          s

  after_store : ℕ → Option ℕ × Machine storage → AdmissionResult × Machine storage
  after_store target (none, s) =
      (admission AdmissionStatus.storage_failure none 0, change storage note_persistence_failure s)
  after_store target (some ordinal, s) = (
    admission durable_new_admission (some target) ordinal,
    change storage (λ l. update_active_snapshot (note successful_admission l)) s,
  )

  admit_to : Option ℕ → Event → Machine storage → AdmissionResult × Machine storage
  unfolding store_new after_store
  admit_to none e s = (admission AdmissionStatus.capacity none 0, s)
  admit_to (some target) e s =
      if not s.ledger.ordinal_ready
      then after_store target (none, s)
      else after_store target (store_new e target s)

  abbrev first_slot : Option (ℕ × HubRecord) → Option ℕ
  first_slot none = none
  first_slot (some (slot, r)) = some slot

  pub target_slot : Event → List SlotState → Option ℕ
  target_slot e slots = elim (first_empty slots 0) [
    | some slot ↦ some slot
    | none ↦ first_slot (oldest_reclaimable e slots)
  ]

  admit_known : Option (ℕ × HubRecord) → Event → Machine storage → AdmissionResult × Machine storage
  unfolding admit_to target_slot
  admit_known none e s = admit_to (target_slot e s.ledger.slots) e s
  admit_known (some (slot, r)) e s =
      if same_canonical r e
      then (
        admission exact_duplicate (some slot) r.admission_ordinal,
        change storage (note duplicate_retransmission) s,
      )
      else (
        admission AdmissionStatus.identity_content_mismatch (some slot) r.admission_ordinal,
        change storage (note identity_content_mismatch) s,
      )

  pub admit : Event → Machine storage → AdmissionResult × Machine storage
  unfolding admit_known
  admit e s =
      if not s.ledger.ledger_healthy
      then (admission AdmissionStatus.degraded none 0, s)
      else if not (is_new (validate_admission e s.ledger))
      then (admission (validate_admission e s.ledger) none 0, s)
      else admit_known (find_from (event_identity e) s.ledger.slots 0) e s

  abbrev consumption : ConsumeStatus → Option ℕ → ConsumeResult
  consumption status slot = record { status = status; slot = slot }

  after_consume : ℕ → Option (Unit {0}) × Machine storage → ConsumeResult × Machine storage
  after_consume slot (some u, s) = (
    consumption ConsumeStatus.consumed (some slot),
    change storage (λ l. update_active_snapshot (note host_consumption l)) s,
  )
  after_consume slot (none, s) = (
    consumption ConsumeStatus.storage_failure (some slot),
    change storage note_persistence_failure s,
  )

  consume_found : Option (ℕ × HubRecord) → Machine storage → ConsumeResult × Machine storage
  unfolding commit_record after_consume
  consume_found none s = (consumption ConsumeStatus.not_found none, s)
  consume_found (some (slot, r)) s =
      if same_state r.state HubState.consumed
      then (consumption ConsumeStatus.already_consumed (some slot), s)
      else after_consume slot (commit_record slot (consumed_record r) s)

  pub consume : Identity → Machine storage → ConsumeResult × Machine storage
  unfolding consume_found
  consume i s =
      if not s.ledger.ledger_healthy
      then (consumption ConsumeStatus.degraded none, s)
      else consume_found (find_from i s.ledger.slots 0) s
