-- ===== src/HubEventLedger/Recovery.antt =====
-- `recover` of lib/hub_event_ledger/src/hub_event_ledger.h, with what it calls.
use argus_redline.Base.{
  ℕ, zero, suc, ◌+◌, Bool, true, false, not, ◌&&◌, ◌||◌, Option, none, some, List, [], ◌∷◌, ◌==◌,
  if◌then◌else◌,
}
use argus_redline.Base.Methods.{Method, ◌>>=◌, ◌>>◌, return, stop, modify}
use argus_redline.EventRecords.HubRecord.{HubRecord}
use argus_redline.EventRecords.HubMetadata.{HubMetadata}
use argus_redline.EventStore.{
  CopySlot, a, b, FixedCopy, FixedReadStatus, Selection, both_invalid, equal_disagreement,
  generation_ambiguous, select_copies,
}
use argus_redline.RuntimeState.{Diagnostics}
use argus_redline.HubEventLedger.Interface.{Storage}
use argus_redline.HubEventLedger.{
  ready, record_conflict, generation_is_ambiguous, indeterminate_slot, invalid_configuration,
  ordinal_unavailable, SlotState, Ledger, zero_record, zero_metadata, reset, valid_high_water,
  validate_slots,
}
use argus_redline.HubEventLedger.Commits.{
  Medium, Machine, change, record_format, metadata_format, record_medium, metadata_medium,
  read_either, put_record, commit_record_to, commit_metadata, fail_ledger, set_status,
}

abbrev is_missing : FixedCopy → Bool
is_missing copy = elim copy.status [
  | FixedReadStatus.missing ↦ true
  | FixedReadStatus.ok ↦ false
  | FixedReadStatus.unavailable ↦ false
]

abbrev pub fresh_metadata : HubMetadata
fresh_metadata = record { generation = 1; next_unreserved_admission_ordinal = 1 }

abbrev pub fresh_record : HubRecord
fresh_record = record zero_record { generation = 1 }

-- A block that is used up, so that the first admission reserves one.
abbrev pub take_metadata : HubMetadata → CopySlot → Ledger → Ledger
take_metadata m copy s = record s {
  metadata = m;
  metadata_copy = copy;
  has_metadata = true;
  next_volatile_ordinal = m.next_unreserved_admission_ordinal;
  volatile_end_exclusive = m.next_unreserved_admission_ordinal;
  ordinal_ready = true;
  status = ready;
}

-- `recoverMetadata`, from the selection.
pub recover_metadata : Selection HubMetadata → Ledger → Ledger
recover_metadata selection s = elim selection.result [
  | equal_disagreement ↦ set_status record_conflict s
  | generation_ambiguous ↦ set_status generation_is_ambiguous s
  | both_invalid ↦ set_status ordinal_unavailable s
  | _ ↦
      if not (valid_high_water selection.selected.next_unreserved_admission_ordinal)
      then set_status ordinal_unavailable s
      else take_metadata selection.selected selection.slot s
]

pub all_present : List SlotState → Bool
all_present [] = true
all_present (s ∷ slots) = s.present && all_present slots

abbrev become_healthy : Ledger → Ledger
become_healthy s = record s {
  ledger_healthy = true;
  status = if s.ordinal_ready then ready else s.status;
}

module _ (storage : Storage) where
  open storage use {World}

  -- The selection of one slot is accepted, or the ledger fails.
  pub accept_slot : ℕ → Selection HubRecord → Method (Machine storage) (Unit {0})
  accept_slot slot selection = elim selection.result [
    | equal_disagreement ↦ stop (change storage (fail_ledger record_conflict))
    | generation_ambiguous ↦ stop (change storage (fail_ledger generation_is_ambiguous))
    | both_invalid ↦ return tt
    | _ ↦ modify (change storage (put_record slot selection.selected selection.slot))
  ]

  -- The loop over the slots that are left, from the given one, with `allSlotCopiesMissing`.
  pub recover_slots : ℕ → ℕ → Bool → Method (Machine storage) Bool
  unfolding accept_slot
  recover_slots zero slot all_missing = return all_missing
  recover_slots (suc n) slot all_missing = do
    copy_a ← read_either storage (record_medium storage slot) a
    copy_b ← read_either storage (record_medium storage slot) b
    accept_slot slot (select_copies record_format copy_a copy_b zero_record a)
    recover_slots n (slot + 1) (all_missing && (is_missing copy_a && is_missing copy_b))

  pub validate_recovered_slots : Method (Machine storage) (Unit {0})
  validate_recovered_slots s = elim (validate_slots s.ledger.slots []) [
    | none ↦ (some tt, s)
    | some e ↦ (none, change storage (fail_ledger e) s)
  ]

  -- `commitInitialRecord`
  pub commit_initial_record : ℕ → HubRecord → Method (Machine storage) (Unit {0})
  commit_initial_record slot next = do
    modify (change storage (put_record slot next b))
    commit_record_to storage slot next a

  pub initialize_slots : ℕ → ℕ → Method (Machine storage) (Unit {0})
  unfolding commit_initial_record
  initialize_slots zero slot = return tt
  initialize_slots (suc n) slot = do
    commit_initial_record slot fresh_record
    initialize_slots n (slot + 1)

  pub initialize_fresh : Method (Machine storage) (Unit {0})
  unfolding initialize_slots
  initialize_fresh = do commit_metadata storage fresh_metadata a; initialize_slots 8 0

  -- While `recover` runs, a copy of the metadata that cannot be read only sets the status.
  abbrev metadata_reader : Medium World HubMetadata
  metadata_reader = record (metadata_medium storage) { no_copy = set_status ordinal_unavailable }

  pub read_both : Method (Machine storage) (FixedCopy × FixedCopy)
  read_both = do
    copy_a ← read_either storage metadata_reader a
    copy_b ← read_either storage metadata_reader b
    return (copy_a, copy_b)

  -- The metadata cannot be read: what the slots hold is served without it.
  without_metadata : Bool → Machine storage → Machine storage
  unfolding validate_recovered_slots
  without_metadata all_missing s =
      if all_missing
      then s
      else ((validate_recovered_slots
            >> modify (
                change storage
                  (λ l. record l { ledger_healthy = true; status = ordinal_unavailable })))
          s).1

  abbrev become_ready : Method (Machine storage) (Unit {0})
  become_ready = modify (change storage become_healthy)

  with_metadata : Bool → FixedCopy × FixedCopy → Method (Machine storage) (Unit {0})
  unfolding initialize_fresh validate_recovered_slots
  with_metadata all_missing (copy_a, copy_b) s =
      if all_missing && (is_missing copy_a && is_missing copy_b)
      then (initialize_fresh >> become_ready) s
      else if not (all_present s.ledger.slots)
      then stop (change storage (fail_ledger indeterminate_slot)) s
      else (do
        validate_recovered_slots
        modify (
            change storage
              (recover_metadata (select_copies metadata_format copy_a copy_b zero_metadata a)))
        become_ready)
          s

  after_metadata : Bool → Option (FixedCopy × FixedCopy) × Machine storage → Machine storage
  unfolding without_metadata with_metadata
  after_metadata all_missing (none, s) = without_metadata all_missing s
  after_metadata all_missing (some copies, s) = (with_metadata all_missing copies s).1

  after_slots : Option Bool × Machine storage → Machine storage
  unfolding after_metadata read_both
  after_slots (none, s) = s
  after_slots (some all_missing, s) = after_metadata all_missing (read_both s)

  -- The status that `recover` returns is the one of the ledger afterwards.
  pub recover : ℕ → ℕ → Diagnostics → World → Machine storage
  unfolding recover_slots after_slots
  recover hub node diagnostics world =
      let s : Machine storage = record {
        ledger = record (reset diagnostics) { hub_device_id = hub; node_device_id = node };
        world = world;
      } in
      if (hub == 0) || ((node == 0) || (hub == node))
      then change storage (fail_ledger invalid_configuration) s
      else after_slots (recover_slots 8 0 true s)
