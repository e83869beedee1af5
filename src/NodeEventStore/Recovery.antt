-- ===== src/NodeEventStore/Recovery.antt =====
-- `recover` of lib/node_event_store/src/node_event_store.h.
use argus_redline.Base.{
  ℕ, zero, suc, ◌+◌, [], ◌∷◌, Bool, true, false, not, ◌&&◌, ◌||◌, List, ◌==◌, if◌then◌else◌, length,
}
use argus_redline.Base.Words.{u8, u32}
use argus_redline.Base.Methods.{Method, ◌>>=◌, ◌>>◌, return, stop, modify}
use argus_redline.EventIdentity
use argus_redline.EventIdentity.{CustodyState, status_of, is_failure}
use argus_redline.EventRecords.NodeRecord.{NodeRecord}
use argus_redline.EventStore.{
  a, b, FixedCopy, FixedReadStatus, Selection, both_invalid, equal_disagreement,
  generation_ambiguous, select_copies,
}
use argus_redline.RuntimeState.{
  Diagnostics, event_recovered, increment_event_diagnostic, set_event_queue,
}
use argus_redline.NodeEventStore.Interface.{Storage}
use argus_redline.NodeEventStore.{
  ready, record_conflict, generation_is_ambiguous, invalid_source_device_id, indeterminate_slot,
  identity_failure, SlotState, Store, node_event_capacity, zero_record, reset, is_free,
}
use argus_redline.NodeEventStore.Commits.{
  Machine, change, fail, failed, record_format, put_record, read_record_copy, commit_initial_free,
  rebuild_index,
}
use argus_redline.NodeEventStore.Operations.{set_report}

abbrev is_missing : FixedCopy → Bool
is_missing copy = elim copy.status [
  | FixedReadStatus.missing ↦ true
  | FixedReadStatus.ok ↦ false
  | FixedReadStatus.unavailable ↦ false
]

pub all_present : List SlotState → Bool
all_present [] = true
all_present (s ∷ slots) = s.present && all_present slots

-- What the loop over the slots has found: `allCopiesMissing` and `anyNonempty`.
pub record Found : Type 0 where
  pub all_missing : Bool
  pub any_nonempty : Bool

abbrev initial_free : NodeRecord
initial_free = record zero_record { generation = 1 }

-- The end of `recover`.
abbrev pub become_ready : Store → Store
become_ready s = set_report (set_event_queue (u8 (length s.queue)) node_event_capacity) (
    set_report (increment_event_diagnostic event_recovered (u32 (length s.queue)))
      (record s { healthy = true; status = ready }))

module _ (storage : Storage) where
  open storage use {device}

  -- The selection of one slot is accepted, or the store fails; the result says whether the slot holds an
  -- Event.
  accept_slot : ℕ → Selection NodeRecord → Method (Machine storage) Bool
  accept_slot slot selection = elim selection.result [
    | equal_disagreement ↦ fail storage record_conflict
    | generation_ambiguous ↦ fail storage generation_is_ambiguous
    | both_invalid ↦ return false
    | _ ↦ do
      modify (change storage (put_record slot selection.selected selection.slot))
      return (not (is_free selection.selected))
  ]

  -- The loop over the slots that are left, from the given one.
  pub recover_slots : ℕ → ℕ → Found → Method (Machine storage) Found
  unfolding accept_slot
  recover_slots zero slot found = return found
  recover_slots (suc n) slot found = do
    copy_a ← read_record_copy storage slot a
    copy_b ← read_record_copy storage slot b
    nonempty ← accept_slot slot (select_copies record_format copy_a copy_b zero_record a)
    recover_slots n (slot + 1) (record {
      all_missing = found.all_missing && (is_missing copy_a && is_missing copy_b);
      any_nonempty = found.any_nonempty || nonempty;
    })

  pub initialize_slots : ℕ → ℕ → Method (Machine storage) (Unit {0})
  initialize_slots zero slot = return tt
  initialize_slots (suc n) slot = do
    commit_initial_free storage slot initial_free
    initialize_slots n (slot + 1)

  -- All slots are written for the first time, or all of them must be present.
  settle_slots : Bool → Method (Machine storage) (Unit {0})
  unfolding initialize_slots
  settle_slots all_missing s =
      if all_missing
      then initialize_slots 8 0 s
      else if all_present s.store.slots
      then return tt s
      else fail storage indeterminate_slot s

  abbrev custody_of : Bool → CustodyState
  custody_of true = CustodyState.nonempty
  custody_of false = CustodyState.empty

  after_identity : EventIdentity.Status → Method (Machine storage) (Unit {0})
  after_identity status =
      if is_failure status
      then stop
          (change storage (λ s. failed identity_failure (record s { identity_status = status })))
      else return tt

  pub recover_identity : ℕ → Bool → Method (Machine storage) (Unit {0})
  unfolding after_identity
  recover_identity source any_nonempty s =
      let (r, m) = EventIdentity.recover device source (custody_of any_nonempty) s.world in
      after_identity (status_of r)
        (record { store = record s.store { allocator = m.allocator }; world = m.world })

  pub recover_store : ℕ → Method (Machine storage) (Unit {0})
  unfolding recover_slots settle_slots recover_identity
  recover_store source = do
    found ← recover_slots 8 0 (record { all_missing = true; any_nonempty = false })
    settle_slots found.all_missing
    recover_identity source found.any_nonempty
    rebuild_index storage
    modify (change storage become_ready)

  -- The status that `recover` returns is the one of the store afterwards.
  pub recover : ℕ → Diagnostics → device.World → Machine storage
  unfolding recover_store
  recover source diagnostics world =
      let s : Machine storage = record {
        store = record (reset diagnostics) { source_device_id = source };
        world = world;
      } in
      (if source == 0 then fail storage invalid_source_device_id s else recover_store source s).1
