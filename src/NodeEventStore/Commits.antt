-- ===== src/NodeEventStore/Commits.antt =====
-- The writes of lib/node_event_store/src/node_event_store.h: `writeVerify`, `commitMutation` and
-- `commitInitialFree`, and the rebuilding of the index.
pub mod Writes
use argus_redline.Base.{
  ℕ, Bool, true, false, ◌&&◌, Option, none, some, List, ◌==◌, if◌then◌else◌, bytes_equal, replicate,
  copy, set,
}
use argus_redline.Base.Methods.{Method, ◌>>=◌, ◌>>◌, return, stop, modify}
use argus_redline.EventIdentity.Interface.{StorageResult, Read}
use argus_redline.EventRecords.Envelope.{is_ok}
use argus_redline.EventRecords.NodeRecord.{
  NodeRecord, node_record_size, encode_node_record, decode_node_record_for_selection,
}
use argus_redline.EventStore.{
  CopySlot, a, b, opposite, FixedCopy, FixedReadStatus, Format, Selection, SelectionResult,
  select_copies,
}
use argus_redline.HubEventLedger.Commits.{same_copy}
use argus_redline.NodeEventStore.Interface.{Storage}
use argus_redline.NodeEventStore.{
  Status, storage_unavailable, storage_failure, read_back_missing, read_back_mismatch,
  read_back_invalid, duplicate_identity, Store, zero_record, slot_at,
}
use argus_redline.NodeEventStore.Index.{index}

abbrev pub failed : Status → Store → Store
failed e s = record s { healthy = false; status = e }

abbrev pub record_format : Format NodeRecord
record_format = record {
  size = node_record_size;
  decode = decode_node_record_for_selection;
  generation = λ r. r.generation;
}

abbrev pub buffer : List ℕ → List ℕ
buffer bytes = copy 56 (replicate 56 0) bytes

abbrev pub put_record : ℕ → NodeRecord → CopySlot → Store → Store
put_record slot r copy s = record s {
  slots = set s.slots slot (record { present = true; value = r; active_copy = copy });
}

-- `readRecordCopy` of a read that is not unavailable. What could not be read whole is cleared.
abbrev pub copy_of : Read → FixedCopy
copy_of r = elim r.result [
  | StorageResult.missing ↦ record { status = FixedReadStatus.missing; bytes = buffer r.bytes }
  | StorageResult.unavailable ↦ record {
    status = FixedReadStatus.unavailable;
    bytes = buffer r.bytes;
  }
  | StorageResult.error ↦ record { status = FixedReadStatus.ok; bytes = replicate 56 0 }
  | StorageResult.ok ↦ record {
    status = FixedReadStatus.ok;
    bytes = if r.length == node_record_size then buffer r.bytes else replicate 56 0;
  }
]

abbrev pub is_accepted : SelectionResult → Bool
is_accepted SelectionResult.equal_disagreement = false
is_accepted SelectionResult.generation_ambiguous = false
is_accepted _ = true

module _ (storage : Storage) where
  open storage use {device, read_copy, write_copy}

  pub record Machine : Type 0 where
    pub store : Store
    pub world : device.World

  abbrev pub change : (Store → Store) → Machine → Machine
  change f s = record s { store = f s.store }

  -- `return failBool(status);`
  abbrev pub fail : {A : Type 0} → Status → Method Machine A
  fail e = stop (change (failed e))

  pub require_ok : StorageResult → Method Machine (Unit {0})
  require_ok StorageResult.ok = return tt
  require_ok StorageResult.missing = fail storage_failure
  require_ok StorageResult.unavailable = fail storage_unavailable
  require_ok StorageResult.error = fail storage_failure

  pub write_target : ℕ → CopySlot → List ℕ → Method Machine (Unit {0})
  unfolding require_ok
  write_target slot target encoded s =
      let (r, w) = write_copy slot target encoded s.world in require_ok r (record s { world = w })

  pub commit_storage : Method Machine (Unit {0})
  unfolding require_ok
  commit_storage s = let (r, w) = device.commit s.world in require_ok r (record s { world = w })

  pub require_whole : StorageResult → Read → Method Machine (List ℕ)
  require_whole StorageResult.ok r =
      if r.length == node_record_size then return (buffer r.bytes) else fail read_back_invalid
  require_whole StorageResult.missing r = fail read_back_missing
  require_whole StorageResult.unavailable r = fail storage_unavailable
  require_whole StorageResult.error r = fail read_back_invalid

  pub read_back : ℕ → CopySlot → Method Machine (List ℕ)
  unfolding require_whole
  read_back slot target s =
      let (r, w) = read_copy slot target s.world in
      require_whole r.result r (record s { world = w })

  abbrev is_some : Option NodeRecord → Bool
  is_some none = false
  is_some (some r) = true

  pub check_bytes : List ℕ → List ℕ → Method Machine (Unit {0})
  check_bytes encoded bytes =
      if is_some (decode_node_record_for_selection bytes)
      then (if bytes_equal node_record_size encoded bytes
          then return tt
          else fail read_back_mismatch)
      else fail read_back_invalid

  pub write_verify : ℕ → CopySlot → List ℕ → Method Machine (Unit {0})
  unfolding write_target commit_storage read_back check_bytes
  write_verify slot target encoded = do
    write_target slot target encoded
    commit_storage
    bytes ← read_back slot target
    check_bytes encoded bytes

  pub encode_record : NodeRecord → Method Machine (List ℕ)
  encode_record r = elim (is_ok (encode_node_record r (some node_record_size))) [
    | some bytes ↦ return bytes
    | none ↦ fail storage_failure
  ]

  pub classify_read : StorageResult → Read → Method Machine FixedCopy
  classify_read StorageResult.ok r = return (copy_of r)
  classify_read StorageResult.missing r = return (copy_of r)
  classify_read StorageResult.error r = return (copy_of r)
  classify_read StorageResult.unavailable r = fail storage_unavailable

  pub read_record_copy : ℕ → CopySlot → Method Machine FixedCopy
  unfolding classify_read
  read_record_copy slot copy s =
      let (r, w) = read_copy slot copy s.world in classify_read r.result r (record s { world = w })

  abbrev by_slot : CopySlot → FixedCopy → FixedCopy → CopySlot → FixedCopy
  by_slot active old_copy new_copy slot = if same_copy active slot then old_copy else new_copy

  -- Of two copies of which neither is valid, none is selected, and that is accepted.
  pub require_selected : NodeRecord → CopySlot → Selection NodeRecord → Method Machine (Unit {0})
  require_selected r target selection =
      if is_accepted selection.result
        && (same_copy selection.slot target && (selection.selected.generation == r.generation))
      then return tt
      else fail storage_failure

  abbrev selection_of : CopySlot → FixedCopy → FixedCopy → Selection NodeRecord
  selection_of active old_copy new_copy =
      select_copies record_format (by_slot active old_copy new_copy a)
        (by_slot active old_copy new_copy b) zero_record a

  -- The part of `commitMutation` that follows `writeVerify`.
  pub reselect : ℕ → NodeRecord → CopySlot → Method Machine (Unit {0})
  unfolding read_record_copy require_selected
  reselect slot r active = do
    old_copy ← read_record_copy slot active
    new_copy ← read_record_copy slot (opposite active)
    require_selected r (opposite active) (selection_of active old_copy new_copy)
    modify (change (put_record slot r (opposite active)))

  abbrev active_copy : ℕ → Machine → CopySlot
  active_copy slot s = (slot_at s.store.slots slot).active_copy

  pub commit_mutation : ℕ → NodeRecord → Method Machine (Unit {0})
  unfolding encode_record write_verify reselect
  commit_mutation slot r s =
      (do
        encoded ← encode_record r
        write_verify slot (opposite (active_copy slot s)) encoded
        reselect slot r (active_copy slot s))
        s

  pub commit_initial_free : ℕ → NodeRecord → Method Machine (Unit {0})
  unfolding encode_record write_verify
  commit_initial_free slot r = do
    encoded ← encode_record r
    write_verify slot a encoded
    modify (change (put_record slot r a))

  after_index : Bool × List ℕ → Method Machine (Unit {0})
  after_index (true, queue) = modify (change (λ s. record s { queue = queue }))
  after_index (false, queue) =
      stop (change (λ s. failed duplicate_identity (record s { queue = queue })))

  pub rebuild_index : Method Machine (Unit {0})
  unfolding after_index
  rebuild_index s = after_index (index s.store.slots) s
