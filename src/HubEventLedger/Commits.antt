-- ===== src/HubEventLedger/Commits.antt =====
-- The writes of lib/hub_event_ledger/src/hub_event_ledger.h: `commitRecord` and `commitMetadata`. They
-- are one procedure, which writes a copy, reads it back, and selects between both copies, on two media.
pub mod Durable
pub mod Records
use argus_redline.Base.{
  ℕ, Bool, true, false, ◌&&◌, Option, none, some, List, ◌==◌, if◌then◌else◌, bytes_equal, replicate,
  copy, set,
}
use argus_redline.Base.Methods.{Method, ◌>>=◌, ◌>>◌, return, stop, modify}
use argus_redline.EventIdentity.Interface.{StorageResult, Read}
use argus_redline.EventRecords.Envelope.{is_ok}
use argus_redline.EventRecords.HubRecord.{
  HubRecord, hub_record_size, encode_hub_record, decode_hub_record_for_selection,
}
use argus_redline.EventRecords.HubMetadata.{
  HubMetadata, hub_metadata_size, encode_hub_metadata, decode_hub_metadata_for_selection,
}
use argus_redline.EventStore.{
  CopySlot, a, b, FixedCopy, FixedReadStatus, Format, Selection, SelectionResult,
  generation_ambiguous, select_copies,
}
use argus_redline.EventStore.Recovery.{is_chosen}
use argus_redline.HubEventLedger.Interface.{Storage}
use argus_redline.HubEventLedger.{
  Status, storage_unavailable, storage_failure, ordinal_unavailable, generation_is_ambiguous,
  SlotState, Ledger, zero_record, zero_metadata,
}

abbrev pub storage_status : StorageResult → Status
storage_status StorageResult.unavailable = storage_unavailable
storage_status StorageResult.ok = storage_failure
storage_status StorageResult.missing = storage_failure
storage_status StorageResult.error = storage_failure

abbrev pub fail_ledger : Status → Ledger → Ledger
fail_ledger e s = record s { ledger_healthy = false; status = e }

abbrev pub fail_ordinal : Status → Ledger → Ledger
fail_ordinal e s = record s { ordinal_ready = false; status = e }

abbrev pub set_status : Status → Ledger → Ledger
set_status e s = record s { status = e }

abbrev pub same_copy : CopySlot → CopySlot → Bool
same_copy a a = true
same_copy a b = false
same_copy b a = false
same_copy b b = true

abbrev pub record_format : Format HubRecord
record_format = record {
  size = hub_record_size;
  decode = decode_hub_record_for_selection;
  generation = λ r. r.generation;
}

abbrev pub metadata_format : Format HubMetadata
metadata_format = record {
  size = hub_metadata_size;
  decode = decode_hub_metadata_for_selection;
  generation = λ m. m.generation;
}

-- A read into a cleared array. Also a read that failed leaves what it has put there, but for a copy
-- that is missing.
abbrev pub buffer : ℕ → List ℕ → List ℕ
buffer size bytes = copy size (replicate size 0) bytes

abbrev pub copy_of : ℕ → Read → FixedCopy
copy_of size r = elim r.result [
  | StorageResult.missing ↦ record { status = FixedReadStatus.missing; bytes = buffer size r.bytes }
  | StorageResult.unavailable ↦ record {
    status = FixedReadStatus.unavailable;
    bytes = buffer size r.bytes;
  }
  | StorageResult.ok ↦ record { status = FixedReadStatus.ok; bytes = buffer size r.bytes }
  | StorageResult.error ↦ record { status = FixedReadStatus.ok; bytes = buffer size r.bytes }
]

-- Two copies of a value: how it is coded, how a copy is read and written, and what the ledger does when
-- a commit fails and when a copy cannot be read.
pub record Medium (World R : Type 0) : Type 0 where
  pub format : Format R
  pub zero_value : R
  pub encode : R → Option (List ℕ)
  pub read : CopySlot → World → Read × World
  pub write : CopySlot → List ℕ → World → StorageResult × World
  pub fail : Status → Ledger → Ledger
  pub no_copy : Ledger → Ledger

abbrev pub slot_state : HubRecord → CopySlot → SlotState
slot_state r copy = record { present = true; active_copy = copy; value = r }

abbrev pub put_record : ℕ → HubRecord → CopySlot → Ledger → Ledger
put_record slot r copy s = record s { slots = set s.slots slot (slot_state r copy) }

abbrev pub put_metadata : HubMetadata → CopySlot → Ledger → Ledger
put_metadata m copy s = record s {
  metadata = m;
  metadata_copy = copy;
  has_metadata = true;
  ordinal_ready = true;
}

module _ (storage : Storage) where
  open storage use {World, commit}

  pub record Machine : Type 0 where
    pub ledger : Ledger
    pub world : World

  abbrev pub change : (Ledger → Ledger) → Machine → Machine
  change f s = record s { ledger = f s.ledger }

  abbrev pub record_medium : ℕ → Medium World HubRecord
  record_medium slot = record {
    format = record_format;
    zero_value = zero_record;
    encode = λ r. is_ok (encode_hub_record r (some hub_record_size));
    read = storage.read_copy slot;
    write = storage.write_copy slot;
    fail = fail_ledger;
    no_copy = fail_ledger storage_unavailable;
  }

  -- When a copy of the metadata cannot be read, `readMetadataCopy` sets the status, and `commitMetadata`
  -- then fails.
  abbrev pub metadata_medium : Medium World HubMetadata
  metadata_medium = record {
    format = metadata_format;
    zero_value = zero_metadata;
    encode = λ m. is_ok (encode_hub_metadata m (some hub_metadata_size));
    read = storage.read_metadata;
    write = storage.write_metadata;
    fail = fail_ordinal;
    no_copy = λ s. fail_ordinal storage_unavailable (set_status ordinal_unavailable s);
  }

  module _ {R : Type 0} (medium : Medium World R) where
    open medium use {format, encode, read, write, fail, no_copy, zero_value}

    pub require_ok : StorageResult → Method Machine (Unit {0})
    require_ok StorageResult.ok = return tt
    require_ok StorageResult.missing = stop (change (fail storage_failure))
    require_ok StorageResult.unavailable = stop (change (fail storage_unavailable))
    require_ok StorageResult.error = stop (change (fail storage_failure))

    pub encode_value : R → Method Machine (List ℕ)
    encode_value next = elim (encode next) [
      | some bytes ↦ return bytes
      | none ↦ stop (change (fail storage_failure))
    ]

    pub write_target : CopySlot → List ℕ → Method Machine (Unit {0})
    unfolding require_ok
    write_target target bytes s =
        let (r, w) = write target bytes s.world in require_ok r (record s { world = w })

    pub commit_storage : Method Machine (Unit {0})
    unfolding require_ok
    commit_storage s = let (r, w) = commit s.world in require_ok r (record s { world = w })

    abbrev is_some : Option R → Bool
    is_some none = false
    is_some (some r) = true

    pub check_bytes : List ℕ → List ℕ → Method Machine (Unit {0})
    check_bytes encoded bytes =
        if is_some (format.decode bytes) && bytes_equal format.size encoded bytes
        then return tt
        else stop (change (fail storage_failure))

    -- The tests on the result and the length of the read-back.
    pub require_whole : StorageResult → Read → Method Machine (List ℕ)
    require_whole StorageResult.ok r =
        if r.length == format.size
        then return (buffer format.size r.bytes)
        else stop (change (fail storage_failure))
    require_whole StorageResult.missing r = stop (change (fail storage_failure))
    require_whole StorageResult.unavailable r = stop (change (fail storage_unavailable))
    require_whole StorageResult.error r = stop (change (fail storage_failure))

    pub read_back : CopySlot → Method Machine (List ℕ)
    unfolding require_whole
    read_back target s =
        let (r, w) = read target s.world in require_whole r.result r (record s { world = w })

    -- `readRecordCopy` and `readMetadataCopy`, by the result of the read.
    pub classify_read : StorageResult → Read → Method Machine FixedCopy
    classify_read StorageResult.ok r = return (copy_of format.size r)
    classify_read StorageResult.missing r = return (copy_of format.size r)
    classify_read StorageResult.error r = return (copy_of format.size r)
    classify_read StorageResult.unavailable r = stop (change no_copy)

    pub read_either : CopySlot → Method Machine FixedCopy
    unfolding classify_read
    read_either slot s =
        let (r, w) = read slot s.world in classify_read r.result r (record s { world = w })

    abbrev is_ambiguous : SelectionResult → Bool
    is_ambiguous generation_ambiguous = true
    is_ambiguous _ = false

    pub settle : R → CopySlot → Selection R → Method Machine R
    settle next target selection =
        if same_copy selection.slot target
          && ((format.generation selection.selected == format.generation next)
              && is_chosen selection.result)
        then return selection.selected
        else stop (
            change (
              fail (
                if is_ambiguous selection.result
                then generation_is_ambiguous
                else storage_failure)))

    pub reselect : R → CopySlot → Method Machine R
    unfolding read_either settle
    reselect next target = do
      copy_a ← read_either a
      copy_b ← read_either b
      settle next target (select_copies format copy_a copy_b zero_value a)

    -- The value that is then authoritative.
    pub commit_copy : R → CopySlot → Method Machine R
    unfolding encode_value write_target commit_storage read_back check_bytes reselect
    commit_copy next target = do
      encoded ← encode_value next
      write_target target encoded
      commit_storage
      bytes ← read_back target
      check_bytes encoded bytes
      reselect next target

  -- `commitRecord` with a target.
  pub commit_record_to : ℕ → HubRecord → CopySlot → Method Machine (Unit {0})
  unfolding commit_copy
  commit_record_to slot next target = do
    authoritative ← commit_copy (record_medium slot) next target
    modify (change (put_record slot authoritative target))

  pub commit_metadata : HubMetadata → CopySlot → Method Machine (Unit {0})
  unfolding commit_copy
  commit_metadata next target = do
    authoritative ← commit_copy metadata_medium next target
    modify (change (put_metadata authoritative target))
