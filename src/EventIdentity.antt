-- ===== src/EventIdentity.antt =====
-- lib/event_identity/src/event_identity.h: the allocator of Event identities, over a storage with two
-- copies of its metadata and a source of entropy.
pub mod Interface
pub mod Commit
pub mod Allocate
pub mod Recover
pub mod Durable
use argus_redline.Base.{
  ℕ, ◌+◌, ◌-◌, ◌%◌, ◌^◌, Bool, true, false, not, ◌&&◌, Option, none, some, List, [], ltb, ◌==◌,
  if◌then◌else◌, replicate, copy,
}
use argus_redline.Base.Words.{u32}
use argus_redline.EventProtocol.{Identity}
use argus_redline.EventRecords.Envelope
use argus_redline.EventRecords.NodeMetadata.{
  NodeMetadata, node_metadata_size, encode_node_metadata, decode_node_metadata,
  decode_node_metadata_for_selection,
}
use argus_redline.EventStore.{
  CopySlot, a, b, opposite, FixedCopy, FixedReadStatus, ReadBackResult, SelectionResult, Selection,
  Format, select_copies, classify_read_back, both_invalid, equal_disagreement, generation_ambiguous,
}
use Interface.{Device, Read, StorageResult}

abbrev pub reservation_block_size : ℕ
reservation_block_size = 32

abbrev pub uint32_max : ℕ
uint32_max = 0xffffffff

pub data CustodyState : Type 0 where
  empty nonempty unprovable : CustodyState

pub data Status : Type 0 where
  ready invalid_source_device_id storage_unavailable storage_failure read_back_missing : Status
  read_back_mismatch read_back_invalid entropy_failure identity_context_mismatch : Status
  identity_recovery_required metadata_conflict generation_is_ambiguous epoch_exhausted : Status

-- A status other than `READY`.
abbrev pub is_failure : Status → Bool
is_failure ready = false
is_failure _ = true

pub record AllocationResult : Type 0 where
  pub status : Status
  pub identity : Identity

pub record Allocator : Type 0 where
  pub metadata : NodeMetadata
  pub active_slot : CopySlot
  pub source_device_id : ℕ
  pub next_volatile_id : ℕ
  pub volatile_end_exclusive : ℕ
  pub has_authoritative_metadata : Bool
  pub is_ready : Bool
  pub status : Status

abbrev pub no_metadata : NodeMetadata
no_metadata = record {
  generation = 0;
  custody_source_device_id = 0;
  event_epoch = 0;
  next_unreserved_event_id = 0;
}

-- After `reset`, which is also the state of a new object.
abbrev pub reset : Allocator
reset = record {
  metadata = no_metadata;
  active_slot = a;
  source_device_id = 0;
  next_volatile_id = 0;
  volatile_end_exclusive = 0;
  has_authoritative_metadata = false;
  is_ready = false;
  status = identity_recovery_required;
}

abbrev pub metadata_format : Format NodeMetadata
metadata_format = record {
  size = node_metadata_size;
  decode = decode_node_metadata_for_selection;
  generation = λ m. m.generation;
}

-- A function that returns early with a status other than `READY` has failed with that status.
pub data Attempt (A : Type 0) : Type 0 where
  done : A → Attempt A
  failed : Status → Attempt A

abbrev pub status_of : Attempt (Unit {0}) → Status
status_of (done u) = ready
status_of (failed s) = s

pub valid_high_water : ℕ → Bool
valid_high_water value = not (value == 0) && ((value - 1) % reservation_block_size == 0)

abbrev pub become_ready : Allocator → Allocator
become_ready c = record c {
  next_volatile_id = c.metadata.next_unreserved_event_id;
  volatile_end_exclusive = c.metadata.next_unreserved_event_id;
  is_ready = true;
  status = ready;
}

abbrev pub set_block : ℕ → Allocator → Allocator
set_block start c = record c {
  next_volatile_id = start;
  volatile_end_exclusive = u32 (start + reservation_block_size);
}

-- The metadata of the next block: in the next epoch if the identifiers of this one run out.
abbrev pub next_block : NodeMetadata → NodeMetadata
next_block m =
    if ltb (uint32_max - reservation_block_size) m.next_unreserved_event_id
    then record m {
      generation = u32 (m.generation + 1);
      event_epoch = u32 (m.event_epoch + 1);
      next_unreserved_event_id = 1 + reservation_block_size;
    }
    else record m {
      generation = u32 (m.generation + 1);
      next_unreserved_event_id = u32 (m.next_unreserved_event_id + reservation_block_size);
    }

abbrev pub block_start : NodeMetadata → ℕ
block_start m =
    if ltb (uint32_max - reservation_block_size) m.next_unreserved_event_id
    then 1
    else m.next_unreserved_event_id

abbrev pub no_identity : Identity
no_identity = record { source_device_id = 0; epoch = 0; id = 0 }

-- Neither a block of this epoch nor a next epoch is left.
abbrev pub is_exhausted : NodeMetadata → Bool
is_exhausted m =
    ltb (uint32_max - reservation_block_size) m.next_unreserved_event_id
    && (m.event_epoch == uint32_max)

module _ (device : Device) where
  open device use {World, read, write, commit, next_uint32}

  pub record Machine : Type 0 where
    pub allocator : Allocator
    pub world : World

  abbrev pub M : Type 0 → Type 0
  M A = Machine → Attempt A × Machine

  infixl 5 ◌>>=◌ ◌>>◌
  abbrev pub ◌>>=◌ : {A B : Type 0} → M A → (A → M B) → M B
  ◌>>=◌ m f s = let (r, s') = m s in elim r [ done x ↦ f x s' | failed e ↦ (failed e, s') ]

  abbrev pub ◌>>◌ : {B : Type 0} → M (Unit {0}) → M B → M B
  ◌>>◌ m k = m >>= λ _. k

  abbrev pub return : {A : Type 0} → A → M A
  return x s = (done x, s)

  -- `return fail(status);`
  abbrev pub fail : {A : Type 0} → Status → M A
  fail e s =
      (failed e, record s { allocator = record s.allocator { is_ready = false; status = e } })

  abbrev pub modify : (Allocator → Allocator) → M (Unit {0})
  modify f s = (done tt, record s { allocator = f s.allocator })

  -- The two tests after a write and after a commit.
  abbrev pub require_ok : StorageResult → M (Unit {0})
  require_ok StorageResult.ok = return tt
  require_ok StorageResult.missing = fail storage_failure
  require_ok StorageResult.unavailable = fail storage_unavailable
  require_ok StorageResult.error = fail storage_failure

  -- A read into an array of 28 bytes that was cleared.
  abbrev pub buffer : List ℕ → List ℕ
  buffer bytes = copy node_metadata_size (replicate 28 0) bytes

  pub write_slot : CopySlot → List ℕ → M (Unit {0})
  write_slot slot bytes s =
      let (r, w) = write slot bytes s.world in require_ok r (record s { world = w })

  pub commit_storage : M (Unit {0})
  commit_storage s = let (r, w) = commit s.world in require_ok r (record s { world = w })

  require_whole : StorageResult → Read → M (List ℕ)
  require_whole StorageResult.ok r =
      if r.length == node_metadata_size then return (buffer r.bytes) else fail read_back_invalid
  require_whole StorageResult.missing r = fail read_back_missing
  require_whole StorageResult.unavailable r = fail storage_unavailable
  require_whole StorageResult.error r = fail read_back_invalid

  -- The read-back of `commitMetadata`, with its tests on the result and the length.
  pub read_back : CopySlot → M (List ℕ)
  unfolding require_whole
  read_back slot s =
      let (r, w) = read slot s.world in require_whole r.result r (record s { world = w })

  pub encode : NodeMetadata → M (List ℕ)
  encode next = elim (encode_node_metadata next (some node_metadata_size)) [
    | Envelope.ok bytes ↦ return bytes
    | Envelope.err e ↦ fail storage_failure
  ]

  pub decode : List ℕ → M NodeMetadata
  decode bytes = elim (decode_node_metadata (some bytes)) [
    | Envelope.ok verified ↦ return verified
    | Envelope.err e ↦ fail read_back_invalid
  ]

  require_class : ReadBackResult → M (Unit {0})
  require_class ReadBackResult.match = return tt
  require_class ReadBackResult.mismatch = fail read_back_mismatch
  require_class ReadBackResult.missing = fail read_back_mismatch
  require_class ReadBackResult.unavailable = fail read_back_mismatch

  require_match : List ℕ → List ℕ → M (Unit {0})
  unfolding require_class
  require_match written bytes = require_class (
      classify_read_back node_metadata_size written
        (record { status = FixedReadStatus.ok; bytes = bytes }))

  abbrev pub target_slot : Allocator → CopySlot
  target_slot c = if c.has_authoritative_metadata then opposite c.active_slot else a

  pub adopt : NodeMetadata → CopySlot → Allocator → Allocator
  adopt verified target c =
      become_ready
        (record c { metadata = verified; active_slot = target; has_authoritative_metadata = true })

  verify : CopySlot → List ℕ → List ℕ → M (Unit {0})
  verify target encoded bytes = do
    verified ← decode bytes
    require_match encoded bytes
    modify (adopt verified target)

  store : CopySlot → List ℕ → M (Unit {0})
  store target encoded = do
    write_slot target encoded
    commit_storage
    bytes ← read_back target
    verify target encoded bytes

  pub commit_to : NodeMetadata → CopySlot → M (Unit {0})
  unfolding write_slot commit_storage read_back encode decode require_match adopt verify store
  commit_to next target = do encoded ← encode next; store target encoded

  pub commit_metadata : NodeMetadata → M (Unit {0})
  commit_metadata next s = commit_to next (target_slot s.allocator) s

  pub reserve_block : M (Unit {0})
  reserve_block s =
      let m = s.allocator.metadata in
      if is_exhausted m
      then fail epoch_exhausted s
      else (commit_metadata (next_block m) >> modify (set_block (block_start m))) s

  -- The identity at the front of the volatile block, which moves on.
  hand_out : Machine → AllocationResult × Machine
  hand_out s = (
    record {
      status = ready;
      identity = record {
        source_device_id = s.allocator.source_device_id;
        epoch = s.allocator.metadata.event_epoch;
        id = s.allocator.next_volatile_id;
      };
    },
    record s {
      allocator = record s.allocator { next_volatile_id = u32 (s.allocator.next_volatile_id + 1) };
    },
  )

  after_reservation : Attempt (Unit {0}) × Machine → AllocationResult × Machine
  after_reservation (done u, s) = hand_out s
  after_reservation (failed e, s) = (record { status = e; identity = no_identity }, s)

  pub allocate_ready : Machine → AllocationResult × Machine
  unfolding hand_out after_reservation
  allocate_ready s =
      if s.allocator.next_volatile_id == s.allocator.volatile_end_exclusive
      then after_reservation (reserve_block s)
      else hand_out s

  pub allocate : Machine → AllocationResult × Machine
  unfolding allocate_ready
  allocate s =
      if not s.allocator.is_ready
      then (record { status = s.allocator.status; identity = no_identity }, s)
      else allocate_ready s

  -- `readCopy`: the copy, and whether the storage was unavailable.
  read_copy : Read → FixedCopy
  read_copy r = elim r.result [
    | StorageResult.unavailable ↦ record {
      status = FixedReadStatus.unavailable;
      bytes = buffer r.bytes;
    }
    | StorageResult.missing ↦ record { status = FixedReadStatus.missing; bytes = buffer r.bytes }
    | StorageResult.error ↦ record { status = FixedReadStatus.ok; bytes = replicate 28 0 }
    | StorageResult.ok ↦ record {
      status = FixedReadStatus.ok;
      bytes = if r.length == node_metadata_size then buffer r.bytes else replicate 28 0;
    }
  ]

  abbrev is_unavailable : StorageResult → Bool
  is_unavailable StorageResult.unavailable = true
  is_unavailable StorageResult.ok = false
  is_unavailable StorageResult.missing = false
  is_unavailable StorageResult.error = false

  -- Both reads are made before either result is looked at.
  pub read_copies : M (FixedCopy × FixedCopy)
  unfolding read_copy
  read_copies s =
      let (r_a, w) = read a s.world in
      let (r_b, w') = read b w in
      let s' = record s { world = w' } in
      if is_unavailable r_a.result
      then fail storage_unavailable s'
      else if is_unavailable r_b.result
      then fail storage_unavailable s'
      else return (read_copy r_a, read_copy r_b) s'

  fresh_metadata : Allocator → ℕ → NodeMetadata
  fresh_metadata c epoch = record {
    generation = if c.has_authoritative_metadata then u32 (c.metadata.generation + 1) else 1;
    custody_source_device_id = c.source_device_id;
    event_epoch = epoch;
    next_unreserved_event_id = 1;
  }

  draw_epoch : Option ℕ → M ℕ
  draw_epoch none = fail entropy_failure
  draw_epoch (some epoch) = if epoch == 0 then fail entropy_failure else return epoch

  pub initialize_fresh : M (Unit {0})
  unfolding fresh_metadata draw_epoch
  initialize_fresh s =
      let (e, w) = next_uint32 s.world in
      (do epoch ← draw_epoch e; λ t. commit_metadata (fresh_metadata t.allocator epoch) t)
        (record s { world = w })

  abbrev holds_events : CustodyState → Bool
  holds_events nonempty = true
  holds_events empty = false
  holds_events unprovable = false

  -- What `recover` does with the metadata that it selected.
  recover_selected : CustodyState → NodeMetadata → M (Unit {0})
  recover_selected custody selected s =
      if not (valid_high_water selected.next_unreserved_event_id)
      then (if holds_events custody then fail identity_recovery_required s else initialize_fresh s)
      else if holds_events custody
      then (if not (selected.custody_source_device_id == s.allocator.source_device_id)
          then fail identity_context_mismatch s
          else modify become_ready s)
      else if not (selected.custody_source_device_id == s.allocator.source_device_id)
      then initialize_fresh s
      else modify become_ready s

  take_selected : NodeMetadata → CopySlot → Allocator → Allocator
  take_selected selected slot c = record c {
    metadata = selected;
    active_slot = slot;
    has_authoritative_metadata = true;
  }

  recover_from : CustodyState → Selection NodeMetadata → M (Unit {0})
  unfolding recover_selected take_selected
  recover_from custody selection = elim selection.result [
    | equal_disagreement ↦ fail metadata_conflict
    | generation_ambiguous ↦ fail generation_is_ambiguous
    | both_invalid ↦
        if holds_events custody then fail identity_recovery_required else initialize_fresh
    | _ ↦ do
      modify (take_selected selection.selected selection.slot)
      recover_selected custody selection.selected
  ]

  recover_custody : CustodyState → M (Unit {0})
  unfolding recover_from
  recover_custody custody = do
    (copy_a, copy_b) ← read_copies
    recover_from custody (select_copies metadata_format copy_a copy_b no_metadata a)

  pub recover : ℕ → CustodyState → World → Attempt (Unit {0}) × Machine
  unfolding recover_custody
  recover source custody world =
      let s : Machine = record {
        allocator = record reset { source_device_id = source };
        world = world;
      } in
      if source == 0 then fail invalid_source_device_id s else elim custody [
        | unprovable ↦ fail identity_recovery_required s
        | empty ↦ recover_custody empty s
        | nonempty ↦ recover_custody nonempty s
      ]
