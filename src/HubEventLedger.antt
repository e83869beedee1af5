-- ===== src/HubEventLedger.antt =====
-- lib/hub_event_ledger/src/hub_event_ledger.h: the Events that the Hub has admitted, in eight slots. A
-- slot's index that is 0xFF in the code is `none`.
pub mod Interface
pub mod Commits
pub mod Operations
pub mod Recovery
pub mod Slots
pub mod Unique
pub mod Invariant
pub mod Custody
use argus_redline.Base.{
  ℕ, suc, ◌+◌, ◌-◌, ◌%◌, Bool, true, false, not, ◌&&◌, ◌||◌, Option, none, some, List, [], ◌∷◌,
  ◌++◌, ltb, ◌==◌, if◌then◌else◌, bytes_equal, replicate, all_zero, drop, get_elem?, set, bit_and,
  length,
}
use argus_redline.EventProtocol.{
  Event, Identity, same_identity, has_valid_endpoints, is_registered_family, is_valid_family_body,
  forbidden_flags, min_lifetime_seconds, max_lifetime_seconds, max_body_size,
}
use argus_redline.EventRecords.HubRecord.{HubRecord, HubState, empty, active, same_state}
use argus_redline.EventRecords.HubMetadata.{HubMetadata}
use argus_redline.EventStore.{CopySlot, a}
use argus_redline.RuntimeState.{Diagnostics}

abbrev pub hub_event_capacity : ℕ
hub_event_capacity = 8

abbrev pub uint32_max : ℕ
uint32_max = 0xffffffff

abbrev pub ordinal_reservation_block_size : ℕ
ordinal_reservation_block_size = 32

pub data Status : Type 0 where
  ready invalid_configuration storage_unavailable storage_failure indeterminate_slot : Status
  record_conflict generation_is_ambiguous duplicate_identity duplicate_ordinal : Status
  ordinal_unavailable ordinal_exhausted : Status

pub data AdmissionStatus : Type 0 where
  durable_new_admission exact_duplicate capacity identity_content_mismatch : AdmissionStatus
  unsupported_event malformed_event routing_rejected storage_failure degraded : AdmissionStatus

pub data ConsumeStatus : Type 0 where
  consumed already_consumed not_found storage_failure degraded : ConsumeStatus

pub record AdmissionResult : Type 0 where
  pub status : AdmissionStatus
  pub slot : Option ℕ
  pub admission_ordinal : ℕ

pub record ConsumeResult : Type 0 where
  pub status : ConsumeStatus
  pub slot : Option ℕ

pub record SlotState : Type 0 where
  pub present : Bool
  pub active_copy : CopySlot
  pub value : HubRecord

pub record Ledger : Type 0 where
  pub slots : List SlotState
  pub metadata : HubMetadata
  pub metadata_copy : CopySlot
  pub next_volatile_ordinal : ℕ
  pub volatile_end_exclusive : ℕ
  pub hub_device_id : ℕ
  pub node_device_id : ℕ
  pub has_metadata : Bool
  pub ledger_healthy : Bool
  pub ordinal_ready : Bool
  pub status : Status
  pub diagnostics : Diagnostics

-- `HubRecord value = {};`
abbrev pub zero_record : HubRecord
zero_record = record {
  generation = 0;
  state = empty;
  source_device_id = 0;
  family = 0;
  flags = 0;
  body_length = 0;
  event_epoch = 0;
  event_id = 0;
  lifetime_budget_seconds = 0;
  admission_ordinal = 0;
  body = replicate 12 0;
}

abbrev pub zero_metadata : HubMetadata
zero_metadata = record { generation = 0; next_unreserved_admission_ordinal = 0 }

abbrev pub empty_slot : SlotState
empty_slot = record { present = false; active_copy = a; value = zero_record }

-- Also a new object, but for the pointer to the diagnostics, which `reset` leaves alone.
abbrev pub reset : Diagnostics → Ledger
reset diagnostics = record {
  slots = replicate 8 empty_slot;
  metadata = zero_metadata;
  metadata_copy = a;
  next_volatile_ordinal = 0;
  volatile_end_exclusive = 0;
  hub_device_id = 0;
  node_device_id = 0;
  has_metadata = false;
  ledger_healthy = false;
  ordinal_ready = false;
  status = indeterminate_slot;
  diagnostics = diagnostics;
}

unfoldable pub is_owned : HubRecord → Bool
is_owned r = same_state r.state active || same_state r.state HubState.consumed

abbrev pub identity : HubRecord → Identity
identity r = record {
  source_device_id = r.source_device_id;
  epoch = r.event_epoch;
  id = r.event_id;
}

abbrev pub event_identity : Event → Identity
event_identity e = record { source_device_id = e.source; epoch = e.epoch; id = e.id }

pub same_canonical : HubRecord → Event → Bool
same_canonical r e =
    if not (same_identity (identity r) (event_identity e))
      || (not (r.family == e.family)
          || (not (r.flags == e.flags)
              || (not (r.lifetime_budget_seconds == e.lifetime_budget_seconds)
                  || not (r.body_length == e.body_length))))
    then false
    else bytes_equal e.body_length r.body e.body

pub valid_high_water : ℕ → Bool
valid_high_water value = not (value == 0) && ((value - 1) % ordinal_reservation_block_size == 0)

-- `durable_new_admission` if nothing speaks against the Event.
pub validate_admission : Event → Ledger → AdmissionStatus
validate_admission e s =
    if not (has_valid_endpoints e.source e.destination)
      || (not (e.source == s.node_device_id)
          || (not (e.destination == s.hub_device_id) || ((e.epoch == 0) || (e.id == 0))))
    then routing_rejected
    else if not (is_registered_family e.family)
    then unsupported_event
    else if not (bit_and e.flags forbidden_flags == 0)
        || (ltb e.lifetime_budget_seconds min_lifetime_seconds
            || (ltb max_lifetime_seconds e.lifetime_budget_seconds
                || (ltb max_body_size e.body_length
                    || not (is_valid_family_body e.family e.body e.body_length))))
    then malformed_event
    else if all_zero (max_body_size - e.body_length) (drop e.body_length e.body)
    then durable_new_admission
    else malformed_event

-- The loop of `find`, of `consume` and of `admit`: the first slot that owns the identity.
pub find_from : Identity → List SlotState → ℕ → Option (ℕ × HubRecord)
find_from i [] slot = none
find_from i (s ∷ slots) slot =
    let rest = find_from i slots (slot + 1) in
    if is_owned s.value && same_identity (identity s.value) i then some (slot, s.value) else rest

pub find : Identity → Ledger → Option (ℕ × HubRecord)
unfolding find_from
find i s = if not s.ledger_healthy then none else find_from i s.slots 0

pub first_empty : List SlotState → ℕ → Option ℕ
first_empty [] slot = none
first_empty (s ∷ slots) slot =
    let rest = first_empty slots (slot + 1) in
    if same_state s.value.state empty then some slot else rest

pub incoming_later : Event → HubRecord → Bool
incoming_later e tombstone =
    (e.source == tombstone.source_device_id)
    && (ltb tombstone.event_epoch e.epoch
        || ((e.epoch == tombstone.event_epoch) && ltb tombstone.event_id e.id))

-- What `found` is after a slot that meets the loop's test.
abbrev pub older : ℕ → HubRecord → Option (ℕ × HubRecord) → Option (ℕ × HubRecord)
older slot r none = some (slot, r)
older slot r (some (found, f)) =
    if ltb r.admission_ordinal f.admission_ordinal then some (slot, r) else some (found, f)

-- The loop of `oldestReclaimable` and of `oldestActive`, over their test.
pub oldest :
    (HubRecord → Bool) → List SlotState → ℕ → Option (ℕ × HubRecord) → Option (ℕ × HubRecord)
oldest test [] slot found = found
oldest test (s ∷ slots) slot found =
    oldest test slots (slot + 1) (if test s.value then older slot s.value found else found)

pub reclaimable : Event → HubRecord → Bool
reclaimable e r = same_state r.state HubState.consumed && incoming_later e r

pub oldest_reclaimable : Event → List SlotState → Option (ℕ × HubRecord)
oldest_reclaimable e slots = oldest (reclaimable e) slots 0 none

abbrev pub is_active : HubRecord → Bool
is_active r = same_state r.state active

pub oldest_active : Ledger → Option (ℕ × HubRecord)
oldest_active s = if not s.ledger_healthy then none else oldest is_active s.slots 0 none

count_from : HubState → List SlotState → ℕ
count_from state [] = 0
count_from state (s ∷ slots) =
    if same_state s.value.state state then suc (count_from state slots) else count_from state slots

pub count_state : HubState → Ledger → ℕ
unfolding count_from
count_state state s = if not s.ledger_healthy then 0 else count_from state s.slots

-- The inner loop of `validateRecoveredSlots`, over the slots before this one.
clash : HubRecord → List SlotState → Option Status
clash r [] = none
clash r (s ∷ before) =
    let rest = clash r before in
    if not (is_owned s.value)
    then rest
    else if same_identity (identity r) (identity s.value)
    then some duplicate_identity
    else if r.admission_ordinal == s.value.admission_ordinal
    then some duplicate_ordinal
    else rest

abbrev pub first_failure : Option Status → Option Status → Option Status
first_failure none rest = rest
first_failure (some e) rest = some e

-- `none` if the slots are valid, or the status with which the ledger fails.
pub validate_slots : List SlotState → List SlotState → Option Status
unfolding clash
validate_slots [] before = none
validate_slots (s ∷ slots) before =
    let rest = validate_slots slots (before ++ (s ∷ [])) in
    if not s.present
    then some indeterminate_slot
    else if not (is_owned s.value)
    then rest
    else first_failure (clash s.value before) rest

present_value : Option SlotState → Option HubRecord
present_value none = none
present_value (some s) = if s.present then some s.value else none

-- `record(slot)`; the pointer is null where the result is `none`.
pub record_at : ℕ → Ledger → Option HubRecord
unfolding present_value
record_at slot s = present_value (get_elem? s.slots slot)
