-- ===== src/NodeEventStore.antt =====
-- lib/node_event_store/src/node_event_store.h: the Events that the Node has in custody, in eight slots,
-- with the queue of those that are to be sent. Of the array `queue_` the first `queueCount_` elements are
-- kept. A slot's index that is 0xFF in the code is `none`.
pub mod Interface
pub mod Index
pub mod Commits
pub mod Operations
pub mod Recovery
use argus_redline.Base.{
  ℕ, suc, ◌+◌, ◌-◌, Bool, true, false, not, ◌&&◌, ◌||◌, Option, none, some, List, [], ◌∷◌, ltb,
  ◌==◌, if◌then◌else◌, replicate, all_zero, drop, get_or, get_elem?, bit_and,
}
use argus_redline.EventProtocol.{
  Identity, is_registered_family, is_valid_family_body, forbidden_flags, min_lifetime_seconds,
  max_lifetime_seconds, max_body_size,
}
use argus_redline.EventIdentity
use argus_redline.EventIdentity.{Allocator}
use argus_redline.EventRecords.NodeRecord.{NodeRecord, NodeState, same_state}
use argus_redline.EventStore.{CopySlot, a}
use argus_redline.RuntimeState.{Diagnostics}

abbrev pub node_event_capacity : ℕ
node_event_capacity = 8

pub data Status : Type 0 where
  ready invalid_source_device_id storage_unavailable storage_failure read_back_missing : Status
  read_back_mismatch read_back_invalid indeterminate_slot record_conflict : Status
  generation_is_ambiguous duplicate_identity identity_failure : Status

pub data EnqueueStatus : Type 0 where
  enqueued queue_full invalid_event storage_failure identity_failure degraded : EnqueueStatus

pub data MutationStatus : Type 0 where
  ok invalid_slot invalid_transition storage_failure degraded : MutationStatus

pub data AttemptStatus : Type 0 where
  armed exhausted invalid_slot not_queued storage_failure degraded : AttemptStatus

pub record EventInput : Type 0 where
  pub family : ℕ
  pub flags : ℕ
  pub lifetime_budget_seconds : ℕ
  pub body_length : ℕ
  pub body : List ℕ

pub record EnqueueResult : Type 0 where
  pub status : EnqueueStatus
  pub identity : Identity
  pub slot : Option ℕ

pub record SlotState : Type 0 where
  pub present : Bool
  pub value : NodeRecord
  pub active_copy : CopySlot

pub record Store : Type 0 where
  pub allocator : Allocator
  pub slots : List SlotState
  pub queue : List ℕ
  pub source_device_id : ℕ
  pub healthy : Bool
  pub status : Status
  pub diagnostics : Diagnostics
  pub identity_status : EventIdentity.Status

-- `NodeRecord value = {};`
abbrev pub zero_record : NodeRecord
zero_record = record {
  generation = 0;
  state = NodeState.free;
  flags = 0;
  family = 0;
  body_length = 0;
  event_epoch = 0;
  event_id = 0;
  lifetime_budget_seconds = 0;
  remaining_active_seconds = 0;
  attempts_used = 0;
  body = replicate 12 0;
}

abbrev pub empty_slot : SlotState
empty_slot = record { present = false; value = zero_record; active_copy = a }

-- Also a new object, but for the pointer to the diagnostics, which `reset` leaves alone.
abbrev pub reset : Diagnostics → Store
reset diagnostics = record {
  allocator = EventIdentity.reset;
  slots = replicate 8 empty_slot;
  queue = [];
  source_device_id = 0;
  healthy = false;
  status = indeterminate_slot;
  diagnostics = diagnostics;
  identity_status = EventIdentity.Status.identity_recovery_required;
}

abbrev pub slot_at : List SlotState → ℕ → SlotState
slot_at slots slot = get_or slots slot empty_slot

abbrev pub is_free : NodeRecord → Bool
is_free r = same_state r.state NodeState.free

abbrev pub is_queued : NodeRecord → Bool
is_queued r = same_state r.state NodeState.queued

pub valid_input : EventInput → Bool
valid_input input =
    if not (bit_and input.flags forbidden_flags == 0)
      || (ltb input.lifetime_budget_seconds min_lifetime_seconds
          || (ltb max_lifetime_seconds input.lifetime_budget_seconds
              || (ltb max_body_size input.body_length
                  || (not (is_registered_family input.family)
                      || not (is_valid_family_body input.family input.body input.body_length)))))
    then false
    else all_zero (max_body_size - input.body_length) (drop input.body_length input.body)

-- The loop of `enqueue`.
pub first_free : List SlotState → ℕ → Option ℕ
first_free [] slot = none
first_free (s ∷ slots) slot =
    let rest = first_free slots (slot + 1) in if is_free s.value then some slot else rest

pub owned_count : List SlotState → ℕ
owned_count [] = 0
owned_count (s ∷ slots) =
    if s.present && not (is_free s.value) then suc (owned_count slots) else owned_count slots

abbrev pub held_at : List SlotState → ℕ → Option NodeRecord
held_at slots slot = let s = slot_at slots slot in if s.present then some s.value else none

-- `recordAt(slot)`; the pointer is null where the result is `none`.
pub record_at : ℕ → Store → Option NodeRecord
record_at slot s = if ltb slot node_event_capacity then held_at s.slots slot else none

abbrev queued_value : List SlotState → Option ℕ → Option (ℕ × NodeRecord)
queued_value slots none = none
queued_value slots (some slot) = some (slot, (slot_at slots slot).value)

-- `queuedAt(index, slot)`, with the slot that it writes.
pub queued_at : ℕ → Store → Option (ℕ × NodeRecord)
queued_at index s = queued_value s.slots (get_elem? s.queue index)
