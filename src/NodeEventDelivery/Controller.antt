-- ===== src/NodeEventDelivery/Controller.antt =====
-- The class Controller of lib/node_event_delivery/src/node_event_delivery.h. Its diagnostics are those of
-- the store: both report to the one object of the firmware.
pub mod Attempts
pub mod Service
pub mod Radio
pub mod Calls
use argus_redline.Base.{
  ℕ, ◌+◌, ◌-◌, Bool, true, false, not, ◌&&◌, ◌||◌, Option, none, some, List, [], ◌∷◌, ltb, leb,
  ◌==◌, if◌then◌else◌, replicate, get_or, copy,
}
use argus_redline.Base.Words.{sub_u32}
use argus_redline.EventProtocol.{
  Event, AdmissionResponse, AdmissionStatus, has_valid_endpoints, encode_event,
  decode_admission_response, matches_event,
}
use argus_redline.EventRecords.NodeRecord.{NodeRecord, NodeState, same_state, max_attempts}
use argus_redline.RuntimeState.{
  EventSnapshot, admission_acknowledged, increment_event_diagnostic, set_hub_unavailable,
}
use argus_redline.NodeEventStore
use argus_redline.NodeEventStore.{MutationStatus, zero_record, is_queued, record_at}
use argus_redline.NodeEventStore.Commits
use argus_redline.NodeEventStore.Interface.{Storage}
use argus_redline.NodeEventStore.Operations
use argus_redline.NodeEventStore.Operations.{set_report}
use argus_redline.NodeEventDelivery.Policy
use argus_redline.NodeEventDelivery.Policy.{Status, AttemptResult}

abbrev pub admission_timeout_milliseconds : ℕ
admission_timeout_milliseconds = 2500

abbrev pub max_backoff_jitter_milliseconds : ℕ
max_backoff_jitter_milliseconds = 250

-- `Protocol::MAX_PACKET_SIZE`.
abbrev pub packet_capacity : ℕ
packet_capacity = 32

pub data RuntimeState : Type 0 where
  queued ready tx_prepare tx wait_admission backoff released failed expired : RuntimeState

abbrev pub state_code : RuntimeState → ℕ
state_code RuntimeState.queued = 0
state_code RuntimeState.ready = 1
state_code RuntimeState.tx_prepare = 2
state_code RuntimeState.tx = 3
state_code RuntimeState.wait_admission = 4
state_code RuntimeState.backoff = 5
state_code RuntimeState.released = 6
state_code RuntimeState.failed = 7
state_code RuntimeState.expired = 8

abbrev pub is_state : RuntimeState → RuntimeState → Bool
is_state x y = state_code x == state_code y

pub data RadioActionType : Type 0 where
  nothing transmit receive : RadioActionType

pub data ControllerStatus : Type 0 where
  ok no_active_event invalid_configuration invalid_state sequence_failure encode_failure :
      ControllerStatus
  policy_failure storage_failure degraded : ControllerStatus

pub record RadioAction : Type 0 where
  pub type : RadioActionType
  pub bytes : List ℕ

pub record ControllerResult : Type 0 where
  pub status : ControllerStatus
  pub action : RadioAction

-- `SequenceSource` and `JitterSource`, interfaces there; a sequence that is refused is `none`.
pub record Sources (storage : Storage) : Type 0 where
  pub next_sequence : storage.device.World → Option ℕ × storage.device.World
  pub next_milliseconds : storage.device.World → ℕ × storage.device.World

pub record Control : Type 0 where
  pub source : ℕ
  pub destination : ℕ
  pub active_slot : ℕ
  pub active : Bool
  pub initialized : Bool
  pub is_degraded : Bool
  pub correlation_valid : Bool
  pub state : RuntimeState
  pub deadline_origin : ℕ
  pub deadline_duration : ℕ
  pub attempt_event : Event
  pub degraded_result : ControllerResult

abbrev pub no_action : RadioAction
no_action = record { type = RadioActionType.nothing; bytes = [] }

abbrev pub result : ControllerStatus → ControllerResult
result status = record { status = status; action = no_action }

abbrev pub receiving : ControllerStatus → ControllerResult
receiving status = record {
  status = status;
  action = record { type = RadioActionType.receive; bytes = [] };
}

abbrev pub receive_result : ControllerResult
receive_result = receiving ControllerStatus.ok

abbrev pub no_event : Event
no_event = record {
  source = 0;
  destination = 0;
  sequence = 0;
  family = 0;
  epoch = 0;
  id = 0;
  flags = 0;
  lifetime_budget_seconds = 0;
  body_length = 0;
  body = replicate 12 0;
}

abbrev pub reset : Control
reset = record {
  source = 0;
  destination = 0;
  active_slot = 0xFF;
  active = false;
  initialized = false;
  is_degraded = false;
  correlation_valid = false;
  state = RuntimeState.queued;
  deadline_origin = 0;
  deadline_duration = 0;
  attempt_event = no_event;
  degraded_result = result ControllerStatus.ok;
}

abbrev pub clear_attempt : Control → Control
clear_attempt c = record c {
  correlation_valid = false;
  attempt_event = no_event;
  deadline_origin = 0;
  deadline_duration = 0;
}

abbrev pub set_state : RuntimeState → Control → Control
set_state state c = record c { state = state }

abbrev pub terminal : RuntimeState → Bool
terminal state =
    is_state state RuntimeState.released
    || (is_state state RuntimeState.failed || is_state state RuntimeState.expired)

-- Without the jitter. An attempt that has failed was armed before, so at least one is used.
abbrev pub backoff_base : ℕ → ℕ
backoff_base attempts = get_or (1000 ∷ (2000 ∷ (4000 ∷ (8000 ∷ [])))) (attempts - 1) 0

abbrev pub load : Option (ℕ × NodeRecord) → Control → Control
load none c = c
load (some (slot, r)) c = record c {
  active = true;
  active_slot = slot;
  state = RuntimeState.queued;
}

-- The Event of an attempt on a record.
abbrev pub event_of : Control → ℕ → NodeRecord → Event
event_of c sequence r = record {
  source = c.source;
  destination = c.destination;
  sequence = sequence;
  family = r.family;
  epoch = r.event_epoch;
  id = r.event_id;
  flags = r.flags;
  lifetime_budget_seconds = r.lifetime_budget_seconds;
  body_length = r.body_length;
  body = copy r.body_length (replicate 12 0) r.body;
}

abbrev pub has_state : NodeState → Option NodeRecord → Bool
has_state state none = false
has_state state (some r) = same_state r.state state
