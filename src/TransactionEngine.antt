-- ===== src/TransactionEngine.antt =====
-- lib/transaction_engine/src/transaction_engine.h: commands and acknowledgments between Hub and Node.
-- The methods of a class are functions of its state; one that is not const returns the next state.
pub mod Duplicates
pub mod Acknowledgments
pub mod Retries
use argus_redline.Base.{
  ℕ, zero, suc, ◌+◌, ◌^◌, Bool, true, false, not, ◌&&◌, ◌||◌, List, [], ◌∷◌, ltb, leb, ◌==◌,
  if◌then◌else◌, get_or, set, replicate, bytes_equal,
}
use argus_redline.Base.Words.{u8, u32, sub_u32}
use argus_redline.Protocol.{
  Packet, AckStatus, success, unsupported_opcode, malformed_packet, ack_status_code, same_type,
  empty_packet, max_payload_size, is_addressed_to, is_supported_command_opcode,
  is_valid_command_payload,
}
use argus_redline.Protocol

-- `NodeDuplicateTracker`, as it is constructed in `no_command`.
pub record Tracker : Type 0 where
  pub has_remembered_command : Bool
  pub source : ℕ
  pub sequence : ℕ
  pub opcode : ℕ
  pub payload_length : ℕ
  pub payload : List ℕ
  pub status : AckStatus

abbrev pub no_command : Tracker
no_command = record {
  has_remembered_command = false;
  source = 0;
  sequence = 0;
  opcode = 0;
  payload_length = 0;
  payload = replicate 26 0;
  status = success;
}

-- The tests of `isDuplicate` before its loop.
unfoldable pub differs : Tracker → Packet → Bool
differs t command =
    not t.has_remembered_command
    || (not (command.source == t.source)
        || (not (command.sequence == t.sequence)
            || (not (command.opcode == t.opcode)
                || (not (command.payload_length == t.payload_length)
                    || ltb max_payload_size command.payload_length))))

unfoldable pub is_duplicate : Tracker → Packet → Bool
unfolding differs
is_duplicate t command =
    if differs t command
    then false
    else bytes_equal command.payload_length command.payload t.payload

-- The first `slots` of an array: `index < n ? payload[index] : 0`.
abbrev pub fill : ℕ → ℕ → List ℕ → List ℕ
fill zero n payload = []
fill (suc slots) zero payload = 0 ∷ fill slots zero payload
fill (suc slots) (suc n) [] = 0 ∷ fill slots n []
fill (suc slots) (suc n) (x ∷ payload) = x ∷ fill slots n payload

pub remember : Packet → AckStatus → Tracker
remember command status = record {
  has_remembered_command = true;
  source = command.source;
  sequence = command.sequence;
  opcode = command.opcode;
  payload_length = command.payload_length;
  payload = fill 26 command.payload_length command.payload;
  status = status;
}

pub data NodeCommandOutcome : Type 0 where
  ignore_wrong_destination ignore_wrong_sender ignore_wrong_packet_type : NodeCommandOutcome
  duplicate ack_success ack_unsupported_opcode ack_malformed_packet : NodeCommandOutcome

pub record NodeCommandEvaluation : Type 0 where
  pub outcome : NodeCommandOutcome
  pub status : AckStatus

abbrev pub evaluation : NodeCommandOutcome → AckStatus → NodeCommandEvaluation
evaluation outcome status = record { outcome = outcome; status = status }

pub evaluate_node_command : Packet → ℕ → ℕ → Tracker → NodeCommandEvaluation × Tracker
evaluate_node_command command local_device_id peer_device_id t =
    if not (is_addressed_to command local_device_id)
    then (evaluation ignore_wrong_destination success, t)
    else if not (same_type command.type Protocol.command)
    then (evaluation ignore_wrong_packet_type success, t)
    else if not (command.source == peer_device_id)
    then (evaluation ignore_wrong_sender success, t)
    else if not (is_supported_command_opcode command.opcode)
    then (evaluation ack_unsupported_opcode unsupported_opcode, t)
    else if not (is_valid_command_payload command.opcode command.payload_length)
    then (evaluation ack_malformed_packet malformed_packet, t)
    else if is_duplicate t command
    then (evaluation duplicate t.status, t)
    else (evaluation ack_success success, remember command success)

pub data HubAckOutcome : Type 0 where
  ignore_wrong_destination ignore_wrong_sender ignore_wrong_packet_type : HubAckOutcome
  ignore_wrong_sequence ignore_wrong_opcode ignore_malformed_payload matching_ack : HubAckOutcome

pub record HubAckEvaluation : Type 0 where
  pub outcome : HubAckOutcome
  pub raw_status : ℕ

pub evaluate_hub_acknowledgment : Packet → Packet → ℕ → ℕ → HubAckEvaluation
evaluate_hub_acknowledgment acknowledgment outstanding local_hub_id peer_node_id =
    if not (same_type acknowledgment.type Protocol.ack)
    then record { outcome = ignore_wrong_packet_type; raw_status = 0 }
    else if not (acknowledgment.source == peer_node_id)
    then record { outcome = ignore_wrong_sender; raw_status = 0 }
    else if not (is_addressed_to acknowledgment local_hub_id)
    then record { outcome = ignore_wrong_destination; raw_status = 0 }
    else if not (acknowledgment.sequence == outstanding.sequence)
    then record { outcome = ignore_wrong_sequence; raw_status = 0 }
    else if not (acknowledgment.opcode == outstanding.opcode)
    then record { outcome = ignore_wrong_opcode; raw_status = 0 }
    else if not (acknowledgment.payload_length == 1)
    then record { outcome = ignore_malformed_payload; raw_status = 0 }
    else record { outcome = matching_ack; raw_status = get_or acknowledgment.payload 0 0 }

pub make_acknowledgment : Packet → AckStatus → Packet
make_acknowledgment command status = record {
  type = Protocol.ack;
  source = command.destination;
  destination = command.source;
  sequence = command.sequence;
  opcode = command.opcode;
  payload_length = 1;
  payload = set (replicate 26 0) 0 (ack_status_code status);
}

pub data HubTransactionAction : Type 0 where
  no_action transmit_initial retransmit transaction_succeeded : HubTransactionAction
  transaction_remote_error transaction_failed : HubTransactionAction

pub record HubTransactionState : Type 0 where
  pub sequence : ℕ
  pub retry_count : ℕ
  pub maximum_retries : ℕ
  pub awaiting_acknowledgment : Bool
  pub acknowledgment_deadline : ℕ
  pub acknowledgment_timeout_ms : ℕ

-- The constructor, whose defaults are 1, 2 and 2500.
abbrev pub new_transaction : ℕ → ℕ → ℕ → HubTransactionState
new_transaction initial_sequence maximum_retries timeout_ms = record {
  sequence = initial_sequence;
  retry_count = 0;
  maximum_retries = maximum_retries;
  awaiting_acknowledgment = false;
  acknowledgment_deadline = 0;
  acknowledgment_timeout_ms = timeout_ms;
}

pub requested_transmission : HubTransactionState → HubTransactionAction
requested_transmission s = if s.retry_count == 0 then transmit_initial else retransmit

pub begin_acknowledgment_wait : ℕ → HubTransactionState → HubTransactionState
begin_acknowledgment_wait now s = record s {
  awaiting_acknowledgment = true;
  acknowledgment_deadline = u32 (now + s.acknowledgment_timeout_ms);
}

-- The cast of a 32-bit word to `int32_t` is negative from 2^31 on.
pub acknowledgment_wait_action : HubTransactionState → ℕ → HubTransactionAction
acknowledgment_wait_action s now =
    if not s.awaiting_acknowledgment || leb 0x80000000 (sub_u32 now s.acknowledgment_deadline)
    then no_action
    else if ltb s.retry_count s.maximum_retries
    then retransmit
    else transaction_failed

pub attempt_failed : HubTransactionState → HubTransactionAction × HubTransactionState
attempt_failed s =
    if ltb s.retry_count s.maximum_retries
    then (
      retransmit,
      record s { awaiting_acknowledgment = false; retry_count = u8 (s.retry_count + 1) },
    )
    else (transaction_failed, record s { awaiting_acknowledgment = false })

pub acknowledgment_completion_action : AckStatus → HubTransactionAction
acknowledgment_completion_action status =
    if ack_status_code status == ack_status_code success
    then transaction_succeeded
    else transaction_remote_error

pub complete_transaction : HubTransactionState → HubTransactionState
complete_transaction s = record s {
  sequence = u8 (s.sequence + 1);
  retry_count = 0;
  awaiting_acknowledgment = false;
}
