-- ===== src/Examples/Link.antt =====
-- The transactions of lib/transaction_engine/src/transaction_engine.h at concrete values.
use argus_redline.Base.{
  ℕ, ◌+◌, ◌≡◌, ◌↔◌, inl, inr, refl, arith, true, false, some, List, [], ◌∷◌, replicate,
}
use argus_redline.Base.Words.{u32}
use argus_redline.Protocol
use argus_redline.Protocol.{
  Packet, AckStatus, success, ack_status_code, encode, decode, same_type, is_addressed_to,
  is_supported_command_opcode, is_valid_command_payload, expected_command_payload_length,
}
use argus_redline.TransactionEngine.{
  no_command, differs, is_duplicate, evaluate_hub_acknowledgment, make_acknowledgment, matching_ack,
  new_transaction, no_action, retransmit, transaction_failed, acknowledgment_wait_action,
  begin_acknowledgment_wait,
}
use argus_redline.TransactionEngine.Duplicates.{is_admissible, executions, executed_once}
use argus_redline.TransactionEngine.Acknowledgments.{
  acknowledgment_arrives, evaluate_hub_acknowledgment_iff,
}
use argus_redline.TransactionEngine.Retries.{failures, failures_lem, acknowledgment_wait_action_lem}

-- A command from Hub 1 to Node 2.
abbrev ping : Packet
ping = record {
  type = Protocol.command;
  source = 1;
  destination = 2;
  sequence = 9;
  opcode = 0x64;
  payload_length = 0;
  payload = replicate 26 0;
}

abbrev elsewhere : Packet
elsewhere = record ping { destination = 3 }

ping_admissible : is_admissible 2 1 ping ≡ true
unfolding is_admissible is_addressed_to is_supported_command_opcode is_valid_command_payload
    expected_command_payload_length
ping_admissible = refl

elsewhere_inadmissible : is_admissible 2 1 elsewhere ≡ false
unfolding is_admissible is_addressed_to is_supported_command_opcode is_valid_command_payload
    expected_command_payload_length
elsewhere_inadmissible = refl

ping_new : is_duplicate no_command ping ≡ false
unfolding is_duplicate differs
ping_new = refl

executed_once_example : executions 2 1 (ping ∷ ping ∷ elsewhere ∷ ping ∷ []) no_command ≡ 1
executed_once_example =
    executed_once 2 1 ping ping_admissible (omega arith) refl (ping ∷ elsewhere ∷ ping ∷ [])
      no_command ping_new (inl refl, (inr elsewhere_inadmissible, (inl refl, tt)))

acknowledgment_arrives_example :
    (bytes : List ℕ) × (acknowledgment : Packet) × (encode
        (make_acknowledgment ping success)
        (some 32)
      ≡ some bytes)
    × (decode (some bytes) elsewhere ≡ some acknowledgment)
    × (evaluate_hub_acknowledgment acknowledgment ping 1 2
        ≡ record { outcome = matching_ack; raw_status = 0 })
acknowledgment_arrives_example = acknowledgment_arrives ping elsewhere success 32 refl (omega arith)

evaluate_hub_acknowledgment_iff_example :
    ((evaluate_hub_acknowledgment elsewhere ping 1 2).outcome ≡ matching_ack) ↔ (
      (same_type Protocol.command Protocol.ack ≡ true)
      × (elsewhere.source ≡ 2)
      × (elsewhere.destination ≡ 1)
      × (elsewhere.sequence ≡ ping.sequence)
      × (elsewhere.opcode ≡ ping.opcode)
      × (elsewhere.payload_length ≡ 1))
evaluate_hub_acknowledgment_iff_example = evaluate_hub_acknowledgment_iff elsewhere ping 1 2

failures_lem_example :
    failures 3 (new_transaction 1 2 2500) ≡ retransmit ∷ retransmit ∷ transaction_failed ∷ []
failures_lem_example = failures_lem 2 (new_transaction 1 2 2500) refl (omega arith)

acknowledgment_wait_action_lem_example :
    acknowledgment_wait_action
      (begin_acknowledgment_wait 0xffffffff (new_transaction 1 2 2500))
      (u32 (0xffffffff + 2499))
    ≡ no_action
acknowledgment_wait_action_lem_example =
    acknowledgment_wait_action_lem (new_transaction 1 2 2500) 0xffffffff 2499 (omega arith)
      (omega arith) (omega arith)
