-- ===== src/TransactionEngine/Acknowledgments.antt =====
-- The Hub recognises the Node's acknowledgment of its outstanding command, and only that
-- (`makeAcknowledgment` and `evaluateHubAcknowledgment` of
-- lib/transaction_engine/src/transaction_engine.h).
use argus_redline.Base.{
  ℕ, ◌≡◌, ◌≤◌, ◌↔◌, copy, refl, arith, true, List, [], ◌∷◌, ==_refl, length, get_or, some,
}
use argus_redline.Protocol.{
  Packet, AckStatus, ack_status_code, same_type, empty_packet, is_addressed_to, encode, decode,
}
use argus_redline.Protocol.RoundTrip.{decode-encode, received}
use argus_redline.Protocol
use argus_redline.TransactionEngine.{matching_ack, evaluate_hub_acknowledgment, make_acknowledgment}

-- A packet matches exactly when it is an acknowledgment from the Node to this Hub, with the sequence
-- and the opcode of the outstanding command and a payload of one byte.
pub evaluate_hub_acknowledgment_iff :
    (acknowledgment outstanding : Packet) (hub node : ℕ)
    → ((evaluate_hub_acknowledgment acknowledgment outstanding hub node).outcome ≡ matching_ack) ↔ (
        (same_type acknowledgment.type Protocol.ack ≡ true)
        × (acknowledgment.source ≡ node)
        × (acknowledgment.destination ≡ hub)
        × (acknowledgment.sequence ≡ outstanding.sequence)
        × (acknowledgment.opcode ≡ outstanding.opcode)
        × (acknowledgment.payload_length ≡ 1))
unfolding evaluate_hub_acknowledgment is_addressed_to
evaluate_hub_acknowledgment_iff acknowledgment outstanding hub node = ground arith

front : (xs ys : List ℕ) (y : ℕ) → length xs ≡ 26 → get_or (copy 1 xs (y ∷ ys)) 0 0 ≡ y
front [] ys y h = ground arith
front (x ∷ xs) ys y h = refl

evaluate-received :
    (command packet : Packet) (status : AckStatus)
    → length packet.payload ≡ 26
    → evaluate_hub_acknowledgment
        (received (make_acknowledgment command status) packet)
        command
        command.source
        command.destination
      ≡ record { outcome = matching_ack; raw_status = ack_status_code status }
unfolding evaluate_hub_acknowledgment make_acknowledgment is_addressed_to
evaluate-received command packet status h =
    rw
      (
        ==_refl command.destination,
        ==_refl command.source,
        ==_refl command.sequence,
        ==_refl command.opcode,
        front packet.payload _ (ack_status_code status) h,
      )
      refl

-- The Node's acknowledgment, encoded into a buffer of at least seven bytes and decoded by the Hub over
-- any packet of its own, matches the command that it acknowledges and carries the Node's status.
pub acknowledgment_arrives :
    (command packet : Packet) (status : AckStatus) (capacity : ℕ)
    → length packet.payload ≡ 26
    → 7 ≤ capacity
    → (bytes : List ℕ) × (acknowledgment : Packet) × (encode
          (make_acknowledgment command status)
          (some capacity)
        ≡ some bytes)
      × (decode (some bytes) packet ≡ some acknowledgment)
      × (evaluate_hub_acknowledgment acknowledgment command command.source command.destination
          ≡ record { outcome = matching_ack; raw_status = ack_status_code status })
unfolding make_acknowledgment
acknowledgment_arrives command packet status capacity h k =
    let (bytes, e, l, d) =
      decode-encode (make_acknowledgment command status) packet capacity (omega arith) (omega arith)
        (omega arith) in
    (
      bytes,
      received (make_acknowledgment command status) packet,
      e,
      d,
      evaluate-received command packet status h,
    )
