-- ===== src/Examples/Events.antt =====
-- Packets and Events of lib/redline_protocol and lib/event_protocol at concrete values.
use argus_redline.Base.{ℕ, ◌+◌, ◌≡◌, ◌↔◌, refl, arith, true, some, List, [], ◌∷◌, length, replicate}
use argus_redline.Protocol
use argus_redline.Protocol.{Packet, encode, decode, make_control, get_version, get_packet_type}
use argus_redline.Protocol.RoundTrip.{received, decode-encode, encode-decode}
use argus_redline.EventProtocol.{
  Event, AdmissionResponse, AdmissionStatus, is_valid_event, has_valid_endpoints,
  is_registered_family, is_valid_family_body, expected_body_length, encode_event, decode_event,
  encode_admission_response, decode_admission_response, is_valid_admission_response,
  is_correlatable_family, matches_event, make_admission_response,
}
use argus_redline.EventProtocol.Validity.{IsEvent}
use argus_redline.EventProtocol.RoundTrip.{delivered, decode_event-encode_event}
use argus_redline.EventProtocol.Admission.{decode_admission-encode_admission, matches_event_iff}

abbrev packet : Packet
packet = record {
  type = Protocol.command;
  source = 1;
  destination = 2;
  sequence = 7;
  opcode = 0x64;
  payload_length = 2;
  payload = 9 ∷ 8 ∷ replicate 24 0;
}

abbrev packet_bytes : List ℕ
packet_bytes = 0x11 ∷ 1 ∷ 2 ∷ 7 ∷ 0x64 ∷ 2 ∷ 9 ∷ 8 ∷ []

packet_test : encode packet (some 32) ≡ some packet_bytes
unfolding encode make_control
packet_test = refl

decode-encode_example :
    (bytes : List ℕ) × (encode packet (some 32) ≡ some bytes)
    × (length bytes ≡ 6 + 2)
    × (decode (some bytes) packet ≡ some (received packet packet))
decode-encode_example = decode-encode packet packet 32 (omega arith) (omega arith) (omega arith)

packet_decoded : decode (some packet_bytes) packet ≡ some packet
unfolding decode get_version get_packet_type
packet_decoded = refl

encode-decode_example : encode packet (some 8) ≡ some packet_bytes
encode-decode_example = encode-decode packet_bytes packet packet 8 refl packet_decoded (omega arith)

abbrev check_in : Event
check_in = record {
  source = 2;
  destination = 1;
  sequence = 3;
  family = 0x44;
  epoch = 5;
  id = 33;
  flags = 1;
  lifetime_budget_seconds = 600;
  body_length = 1;
  body = 1 ∷ replicate 11 0;
}

check_in-IsEvent : IsEvent check_in
check_in-IsEvent = record {
  epoch_word = omega arith;
  id_word = omega arith;
  lifetime_word = omega arith;
  flags_byte = omega arith;
  length_byte = omega arith;
  body_size = refl;
}

check_in_valid : is_valid_event check_in ≡ true
unfolding is_valid_event has_valid_endpoints is_registered_family is_valid_family_body
    expected_body_length
check_in_valid = refl

decode_event-encode_event_example :
    (bytes : List ℕ) × (encode_event check_in (some 21) ≡ some bytes)
    × (length bytes ≡ 20 + 1)
    × (decode_event (some bytes) ≡ some (delivered check_in))
decode_event-encode_event_example =
    decode_event-encode_event check_in 21 check_in-IsEvent check_in_valid (omega arith)

abbrev response : AdmissionResponse
response = record {
  source = 1;
  destination = 2;
  sequence = 3;
  family = 0x44;
  status = AdmissionStatus.admitted;
  epoch = 5;
  id = 33;
}

response_valid : is_valid_admission_response response ≡ true
unfolding is_valid_admission_response has_valid_endpoints is_correlatable_family
response_valid = refl

decode_admission-encode_admission_example :
    (bytes : List ℕ) × (encode_admission_response response (some 15) ≡ some bytes)
    × (length bytes ≡ 15)
    × (decode_admission_response (some bytes) ≡ some response)
decode_admission-encode_admission_example =
    decode_admission-encode_admission response 15 (omega arith) (omega arith) response_valid
      (omega arith)

matches_event_iff_example :
    (matches_event response check_in ≡ true)
    ↔ (response ≡ make_admission_response check_in AdmissionStatus.admitted)
matches_event_iff_example = matches_event_iff response check_in check_in_valid
