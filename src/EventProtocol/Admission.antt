-- ===== src/EventProtocol/Admission.antt =====
-- Admission responses survive the radio packet, and the response made for an Event matches it.
use argus_redline.Base.{
  ℕ, ◌≤◌, ◌≡◌, ◌↔◌, refl, sym, ap, subst, ◌∙◌, arith, true, some, List, length,
}
use argus_redline.Base.Words.{IsU32}
use argus_redline.Protocol.{empty_packet}
use argus_redline.Protocol.RoundTrip.{received, decode-encode}
use argus_redline.EventProtocol.{
  Event, AdmissionResponse, AdmissionStatus, admitted, capacity, identity_content_mismatch,
  unsupported_event, malformed_event, admission_packet, response_of_packet, decode_admission_packet,
  encode_admission_response, decode_admission_response, is_valid_admission_response,
  admission_status_code, admission_status_of_code, make_admission_response, matches_event,
  is_valid_event,
}
use argus_redline.EventProtocol.RoundTrip.{join_masked}

status_of_code : (s : AdmissionStatus) → admission_status_of_code (admission_status_code s) ≡ some s
status_of_code admitted = refl
status_of_code capacity = refl
status_of_code identity_content_mismatch = refl
status_of_code unsupported_event = refl
status_of_code malformed_event = refl

response_of_admission_packet :
    (r : AdmissionResponse)
    → IsU32 r.epoch
    → IsU32 r.id
    → response_of_packet (admission_packet r) r.status ≡ r
unfolding response_of_packet admission_packet
response_of_admission_packet r he hi = rw (join_masked r.epoch he, join_masked r.id hi)

decode_admission_packet_lem :
    (r : AdmissionResponse)
    → IsU32 r.epoch
    → IsU32 r.id
    → is_valid_admission_response r ≡ true
    → decode_admission_packet (admission_packet r) ≡ some r
unfolding decode_admission_packet admission_packet
decode_admission_packet_lem r he hi h =
    ground (arith, status_of_code r.status, response_of_admission_packet r he hi)

admission_packet_size :
    (r : AdmissionResponse)
    → ((admission_packet r).payload_length ≡ 9)
      × (length (admission_packet r).payload ≡ 26)
      × (received (admission_packet r) empty_packet ≡ admission_packet r)
unfolding admission_packet
admission_packet_size r = (refl, refl, refl)

-- A valid response, with its words in range, is encoded in any buffer of 15 bytes as exactly 15
-- bytes, and decoding them gives the response back.
pub decode_admission-encode_admission :
    (r : AdmissionResponse) (room : ℕ)
    → IsU32 r.epoch
    → IsU32 r.id
    → is_valid_admission_response r ≡ true
    → 15 ≤ room
    → (bytes : List ℕ) × (encode_admission_response r (some room) ≡ some bytes)
      × (length bytes ≡ 15)
      × (decode_admission_response (some bytes) ≡ some r)
unfolding encode_admission_response decode_admission_response
decode_admission-encode_admission r room he hi h c =
    let (l, s, q) = admission_packet_size r in
    let (bytes, enc, size, dec) =
      decode-encode (admission_packet r) empty_packet room (omega arith) (omega arith)
        (omega arith) in
    (
      bytes,
      rw h enc,
      omega arith,
      rw (dec ∙ ap some q, decode_admission_response) (decode_admission_packet_lem r he hi h),
    )

code_le : (s : AdmissionStatus) → admission_status_code s ≤ 4
code_le admitted = omega arith
code_le capacity = omega arith
code_le identity_content_mismatch = omega arith
code_le unsupported_event = omega arith
code_le malformed_event = omega arith

made_valid :
    (e : Event) (s : AdmissionStatus)
    → is_valid_event e ≡ true
    → is_valid_admission_response (make_admission_response e s) ≡ true
unfolding is_valid_event is_valid_admission_response make_admission_response
made_valid e s h = ground (arith, code_le s)

matches_made :
    (e : Event) (s : AdmissionStatus)
    → is_valid_event e ≡ true
    → matches_event (make_admission_response e s) e ≡ true
unfolding matches_event make_admission_response
matches_made e s h = ground (arith, made_valid e s h)

response_of_matches :
    (r : AdmissionResponse) (e : Event)
    → matches_event r e ≡ true
    → r ≡ make_admission_response e r.status
unfolding matches_event make_admission_response
response_of_matches r e h = ground arith

-- A response matches a valid Event exactly when it is the response that the Hub makes for that
-- Event with the response's own status; in particular every response so made is valid and matches.
pub matches_event_iff :
    (r : AdmissionResponse) (e : Event)
    → is_valid_event e ≡ true
    → (matches_event r e ≡ true) ↔ (r ≡ make_admission_response e r.status)
matches_event_iff r e h = (
  response_of_matches r e,
  λ q.
      subst (λ (t : AdmissionResponse). matches_event t e ≡ true) (sym q)
        (matches_made e r.status h),
)
