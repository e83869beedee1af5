-- ===== src/EventProtocol.antt =====
-- lib/event_protocol/src/event_protocol.h: Events and their admission responses as packets.
pub mod Family
pub mod Validity
pub mod RoundTrip
pub mod Admission
use argus_redline.Base.{
  ℕ, ◌+◌, ◌*◌, ◌/◌, ◌^◌, bit_and, Bool, true, false, not, ◌&&◌, ◌||◌, Option, none, some, List, ltb,
  leb, ◌==◌, if◌then◌else◌, length, get_or, set, drop, replicate, copy, copy_at, bytes_equal,
}
use argus_redline.Base.Words.{join_u16, join_u32, u8}
use argus_redline.Protocol.{
  Packet, PacketType, same_type, empty_packet, opcode_application_min, opcode_application_max,
  encode, decode,
}
use argus_redline.Protocol

abbrev pub common_payload_size : ℕ
common_payload_size = 14

abbrev pub max_body_size : ℕ
max_body_size = 12

abbrev pub admission_payload_size : ℕ
admission_payload_size = 9

-- `static_cast<uint8_t>(~ALLOWED_FLAGS)`
abbrev pub forbidden_flags : ℕ
forbidden_flags = 0xfe

abbrev pub min_lifetime_seconds : ℕ
min_lifetime_seconds = 60

abbrev pub max_lifetime_seconds : ℕ
max_lifetime_seconds = 86400

pub data AdmissionStatus : Type 0 where
  admitted capacity identity_content_mismatch unsupported_event malformed_event : AdmissionStatus

abbrev pub admission_status_code : AdmissionStatus → ℕ
admission_status_code admitted = 0
admission_status_code capacity = 1
admission_status_code identity_content_mismatch = 2
admission_status_code unsupported_event = 3
admission_status_code malformed_event = 4

-- The cast to the enumeration; the others are those that `isValidAdmissionStatus` refuses.
abbrev pub admission_status_of_code : ℕ → Option AdmissionStatus
admission_status_of_code n =
    if n == 0
    then some admitted
    else if n == 1
    then some capacity
    else if n == 2
    then some identity_content_mismatch
    else if n == 3
    then some unsupported_event
    else if n == 4
    then some malformed_event
    else none

pub record Identity : Type 0 where
  pub source_device_id : ℕ
  pub epoch : ℕ
  pub id : ℕ

-- `body` is the whole array of 12 bytes, of which the first `body_length` are meant.
pub record Event : Type 0 where
  pub source : ℕ
  pub destination : ℕ
  pub sequence : ℕ
  pub family : ℕ
  pub epoch : ℕ
  pub id : ℕ
  pub flags : ℕ
  pub lifetime_budget_seconds : ℕ
  pub body_length : ℕ
  pub body : List ℕ

pub record AdmissionResponse : Type 0 where
  pub source : ℕ
  pub destination : ℕ
  pub sequence : ℕ
  pub family : ℕ
  pub status : AdmissionStatus
  pub epoch : ℕ
  pub id : ℕ

-- Writes at `output + offset`.
pub write_u32_le : List ℕ → ℕ → ℕ → List ℕ
write_u32_le output offset value =
    set
      (set
        (set (set output offset (bit_and value 0xff)) (offset + 1) (bit_and (value / 2 ^ 8) 0xff))
        (offset + 2) (bit_and (value / 2 ^ 16) 0xff))
      (offset + 3) (bit_and (value / 2 ^ 24) 0xff)

-- Reads at `input + offset`.
pub read_u32_le : List ℕ → ℕ → ℕ
read_u32_le input offset =
    join_u32 (get_or input offset 0) (get_or input (offset + 1) 0) (get_or input (offset + 2) 0)
      (get_or input (offset + 3) 0)

unfoldable pub is_registered_family : ℕ → Bool
is_registered_family family =
    (family == Family.button)
    || ((family == Family.sensor_threshold) || (family == Family.manual_check_in))

unfoldable pub expected_body_length : ℕ → ℕ
expected_body_length family =
    if family == Family.button
    then 1
    else if family == Family.manual_check_in
    then 1
    else if family == Family.sensor_threshold
    then 8
    else max_body_size + 1

unfoldable pub is_valid_button_event : ℕ → Bool
is_valid_button_event value = leb 0x01 value && leb value 0x05

pub is_valid_sensor_value_type : ℕ → Bool
is_valid_sensor_value_type value = leb 0x02 value && leb value 0x06

pub is_valid_threshold_relation : ℕ → Bool
is_valid_threshold_relation value = (value == 0x01) || (value == 0x02)

is_valid_sensor_body : List ℕ → Bool
is_valid_sensor_body body =
    if (join_u16 (get_or body 0 0) (get_or body 1 0) == 0)
      || (not (is_valid_sensor_value_type (get_or body 2 0))
          || not (is_valid_threshold_relation (get_or body 7 0)))
    then false
    else if (get_or body 2 0 == 0x04) || (get_or body 2 0 == 0x06)
    then (get_or body 5 0 == 0) && (get_or body 6 0 == 0)
    else true

-- Every caller passes an array of a record, so `body` is not null.
unfoldable pub is_valid_family_body : ℕ → List ℕ → ℕ → Bool
unfolding expected_body_length is_valid_button_event is_valid_sensor_body
is_valid_family_body family body body_length =
    if not (body_length == expected_body_length family)
    then false
    else if family == Family.button
    then is_valid_button_event (get_or body 0 0)
    else if family == Family.sensor_threshold
    then is_valid_sensor_body body
    else if family == Family.manual_check_in
    then get_or body 0 0 == 0x01
    else false

unfoldable pub has_valid_endpoints : ℕ → ℕ → Bool
has_valid_endpoints source destination =
    not (source == 0) && (not (destination == 0) && not (source == destination))

unfoldable pub is_valid_event : Event → Bool
unfolding has_valid_endpoints is_registered_family
is_valid_event e =
    has_valid_endpoints e.source e.destination
    && (not (e.epoch == 0)
        && (not (e.id == 0)
            && ((bit_and e.flags forbidden_flags == 0)
                && (leb min_lifetime_seconds e.lifetime_budget_seconds
                    && (leb e.lifetime_budget_seconds max_lifetime_seconds
                        && (leb e.body_length max_body_size
                            && (is_registered_family e.family
                                && is_valid_family_body e.family e.body e.body_length)))))))

unfoldable pub same_identity : Identity → Identity → Bool
same_identity left right =
    (left.source_device_id == right.source_device_id)
    && ((left.epoch == right.epoch) && (left.id == right.id))

unfoldable pub same_canonical_content : Event → Event → Bool
same_canonical_content left right =
    if not (left.source == right.source)
      || (not (left.family == right.family)
          || (not (left.epoch == right.epoch)
              || (not (left.id == right.id)
                  || (not (left.flags == right.flags)
                      || (not (left.lifetime_budget_seconds == right.lifetime_budget_seconds)
                          || not (left.body_length == right.body_length))))))
    then false
    else bytes_equal left.body_length left.body right.body

-- The payload that `encodeEvent` fills, before the body is copied behind it.
event_head : Event → List ℕ
unfolding write_u32_le
event_head e =
    set
      (write_u32_le (set (write_u32_le (write_u32_le (replicate 26 0) 0 e.epoch) 4 e.id) 8 e.flags)
        9 e.lifetime_budget_seconds)
      13 e.body_length

event_packet : Event → Packet
unfolding event_head
event_packet e = record {
  type = PacketType.event;
  source = e.source;
  destination = e.destination;
  sequence = e.sequence;
  opcode = e.family;
  payload_length = u8 (common_payload_size + e.body_length);
  payload = copy_at common_payload_size e.body_length (event_head e) e.body;
}

pub encode_event : Event → Option ℕ → Option (List ℕ)
encode_event e output = if not (is_valid_event e) then none else encode (event_packet e) output

-- The fields that `decodeEvent` reads from a packet.
event_of_packet : Packet → Event
unfolding read_u32_le
event_of_packet p = record {
  source = p.source;
  destination = p.destination;
  sequence = p.sequence;
  family = p.opcode;
  epoch = read_u32_le p.payload 0;
  id = read_u32_le p.payload 4;
  flags = get_or p.payload 8 0;
  lifetime_budget_seconds = read_u32_le p.payload 9;
  body_length = get_or p.payload 13 0;
  body = copy (get_or p.payload 13 0) (replicate 12 0) (drop common_payload_size p.payload);
}

decode_event_packet : Packet → Option Event
decode_event_packet p =
    if not (same_type p.type PacketType.event) || ltb p.payload_length common_payload_size
    then none
    else if ltb max_body_size (get_or p.payload 13 0)
        || not (p.payload_length == common_payload_size + get_or p.payload 13 0)
    then none
    else if is_valid_event (event_of_packet p)
    then some (event_of_packet p)
    else none

pub decode_event : Option (List ℕ) → Option Event
unfolding decode_event_packet
decode_event input = elim (decode input empty_packet) [
  | none ↦ none
  | some p ↦ decode_event_packet p
]

unfoldable pub is_correlatable_family : ℕ → Bool
is_correlatable_family family =
    leb opcode_application_min family && leb family opcode_application_max

-- `status` is one of the enumeration, so `isValidAdmissionStatus` holds of it.
unfoldable pub is_valid_admission_response : AdmissionResponse → Bool
unfolding has_valid_endpoints is_correlatable_family
is_valid_admission_response r =
    has_valid_endpoints r.source r.destination
    && (is_correlatable_family r.family
        && (not (r.epoch == 0) && (not (r.id == 0) && leb (admission_status_code r.status) 4)))

admission_packet : AdmissionResponse → Packet
unfolding write_u32_le
admission_packet r = record {
  type = PacketType.ack;
  source = r.source;
  destination = r.destination;
  sequence = r.sequence;
  opcode = r.family;
  payload_length = admission_payload_size;
  payload =
      write_u32_le
        (write_u32_le (set (replicate 26 0) 0 (admission_status_code r.status)) 1 r.epoch) 5 r.id;
}

pub encode_admission_response : AdmissionResponse → Option ℕ → Option (List ℕ)
encode_admission_response r output =
    if not (is_valid_admission_response r) then none else encode (admission_packet r) output

response_of_packet : Packet → AdmissionStatus → AdmissionResponse
unfolding read_u32_le
response_of_packet p status = record {
  source = p.source;
  destination = p.destination;
  sequence = p.sequence;
  family = p.opcode;
  status = status;
  epoch = read_u32_le p.payload 1;
  id = read_u32_le p.payload 5;
}

-- A status outside the enumeration makes the response invalid.
decode_admission_packet : Packet → Option AdmissionResponse
decode_admission_packet p =
    if not (same_type p.type PacketType.ack) || not (p.payload_length == admission_payload_size)
    then none
    else elim (admission_status_of_code (get_or p.payload 0 0)) [
      | none ↦ none
      | some status ↦
          if is_valid_admission_response (response_of_packet p status)
          then some (response_of_packet p status)
          else none
    ]

pub decode_admission_response : Option (List ℕ) → Option AdmissionResponse
unfolding decode_admission_packet
decode_admission_response input = elim (decode input empty_packet) [
  | none ↦ none
  | some p ↦ decode_admission_packet p
]

unfoldable pub make_admission_response : Event → AdmissionStatus → AdmissionResponse
make_admission_response e status = record {
  source = e.destination;
  destination = e.source;
  sequence = e.sequence;
  family = e.family;
  status = status;
  epoch = e.epoch;
  id = e.id;
}

unfoldable pub matches_event : AdmissionResponse → Event → Bool
matches_event r e =
    is_valid_admission_response r
    && ((r.source == e.destination)
        && ((r.destination == e.source)
            && ((r.sequence == e.sequence)
                && ((r.family == e.family) && ((r.epoch == e.epoch) && (r.id == e.id))))))
