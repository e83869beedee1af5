-- ===== src/Protocol.antt =====
-- lib/redline_protocol/src/redline_protocol.h: the packets of the radio link. An input pointer is
-- `none` where it is null; an output buffer is `none` where it is null and its capacity otherwise,
-- and what a call writes to it is its result, whose length is `encodedLength`.
pub mod RoundTrip
use argus_redline.Base.{
  ℕ, ◌+◌, ◌*◌, ◌/◌, ◌^◌, bit_and, bit_or, Bool, true, false, not, ◌&&◌, ◌||◌, Option, none, some,
  List, [], ◌∷◌, ◌++◌, ltb, leb, ◌==◌, if◌then◌else◌, length, get_or, take, drop, replicate, copy,
}
use argus_redline.Base.Words.{u8}

abbrev pub version : ℕ
version = 1

abbrev pub header_size : ℕ
header_size = 6

abbrev pub max_payload_size : ℕ
max_payload_size = 26

abbrev pub opcode_application_min : ℕ
opcode_application_min = 0x20

abbrev pub opcode_application_max : ℕ
opcode_application_max = 0x7f

abbrev pub opcode_test : ℕ
opcode_test = 0x64

pub data PacketType : Type 0 where
  command ack error response event : PacketType

abbrev pub packet_type_code : PacketType → ℕ
packet_type_code command = 1
packet_type_code ack = 2
packet_type_code error = 3
packet_type_code response = 4
packet_type_code event = 5

-- The cast of a number to the enumeration, with the test by which `decode` refuses the others.
abbrev pub packet_type_of_code : ℕ → Option PacketType
packet_type_of_code n =
    if n == 1
    then some command
    else if n == 2
    then some ack
    else if n == 3
    then some error
    else if n == 4
    then some response
    else if n == 5
    then some event
    else none

abbrev pub same_type : PacketType → PacketType → Bool
same_type a b = packet_type_code a == packet_type_code b

pub data AckStatus : Type 0 where
  success unsupported_opcode malformed_packet : AckStatus

abbrev pub ack_status_code : AckStatus → ℕ
ack_status_code success = 0
ack_status_code unsupported_opcode = 1
ack_status_code malformed_packet = 2

unfoldable pub is_supported_command_opcode : ℕ → Bool
is_supported_command_opcode opcode = opcode == opcode_test

unfoldable pub expected_command_payload_length : ℕ → ℕ
expected_command_payload_length opcode = if opcode == opcode_test then 0 else max_payload_size + 1

unfoldable pub is_valid_command_payload : ℕ → ℕ → Bool
is_valid_command_payload opcode payload_length =
    let expected = expected_command_payload_length opcode in
    leb expected max_payload_size && (payload_length == expected)

pub is_valid_ack_status : ℕ → Bool
is_valid_ack_status value =
    (value == ack_status_code success)
    || ((value == ack_status_code unsupported_opcode)
        || (value == ack_status_code malformed_packet))

-- `payload` is the whole array of 26 bytes, of which the first `payload_length` are sent.
pub record Packet : Type 0 where
  pub type : PacketType
  pub source : ℕ
  pub destination : ℕ
  pub sequence : ℕ
  pub opcode : ℕ
  pub payload_length : ℕ
  pub payload : List ℕ

-- `Protocol::Packet packet = {};`, which leaves `type` at 0; every use sets or decodes it.
abbrev pub empty_packet : Packet
empty_packet = record {
  type = command;
  source = 0;
  destination = 0;
  sequence = 0;
  opcode = 0;
  payload_length = 0;
  payload = replicate 26 0;
}

unfoldable pub make_control : PacketType → ℕ
make_control t = u8 (bit_or (version * 2 ^ 4) (bit_and (packet_type_code t) 0x0f))

unfoldable pub get_version : ℕ → ℕ
get_version control = control / 2 ^ 4

unfoldable pub get_packet_type : ℕ → Option PacketType
get_packet_type control = packet_type_of_code (bit_and control 0x0f)

header_bytes : Packet → List ℕ
header_bytes p =
    make_control p.type ∷ p.source ∷ p.destination ∷ p.sequence ∷ p.opcode ∷ p.payload_length ∷ []

unfoldable pub encode : Packet → Option ℕ → Option (List ℕ)
unfolding header_bytes
encode p none = none
encode p (some capacity) =
    if ltb max_payload_size p.payload_length
    then none
    else if ltb capacity (header_size + p.payload_length)
    then none
    else some (header_bytes p ++ take p.payload_length p.payload)

-- The packet that `decode` writes over `p`, whose payload keeps what lies past the new length.
decode_fields : List ℕ → Packet → PacketType → Packet
decode_fields input p t = record {
  type = t;
  source = get_or input 1 0;
  destination = get_or input 2 0;
  sequence = get_or input 3 0;
  opcode = get_or input 4 0;
  payload_length = get_or input 5 0;
  payload = copy (get_or input 5 0) p.payload (drop header_size input);
}

unfoldable pub decode : Option (List ℕ) → Packet → Option Packet
unfolding decode_fields
decode none p = none
decode (some input) p =
    if ltb (length input) header_size
    then none
    else if not (get_version (get_or input 0 0) == version)
    then none
    else if ltb max_payload_size (get_or input 5 0)
    then none
    else if not (length input == header_size + get_or input 5 0)
    then none
    else elim (get_packet_type (get_or input 0 0)) [
      | none ↦ none
      | some t ↦ some (decode_fields input p t)
    ]

unfoldable pub is_addressed_to : Packet → ℕ → Bool
is_addressed_to p device_id = p.destination == device_id
