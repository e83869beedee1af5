-- ===== src/HostProtocol/Frame.antt =====
-- The frames of lib/host_protocol/src/host_protocol.h: `encodeFrame` and `decodeFrame`.
use argus_redline.Base.{
  ℕ, ◌+◌, ◌-◌, ◌*◌, ◌/◌, ◌^◌, bit_or, Bool, true, false, not, ◌&&◌, ◌||◌, Option, none, some, List,
  [], ◌∷◌, ◌++◌, ltb, leb, ◌==◌, if◌then◌else◌, length, get_or, take, drop, replicate, copy,
}
use argus_redline.Base.Words.{u8, join_u16}
use argus_redline.HostProtocol.Cobs
use argus_redline.HostProtocol.Cobs.{max_decoded_frame_size, cobs_encode, cobs_decode}
use argus_redline.HostProtocol.Crc16.{crc16_ccitt_false}
pub mod RoundTrip

abbrev pub max_payload_size : ℕ
max_payload_size = 128

abbrev pub decoded_header_size : ℕ
decoded_header_size = 8

abbrev pub min_decoded_frame_size : ℕ
min_decoded_frame_size = 10

abbrev pub max_encoded_frame_size : ℕ
max_encoded_frame_size = 140

-- A value of the enumeration's type that it does not name is `unknown`.
pub data MessageType : Type 0 where
  hello_request hello_response operation_request operation_response protocol_error : MessageType
  unknown : ℕ → MessageType

abbrev pub message_type_code : MessageType → ℕ
message_type_code hello_request = 0x01
message_type_code hello_response = 0x02
message_type_code operation_request = 0x10
message_type_code operation_response = 0x11
message_type_code protocol_error = 0x7f
message_type_code (unknown n) = n

abbrev pub message_type_of_code : ℕ → MessageType
message_type_of_code n =
    if n == 0x01
    then hello_request
    else if n == 0x02
    then hello_response
    else if n == 0x10
    then operation_request
    else if n == 0x11
    then operation_response
    else if n == 0x7f
    then protocol_error
    else unknown n

abbrev pub is_known_message_type : MessageType → Bool
is_known_message_type (unknown n) = false
is_known_message_type _ = true

pub record Frame : Type 0 where
  pub major : ℕ
  pub minor : ℕ
  pub message_type : MessageType
  pub flags : ℕ
  pub request_id : ℕ
  pub payload_length : ℕ
  pub payload : List ℕ

abbrev pub is_supported_version : ℕ → ℕ → Bool
is_supported_version major minor = (major == 0) && (leb 1 minor && leb minor 2)

abbrev pub has_supported_flags : ℕ → Bool
has_supported_flags flags = flags == 0

abbrev pub is_reserved_request_id : ℕ → Bool
is_reserved_request_id request_id = request_id == 0

abbrev pub is_valid_request_id : ℕ → Bool
is_valid_request_id request_id = leb 1 request_id

abbrev is_protocol_error : MessageType → Bool
is_protocol_error protocol_error = true
is_protocol_error _ = false

abbrev pub is_valid_envelope_request_id : MessageType → ℕ → Bool
is_valid_envelope_request_id message_type request_id =
    is_valid_request_id request_id
    || (is_protocol_error message_type && is_reserved_request_id request_id)

-- `EncodeResult` but for `OK`.
pub data EncodeError : Type 0 where
  null_argument payload_too_large unsupported_version unsupported_message_type : EncodeError
  unsupported_flags invalid_request_id output_too_small : EncodeError

pub data Encoded : Type 0 where
  ok : List ℕ → Encoded
  err : EncodeError → Encoded

-- The decoded bytes before the sum.
body : Frame → List ℕ
body f =
    f.major
    ∷ f.minor
    ∷ message_type_code f.message_type
    ∷ f.flags
    ∷ u8 f.request_id
    ∷ u8 (f.request_id / 2 ^ 8)
    ∷ u8 f.payload_length
    ∷ u8 (f.payload_length / 2 ^ 8)
    ∷ take f.payload_length f.payload

abbrev crc_bytes : ℕ → List ℕ
crc_bytes crc = u8 crc ∷ u8 (crc / 2 ^ 8) ∷ []

decoded_bytes : Frame → List ℕ
unfolding body
decoded_bytes f = body f ++ crc_bytes (crc16_ccitt_false (body f))

-- What follows the tests on the frame, in a buffer of `capacity`.
encode_decoded : List ℕ → ℕ → Encoded
encode_decoded decoded capacity =
    if capacity == 0
    then err output_too_small
    else elim (cobs_encode decoded (some (capacity - 1))) [
      | Cobs.err Cobs.output_too_small ↦ err output_too_small
      | Cobs.err _ ↦ err null_argument
      | Cobs.ok candidate ↦
          if leb capacity (length candidate)
          then err output_too_small
          else ok (candidate ++ (0 ∷ []))
    ]

pub encode_frame : Frame → Option ℕ → Encoded
unfolding decoded_bytes encode_decoded
encode_frame f none = err null_argument
encode_frame f (some capacity) =
    if ltb max_payload_size f.payload_length
    then err payload_too_large
    else if not (is_supported_version f.major f.minor)
    then err unsupported_version
    else if not (is_known_message_type f.message_type)
    then err unsupported_message_type
    else if not (has_supported_flags f.flags)
    then err unsupported_flags
    else if not (is_valid_envelope_request_id f.message_type f.request_id)
    then err invalid_request_id
    else encode_decoded (decoded_bytes f) capacity

pub data DecodeResult : Type 0 where
  ok null_argument empty_frame encoded_frame_too_large missing_delimiter malformed_cobs :
      DecodeResult
  decoded_length_invalid payload_too_large length_mismatch crc_mismatch : DecodeResult
  unsupported_message_type unsupported_flags invalid_request_id : DecodeResult
  unsupported_major unsupported_minor : DecodeResult

abbrev decoded_payload_length : List ℕ → ℕ
decoded_payload_length decoded = join_u16 (get_or decoded 6 0) (get_or decoded 7 0)

-- The frame that is taken from bytes with a valid sum; the rest of its payload is 0.
candidate_frame : List ℕ → Frame
candidate_frame decoded = record {
  major = get_or decoded 0 0;
  minor = get_or decoded 1 0;
  message_type = message_type_of_code (get_or decoded 2 0);
  flags = get_or decoded 3 0;
  request_id = join_u16 (get_or decoded 4 0) (get_or decoded 5 0);
  payload_length = decoded_payload_length decoded;
  payload =
      copy (decoded_payload_length decoded) (replicate 128 0) (drop decoded_header_size decoded);
}

-- The vocabulary checks on the frame.
check_vocabulary : Frame → DecodeResult
check_vocabulary f =
    if not (f.major == 0)
    then unsupported_major
    else if ltb f.minor 1 || ltb 2 f.minor
    then unsupported_minor
    else if not (is_known_message_type f.message_type)
    then unsupported_message_type
    else if not (has_supported_flags f.flags)
    then unsupported_flags
    else if not (is_valid_envelope_request_id f.message_type f.request_id)
    then invalid_request_id
    else ok

stored_crc : List ℕ → ℕ → ℕ
stored_crc decoded crc_index =
    join_u16 (get_or decoded crc_index 0) (get_or decoded (crc_index + 1) 0)

-- The tests on the decoded bytes' length and sum.
decode_decoded : List ℕ → Frame → DecodeResult × Frame
decode_decoded decoded frame =
    if ltb (length decoded) min_decoded_frame_size || ltb max_decoded_frame_size (length decoded)
    then (decoded_length_invalid, frame)
    else if ltb max_payload_size (decoded_payload_length decoded)
    then (payload_too_large, frame)
    else if not (length decoded == min_decoded_frame_size + decoded_payload_length decoded)
    then (length_mismatch, frame)
    else if not (
        crc16_ccitt_false (take (decoded_header_size + decoded_payload_length decoded) decoded)
        == stored_crc decoded (decoded_header_size + decoded_payload_length decoded))
    then (crc_mismatch, frame)
    else (check_vocabulary (candidate_frame decoded), candidate_frame decoded)

-- Bytes with their delimiter taken off.
decode_candidate : List ℕ → Frame → DecodeResult × Frame
unfolding decode_decoded
decode_candidate candidate frame = elim (cobs_decode (some candidate) (some 138)) [
  | Cobs.err Cobs.input_too_large ↦ (encoded_frame_too_large, frame)
  | Cobs.err _ ↦ (malformed_cobs, frame)
  | Cobs.ok decoded ↦ decode_decoded decoded frame
]

-- The second component is what the call leaves in `frame`.
pub decode_frame : Option (List ℕ) → Frame → DecodeResult × Frame
unfolding decode_candidate
decode_frame none frame = (null_argument, frame)
decode_frame (some input) frame =
    if length input == 0
    then (empty_frame, frame)
    else if ltb max_encoded_frame_size (length input)
    then (encoded_frame_too_large, frame)
    else if not (get_or input (length input - 1) 0 == 0)
    then (missing_delimiter, frame)
    else if length input - 1 == 0
    then (empty_frame, frame)
    else decode_candidate (take (length input - 1) input) frame
