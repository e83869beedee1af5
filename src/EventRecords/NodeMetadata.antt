-- ===== src/EventRecords/NodeMetadata.antt =====
-- The Node's metadata of lib/event_storage/src/event_records.h, 28 bytes with the magic EID1.
pub mod Range
use argus_redline.Base.{
  ℕ, ◌≡◌, ◌≢◌, refl, arith, Bool, true, false, not, ◌||◌, Option, none, some, List, [], ◌∷◌, ◌++◌,
  length, get_or, set, take, drop, all_zero, ◌==◌, IsByte, All,
}
use argus_redline.Base.Words.{IsU32, join_u32-split}
use argus_redline.EventRecords.Envelope.{
  Result, ok, err, null_pointer, wrong_length, nonzero_reserved, invalid_metadata, ◌>>◌, check,
  is_ok, pointee, write_u32_le, read_u32_le, validate_envelope, encode_envelope, finish_crc,
}
use argus_redline.EventRecords.Envelope.Seal.{sum_bytes, validate_envelope-seal}

abbrev pub node_metadata_size : ℕ
node_metadata_size = 28

pub record NodeMetadata : Type 0 where
  pub generation : ℕ
  pub custody_source_device_id : ℕ
  pub event_epoch : ℕ
  pub next_unreserved_event_id : ℕ

abbrev node_metadata_magic : List ℕ
node_metadata_magic = b'E' ∷ b'I' ∷ b'D' ∷ b'1' ∷ []

abbrev has_zero_field : NodeMetadata → Bool
has_zero_field value =
    (value.custody_source_device_id == 0)
    || ((value.event_epoch == 0) || (value.next_unreserved_event_id == 0))

unfoldable pub encode_node_metadata : NodeMetadata → Option ℕ → Result (List ℕ)
unfolding encode_envelope write_u32_le finish_crc
encode_node_metadata value none = err null_pointer
encode_node_metadata value (some output_length) = do
  check (output_length == node_metadata_size) wrong_length
  check (not (has_zero_field value)) invalid_metadata
  let header = encode_envelope output_length node_metadata_magic value.generation
  let custody = set header 12 value.custody_source_device_id
  let epoch = write_u32_le custody 16 value.event_epoch
  let next = write_u32_le epoch 20 value.next_unreserved_event_id
  ok (finish_crc next output_length)

node_metadata_fields : List ℕ → NodeMetadata
unfolding read_u32_le
node_metadata_fields input = record {
  generation = read_u32_le input 8;
  custody_source_device_id = get_or input 12 0;
  event_epoch = read_u32_le input 16;
  next_unreserved_event_id = read_u32_le input 20;
}

-- The test on the decoded fields, and the assignment to `value`.
accept : NodeMetadata → Result NodeMetadata
accept decoded = do check (not (has_zero_field decoded)) invalid_metadata; ok decoded

-- What follows the envelope's test.
unpack : List ℕ → Result NodeMetadata
unfolding accept
unpack input = do
  check (all_zero 3 (drop 13 input)) nonzero_reserved
  accept (node_metadata_fields input)

unfoldable pub decode_node_metadata : Option (List ℕ) → Result NodeMetadata
unfolding unpack node_metadata_fields
decode_node_metadata input = do
  validate_envelope input node_metadata_size node_metadata_magic
  unpack (pointee input)

pub decode_node_metadata_for_selection : List ℕ → Option NodeMetadata
decode_node_metadata_for_selection input = is_ok (decode_node_metadata (some input))

-- The ranges of the C types, and the fields that no stored metadata has at zero.
pub record IsMetadata (value : NodeMetadata) : Type 0 where
  pub generation_word : IsU32 value.generation
  pub source_byte : IsByte value.custody_source_device_id
  pub epoch_word : IsU32 value.event_epoch
  pub next_word : IsU32 value.next_unreserved_event_id
  pub source_nonzero : value.custody_source_device_id ≢ 0
  pub epoch_nonzero : value.event_epoch ≢ 0
  pub next_nonzero : value.next_unreserved_event_id ≢ 0

-- The bytes before the sum.
image : NodeMetadata → List ℕ
unfolding encode_envelope write_u32_le
image value = take 24 (
    write_u32_le
      (write_u32_le
        (set (encode_envelope 28 node_metadata_magic value.generation) 12
          value.custody_source_device_id)
        16 value.event_epoch)
      20 value.next_unreserved_event_id)

nonzero : (value : NodeMetadata) → IsMetadata value → has_zero_field value ≡ false
nonzero value v = ground arith

encode_node_metadata-image :
    (value : NodeMetadata)
    → IsMetadata value
    → encode_node_metadata value (some 28) ≡ ok (image value ++ sum_bytes (image value))
unfolding encode_node_metadata image
encode_node_metadata-image value v = rw (nonzero value v)

image-IsByte : (value : NodeMetadata) → IsMetadata value → All IsByte (image value)
unfolding image
image-IsByte value v = omega arith

fields-image :
    (value : NodeMetadata) (sum : List ℕ)
    → IsMetadata value
    → node_metadata_fields (image value ++ sum) ≡ value
unfolding node_metadata_fields image
fields-image value sum v = rw (
  join_u32-split value.generation v.generation_word,
  join_u32-split value.event_epoch v.epoch_word,
  join_u32-split value.next_unreserved_event_id v.next_word,
)

sealed :
    (value : NodeMetadata)
    → IsMetadata value
    → validate_envelope (some (image value ++ sum_bytes (image value))) 28 node_metadata_magic
      ≡ ok tt
unfolding image
sealed value v =
    validate_envelope-seal b'E' b'I' b'D' b'1' 28 (drop 8 (image value)) (image-IsByte value v) refl

reserved_zero :
    (value : NodeMetadata) (sum : List ℕ) → all_zero 3 (drop 13 (image value ++ sum)) ≡ true
unfolding image
reserved_zero value sum = refl

length-image : (value : NodeMetadata) → length (image value ++ sum_bytes (image value)) ≡ 28
unfolding image
length-image value = refl

accept_lem : (value : NodeMetadata) → IsMetadata value → accept value ≡ ok value
unfolding accept
accept_lem value v = rw (nonzero value v)

unpack-image :
    (value : NodeMetadata) (sum : List ℕ)
    → IsMetadata value
    → unpack (image value ++ sum) ≡ ok value
unfolding unpack
unpack-image value sum v =
    rw (reserved_zero value sum, fields-image value sum v) (accept_lem value v)

-- Metadata whose identifiers are not zero, with words in range, is encoded as 28 bytes, and decoding
-- them gives it back.
pub decode-encode_node_metadata :
    (value : NodeMetadata)
    → IsMetadata value
    → (bytes : List ℕ) × (encode_node_metadata value (some 28) ≡ ok bytes)
      × (length bytes ≡ 28)
      × (decode_node_metadata (some bytes) ≡ ok value)
unfolding decode_node_metadata
decode-encode_node_metadata value v = (
  image value ++ sum_bytes (image value),
  encode_node_metadata-image value v,
  length-image value,
  rw (sealed value v) (unpack-image value (sum_bytes (image value)) v),
)
