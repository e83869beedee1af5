-- ===== src/EventRecords/HubMetadata.antt =====
-- The Hub's metadata of lib/event_storage/src/event_records.h, 24 bytes with the magic HAO1.
use argus_redline.Base.{
  ℕ, ◌≡◌, ◌≢◌, refl, arith, true, not, Option, none, some, List, [], ◌∷◌, ◌++◌, length, take, drop,
  all_zero, ◌==◌, IsByte, All,
}
use argus_redline.Base.Words.{IsU32, join_u32-split}
use argus_redline.EventRecords.Envelope.{
  Result, ok, err, null_pointer, wrong_length, nonzero_reserved, invalid_metadata, ◌>>◌, check,
  is_ok, pointee, write_u32_le, read_u32_le, validate_envelope, encode_envelope, finish_crc,
}
use argus_redline.EventRecords.Envelope.Seal.{sum_bytes, validate_envelope-seal}

abbrev pub hub_metadata_size : ℕ
hub_metadata_size = 24

pub record HubMetadata : Type 0 where
  pub generation : ℕ
  pub next_unreserved_admission_ordinal : ℕ

abbrev hub_metadata_magic : List ℕ
hub_metadata_magic = b'H' ∷ b'A' ∷ b'O' ∷ b'1' ∷ []

unfoldable pub encode_hub_metadata : HubMetadata → Option ℕ → Result (List ℕ)
unfolding encode_envelope write_u32_le finish_crc
encode_hub_metadata value none = err null_pointer
encode_hub_metadata value (some output_length) = do
  check (output_length == hub_metadata_size) wrong_length
  check (not (value.next_unreserved_admission_ordinal == 0)) invalid_metadata
  let header = encode_envelope output_length hub_metadata_magic value.generation
  let ordinal = write_u32_le header 12 value.next_unreserved_admission_ordinal
  ok (finish_crc ordinal output_length)

hub_metadata_fields : List ℕ → HubMetadata
unfolding read_u32_le
hub_metadata_fields input = record {
  generation = read_u32_le input 8;
  next_unreserved_admission_ordinal = read_u32_le input 12;
}

-- The test on the decoded fields, and the assignment to `value`.
accept : HubMetadata → Result HubMetadata
accept decoded = do
  check (not (decoded.next_unreserved_admission_ordinal == 0)) invalid_metadata
  ok decoded

-- What follows the envelope's test.
unpack : List ℕ → Result HubMetadata
unfolding accept
unpack input = do
  check (all_zero 4 (drop 16 input)) nonzero_reserved
  accept (hub_metadata_fields input)

unfoldable pub decode_hub_metadata : Option (List ℕ) → Result HubMetadata
unfolding unpack hub_metadata_fields
decode_hub_metadata input = do
  validate_envelope input hub_metadata_size hub_metadata_magic
  unpack (pointee input)

unfoldable pub decode_hub_metadata_for_selection : List ℕ → Option HubMetadata
decode_hub_metadata_for_selection input = is_ok (decode_hub_metadata (some input))

pub record IsMetadata (value : HubMetadata) : Type 0 where
  pub generation_word : IsU32 value.generation
  pub ordinal_word : IsU32 value.next_unreserved_admission_ordinal
  pub ordinal_nonzero : value.next_unreserved_admission_ordinal ≢ 0

-- The bytes before the sum.
image : HubMetadata → List ℕ
unfolding encode_envelope write_u32_le
image value = take 20 (
    write_u32_le (encode_envelope 24 hub_metadata_magic value.generation) 12
      value.next_unreserved_admission_ordinal)

encode_hub_metadata-image :
    (value : HubMetadata)
    → IsMetadata value
    → encode_hub_metadata value (some 24) ≡ ok (image value ++ sum_bytes (image value))
unfolding encode_hub_metadata image
encode_hub_metadata-image value v = ground arith

image-IsByte : (value : HubMetadata) → IsMetadata value → All IsByte (image value)
unfolding image
image-IsByte value v = omega arith

fields-image :
    (value : HubMetadata) (sum : List ℕ)
    → IsMetadata value
    → hub_metadata_fields (image value ++ sum) ≡ value
unfolding hub_metadata_fields image
fields-image value sum v = rw (
  join_u32-split value.generation v.generation_word,
  join_u32-split value.next_unreserved_admission_ordinal v.ordinal_word,
)

sealed :
    (value : HubMetadata)
    → IsMetadata value
    → validate_envelope (some (image value ++ sum_bytes (image value))) 24 hub_metadata_magic
      ≡ ok tt
unfolding image
sealed value v =
    validate_envelope-seal b'H' b'A' b'O' b'1' 24 (drop 8 (image value)) (image-IsByte value v) refl

reserved_zero :
    (value : HubMetadata) (sum : List ℕ) → all_zero 4 (drop 16 (image value ++ sum)) ≡ true
unfolding image
reserved_zero value sum = refl

length-image : (value : HubMetadata) → length (image value ++ sum_bytes (image value)) ≡ 24
unfolding image
length-image value = refl

accept_lem : (value : HubMetadata) → IsMetadata value → accept value ≡ ok value
unfolding accept
accept_lem value v = ground arith

unpack-image :
    (value : HubMetadata) (sum : List ℕ) → IsMetadata value → unpack (image value ++ sum) ≡ ok value
unfolding unpack
unpack-image value sum v =
    rw (reserved_zero value sum, fields-image value sum v) (accept_lem value v)

-- Metadata whose next ordinal is not zero, with words in range, is encoded as 24 bytes, and decoding
-- them gives it back.
pub decode-encode_hub_metadata :
    (value : HubMetadata)
    → IsMetadata value
    → (bytes : List ℕ) × (encode_hub_metadata value (some 24) ≡ ok bytes)
      × (length bytes ≡ 24)
      × (decode_hub_metadata (some bytes) ≡ ok value)
unfolding decode_hub_metadata
decode-encode_hub_metadata value v = (
  image value ++ sum_bytes (image value),
  encode_hub_metadata-image value v,
  length-image value,
  rw (sealed value v) (unpack-image value (sum_bytes (image value)) v),
)
