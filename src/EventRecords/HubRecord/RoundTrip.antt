-- ===== src/EventRecords/HubRecord/RoundTrip.antt =====
-- Hub records survive their 56 bytes.
use argus_redline.Base.{
  ℕ, ◌≤◌, ◌≡◌, ◌⊎◌, inl, inr, refl, ap, sym, arith, true, ◌&&◌, some, List, ◌++◌, length, get_or,
  take, drop, replicate, copy_at, all_zero, leb, IsByte, All, All-append, length-append,
  append_assoc,
}
use argus_redline.Base.Words.{IsU32, join_u32-split}
use argus_redline.EventRecords.Envelope.{
  ok, write_u32_le, read_u32_le, validate_envelope, encode_envelope,
}
use argus_redline.EventRecords.Envelope.Seal.{sum_bytes, validate_envelope-seal, finish_crc-append}
use argus_redline.EventRecords.Canonical.{
  has_zero_tail, copy_body, body_copied, body_reserved, body_tail, valid_canonical_event-le,
}
use argus_redline.EventRecords.HubRecord.{
  HubRecord, hub_state_code, hub_state_of_code, hub_record_magic, hub_record_fields, write_fields,
  content, validate_hub_record, validate_owned, canonical_empty, accept, unpack, encode_hub_record,
  decode_hub_record,
}

-- The ranges of the C types, a state that is an enumerator, and the size of the array.
pub record IsRecord (value : HubRecord) : Type 0 where
  pub generation_word : IsU32 value.generation
  pub state_known : hub_state_of_code (hub_state_code value.state) ≡ value.state
  pub state_byte : IsByte (hub_state_code value.state)
  pub source_byte : IsByte value.source_device_id
  pub family_byte : IsByte value.family
  pub flags_byte : IsByte value.flags
  pub epoch_word : IsU32 value.event_epoch
  pub id_word : IsU32 value.event_id
  pub lifetime_word : IsU32 value.lifetime_budget_seconds
  pub ordinal_word : IsU32 value.admission_ordinal
  pub body_size : length value.body ≡ 12
  pub body_bytes : All IsByte value.body

bound_of_empty : (value : HubRecord) → canonical_empty value ≡ true → value.body_length ≤ 12
unfolding canonical_empty
bound_of_empty value h = ground arith

bound_of_owned : (value : HubRecord) → validate_owned value ≡ ok tt → value.body_length ≤ 12
unfolding validate_owned
bound_of_owned value h =
    ground (arith, valid_canonical_event-le value.source_device_id (content value))

tail_of_empty :
    (value : HubRecord)
    → canonical_empty value ≡ true
    → has_zero_tail value.body_length value.body ≡ true
unfolding canonical_empty
tail_of_empty value h = let e : value.body_length ≡ 0 = ground arith in rw e (ground arith)

tail_of_owned :
    (value : HubRecord)
    → validate_owned value ≡ ok tt
    → has_zero_tail value.body_length value.body ≡ true
unfolding validate_owned
tail_of_owned value h = ground arith

-- A valid record is an empty one or one that holds an Event.
valid_cases :
    (value : HubRecord)
    → validate_hub_record value ≡ ok tt
    → (canonical_empty value ≡ true) ⊎ (validate_owned value ≡ ok tt)
unfolding validate_hub_record
valid_cases value h = ground arith

module _ (value : HubRecord) (v : IsRecord value) (valid : validate_hub_record value ≡ ok tt) where
  length_bound : value.body_length ≤ 12
  length_bound = elim (valid_cases value valid) [
    | inl e ↦ bound_of_empty value e
    | inr o ↦ bound_of_owned value o
  ]

  zero_tail : has_zero_tail value.body_length value.body ≡ true
  zero_tail = elim (valid_cases value valid) [
    | inl e ↦ tail_of_empty value e
    | inr o ↦ tail_of_owned value o
  ]

  head : List ℕ
  unfolding encode_envelope write_u32_le write_fields
  head = take 36 (write_fields value (encode_envelope 56 hub_record_magic value.generation))

  -- The bytes before the sum.
  image : List ℕ
  image = head ++ (value.body ++ replicate 4 0)

  buffered :
      copy_at 36 value.body_length
        (write_fields value (encode_envelope 56 hub_record_magic value.generation))
        value.body
      ≡ image ++ replicate 4 0
  unfolding image head
  buffered = rw (copy_body value.body_length value.body length_bound v.body_size zero_tail) (
      ap (λ (t : List ℕ). head ++ t)
        (sym (append_assoc value.body (replicate 4 0) (replicate 4 0))))

  length-image : length image ≡ 52
  unfolding image head
  length-image = omega (arith, length-append value.body (replicate 4 0), v.body_size)

  encoded : encode_hub_record value (some 56) ≡ ok (image ++ sum_bytes image)
  unfolding encode_hub_record
  encoded = rw (valid, buffered, finish_crc-append image 56 (omega (arith, length-image)))

  head-IsByte : All IsByte head
  unfolding head
  head-IsByte = omega (arith, length_bound)

  image-IsByte : All IsByte image
  unfolding image
  image-IsByte =
      All-append IsByte head (value.body ++ replicate 4 0) head-IsByte
        (All-append IsByte value.body (replicate 4 0) v.body_bytes (omega arith))

  sealed : validate_envelope (some (image ++ sum_bytes image)) 56 hub_record_magic ≡ ok tt
  unfolding image head
  sealed =
      validate_envelope-seal b'H' b'E' b'V' b'1' 56 (drop 8 image) image-IsByte
        (omega (arith, length-image))

  module _ (sum : List ℕ) where
    fields_lem : hub_record_fields (image ++ sum) ≡ value
    unfolding hub_record_fields read_u32_le image head
    fields_lem = rw (
      join_u32-split value.generation v.generation_word,
      join_u32-split value.event_epoch v.epoch_word,
      join_u32-split value.event_id v.id_word,
      join_u32-split value.lifetime_budget_seconds v.lifetime_word,
      join_u32-split value.admission_ordinal v.ordinal_word,
      v.state_known,
      body_copied value.body sum v.body_size,
    )

    reserved_lem :
        (all_zero 3 (drop 17 (image ++ sum)) && all_zero 4 (drop 48 (image ++ sum))) ≡ true
    unfolding image head
    reserved_lem = body_reserved value.body sum v.body_size

    length_lem : get_or (image ++ sum) 16 0 ≡ value.body_length
    unfolding image head
    length_lem = refl

    tail_lem : has_zero_tail value.body_length (drop 36 (image ++ sum)) ≡ true
    unfolding image head
    tail_lem = body_tail value.body sum v.body_size value.body_length length_bound zero_tail

    bound_lem : leb value.body_length 12 ≡ true
    bound_lem = ground (arith, length_bound)

    accept_lem : accept value ≡ ok value
    unfolding accept
    accept_lem = rw valid

    unpack_lem : unpack (image ++ sum) ≡ ok value
    unfolding unpack
    unpack_lem = rw (reserved_lem, length_lem, bound_lem, tail_lem, fields_lem) accept_lem

  -- A valid record, with fields in the ranges of their types, is encoded as 56 bytes, and decoding them
  -- gives it back.
  pub decode-encode_hub_record :
      (bytes : List ℕ) × (encode_hub_record value (some 56) ≡ ok bytes)
      × (length bytes ≡ 56)
      × (decode_hub_record (some bytes) ≡ ok value)
  unfolding decode_hub_record
  decode-encode_hub_record = (
    image ++ sum_bytes image,
    encoded,
    omega (arith, length-append image (sum_bytes image), length-image),
    rw sealed (unpack_lem (sum_bytes image)),
  )
