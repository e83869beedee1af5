-- ===== src/EventRecords/HubRecord.antt =====
-- The Hub's Event records of lib/event_storage/src/event_records.h, 56 bytes with the magic HEV1.
pub mod RoundTrip
use argus_redline.Base.{
  ℕ, ◌≡◌, ◌≢◌, refl, arith, Bool, true, false, not, ◌||◌, Option, none, some, List, [], ◌∷◌, ◌++◌,
  length, get_or, replicate, ◌&&◌, set, copy, copy_at, bit_and, leb, ltb, if◌then◌else◌, set, take,
  drop, all_zero, ◌==◌, IsByte, All,
}
use argus_redline.Base.Words.{IsU32, join_u32-split}
use argus_redline.EventRecords.Envelope.{
  Result, ok, err, null_pointer, invalid_state, invalid_event, nonzero_body_tail, wrong_length,
  nonzero_reserved, ◌>>◌, check, is_ok, pointee, write_u32_le, read_u32_le, validate_envelope,
  encode_envelope, finish_crc,
}
use argus_redline.EventRecords.Envelope.Seal.{sum_bytes, validate_envelope-seal}
use argus_redline.EventRecords.Canonical.{Content, valid_canonical_event, has_zero_tail}
use argus_redline.EventProtocol.{max_body_size}

abbrev pub hub_record_size : ℕ
hub_record_size = 56

abbrev pub hub_record_magic : List ℕ
hub_record_magic = b'H' ∷ b'E' ∷ b'V' ∷ b'1' ∷ []

-- The cast of a stored byte may give a value that is none of the enumerators.
pub data HubState : Type 0 where
  empty active consumed : HubState
  unknown : ℕ → HubState

abbrev pub hub_state_code : HubState → ℕ
hub_state_code empty = 0
hub_state_code active = 1
hub_state_code consumed = 2
hub_state_code (unknown n) = n

abbrev pub hub_state_of_code : ℕ → HubState
hub_state_of_code n =
    if n == 0 then empty else if n == 1 then active else if n == 2 then consumed else unknown n

pub record HubRecord : Type 0 where
  pub generation : ℕ
  pub state : HubState
  pub source_device_id : ℕ
  pub family : ℕ
  pub flags : ℕ
  pub body_length : ℕ
  pub event_epoch : ℕ
  pub event_id : ℕ
  pub lifetime_budget_seconds : ℕ
  pub admission_ordinal : ℕ
  pub body : List ℕ

unfoldable pub valid_hub_state : HubState → Bool
valid_hub_state state = leb (hub_state_code state) (hub_state_code consumed)

unfoldable pub canonical_empty : HubRecord → Bool
canonical_empty value =
    (value.source_device_id == 0)
    && ((value.family == 0)
        && ((value.flags == 0)
            && ((value.body_length == 0)
                && ((value.event_epoch == 0)
                    && ((value.event_id == 0)
                        && ((value.lifetime_budget_seconds == 0)
                            && ((value.admission_ordinal == 0)
                                && all_zero max_body_size value.body)))))))

abbrev pub content : HubRecord → Content
content value = record {
  family = value.family;
  flags = value.flags;
  body_length = value.body_length;
  epoch = value.event_epoch;
  id = value.event_id;
  lifetime = value.lifetime_budget_seconds;
  body = value.body;
}

abbrev pub same_state : HubState → HubState → Bool
same_state a b = hub_state_code a == hub_state_code b

unfoldable pub validate_owned : HubRecord → Result (Unit {0})
validate_owned value = do
  check (not (value.admission_ordinal == 0)) invalid_event
  check (valid_canonical_event value.source_device_id (content value)) invalid_event
  check (has_zero_tail value.body_length value.body) nonzero_body_tail

unfoldable pub validate_hub_record : HubRecord → Result (Unit {0})
validate_hub_record value = do
  check (valid_hub_state value.state) invalid_state
  if same_state value.state empty
      then check (canonical_empty value) invalid_event
      else validate_owned value

-- The fields in front of the body, written into a cleared buffer.
unfoldable pub write_fields : HubRecord → List ℕ → List ℕ
unfolding write_u32_le
write_fields value header =
    let state = set header 12 (hub_state_code value.state) in
    let source = set state 13 value.source_device_id in
    let family = set source 14 value.family in
    let flags = set family 15 value.flags in
    let body_length = set flags 16 value.body_length in
    let epoch = write_u32_le body_length 20 value.event_epoch in
    let id = write_u32_le epoch 24 value.event_id in
    let lifetime = write_u32_le id 28 value.lifetime_budget_seconds in
    write_u32_le lifetime 32 value.admission_ordinal

unfoldable pub encode_hub_record : HubRecord → Option ℕ → Result (List ℕ)
encode_hub_record value none = err null_pointer
encode_hub_record value (some output_length) = do
  check (output_length == hub_record_size) wrong_length
  validate_hub_record value
  let fields = write_fields value (encode_envelope output_length hub_record_magic value.generation)
  ok (finish_crc (copy_at 36 value.body_length fields value.body) output_length)

unfoldable pub hub_record_fields : List ℕ → HubRecord
unfolding read_u32_le
hub_record_fields input = record {
  generation = read_u32_le input 8;
  state = hub_state_of_code (get_or input 12 0);
  source_device_id = get_or input 13 0;
  family = get_or input 14 0;
  flags = get_or input 15 0;
  body_length = get_or input 16 0;
  event_epoch = read_u32_le input 20;
  event_id = read_u32_le input 24;
  lifetime_budget_seconds = read_u32_le input 28;
  admission_ordinal = read_u32_le input 32;
  body = copy max_body_size (replicate 12 0) (drop 36 input);
}

-- The test on the decoded record, and the assignment to `value`.
unfoldable pub accept : HubRecord → Result HubRecord
accept decoded = do validate_hub_record decoded; ok decoded

-- What follows the envelope's test.
unfoldable pub unpack : List ℕ → Result HubRecord
unpack input = do
  check (all_zero 3 (drop 17 input) && all_zero 4 (drop 48 input)) nonzero_reserved
  check (leb (get_or input 16 0) max_body_size) invalid_event
  check (has_zero_tail (get_or input 16 0) (drop 36 input)) nonzero_body_tail
  accept (hub_record_fields input)

unfoldable pub decode_hub_record : Option (List ℕ) → Result HubRecord
decode_hub_record input = do
  validate_envelope input hub_record_size hub_record_magic
  unpack (pointee input)

unfoldable pub decode_hub_record_for_selection : List ℕ → Option HubRecord
decode_hub_record_for_selection input = is_ok (decode_hub_record (some input))
