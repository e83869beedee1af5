-- ===== src/EventRecords/NodeRecord.antt =====
-- The Node's Event records of lib/event_storage/src/event_records.h, 56 bytes with the magic EVT1.
pub mod RoundTrip
use argus_redline.Base.{
  ℕ, ◌≡◌, ◌≢◌, refl, arith, Bool, true, false, not, ◌||◌, Option, none, some, List, [], ◌∷◌, ◌++◌,
  length, get_or, replicate, ◌&&◌, set, copy, copy_at, bit_and, leb, ltb, if◌then◌else◌, set, take,
  drop, all_zero, ◌==◌, IsByte, All,
}
use argus_redline.Base.Words.{IsU32, join_u32-split}
use argus_redline.EventRecords.Envelope.{
  Result, ok, err, null_pointer, invalid_state, invalid_attempts, invalid_lifetime, invalid_event,
  nonzero_body_tail, wrong_length, nonzero_reserved, ◌>>◌, check, is_ok, pointee, write_u32_le,
  read_u32_le, validate_envelope, encode_envelope, finish_crc,
}
use argus_redline.EventRecords.Envelope.Seal.{sum_bytes, validate_envelope-seal}
use argus_redline.EventRecords.Canonical.{Content, valid_canonical_event, has_zero_tail}
use argus_redline.EventProtocol.{max_body_size}

abbrev pub node_record_size : ℕ
node_record_size = 56

abbrev pub max_attempts : ℕ
max_attempts = 5

abbrev pub node_record_magic : List ℕ
node_record_magic = b'E' ∷ b'V' ∷ b'T' ∷ b'1' ∷ []

-- The cast of a stored byte may give a value that is none of the enumerators.
pub data NodeState : Type 0 where
  free queued failed expired : NodeState
  unknown : ℕ → NodeState

abbrev pub node_state_code : NodeState → ℕ
node_state_code free = 0
node_state_code queued = 1
node_state_code failed = 2
node_state_code expired = 3
node_state_code (unknown n) = n

abbrev pub node_state_of_code : ℕ → NodeState
node_state_of_code n =
    if n == 0
    then free
    else if n == 1
    then queued
    else if n == 2
    then failed
    else if n == 3
    then expired
    else unknown n

pub record NodeRecord : Type 0 where
  pub generation : ℕ
  pub state : NodeState
  pub flags : ℕ
  pub family : ℕ
  pub body_length : ℕ
  pub event_epoch : ℕ
  pub event_id : ℕ
  pub lifetime_budget_seconds : ℕ
  pub remaining_active_seconds : ℕ
  pub attempts_used : ℕ
  pub body : List ℕ

unfoldable pub valid_node_state : NodeState → Bool
valid_node_state state = leb (node_state_code state) (node_state_code expired)

unfoldable pub canonical_free : NodeRecord → Bool
canonical_free value =
    (value.flags == 0)
    && ((value.family == 0)
        && ((value.body_length == 0)
            && ((value.event_epoch == 0)
                && ((value.event_id == 0)
                    && ((value.lifetime_budget_seconds == 0)
                        && ((value.remaining_active_seconds == 0)
                            && ((value.attempts_used == 0)
                                && all_zero max_body_size value.body)))))))

abbrev pub content : NodeRecord → Content
content value = record {
  family = value.family;
  flags = value.flags;
  body_length = value.body_length;
  epoch = value.event_epoch;
  id = value.event_id;
  lifetime = value.lifetime_budget_seconds;
  body = value.body;
}

abbrev pub same_state : NodeState → NodeState → Bool
same_state a b = node_state_code a == node_state_code b

unfoldable pub validate_held : NodeRecord → Result (Unit {0})
validate_held value = do
  check (leb value.attempts_used max_attempts) invalid_attempts
  check (leb value.remaining_active_seconds value.lifetime_budget_seconds) invalid_lifetime
  check (valid_canonical_event 1 (content value)) invalid_event
  check (has_zero_tail value.body_length value.body) nonzero_body_tail

unfoldable pub validate_node_record : NodeRecord → Result (Unit {0})
validate_node_record value = do
  check (valid_node_state value.state) invalid_state
  if same_state value.state free
      then check (canonical_free value) invalid_event
      else validate_held value

-- The fields in front of the body, written into a cleared buffer.
unfoldable pub write_fields : NodeRecord → List ℕ → List ℕ
unfolding write_u32_le
write_fields value header =
    let state = set header 12 (node_state_code value.state) in
    let flags = set state 13 value.flags in
    let family = set flags 14 value.family in
    let body_length = set family 15 value.body_length in
    let epoch = write_u32_le body_length 16 value.event_epoch in
    let id = write_u32_le epoch 20 value.event_id in
    let lifetime = write_u32_le id 24 value.lifetime_budget_seconds in
    let remaining = write_u32_le lifetime 28 value.remaining_active_seconds in
    set remaining 32 value.attempts_used

unfoldable pub encode_node_record : NodeRecord → Option ℕ → Result (List ℕ)
encode_node_record value none = err null_pointer
encode_node_record value (some output_length) = do
  check (output_length == node_record_size) wrong_length
  validate_node_record value
  let fields = write_fields value (encode_envelope output_length node_record_magic value.generation)
  ok (finish_crc (copy_at 36 value.body_length fields value.body) output_length)

unfoldable pub node_record_fields : List ℕ → NodeRecord
unfolding read_u32_le
node_record_fields input = record {
  generation = read_u32_le input 8;
  state = node_state_of_code (get_or input 12 0);
  flags = get_or input 13 0;
  family = get_or input 14 0;
  body_length = get_or input 15 0;
  event_epoch = read_u32_le input 16;
  event_id = read_u32_le input 20;
  lifetime_budget_seconds = read_u32_le input 24;
  remaining_active_seconds = read_u32_le input 28;
  attempts_used = get_or input 32 0;
  body = copy max_body_size (replicate 12 0) (drop 36 input);
}

-- The test on the decoded record, and the assignment to `value`.
unfoldable pub accept : NodeRecord → Result NodeRecord
accept decoded = do validate_node_record decoded; ok decoded

-- What follows the envelope's test.
unfoldable pub unpack : List ℕ → Result NodeRecord
unpack input = do
  check (all_zero 3 (drop 33 input) && all_zero 4 (drop 48 input)) nonzero_reserved
  check (leb (get_or input 15 0) max_body_size) invalid_event
  check (has_zero_tail (get_or input 15 0) (drop 36 input)) nonzero_body_tail
  accept (node_record_fields input)

unfoldable pub decode_node_record : Option (List ℕ) → Result NodeRecord
decode_node_record input = do
  validate_envelope input node_record_size node_record_magic
  unpack (pointee input)

pub decode_node_record_for_selection : List ℕ → Option NodeRecord
decode_node_record_for_selection input = is_ok (decode_node_record (some input))
