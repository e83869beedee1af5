-- ===== src/Examples/Records.antt =====
-- The stored records of lib/event_storage/src/event_records.h at concrete values.
use argus_redline.Base.{
  ℕ, ◌≡◌, ◌≢◌, refl, arith, some, List, [], ◌∷◌, ◌++◌, length, replicate, here, there,
}
use argus_redline.EventProtocol.{is_registered_family, is_valid_family_body, expected_body_length}
use argus_redline.EventRecords.Crc32.{crc32, crc32_detects}
use argus_redline.EventRecords.Envelope
use argus_redline.EventRecords.Envelope.{validate_envelope}
use argus_redline.EventRecords.Envelope.Seal.{sum_bytes, validate_envelope-seal}
use argus_redline.EventRecords.Envelope.Integrity.{validate_envelope_detects}
use argus_redline.EventRecords.NodeMetadata
use argus_redline.EventRecords.NodeMetadata.{
  encode_node_metadata, decode_node_metadata, decode-encode_node_metadata,
}
use argus_redline.EventRecords.HubMetadata
use argus_redline.EventRecords.HubMetadata.{
  encode_hub_metadata, decode_hub_metadata, decode-encode_hub_metadata,
}
use argus_redline.EventRecords.HubRecord
use argus_redline.EventRecords.HubRecord.{
  HubRecord, encode_hub_record, decode_hub_record, validate_hub_record, validate_owned,
  valid_hub_state,
}
use argus_redline.EventRecords.HubRecord.RoundTrip as HubRoundTrip
use argus_redline.EventRecords.HubRecord.RoundTrip.{decode-encode_hub_record}
use argus_redline.EventRecords.NodeRecord
use argus_redline.EventRecords.NodeRecord.{
  NodeRecord, encode_node_record, decode_node_record, validate_node_record, validate_held,
  valid_node_state,
}
use argus_redline.EventRecords.NodeRecord.RoundTrip as NodeRoundTrip
use argus_redline.EventRecords.NodeRecord.RoundTrip.{decode-encode_node_record}
use argus_redline.EventRecords.Canonical.{valid_canonical_event}

crc32_detects_example : crc32 (1 ∷ 2 ∷ 3 ∷ []) ≢ crc32 (1 ∷ 9 ∷ 3 ∷ [])
crc32_detects_example =
    crc32_detects {xs = 1 ∷ 2 ∷ 3 ∷ []} {ys = 1 ∷ 9 ∷ 3 ∷ []} (omega arith) (omega arith)
      (there 1 (here 2 9 (3 ∷ []) (omega arith)))

-- A record of twelve bytes, its last four the sum of the others.
abbrev small_image : List ℕ
small_image = b'E' ∷ b'I' ∷ b'D' ∷ b'1' ∷ 1 ∷ 0 ∷ 12 ∷ 0 ∷ []

abbrev small_tail : List ℕ
small_tail = b'I' ∷ b'D' ∷ b'1' ∷ 1 ∷ 0 ∷ 12 ∷ 0 ∷ []

small_accepted :
    validate_envelope
      (some (small_image ++ sum_bytes small_image))
      12
      (b'E' ∷ b'I' ∷ b'D' ∷ b'1' ∷ [])
    ≡ Envelope.ok tt
small_accepted = validate_envelope-seal b'E' b'I' b'D' b'1' 12 [] (omega arith) refl

validate_envelope_detects_example :
    validate_envelope
      (some (b'X' ∷ (small_tail ++ sum_bytes small_image)))
      12
      (b'E' ∷ b'I' ∷ b'D' ∷ b'1' ∷ [])
    ≢ Envelope.ok tt
validate_envelope_detects_example =
    validate_envelope_detects (small_image ++ sum_bytes small_image)
      (b'X' ∷ (small_tail ++ sum_bytes small_image)) (b'E' ∷ b'I' ∷ b'D' ∷ b'1' ∷ []) 12
      (omega arith) (omega arith) (omega arith)
      (here b'E' b'X' (small_tail ++ sum_bytes small_image) (omega arith)) small_accepted

abbrev node_metadata : NodeMetadata.NodeMetadata
node_metadata = record {
  generation = 4;
  custody_source_device_id = 2;
  event_epoch = 5;
  next_unreserved_event_id = 33;
}

decode-encode_node_metadata_example :
    (bytes : List ℕ) × (encode_node_metadata node_metadata (some 28) ≡ Envelope.ok bytes)
    × (length bytes ≡ 28)
    × (decode_node_metadata (some bytes) ≡ Envelope.ok node_metadata)
decode-encode_node_metadata_example = decode-encode_node_metadata node_metadata (omega arith)

abbrev hub_metadata : HubMetadata.HubMetadata
hub_metadata = record { generation = 4; next_unreserved_admission_ordinal = 17 }

decode-encode_hub_metadata_example :
    (bytes : List ℕ) × (encode_hub_metadata hub_metadata (some 24) ≡ Envelope.ok bytes)
    × (length bytes ≡ 24)
    × (decode_hub_metadata (some bytes) ≡ Envelope.ok hub_metadata)
decode-encode_hub_metadata_example = decode-encode_hub_metadata hub_metadata (omega arith)

abbrev hub_record : HubRecord
hub_record = record {
  generation = 1;
  state = HubRecord.active;
  source_device_id = 2;
  family = 0x44;
  flags = 1;
  body_length = 1;
  event_epoch = 5;
  event_id = 33;
  lifetime_budget_seconds = 600;
  admission_ordinal = 16;
  body = 1 ∷ replicate 11 0;
}

hub_record-IsRecord : HubRoundTrip.IsRecord hub_record
hub_record-IsRecord = record {
  generation_word = omega arith;
  state_known = refl;
  state_byte = omega arith;
  source_byte = omega arith;
  family_byte = omega arith;
  flags_byte = omega arith;
  epoch_word = omega arith;
  id_word = omega arith;
  lifetime_word = omega arith;
  ordinal_word = omega arith;
  body_size = refl;
  body_bytes = omega arith;
}

hub_record_valid : validate_hub_record hub_record ≡ Envelope.ok tt
unfolding validate_hub_record validate_owned valid_hub_state valid_canonical_event
    is_registered_family is_valid_family_body expected_body_length
hub_record_valid = refl

decode-encode_hub_record_example :
    (bytes : List ℕ) × (encode_hub_record hub_record (some 56) ≡ Envelope.ok bytes)
    × (length bytes ≡ 56)
    × (decode_hub_record (some bytes) ≡ Envelope.ok hub_record)
decode-encode_hub_record_example =
    decode-encode_hub_record hub_record hub_record-IsRecord hub_record_valid

abbrev node_record : NodeRecord
node_record = record {
  generation = 1;
  state = NodeRecord.queued;
  flags = 1;
  family = 0x44;
  body_length = 1;
  event_epoch = 5;
  event_id = 33;
  lifetime_budget_seconds = 600;
  remaining_active_seconds = 599;
  attempts_used = 1;
  body = 1 ∷ replicate 11 0;
}

node_record-IsRecord : NodeRoundTrip.IsRecord node_record
node_record-IsRecord = record {
  generation_word = omega arith;
  state_known = refl;
  state_byte = omega arith;
  family_byte = omega arith;
  flags_byte = omega arith;
  epoch_word = omega arith;
  id_word = omega arith;
  lifetime_word = omega arith;
  remaining_word = omega arith;
  attempts_byte = omega arith;
  body_size = refl;
  body_bytes = omega arith;
}

node_record_valid : validate_node_record node_record ≡ Envelope.ok tt
unfolding validate_node_record validate_held valid_node_state valid_canonical_event
    is_registered_family is_valid_family_body expected_body_length
node_record_valid = refl

decode-encode_node_record_example :
    (bytes : List ℕ) × (encode_node_record node_record (some 56) ≡ Envelope.ok bytes)
    × (length bytes ≡ 56)
    × (decode_node_record (some bytes) ≡ Envelope.ok node_record)
decode-encode_node_record_example =
    decode-encode_node_record node_record node_record-IsRecord node_record_valid
