-- ===== src/HubEventLedger/Commits/Records.antt =====
-- `commitRecord` and `commitMetadata` of lib/hub_event_ledger/src/hub_event_ledger.h, on an honest
-- storage.
use argus_redline.Base.{ℕ, ◌≡◌, refl, ap, ap₂, some, none, List, [], length}
use argus_redline.Base.Methods.{After, After-bind}
use argus_redline.EventRecords.Envelope
use argus_redline.EventRecords.Envelope.{is_ok, validate_envelope}
use argus_redline.EventRecords.HubRecord.{
  HubRecord, validate_hub_record, encode_hub_record, decode_hub_record,
  decode_hub_record_for_selection,
}
use argus_redline.EventRecords.HubRecord.RoundTrip.{IsRecord, decode-encode_hub_record}
use argus_redline.EventRecords.HubMetadata.{
  HubMetadata, IsMetadata, encode_hub_metadata, decode_hub_metadata,
  decode_hub_metadata_for_selection, decode-encode_hub_metadata,
}
use argus_redline.EventStore.{CopySlot}
use argus_redline.HubEventLedger.Interface.{Storage, IsHonest}
use argus_redline.HubEventLedger.{Ledger}
use argus_redline.HubEventLedger.Commits.{
  Machine, record_medium, metadata_medium, put_record, put_metadata, commit_copy, commit_record_to,
  commit_metadata, buffer,
}
use argus_redline.HubEventLedger.Commits.Durable.{IsSound, Fails, commit_copy-After}

-- A record that `encodeHubRecord` accepts, with fields in the ranges of their types.
pub record IsStorable (r : HubRecord) : Type 0 where
  pub typed : IsRecord r
  pub accepted : validate_hub_record r ≡ Envelope.ok tt

coded_record :
    (r : HubRecord) (bytes : List ℕ)
    → IsStorable r
    → is_ok (encode_hub_record r (some 56)) ≡ some bytes
    → (decode_hub_record_for_selection bytes ≡ some r) × (length bytes ≡ 56)
unfolding decode_hub_record_for_selection
coded_record r bytes v e =
    let (written, e', l, d) = decode-encode_hub_record r v.typed v.accepted in
    let encoded : is_ok (encode_hub_record r (some 56)) ≡ some written = ap is_ok e' in
    let same : bytes ≡ written = cc in rw same (ap is_ok d, l)

blank_record : decode_hub_record_for_selection (buffer 56 []) ≡ none
unfolding decode_hub_record_for_selection decode_hub_record validate_envelope Envelope.same_magic
blank_record = refl

coded_metadata :
    (m : HubMetadata) (bytes : List ℕ)
    → IsMetadata m
    → is_ok (encode_hub_metadata m (some 24)) ≡ some bytes
    → (decode_hub_metadata_for_selection bytes ≡ some m) × (length bytes ≡ 24)
unfolding decode_hub_metadata_for_selection
coded_metadata m bytes v e =
    let (written, e', l, d) = decode-encode_hub_metadata m v in
    let encoded : is_ok (encode_hub_metadata m (some 24)) ≡ some written = ap is_ok e' in
    let same : bytes ≡ written = cc in rw same (ap is_ok d, l)

blank_metadata : decode_hub_metadata_for_selection (buffer 24 []) ≡ none
unfolding decode_hub_metadata_for_selection decode_hub_metadata validate_envelope
    Envelope.same_magic
blank_metadata = refl

module _ (storage : Storage) (honest : IsHonest storage) where
  record_medium-IsSound : (slot : ℕ) → IsSound storage (record_medium storage slot) IsStorable
  record_medium-IsSound slot = record {
    decode-encode = coded_record;
    decode-blank = blank_record;
    stored = honest.stored slot;
    read_gives = honest.read_gives slot;
    read_keeps = honest.read_keeps slot slot;
  }

  metadata_medium-IsSound : IsSound storage (metadata_medium storage) IsMetadata
  metadata_medium-IsSound = record {
    decode-encode = coded_metadata;
    decode-blank = blank_metadata;
    stored = honest.stored_metadata;
    read_gives = honest.read_metadata_gives;
    read_keeps = honest.read_metadata_keeps;
  }

  -- On an honest storage, a commit of a record that can be stored puts exactly that record into its slot,
  -- with the target as the active copy; or it fails, and changes only the ledger's health and status.
  pub commit_record_to-After :
      (slot : ℕ) (next : HubRecord) (target : CopySlot) (s : Machine storage)
      → IsStorable next
      → After
          (λ u t. t.ledger ≡ put_record slot next target s.ledger)
          (λ t. Fails (record_medium storage slot) s.ledger t.ledger)
          (commit_record_to storage slot next target s)
  unfolding commit_record_to
  commit_record_to-After slot next target s v =
      After-bind (λ x t. (t.ledger ≡ s.ledger) × (x ≡ next))
        (λ u t. t.ledger ≡ put_record slot next target s.ledger)
        (λ t. Fails (record_medium storage slot) s.ledger t.ledger)
        (commit_copy storage (record_medium storage slot) next target) _ s
        (commit_copy-After storage (record_medium storage slot) s.ledger IsStorable
          (record_medium-IsSound slot) next target s refl v)
        λ x t p. ap₂ (λ (r : HubRecord) (l : Ledger). put_record slot r target l) p.1 p.0

  -- The same of a commit of the metadata, which also makes the ordinals ready.
  pub commit_metadata-After :
      (next : HubMetadata) (target : CopySlot) (s : Machine storage)
      → IsMetadata next
      → After
          (λ u t. t.ledger ≡ put_metadata next target s.ledger)
          (λ t. Fails (metadata_medium storage) s.ledger t.ledger)
          (commit_metadata storage next target s)
  unfolding commit_metadata
  commit_metadata-After next target s v =
      After-bind (λ x t. (t.ledger ≡ s.ledger) × (x ≡ next))
        (λ u t. t.ledger ≡ put_metadata next target s.ledger)
        (λ t. Fails (metadata_medium storage) s.ledger t.ledger)
        (commit_copy storage (metadata_medium storage) next target) _ s
        (commit_copy-After storage (metadata_medium storage) s.ledger IsMetadata
          metadata_medium-IsSound next target s refl v)
        λ x t p. ap₂ (λ (m : HubMetadata) (l : Ledger). put_metadata m target l) p.1 p.0
