-- ===== src/EventRecords/NodeMetadata/Range.antt =====
-- What `decodeNodeMetadata` accepts is metadata that `encodeNodeMetadata` would store
-- (lib/event_storage/src/event_records.h).
use argus_redline.Base.{
  ℕ, zero, suc, ◌≡◌, ◌≢◌, refl, arith, true, false, none, some, List, [], ◌∷◌, get_or, drop,
  all_zero, IsByte, All, Bool-cases, inl, inr, subst,
}
use argus_redline.Base.Words.{IsU32, join_u32, join_u32_sum}
use argus_redline.EventRecords.Envelope.{
  Result-cases, ok, err, read_u32_le, validate_envelope, invalid_metadata, nonzero_reserved,
}
use argus_redline.EventRecords.NodeMetadata.{
  NodeMetadata, IsMetadata, decode_node_metadata, decode_node_metadata_for_selection, unpack,
  accept, node_metadata_fields, has_zero_field, node_metadata_magic,
}

get_or-IsByte : (xs : List ℕ) (i : ℕ) → All IsByte xs → IsByte (get_or xs i 0)
get_or-IsByte [] i h = omega arith
get_or-IsByte (x ∷ xs) zero h = h.0
get_or-IsByte (x ∷ xs) (suc i) h = get_or-IsByte xs i h.1

join_u32-IsU32 :
    (b0 b1 b2 b3 : ℕ) → IsByte b0 → IsByte b1 → IsByte b2 → IsByte b3 → IsU32 (join_u32 b0 b1 b2 b3)
join_u32-IsU32 b0 b1 b2 b3 h0 h1 h2 h3 = rw (join_u32_sum b0 b1 b2 b3 h0 h1 h2) (omega arith)

read_u32_le-IsU32 : (xs : List ℕ) (i : ℕ) → All IsByte xs → IsU32 (read_u32_le xs i)
unfolding read_u32_le
read_u32_le-IsU32 xs i h =
    join_u32-IsU32 _ _ _ _ (get_or-IsByte xs _ h) (get_or-IsByte xs _ h) (get_or-IsByte xs _ h)
      (get_or-IsByte xs _ h)

accept_refuses :
    (value selected : NodeMetadata) → has_zero_field value ≡ true → accept value ≢ ok selected
unfolding accept
accept_refuses value selected z h =
    let q : accept value ≡ err invalid_metadata = rw (z, accept) refl in cc

accept_takes :
    (value selected : NodeMetadata)
    → has_zero_field value ≡ false
    → accept value ≡ ok selected
    → value ≡ selected
unfolding accept
accept_takes value selected z h = let q : accept value ≡ ok value = rw (z, accept) refl in cc

accept_range :
    (value selected : NodeMetadata)
    → IsU32 value.generation
    → IsByte value.custody_source_device_id
    → IsU32 value.event_epoch
    → IsU32 value.next_unreserved_event_id
    → accept value ≡ ok selected
    → IsMetadata selected
unfolding accept
accept_range value selected g s e n h = elim (Bool-cases (has_zero_field value)) [
  | inl z ↦ elim (accept_refuses value selected z h) [ ]
  | inr z ↦ subst IsMetadata (accept_takes value selected z h) (record {
    generation_word = g;
    source_byte = s;
    epoch_word = e;
    next_word = n;
    source_nonzero = ground arith;
    epoch_nonzero = ground arith;
    next_nonzero = ground arith;
  })
]

unpack_range :
    (bytes : List ℕ) (selected : NodeMetadata)
    → All IsByte bytes
    → unpack bytes ≡ ok selected
    → IsMetadata selected
unfolding unpack node_metadata_fields
unpack_range bytes selected b h = elim (Bool-cases (all_zero 3 (drop 13 bytes))) [
  | inl z ↦
      let q : unpack bytes ≡ accept (node_metadata_fields bytes) = rw (z, unpack) refl in
      accept_range (node_metadata_fields bytes) selected (read_u32_le-IsU32 bytes 8 b)
        (get_or-IsByte bytes 12 b) (read_u32_le-IsU32 bytes 16 b) (read_u32_le-IsU32 bytes 20 b) cc
  | inr z ↦ let q : unpack bytes ≡ err nonzero_reserved = rw (z, unpack) refl in cc
]

pub decode_for_selection-IsMetadata :
    (bytes : List ℕ) (selected : NodeMetadata)
    → All IsByte bytes
    → decode_node_metadata_for_selection bytes ≡ some selected
    → IsMetadata selected
unfolding decode_node_metadata_for_selection decode_node_metadata
decode_for_selection-IsMetadata bytes selected b h =
    elim (Result-cases (validate_envelope (some bytes) 28 node_metadata_magic)) [
      | inl (x, e) ↦ elim (Result-cases (unpack bytes)) [
        | inl (y, f) ↦
            let q : decode_node_metadata_for_selection bytes ≡ some y =
              rw (decode_node_metadata_for_selection, decode_node_metadata, e, f) refl in
            unpack_range bytes selected b cc
        | inr (y, f) ↦
            let q : decode_node_metadata_for_selection bytes ≡ none =
              rw (decode_node_metadata_for_selection, decode_node_metadata, e, f) refl in
            cc
      ]
      | inr (x, e) ↦
          let q : decode_node_metadata_for_selection bytes ≡ none =
            rw (decode_node_metadata_for_selection, decode_node_metadata, e) refl in
          cc
    ]
