-- ===== src/EventIdentity/Commit.antt =====
-- What a successful `commitMetadata` has done, and what a failed one leaves.
use argus_redline.Base.{
  ℕ, ◌≡◌, refl, ap, ap₂, ◌∙◌, some, List, true, false, bytes_equal, eq_of_bytes_equal, length,
  replicate, length-copy, Bool-cases, inl, inr, ◌==◌,
}
use argus_redline.EventRecords.Envelope
use argus_redline.EventRecords.NodeMetadata.{
  NodeMetadata, IsMetadata, encode_node_metadata, decode_node_metadata, decode-encode_node_metadata,
}
use argus_redline.EventStore.{CopySlot, classify_read_back}
use argus_redline.EventIdentity.Interface.{Device, Read, StorageResult}
use argus_redline.EventIdentity.{
  Machine, Allocator, Attempt, Status, done, failed, is_failure, M, ◌>>=◌, ◌>>◌, modify, encode,
  decode, write_slot, commit_storage, read_back, require_whole, require_match, require_ok,
  require_class, adopt, verify, store, commit_to, commit_metadata, target_slot,
}

-- How the allocator looks after a call of `fail`.
abbrev pub failed_with : Status → Allocator → Allocator
failed_with e c = record c { is_ready = false; status = e }

module _ (device : Device) where
  -- What holds of a result, by its two cases.
  abbrev pub After :
      {A : Type 0}
      → (A → Machine device → Type 0)
      → (Status → Machine device → Type 0)
      → Attempt A × Machine device
      → Type 0
  After P Q (done x, t) = P x t
  After P Q (failed e, t) = Q e t

  pub After-bind :
      {A B : Type 0} (P : A → Machine device → Type 0) (P' : B → Machine device → Type 0)
      (Q : Status → Machine device → Type 0) (m : M device A) (f : A → M device B)
      (s : Machine device)
      → After P Q (m s)
      → ((x : A) (u : Machine device) → P x u → After P' Q (f x u))
      → After P' Q (◌>>=◌ device m f s)
  After-bind {A} {B} P P' Q m f s h k = go (m s) h
    where
      go :
          (r : Attempt A × Machine device)
          → After P Q r
          → After P' Q (elim r.0 [ done x ↦ f x r.1 | failed e ↦ (failed e, r.1) ])
      go (done x, u) h = k x u h
      go (failed e, u) h = h

  module _ (c : Allocator) where
    -- A step that fails records the status, and loses nothing else.
    abbrev pub Fails : Status → Machine device → Type 0
    Fails e t = (t.allocator ≡ failed_with e c) × (is_failure e ≡ true)

    require_ok-After :
        (r : StorageResult) (s : Machine device)
        → s.allocator ≡ c
        → After (λ x t. t.allocator ≡ c) Fails (require_ok device r s)
    require_ok-After StorageResult.ok s h = h
    require_ok-After StorageResult.missing s h = (ap (failed_with _) h, refl)
    require_ok-After StorageResult.unavailable s h = (ap (failed_with _) h, refl)
    require_ok-After StorageResult.error s h = (ap (failed_with _) h, refl)

    -- A read-back fills the array of 28 bytes.
    require_whole-After :
        (q : StorageResult) (r : Read) (s : Machine device)
        → s.allocator ≡ c
        → After (λ x t. (t.allocator ≡ c) × (length x ≡ 28)) Fails (require_whole device q r s)
    unfolding require_whole
    require_whole-After StorageResult.ok r s h = elim (Bool-cases (r.length == 28)) [
      | inl e ↦ rw (e, require_whole) (h, length-copy 28 (replicate 28 0) r.bytes)
      | inr e ↦ rw (e, require_whole) (ap (failed_with _) h, refl)
    ]
    require_whole-After StorageResult.missing r s h = (ap (failed_with _) h, refl)
    require_whole-After StorageResult.unavailable r s h = (ap (failed_with _) h, refl)
    require_whole-After StorageResult.error r s h = (ap (failed_with _) h, refl)

    encode-After :
        (next : NodeMetadata) (s : Machine device)
        → s.allocator ≡ c
        → After
            (λ x t. (t.allocator ≡ c) × (encode_node_metadata next (some 28) ≡ Envelope.ok x))
            Fails
            (encode device next s)
    unfolding encode
    encode-After next s h = elim (Envelope.Result-cases (encode_node_metadata next (some 28))) [
      | inl (x, e) ↦ rw (e, encode) (h, refl)
      | inr (x, e) ↦ rw (e, encode) (ap (failed_with _) h, refl)
    ]

    decode-After :
        (bytes : List ℕ) (s : Machine device)
        → s.allocator ≡ c
        → After
            (λ x t. (t.allocator ≡ c) × (decode_node_metadata (some bytes) ≡ Envelope.ok x))
            Fails
            (decode device bytes s)
    unfolding decode
    decode-After bytes s h = elim (Envelope.Result-cases (decode_node_metadata (some bytes))) [
      | inl (x, e) ↦ rw (e, decode) (h, refl)
      | inr (x, e) ↦ rw (e, decode) (ap (failed_with _) h, refl)
    ]

    require_match-After :
        (written bytes : List ℕ) (s : Machine device)
        → s.allocator ≡ c
        → After
            (λ x t. (t.allocator ≡ c) × (bytes_equal 28 written bytes ≡ true))
            Fails
            (require_match device written bytes s)
    unfolding require_match classify_read_back
    require_match-After written bytes s h = elim (Bool-cases (bytes_equal 28 written bytes)) [
      | inl e ↦ rw (e, require_match, require_class) (h, e)
      | inr e ↦ rw (e, require_match, require_class) (ap (failed_with _) h, refl)
    ]

    -- The bytes that were read back are those that were written, so they decode to `next`.
    verified_lem :
        (next verified : NodeMetadata) (encoded bytes : List ℕ)
        → IsMetadata next
        → encode_node_metadata next (some 28) ≡ Envelope.ok encoded
        → length bytes ≡ 28
        → decode_node_metadata (some bytes) ≡ Envelope.ok verified
        → bytes_equal 28 encoded bytes ≡ true
        → verified ≡ next
    verified_lem next verified encoded bytes v e l d q =
        let (written, e', l', d') = decode-encode_node_metadata next v in
        let same : encoded ≡ written = cc in
        let whole : encoded ≡ bytes =
          eq_of_bytes_equal 28 encoded bytes (ap length same ∙ l') l q in
        cc

    module _ (next : NodeMetadata) (v : IsMetadata next) (target : CopySlot) where
      abbrev Adopted : Unit {0} → Machine device → Type 0
      Adopted u t = t.allocator ≡ adopt device next target c

      After-step :
          {A : Type 0} (P : A → Machine device → Type 0) (m : M device A)
          (f : A → M device (Unit {0})) (s : Machine device)
          → After P Fails (m s)
          → ((x : A) (u : Machine device) → P x u → After Adopted Fails (f x u))
          → After Adopted Fails (◌>>=◌ device m f s)
      After-step P m f s h k = After-bind P Adopted Fails m f s h k

      verify-After :
          (encoded bytes : List ℕ) (s : Machine device)
          → encode_node_metadata next (some 28) ≡ Envelope.ok encoded
          → length bytes ≡ 28
          → s.allocator ≡ c
          → After Adopted Fails (verify device target encoded bytes s)
      unfolding verify
      verify-After encoded bytes s e l h =
          After-step
            (λ x t. (t.allocator ≡ c) × (decode_node_metadata (some bytes) ≡ Envelope.ok x))
            (decode device bytes)
            (λ verified.
              ◌>>◌ device (require_match device encoded bytes)
                (modify device (adopt device verified target)))
            s (decode-After bytes s h)
            λ verified t p.
              After-step (λ x u. (u.allocator ≡ c) × (bytes_equal 28 encoded bytes ≡ true))
                (require_match device encoded bytes)
                (λ _. modify device (adopt device verified target)) t
                (require_match-After encoded bytes t p.0)
                λ x u q.
                  ap₂ (λ (m : NodeMetadata) (d : Allocator). adopt device m target d)
                    (verified_lem next verified encoded bytes v e l p.1 q.1) q.0

      store-After :
          (encoded : List ℕ) (s : Machine device)
          → encode_node_metadata next (some 28) ≡ Envelope.ok encoded
          → s.allocator ≡ c
          → After Adopted Fails (store device target encoded s)
      unfolding store write_slot commit_storage read_back
      store-After encoded s e h =
          After-step (λ x t. t.allocator ≡ c) (write_slot device target encoded)
            (λ _.
              ◌>>◌ device (commit_storage device)
                (◌>>=◌ device (read_back device target) (verify device target encoded)))
            s (require_ok-After (device.write target encoded s.world).0 _ h)
            λ x t p.
              After-step (λ x u. u.allocator ≡ c) (commit_storage device)
                (λ _. ◌>>=◌ device (read_back device target) (verify device target encoded)) t
                (require_ok-After (device.commit t.world).0 _ p)
                λ y u q.
                  After-step (λ bytes r. (r.allocator ≡ c) × (length bytes ≡ 28))
                    (read_back device target) (verify device target encoded) u
                    (require_whole-After (device.read target u.world).0.result _ _ q)
                    λ bytes r g. verify-After encoded bytes r e g.1 g.0

      commit_to-After :
          (s : Machine device)
          → s.allocator ≡ c
          → After Adopted Fails (commit_to device next target s)
      unfolding commit_to
      commit_to-After s h =
          After-step
            (λ x t. (t.allocator ≡ c) × (encode_node_metadata next (some 28) ≡ Envelope.ok x))
            (encode device next) (store device target) s (encode-After next s h)
            λ encoded t p. store-After encoded t p.1 p.0

  -- On metadata that is fit to be stored, `commitMetadata` either adopts exactly that metadata, in
  -- the slot opposite to the active one (A if there is none yet), and becomes ready with an empty
  -- block at its next identifier; or it fails and changes nothing but `ready_` and `status_`.
  pub commit_metadata-After :
      (next : NodeMetadata) (s : Machine device)
      → IsMetadata next
      → After
          (λ u t. t.allocator ≡ adopt device next (target_slot device s.allocator) s.allocator)
          (λ e t. (t.allocator ≡ failed_with e s.allocator) × (is_failure e ≡ true))
          (commit_metadata device next s)
  unfolding commit_metadata
  commit_metadata-After next s v =
      commit_to-After s.allocator next v (target_slot device s.allocator) s refl
