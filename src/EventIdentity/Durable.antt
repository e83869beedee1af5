-- ===== src/EventIdentity/Durable.antt =====
-- What the storage of lib/event_identity/src/event_identity.h holds once an identity is handed out.
use argus_redline.Base.{
  ℕ, ◌≡◌, refl, sym, subst, ap, ◌∙◌, some, List, true, bytes_equal, Bool-cases, inl, inr, ◌⊎◌, ◌==◌,
}
use argus_redline.EventRecords.Envelope
use argus_redline.EventRecords.NodeMetadata.{
  NodeMetadata, encode_node_metadata, decode_node_metadata,
}
use argus_redline.EventStore.{CopySlot, classify_read_back}
use argus_redline.EventIdentity.Interface.{Device, Read, StorageResult}
use argus_redline.EventIdentity.{
  Machine, AllocationResult, Attempt, Status, done, failed, is_failure, ◌>>=◌, ◌>>◌, modify, encode,
  decode, write_slot, commit_storage, read_back, require_whole, require_match, require_ok,
  require_class, adopt, verify, store, commit_to, commit_metadata, target_slot, buffer,
  reserve_block, set_block, block_start, next_block, is_exhausted, hand_out, after_reservation,
  allocate_ready, allocate,
}
use argus_redline.EventIdentity.Commit.{After, After-bind}
use argus_redline.EventIdentity.Allocate.{
  IsReady, Allocated, Refused, allocate-ready, allocate_after,
}

-- An honest storage: a read that is reported as whole gives what the slot holds and changes nothing, and
-- a commit that is reported as done makes what the slots hold what they keep over a restart.
pub record IsHonest (device : Device) : Type 0 where
  pub held : CopySlot → device.World → List ℕ
  pub kept : CopySlot → device.World → List ℕ
  pub read_held :
      (slot : CopySlot) (w : device.World)
      → (device.read slot w).0.result ≡ StorageResult.ok
      → ((device.read slot w).0.length == 28) ≡ true
      → buffer device (device.read slot w).0.bytes ≡ held slot w
  pub read_keeps :
      (slot other : CopySlot) (w : device.World) → kept other (device.read slot w).1 ≡ kept other w
  pub commit_keeps :
      (slot : CopySlot) (w : device.World)
      → (device.commit w).0 ≡ StorageResult.ok
      → kept slot (device.commit w).1 ≡ held slot (device.commit w).1

module _ (device : Device) (honest : IsHonest device) where
  -- What the active slot keeps over a restart is the metadata of the allocator.
  abbrev pub IsCommitted : Machine device → Type 0
  IsCommitted s =
      decode_node_metadata (some (honest.kept s.allocator.active_slot s.world))
      ≡ Envelope.ok s.allocator.metadata

  abbrev Fails : Status → Machine device → Type 0
  Fails e t = is_failure e ≡ true

  require_ok-world :
      (P : device.World → Type 0) (r : StorageResult) (s : Machine device)
      → (r ≡ StorageResult.ok → P s.world)
      → After device (λ x t. P t.world) Fails (require_ok device r s)
  require_ok-world P StorageResult.ok s h = h refl
  require_ok-world P StorageResult.missing s h = refl
  require_ok-world P StorageResult.unavailable s h = refl
  require_ok-world P StorageResult.error s h = refl

  encode-done :
      (next : NodeMetadata) (s : Machine device)
      → After device (λ x t. Unit {0}) Fails (encode device next s)
  unfolding encode
  encode-done next s = elim (Envelope.Result-cases (encode_node_metadata next (some 28))) [
    | inl (x, e) ↦ rw (e, encode) tt
    | inr (x, e) ↦ rw (e, encode) refl
  ]

  decode-world :
      (bytes : List ℕ) (s : Machine device)
      → After device
          (λ x t. (t.world ≡ s.world) × (decode_node_metadata (some bytes) ≡ Envelope.ok x))
          Fails
          (decode device bytes s)
  unfolding decode
  decode-world bytes s = elim (Envelope.Result-cases (decode_node_metadata (some bytes))) [
    | inl (x, e) ↦ rw (e, decode) (refl, refl)
    | inr (x, e) ↦ rw (e, decode) refl
  ]

  require_match-world :
      (written bytes : List ℕ) (s : Machine device)
      → After device (λ x t. t.world ≡ s.world) Fails (require_match device written bytes s)
  unfolding require_match classify_read_back
  require_match-world written bytes s = elim (Bool-cases (bytes_equal 28 written bytes)) [
    | inl e ↦ rw (e, require_match, require_class) refl
    | inr e ↦ rw (e, require_match, require_class) refl
  ]

  require_whole-kept :
      (slot : CopySlot) (q : StorageResult) (r : Read) (s : Machine device)
      → (q ≡ StorageResult.ok
          → (r.length == 28) ≡ true
          → honest.kept slot s.world ≡ buffer device r.bytes)
      → After device
          (λ bytes t. honest.kept slot t.world ≡ bytes)
          Fails
          (require_whole device q r s)
  unfolding require_whole
  require_whole-kept slot StorageResult.ok r s h = elim (Bool-cases (r.length == 28)) [
    | inl e ↦ rw (e, require_whole) (h refl e)
    | inr e ↦ rw (e, require_whole) refl
  ]
  require_whole-kept slot StorageResult.missing r s h = refl
  require_whole-kept slot StorageResult.unavailable r s h = refl
  require_whole-kept slot StorageResult.error r s h = refl

  read_back-kept :
      (slot : CopySlot) (s : Machine device)
      → honest.kept slot s.world ≡ honest.held slot s.world
      → After device (λ bytes t. honest.kept slot t.world ≡ bytes) Fails (read_back device slot s)
  unfolding read_back
  read_back-kept slot s h =
      require_whole-kept slot (device.read slot s.world).0.result (device.read slot s.world).0 _
        λ q l. honest.read_keeps slot slot s.world ∙ h ∙ sym (honest.read_held slot s.world q l)

  abbrev Committed : Unit {0} → Machine device → Type 0
  Committed u t = IsCommitted t

  verify-IsCommitted :
      (target : CopySlot) (encoded bytes : List ℕ) (s : Machine device)
      → honest.kept target s.world ≡ bytes
      → After device Committed Fails (verify device target encoded bytes s)
  unfolding verify adopt
  verify-IsCommitted target encoded bytes s h =
      After-bind device
        (λ x t. (t.world ≡ s.world) × (decode_node_metadata (some bytes) ≡ Envelope.ok x)) Committed
        Fails (decode device bytes)
        (λ verified.
          ◌>>◌ device (require_match device encoded bytes)
            (modify device (adopt device verified target)))
        s (decode-world bytes s)
        λ verified t p.
          After-bind device (λ x u. u.world ≡ t.world) Committed Fails
            (require_match device encoded bytes) (λ _. modify device (adopt device verified target))
            t (require_match-world encoded bytes t)
            λ x u q.
              ap (λ w. decode_node_metadata (some (honest.kept target w))) (q ∙ p.0)
              ∙ (ap (λ bs. decode_node_metadata (some bs)) h ∙ p.1)

  store-IsCommitted :
      (target : CopySlot) (encoded : List ℕ) (s : Machine device)
      → After device Committed Fails (store device target encoded s)
  unfolding store write_slot commit_storage
  store-IsCommitted target encoded s =
      After-bind device (λ x t. Unit {0}) Committed Fails (write_slot device target encoded)
        (λ _.
          ◌>>◌ device (commit_storage device)
            (◌>>=◌ device (read_back device target) (verify device target encoded)))
        s (require_ok-world (λ w. Unit {0}) (device.write target encoded s.world).0 _ (λ e. tt))
        λ x t p.
          After-bind device (λ x u. honest.kept target u.world ≡ honest.held target u.world)
            Committed Fails (commit_storage device)
            (λ _. ◌>>=◌ device (read_back device target) (verify device target encoded)) t
            (require_ok-world (λ w. honest.kept target w ≡ honest.held target w)
              (device.commit t.world).0 _ (honest.commit_keeps target t.world))
            λ y u q.
              After-bind device (λ bytes r. honest.kept target r.world ≡ bytes) Committed Fails
                (read_back device target) (verify device target encoded) u
                (read_back-kept target u q) λ bytes r g. verify-IsCommitted target encoded bytes r g

  commit_metadata-IsCommitted :
      (next : NodeMetadata) (s : Machine device)
      → After device Committed Fails (commit_metadata device next s)
  unfolding commit_metadata commit_to
  commit_metadata-IsCommitted next s =
      After-bind device (λ x t. Unit {0}) Committed Fails (encode device next)
        (store device (target_slot device s.allocator)) s (encode-done next s)
        λ encoded t p. store-IsCommitted (target_slot device s.allocator) encoded t

  reserve_block-IsCommitted :
      (s : Machine device) → After device Committed Fails (reserve_block device s)
  unfolding reserve_block
  reserve_block-IsCommitted s = elim (Bool-cases (is_exhausted s.allocator.metadata)) [
    | inl e ↦ rw e refl
    | inr e ↦ rw e (
        After-bind device Committed Committed Fails
          (commit_metadata device (next_block s.allocator.metadata))
          (λ u. modify device (set_block (block_start s.allocator.metadata))) s
          (commit_metadata-IsCommitted (next_block s.allocator.metadata) s) λ u t p. p)
  ]

  -- The call has failed, or the metadata is still what the storage keeps.
  abbrev Keeps : AllocationResult × Machine device → Type 0
  Keeps r = (is_failure r.0.status ≡ true) ⊎ IsCommitted r.1

  after_reservation-Keeps :
      (r : Attempt (Unit {0}) × Machine device)
      → After device Committed Fails r
      → Keeps (after_reservation device r)
  unfolding after_reservation hand_out
  after_reservation-Keeps (done u, t) h = inr h
  after_reservation-Keeps (failed e, t) h = inl h

  allocate-Keeps :
      (s : Machine device) → s.allocator.is_ready ≡ true → IsCommitted s → Keeps (allocate device s)
  unfolding allocate_ready hand_out
  allocate-Keeps s f h =
      subst Keeps (sym (allocate-ready device s f))
        (elim (Bool-cases (s.allocator.next_volatile_id == s.allocator.volatile_end_exclusive)) [
          | inl e ↦ rw e (after_reservation-Keeps _ (reserve_block-IsCommitted s))
          | inr e ↦ rw e (inr h)
        ])

  -- On an honest storage, a call of allocate on a ready allocator whose metadata is what the storage keeps
  -- hands out an identity not before its position and below the high water of its metadata afterwards, which is
  -- again what the storage keeps, passes that identity and stays ready; or it stops with a failure and
  -- changes nothing else of the allocator.
  pub allocate-IsCommitted :
      (s : Machine device)
      → IsReady s.allocator
      → IsCommitted s
      → let (r, t) = allocate device s in
        (Allocated s.allocator r t.allocator × IsCommitted t) ⊎ Refused s.allocator r t.allocator
  allocate-IsCommitted s i c = elim (allocate_after device s i) [
    | inl p ↦ elim (allocate-Keeps s i.flag c) [
      | inl f ↦ absurd (cc (f, ap is_failure p.status))
      | inr k ↦ inl (p, k)
    ]
    | inr f ↦ inr f
  ]
