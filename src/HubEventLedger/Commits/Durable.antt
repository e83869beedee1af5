-- ===== src/HubEventLedger/Commits/Durable.antt =====
-- What a commit of lib/hub_event_ledger/src/hub_event_ledger.h has done when it succeeds, on a storage
-- whose reads are honest, and what it leaves when it fails.
use argus_redline.Base.{
  ℕ, ◌≡◌, refl, sym, subst, ap, ◌∙◌, ◌⊎◌, inl, inr, true, Option, none, some, List, [], ◌==◌,
  bytes_equal, eq_of_bytes_equal, length, length-copy, length-replicate, replicate, Bool-cases,
  Option-cases,
}
use argus_redline.Base.Methods.{◌>>◌, After, After-bind, After-map}
use argus_redline.EventIdentity.Interface.{StorageResult, Read}
use argus_redline.EventStore.{CopySlot, a, b, FixedCopy, valid, select_copies}
use argus_redline.EventStore.Recovery.{is_chosen, select_copies-chosen}
use argus_redline.HubEventLedger.Interface.{Storage}
use argus_redline.HubEventLedger.{Status, Ledger}
use argus_redline.HubEventLedger.Commits.{
  Medium, Machine, same_copy, buffer, copy_of, require_ok, encode_value, write_target,
  commit_storage, check_bytes, require_whole, read_back, classify_read, read_either, settle,
  reselect, commit_copy,
}

module _ (storage : Storage) {R : Type 0} (medium : Medium storage.World R)
    (Good : R → Type 0) where
  open storage use {World}
  open medium use {format, encode}

  -- What the commit relies on: values that are good survive the coding, a cleared array is no value, and
  -- reads are honest.
  pub record IsSound : Type 0 where
    pub decode-encode :
        (r : R) (bytes : List ℕ)
        → Good r
        → encode r ≡ some bytes
        → (format.decode bytes ≡ some r) × (length bytes ≡ format.size)
    pub decode-blank : format.decode (buffer format.size []) ≡ none
    pub stored : CopySlot → World → List ℕ
    pub read_gives :
        (copy : CopySlot) (w : World)
        → ((medium.read copy w).0.bytes ≡ stored copy w) ⊎ ((medium.read copy w).0.bytes ≡ [])
    pub read_keeps : (copy c : CopySlot) (w : World) → stored c (medium.read copy w).1 ≡ stored c w

-- Failures lose nothing of the ledger but what marks the failure.
abbrev pub Fails : {World R : Type 0} → Medium World R → Ledger → Ledger → Type 0
Fails medium c l = ((e : Status) × (l ≡ medium.fail e c)) ⊎ (l ≡ medium.no_copy c)

target_of : (x y : CopySlot) → same_copy x y ≡ true → x ≡ y
target_of a a h = refl
target_of a b h = cc
target_of b a h = cc
target_of b b h = refl

length-buffer : (size : ℕ) (bytes : List ℕ) → length (buffer size bytes) ≡ size
length-buffer size bytes = length-copy size (replicate size 0) bytes ∙ length-replicate size 0

valid-copy_of :
    {World R : Type 0} (medium : Medium World R) (q : StorageResult) (bytes : List ℕ) (n : ℕ)
    (r : R)
    → valid medium.format
        (copy_of medium.format.size (record { result = q; bytes = bytes; length = n }))
      ≡ some r
    → medium.format.decode (buffer medium.format.size bytes) ≡ some r
valid-copy_of medium StorageResult.ok bytes n r h = h
valid-copy_of medium StorageResult.missing bytes n r h = cc
valid-copy_of medium StorageResult.unavailable bytes n r h = cc
valid-copy_of medium StorageResult.error bytes n r h = h

module _ (storage : Storage) {R : Type 0} (medium : Medium storage.World R) (c : Ledger) where
  open medium use {format}

  abbrev Unchanged : {A : Type 0} → A → Machine storage → Type 0
  Unchanged x s = s.ledger ≡ c

  abbrev Failed : Machine storage → Type 0
  Failed s = Fails medium c s.ledger

  failed_with : (e : Status) (l : Ledger) → l ≡ c → Fails medium c (medium.fail e l)
  failed_with e l h = inl (e, ap (medium.fail e) h)

  require_ok-After :
      (r : StorageResult) (s : Machine storage)
      → s.ledger ≡ c
      → After Unchanged Failed (require_ok storage medium r s)
  unfolding require_ok
  require_ok-After StorageResult.ok s h = h
  require_ok-After StorageResult.missing s h = failed_with _ _ h
  require_ok-After StorageResult.unavailable s h = failed_with _ _ h
  require_ok-After StorageResult.error s h = failed_with _ _ h

  encode_value-After :
      (next : R) (s : Machine storage)
      → s.ledger ≡ c
      → After
          (λ x t. (t.ledger ≡ c) × (medium.encode next ≡ some x))
          Failed
          (encode_value storage medium next s)
  unfolding encode_value
  encode_value-After next s h = elim (Option-cases (medium.encode next)) [
    | inl e ↦ rw (e, encode_value) (failed_with _ _ h)
    | inr (x, e) ↦ rw (e, encode_value) (h, refl)
  ]

  require_whole-After :
      (q : StorageResult) (r : Read) (s : Machine storage)
      → s.ledger ≡ c
      → After
          (λ x t. (t.ledger ≡ c) × (t.world ≡ s.world) × (x ≡ buffer format.size r.bytes))
          Failed
          (require_whole storage medium q r s)
  unfolding require_whole
  require_whole-After StorageResult.ok r s h = elim (Bool-cases (r.length == format.size)) [
    | inl e ↦ rw (e, require_whole) (h, refl, refl)
    | inr e ↦ rw (e, require_whole) (failed_with _ _ h)
  ]
  require_whole-After StorageResult.missing r s h = failed_with _ _ h
  require_whole-After StorageResult.unavailable r s h = failed_with _ _ h
  require_whole-After StorageResult.error r s h = failed_with _ _ h

  check_bytes-After :
      (encoded bytes : List ℕ) (s : Machine storage)
      → s.ledger ≡ c
      → After
          (λ x t.
            (t.ledger ≡ c)
            × (t.world ≡ s.world)
            × ((r : R) × (format.decode bytes ≡ some r))
            × (bytes_equal format.size encoded bytes ≡ true))
          Failed
          (check_bytes storage medium encoded bytes s)
  unfolding check_bytes
  check_bytes-After encoded bytes s h = elim (Option-cases (format.decode bytes)) [
    | inl e ↦ rw (e, check_bytes) (failed_with _ _ h)
    | inr (r, e) ↦ elim (Bool-cases (bytes_equal format.size encoded bytes)) [
      | inl q ↦ rw (e, q, check_bytes) (h, refl, (r, refl), refl)
      | inr q ↦ rw (e, q, check_bytes) (failed_with _ _ h)
    ]
  ]

  classify_read-After :
      (q : StorageResult) (r : Read) (s : Machine storage)
      → s.ledger ≡ c
      → After
          (λ x t. (t.ledger ≡ c) × (t.world ≡ s.world) × (x ≡ copy_of format.size r))
          Failed
          (classify_read storage medium q r s)
  unfolding classify_read
  classify_read-After StorageResult.ok r s h = (h, refl, refl)
  classify_read-After StorageResult.missing r s h = (h, refl, refl)
  classify_read-After StorageResult.error r s h = (h, refl, refl)
  classify_read-After StorageResult.unavailable r s h = inr (ap medium.no_copy h)

  -- What `commitRecord` with a target and `commitMetadata` share: the value that is returned is `next`.
  module _ (Good : R → Type 0) (sound : IsSound storage medium Good) (next : R)
      (target : CopySlot) where
    -- A copy that holds a value in the target holds `next`.
    abbrev IsGenuine : CopySlot → FixedCopy → Type 0
    IsGenuine slot copy = slot ≡ target → (r : R) → valid format copy ≡ some r → r ≡ next

    settle-After :
        (copies : CopySlot → FixedCopy) (s : Machine storage)
        → s.ledger ≡ c
        → ((slot : CopySlot) → IsGenuine slot (copies slot))
        → After
            (λ x t. (t.ledger ≡ c) × (x ≡ next))
            Failed
            (settle storage medium next target
              (select_copies format (copies a) (copies b) medium.zero_value a)
              s)
    unfolding settle
    settle-After copies s h g =
        let sel = select_copies format (copies a) (copies b) medium.zero_value a in
        elim (Bool-cases (same_copy sel.slot target)) [
          | inr e ↦ rw (e, settle) (failed_with _ _ h)
          | inl e ↦ elim (Bool-cases (format.generation sel.selected == format.generation next)) [
            | inr q ↦ rw (e, q, settle) (failed_with _ _ h)
            | inl q ↦ elim (Bool-cases (is_chosen sel.result)) [
              | inr k ↦ rw (e, q, k, settle) (failed_with _ _ h)
              | inl k ↦
                  rw (e, q, k, settle)
                    (
                      h,
                      g sel.slot (target_of _ _ e) sel.selected
                          (select_copies-chosen format copies medium.zero_value a k),
                    )
            ]
          ]
        ]

    -- What the target holds after the read-back, by the storage.
    abbrev IsKept : storage.World → Type 0
    IsKept w =
        (r : R) → format.decode (buffer format.size (sound.stored target w)) ≡ some r → r ≡ next

    abbrev decoded : List ℕ → Option R
    decoded bytes = format.decode (buffer format.size bytes)

    -- Whatever a read puts into the buffer, a value in it is the one that is kept.
    genuine :
        (slot : CopySlot) (w : storage.World)
        → IsKept w
        → slot ≡ target
        → (r : R) → decoded (medium.read slot w).0.bytes ≡ some r
        → r ≡ next
    genuine slot w k same r e = elim (sound.read_gives slot w) [
      | inl g ↦ k r (ap decoded (sym (g ∙ ap (λ (x : CopySlot). sound.stored x w) same)) ∙ e)
      | inr g ↦
          let blank = sound.decode-blank in
          let same : decoded (medium.read slot w).0.bytes ≡ decoded [] = ap decoded g in cc
    ]

    abbrev by_slot : FixedCopy → FixedCopy → CopySlot → FixedCopy
    by_slot copy_a copy_b a = copy_a
    by_slot copy_a copy_b b = copy_b

    IsGenuine-by_slot :
        (copy_a copy_b : FixedCopy)
        → IsGenuine a copy_a
        → IsGenuine b copy_b
        → (slot : CopySlot) → IsGenuine slot (by_slot copy_a copy_b slot)
    IsGenuine-by_slot copy_a copy_b p q a = p
    IsGenuine-by_slot copy_a copy_b p q b = q

    read_either-After :
        (slot : CopySlot) (s : Machine storage)
        → s.ledger ≡ c
        → IsKept s.world
        → After
            (λ x t. (t.ledger ≡ c) × IsKept t.world × IsGenuine slot x)
            Failed
            (read_either storage medium slot s)
    unfolding read_either
    read_either-After slot s h k =
        let (read, w) = medium.read slot s.world in
        After-map (λ x t. (t.ledger ≡ c) × (t.world ≡ w) × (x ≡ copy_of format.size read))
          (λ x t. (t.ledger ≡ c) × IsKept t.world × IsGenuine slot x) Failed _
          (classify_read-After read.result read (record s { world = w }) h)
          λ x t p. (
            p.0,
            λ r e. k r (
                sym
                  (ap decoded (ap (sound.stored target) p.1 ∙ sound.read_keeps slot target s.world))
                ∙ e),
            λ same r e. genuine slot s.world k same r (
                valid-copy_of medium read.result read.bytes read.length r
                  (sym (ap (valid format) p.2) ∙ e)),
          )

    reselect-After :
        (s : Machine storage)
        → s.ledger ≡ c
        → IsKept s.world
        → After (λ x t. (t.ledger ≡ c) × (x ≡ next)) Failed (reselect storage medium next target s)
    unfolding reselect
    reselect-After s h k =
        let Copied = λ (slot : CopySlot) (x : FixedCopy) (t : Machine storage).
          (t.ledger ≡ c) × IsKept t.world × IsGenuine slot x in
        After-bind (Copied a) (λ x t. (t.ledger ≡ c) × (x ≡ next)) Failed
          (read_either storage medium a) _ s (read_either-After a s h k)
          λ copy_a t p.
            After-bind (Copied b) (λ x t. (t.ledger ≡ c) × (x ≡ next)) Failed
              (read_either storage medium b) _ t (read_either-After b t p.0 p.1)
              λ copy_b u q.
                settle-After (by_slot copy_a copy_b) u q.0 (IsGenuine-by_slot copy_a copy_b p.2 q.2)

    abbrev Finished : R → Machine storage → Type 0
    Finished x t = (t.ledger ≡ c) × (x ≡ next)

    -- The bytes that were read back are the stored ones, or a cleared array.
    abbrev IsReadBack : List ℕ → Machine storage → Type 0
    IsReadBack bytes t =
        (t.ledger ≡ c)
        × (length bytes ≡ format.size)
        × ((bytes ≡ buffer format.size (sound.stored target t.world))
            ⊎ (bytes ≡ buffer format.size []))

    read_back-After :
        (s : Machine storage)
        → s.ledger ≡ c
        → After IsReadBack Failed (read_back storage medium target s)
    unfolding read_back
    read_back-After s h =
        let (read, w) = medium.read target s.world in
        let kept = sound.read_keeps target target s.world in
        After-map (λ x t. (t.ledger ≡ c) × (t.world ≡ w) × (x ≡ buffer format.size read.bytes))
          IsReadBack Failed _ (require_whole-After read.result read (record s { world = w }) h)
          λ x t p. (
            p.0,
            ap length p.2 ∙ length-buffer format.size read.bytes,
            elim (sound.read_gives target s.world) [
              | inl g ↦
                  inl
                    (p.2 ∙ ap (buffer format.size) (g ∙ sym (ap (sound.stored target) p.1 ∙ kept)))
              | inr g ↦ inr (p.2 ∙ ap (buffer format.size) g)
            ],
          )

    -- What was read back is what was written, so the target keeps `next`.
    kept_lem :
        (encoded bytes : List ℕ) (w : storage.World) (r : R)
        → Good next
        → medium.encode next ≡ some encoded
        → length bytes ≡ format.size
        → (bytes ≡ buffer format.size (sound.stored target w)) ⊎ (bytes ≡ buffer format.size [])
        → format.decode bytes ≡ some r
        → bytes_equal format.size encoded bytes ≡ true
        → IsKept w
    kept_lem encoded bytes w r good e l (inl g) d q x h =
        let (whole, size) = sound.decode-encode next encoded good e in
        let same : encoded ≡ bytes = eq_of_bytes_equal format.size encoded bytes size l q in
        let read : format.decode bytes ≡ decoded (sound.stored target w) = ap format.decode g in
        let written : format.decode encoded ≡ format.decode bytes = ap format.decode same in cc
    kept_lem encoded bytes w r good e l (inr g) d q x h =
        let blank = sound.decode-blank in
        let read : format.decode bytes ≡ decoded [] = ap format.decode g in cc

    verify-After :
        (encoded bytes : List ℕ) (s : Machine storage)
        → Good next
        → medium.encode next ≡ some encoded
        → IsReadBack bytes s
        → After Finished Failed
            ((check_bytes storage medium encoded bytes >> reselect storage medium next target) s)
    verify-After encoded bytes s good e p =
        After-bind
          (λ x t.
            (t.ledger ≡ c)
            × (t.world ≡ s.world)
            × ((r : R) × (format.decode bytes ≡ some r))
            × (bytes_equal format.size encoded bytes ≡ true))
          Finished Failed (check_bytes storage medium encoded bytes)
          (λ _. reselect storage medium next target) s (check_bytes-After encoded bytes s p.0)
          λ x t q.
            reselect-After t q.0 (
              subst IsKept (sym q.1)
                (kept_lem encoded bytes s.world q.2.0 good e p.1 p.2 q.2.1 q.3))

    -- A commit of a good value succeeds with that value, the ledger as it was; or it fails, and changes
    -- nothing of the ledger but what marks the failure.
    pub commit_copy-After :
        (s : Machine storage)
        → s.ledger ≡ c
        → Good next
        → After Finished Failed (commit_copy storage medium next target s)
    unfolding commit_copy write_target commit_storage
    commit_copy-After s h good =
        After-bind (λ x t. (t.ledger ≡ c) × (medium.encode next ≡ some x)) Finished Failed
          (encode_value storage medium next) _ s (encode_value-After next s h)
          λ encoded t p.
            After-bind Unchanged Finished Failed (write_target storage medium target encoded) _ t
              (require_ok-After (medium.write target encoded t.world).0 _ p.0)
              λ x u q.
                After-bind Unchanged Finished Failed (commit_storage storage medium) _ u
                  (require_ok-After (storage.commit u.world).0 _ q)
                  λ y v g.
                    After-bind IsReadBack Finished Failed (read_back storage medium target) _ v
                      (read_back-After v g) λ bytes r k. verify-After encoded bytes r good p.1 k
