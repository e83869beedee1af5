-- ===== src/EventIdentity/Recover.antt =====
-- What `recover` leaves: a ready allocator at the high water of its metadata, or a stopped one.
use argus_redline.Base.{
  ℕ, zero, suc, ◌≡◌, ◌≢◌, refl, sym, subst, ap, ◌∙◌, arith, List, [], ◌∷◌, Option, none, some, Bool,
  true, false, Bool-cases, inl, inr, ◌==◌, not, if◌then◌else◌, replicate, copy, All, IsByte,
}
use argus_redline.Base.Words.{IsU32}
use argus_redline.EventRecords.NodeMetadata.{NodeMetadata, IsMetadata}
use argus_redline.EventRecords.NodeMetadata.Range.{decode_for_selection-IsMetadata}
use argus_redline.EventStore.{
  FixedCopy, FixedReadStatus, Selection, CopySlot, SelectionResult, equal_disagreement,
  generation_ambiguous, both_invalid, valid, select_copies, a, b,
}
use argus_redline.EventStore.Recovery.{is_chosen, select_copies-chosen}
use argus_redline.EventIdentity.Interface.{Device, Read, StorageResult, IsTyped}
use argus_redline.EventIdentity.{
  Machine, Allocator, Attempt, Status, CustodyState, done, failed, modify, fail, adopt,
  commit_metadata, target_slot, buffer, read_copy, read_copies, metadata_format, fresh_metadata,
  draw_epoch, initialize_fresh, recover_selected, take_selected, recover_from, recover_custody,
  recover, holds_events, valid_high_water, identity_recovery_required, unprovable, empty, nonempty,
  reset, is_failure, no_metadata, become_ready, is_unavailable,
}
use argus_redline.EventIdentity.Commit.{After, After-bind, failed_with, commit_metadata-After}
use argus_redline.EventIdentity.Allocate.{IsReady}

All-copy :
    (n : ℕ) (dst src : List ℕ) → All IsByte dst → All IsByte src → All IsByte (copy n dst src)
All-copy zero dst src h k = h
All-copy (suc n) [] src h k = tt
All-copy (suc n) (d ∷ ds) [] h k = h
All-copy (suc n) (d ∷ ds) (x ∷ xs) h k = (k.0, All-copy n ds xs h.1 k.1)

zeros-IsByte : All IsByte (replicate 28 0)
zeros-IsByte = omega arith

-- A copy of bytes that decodes to a record decodes to metadata.
valid-IsMetadata :
    (c : FixedCopy) (m : NodeMetadata)
    → All IsByte c.bytes
    → valid metadata_format c ≡ some m
    → IsMetadata m
valid-IsMetadata c m h v = go c.status v
  where
    go :
        (status : FixedReadStatus)
        → valid metadata_format (record { status = status; bytes = c.bytes }) ≡ some m
        → IsMetadata m
    go FixedReadStatus.ok v = decode_for_selection-IsMetadata c.bytes m h v
    go FixedReadStatus.missing v = cc
    go FixedReadStatus.unavailable v = cc

selected-IsMetadata :
    (c d : FixedCopy)
    → All IsByte c.bytes
    → All IsByte d.bytes
    → let s = select_copies metadata_format c d no_metadata a in
      is_chosen s.result ≡ true → IsMetadata s.selected
selected-IsMetadata c d h k e =
    let s = select_copies metadata_format c d no_metadata a in
    valid-IsMetadata (copies s.slot) s.selected (bytes s.slot)
      (select_copies-chosen metadata_format copies no_metadata a e)
  where
    copies : CopySlot → FixedCopy
    copies a = c
    copies b = d

    bytes : (slot : CopySlot) → All IsByte (copies slot).bytes
    bytes a = h
    bytes b = k

-- Ready at the high water of metadata whose events are this device's.
pub record Recovered (device_id : ℕ) (c : Allocator) : Type 0 where
  pub is_ready : IsReady c
  pub at_high_water : c.next_volatile_id ≡ c.metadata.next_unreserved_event_id
  pub source : c.source_device_id ≡ device_id
  pub custody : c.metadata.custody_source_device_id ≡ device_id

-- Not ready, with the status that the caller sees.
pub record Stopped (e : Status) (c : Allocator) : Type 0 where
  pub not_ready : c.is_ready ≡ false
  pub status : c.status ≡ e
  pub failure : is_failure e ≡ true

module _ (device : Device) where
  become_ready_lem :
      (source : ℕ) (c : Allocator)
      → IsMetadata c.metadata
      → c.source_device_id ≡ source
      → c.metadata.custody_source_device_id ≡ source
      → Recovered source (become_ready c)
  become_ready_lem source c v s q = record {
    is_ready = record {
      metadata = v;
      front = omega arith;
      block = omega arith;
      reserved = omega arith;
      flag = refl;
    };
    at_high_water = refl;
    source = s;
    custody = q;
  }

  read_copy_bytes : (r : Read) → All IsByte r.bytes → All IsByte (read_copy device r).bytes
  unfolding read_copy
  read_copy_bytes r h = go r.result
    where
      whole : All IsByte (buffer device r.bytes)
      whole = All-copy 28 (replicate 28 0) r.bytes zeros-IsByte h

      go :
          (q : StorageResult)
          → All IsByte
              (read_copy device (record { result = q; bytes = r.bytes; length = r.length })).bytes
      go StorageResult.unavailable = whole
      go StorageResult.missing = whole
      go StorageResult.error = zeros-IsByte
      go StorageResult.ok = elim (Bool-cases (r.length == 28)) [
        | inl e ↦ rw e whole
        | inr e ↦ rw e zeros-IsByte
      ]

  module _ (typed : IsTyped device) (source : ℕ) (byte : IsByte source) (nonzero : source ≢ 0) where
    abbrev Done : Unit {0} → Machine device → Type 0
    Done u t = Recovered source t.allocator

    abbrev Fails : Status → Machine device → Type 0
    Fails e t = Stopped e t.allocator

    abbrev Outcome : Attempt (Unit {0}) × Machine device → Type 0
    Outcome r = After device Done Fails r

    stop : (e : Status) (s : Machine device) → is_failure e ≡ true → Outcome (fail device e s)
    stop e s f = record { not_ready = refl; status = refl; failure = f }

    after_commit :
        (next : NodeMetadata) (s : Machine device)
        → IsMetadata next
        → s.allocator.source_device_id ≡ source
        → next.custody_source_device_id ≡ source
        → Outcome (commit_metadata device next s)
    unfolding adopt
    after_commit next s v h q =
        go (commit_metadata device next s) (commit_metadata-After device next s v)
      where
        go :
            (r : Attempt (Unit {0}) × Machine device)
            → After device
                (λ u t.
                  t.allocator ≡ adopt device next (target_slot device s.allocator) s.allocator)
                (λ e t. (t.allocator ≡ failed_with e s.allocator) × (is_failure e ≡ true))
                r
            → Outcome r
        go (done u, t) p =
            subst (λ c. Recovered source c) (sym p)
              (become_ready_lem source
                (record s.allocator {
                  metadata = next;
                  active_slot = target_slot device s.allocator;
                  has_authoritative_metadata = true;
                })
                v h q)
        go (failed e, t) (p, f) =
            subst (λ c. Stopped e c) (sym p)
              (record { not_ready = refl; status = refl; failure = f })

    -- A drawn epoch, with the device's identifier as it was.
    abbrev Drawn : ℕ → Machine device → Type 0
    Drawn epoch t = IsU32 epoch × (epoch ≢ 0) × (t.allocator.source_device_id ≡ source)

    draw-After :
        (o : Option ℕ) (s : Machine device)
        → ((n : ℕ) → o ≡ some n → IsU32 n)
        → s.allocator.source_device_id ≡ source
        → After device Drawn Fails (draw_epoch device o s)
    unfolding draw_epoch
    draw-After none s w h = stop _ s refl
    draw-After (some n) s w h = elim (Bool-cases (n == 0)) [
      | inl e ↦ rw (e, draw_epoch) (stop _ s refl)
      | inr e ↦ rw (e, draw_epoch) (w n refl, ground arith, h)
    ]

    fresh-IsMetadata :
        (epoch : ℕ) (t : Machine device)
        → Drawn epoch t
        → IsMetadata (fresh_metadata device t.allocator epoch)
    unfolding fresh_metadata
    fresh-IsMetadata epoch t (w, n, h) = record {
      generation_word = ground arith;
      source_byte = omega (arith, h, byte);
      epoch_word = w;
      next_word = omega arith;
      source_nonzero = omega (arith, h, nonzero);
      epoch_nonzero = n;
      next_nonzero = omega arith;
    }

    initialize_fresh_after :
        (s : Machine device)
        → s.allocator.source_device_id ≡ source
        → Outcome (initialize_fresh device s)
    unfolding initialize_fresh draw_epoch
    initialize_fresh_after s h =
        After-bind device Drawn Done Fails (draw_epoch device (device.next_uint32 s.world).0)
          (λ epoch t. commit_metadata device (fresh_metadata device t.allocator epoch) t)
          (record s { world = (device.next_uint32 s.world).1 })
          (draw-After (device.next_uint32 s.world).0 _ (typed.entropy_word s.world) h)
          λ epoch t p.
            after_commit (fresh_metadata device t.allocator epoch) t (fresh-IsMetadata epoch t p)
              p.2 p.2

    Outcome-if :
        (test : Bool) (x y : Attempt (Unit {0}) × Machine device)
        → (test ≡ true → Outcome x)
        → (test ≡ false → Outcome y)
        → Outcome (if test then x else y)
    Outcome-if true x y h k = h refl
    Outcome-if false x y h k = k refl

    same_device : (m n : ℕ) → not (m == n) ≡ false → m ≡ n
    same_device m n h = ground arith

    become_ready_after :
        (selected : NodeMetadata) (s : Machine device)
        → IsMetadata selected
        → s.allocator.metadata ≡ selected
        → s.allocator.source_device_id ≡ source
        → not (selected.custody_source_device_id == s.allocator.source_device_id) ≡ false
        → Outcome (modify device become_ready s)
    become_ready_after selected s v m h e =
        become_ready_lem source s.allocator (subst IsMetadata (sym m) v) h
          (ap (λ (n : NodeMetadata). n.custody_source_device_id) m ∙ same_device _ _ e ∙ h)

    recover_selected_after :
        (custody : CustodyState) (selected : NodeMetadata) (s : Machine device)
        → IsMetadata selected
        → s.allocator.metadata ≡ selected
        → s.allocator.source_device_id ≡ source
        → Outcome (recover_selected device custody selected s)
    unfolding recover_selected
    recover_selected_after custody selected s v m h =
        Outcome-if (not (valid_high_water selected.next_unreserved_event_id)) _ _
          (λ e.
            Outcome-if (holds_events device custody) _ _ (λ f. stop _ s refl)
              (λ f. initialize_fresh_after s h))
          λ e.
            Outcome-if (holds_events device custody) _ _
              (λ f. Outcome-if _ _ _ (λ g. stop _ s refl) (become_ready_after selected s v m h))
              λ f.
                Outcome-if _ _ _ (λ g. initialize_fresh_after s h)
                  (become_ready_after selected s v m h)

    recover_from_after :
        (custody : CustodyState) (selection : Selection NodeMetadata) (s : Machine device)
        → (is_chosen selection.result ≡ true → IsMetadata selection.selected)
        → s.allocator.source_device_id ≡ source
        → Outcome (recover_from device custody selection s)
    unfolding recover_from take_selected
    recover_from_after custody selection s v h = go selection.result v
      where
        chosen :
            IsMetadata selection.selected
            → Outcome (
                recover_selected device custody selection.selected (record s {
                  allocator = take_selected device selection.selected selection.slot s.allocator;
                }))
        chosen w = recover_selected_after custody selection.selected _ w refl h

        go :
            (result : SelectionResult)
            → (is_chosen result ≡ true → IsMetadata selection.selected)
            → Outcome (recover_from device custody (record selection { result = result }) s)
        go equal_disagreement w = stop _ s refl
        go generation_ambiguous w = stop _ s refl
        go both_invalid w = elim (Bool-cases (holds_events device custody)) [
          | inl e ↦ rw e (stop identity_recovery_required s refl)
          | inr e ↦ rw e (initialize_fresh_after s h)
        ]
        go _ w = chosen (w refl)

    -- Two copies of bytes were read, with the device's identifier as it was.
    abbrev Copied : FixedCopy × FixedCopy → Machine device → Type 0
    Copied copies t =
        All IsByte copies.0.bytes
        × All IsByte copies.1.bytes
        × (t.allocator.source_device_id ≡ source)

    read_copies-After :
        (s : Machine device)
        → s.allocator.source_device_id ≡ source
        → After device Copied Fails (read_copies device s)
    unfolding read_copies
    read_copies-After s h =
        let (r_a, w) = device.read a s.world in
        let (r_b, w') = device.read b w in
        elim (Bool-cases (is_unavailable device r_a.result)) [
          | inl e ↦ rw (e, read_copies) (record { not_ready = refl; status = refl; failure = refl })
          | inr e ↦ elim (Bool-cases (is_unavailable device r_b.result)) [
            | inl f ↦
                rw (e, f, read_copies) (record { not_ready = refl; status = refl; failure = refl })
            | inr f ↦
                rw (e, f, read_copies)
                  (
                    read_copy_bytes r_a (typed.read_bytes a s.world),
                    read_copy_bytes r_b (typed.read_bytes b w),
                    h,
                  )
          ]
        ]

    recover_custody_after :
        (custody : CustodyState) (s : Machine device)
        → s.allocator.source_device_id ≡ source
        → Outcome (recover_custody device custody s)
    unfolding recover_custody read_copies
    recover_custody_after custody s h =
        After-bind device Copied Done Fails (read_copies device)
          (λ copies.
            recover_from device custody
              (select_copies metadata_format copies.0 copies.1 no_metadata a))
          s (read_copies-After s h)
          λ copies t p.
            recover_from_after custody _ t (selected-IsMetadata copies.0 copies.1 p.0 p.1) p.2

  -- On a device of the interface's types and for a source of one byte, `recover` always ends in one of
  -- two states: ready, with metadata fit to be stored, of this source, and the allocator at its high
  -- water, so that it hands out nothing that the stored metadata had reserved; or stopped, not ready, with the failure
  -- that it returns.
  pub recover-After :
      (source : ℕ) (custody : CustodyState) (world : device.World)
      → IsTyped device
      → IsByte source
      → After device
          (λ u t. Recovered source t.allocator)
          (λ e t. Stopped e t.allocator)
          (recover device source custody world)
  unfolding recover
  recover-After source custody world typed byte = elim (Bool-cases (source == 0)) [
    | inl e ↦ rw (e, recover) (record { not_ready = refl; status = refl; failure = refl })
    | inr e ↦ rw (e, recover) (go custody (ground arith))
  ]
    where
      start : Machine device
      start = record { allocator = record reset { source_device_id = source }; world = world }

      go :
          (custody : CustodyState)
          → source ≢ 0
          → After device {A = Unit {0}}
              (λ u t. Recovered source t.allocator)
              (λ e t. Stopped e t.allocator)
              (elim custody [
                | unprovable ↦ fail device identity_recovery_required start
                | empty ↦ recover_custody device empty start
                | nonempty ↦ recover_custody device nonempty start
              ])
      go unprovable z = record { not_ready = refl; status = refl; failure = refl }
      go empty z = recover_custody_after typed source byte z empty start refl
      go nonempty z = recover_custody_after typed source byte z nonempty start refl
