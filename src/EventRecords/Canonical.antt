-- ===== src/EventRecords/Canonical.antt =====
-- `validCanonicalEvent` of lib/event_storage/src/event_records.h, and a body's place in a record.
use argus_redline.Base.{
  ℕ, ◌-◌, ◌≤◌, ◌≡◌, ap, ◌∙◌, arith, Bool, true, not, ◌&&◌, List, ◌++◌, length, drop, replicate,
  copy, all_zero, bit_and, leb, ◌==◌, copy-append_left, copy_of_zero_tail, copy_all, drop-append,
  all_zero-drop_append, append_assoc, drop, refl,
}
use argus_redline.EventProtocol.{
  max_body_size, forbidden_flags, min_lifetime_seconds, max_lifetime_seconds, is_registered_family,
  is_valid_family_body,
}

-- The fields that both kinds of records have of an Event.
pub record Content : Type 0 where
  pub family : ℕ
  pub flags : ℕ
  pub body_length : ℕ
  pub epoch : ℕ
  pub id : ℕ
  pub lifetime : ℕ
  pub body : List ℕ

unfoldable pub valid_canonical_event : ℕ → Content → Bool
valid_canonical_event source c =
    not (source == 0)
    && (not (c.epoch == 0)
        && (not (c.id == 0)
            && ((bit_and c.flags forbidden_flags == 0)
                && (leb min_lifetime_seconds c.lifetime
                    && (leb c.lifetime max_lifetime_seconds
                        && (leb c.body_length max_body_size
                            && (is_registered_family c.family
                                && is_valid_family_body c.family c.body c.body_length)))))))

-- `allZero(value.body + value.bodyLength, MAX_BODY_SIZE - value.bodyLength)`
abbrev pub has_zero_tail : ℕ → List ℕ → Bool
has_zero_tail body_length body = all_zero (max_body_size - body_length) (drop body_length body)

-- The body written into the clear end of a record is followed by eight clear bytes.
pub copy_body :
    (n : ℕ) (body : List ℕ)
    → n ≤ 12
    → length body ≡ 12
    → has_zero_tail n body ≡ true
    → copy n (replicate 20 0) body ≡ body ++ replicate 8 0
copy_body n body h e z =
    copy-append_left n (replicate 12 0) (replicate 8 0) body h
    ∙ ap (λ (t : List ℕ). t ++ replicate 8 0) (copy_of_zero_tail n 12 body e z)

pub valid_canonical_event-le :
    (source : ℕ) (c : Content)
    → valid_canonical_event source c ≡ true
    → c.body_length ≤ max_body_size
unfolding valid_canonical_event
valid_canonical_event-le source c h = ground arith

-- The body of a record, followed by four clear bytes and the sum, as the decoder reads it.
module _ (body sum : List ℕ) (size : length body ≡ 12) where
  pub body_copied : copy 12 (replicate 12 0) ((body ++ replicate 4 0) ++ sum) ≡ body
  body_copied = rw append_assoc (copy_all 12 (replicate 12 0) body (replicate 4 0 ++ sum) refl size)

  pub body_reserved : all_zero 4 (drop 12 ((body ++ replicate 4 0) ++ sum)) ≡ true
  body_reserved = rw (append_assoc, drop-append 12 body (replicate 4 0 ++ sum) size)

  pub body_tail :
      (n : ℕ)
      → n ≤ 12
      → has_zero_tail n body ≡ true
      → has_zero_tail n ((body ++ replicate 4 0) ++ sum) ≡ true
  body_tail n h z =
      rw (append_assoc, all_zero-drop_append n 12 body (replicate 4 0 ++ sum) size h) z
