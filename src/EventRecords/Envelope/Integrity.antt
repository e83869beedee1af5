-- ===== src/EventRecords/Envelope/Integrity.antt =====
-- A record that has passed `validateEnvelope` does not pass it with one byte changed.
use argus_redline.Base.{
  ℕ, ◌-◌, ◌≤◌, ◌≡◌, ◌≢◌, ap, inl, inr, arith, some, List, [], ◌∷◌, length, take, drop, length-drop,
  IsByte, All, OneByte, here, there, OneByte-split, OneByte-length, get_or-drop, All-take, All-drop,
}
use native.Mathlib.Nat.{add-zero}
use argus_redline.Base.Words.{join_u32_sum}
use argus_redline.EventRecords.Crc32.{crc32, crc32_detects}
use argus_redline.EventRecords.Envelope.{ok, read_u32_le, validate_envelope}

stored_of_ok :
    (xs magic : List ℕ) (n : ℕ)
    → validate_envelope (some xs) n magic ≡ ok tt
    → (length xs ≡ n) × (read_u32_le xs (n - 4) ≡ crc32 (take (n - 4) xs))
unfolding validate_envelope
stored_of_ok xs magic n e = ground arith

pub read-drop : (k : ℕ) (xs : List ℕ) → read_u32_le xs k ≡ read_u32_le (drop k xs) 0
unfolding read_u32_le
read-drop k xs = rw (
  ← get_or-drop k 0 0 xs,
  ← get_or-drop k 1 0 xs,
  ← get_or-drop k 2 0 xs,
  ← get_or-drop k 3 0 xs,
  add-zero,
)

OneByte-ne : {xs ys : List ℕ} → OneByte xs ys → xs ≢ ys
OneByte-ne (here a b xs ne) e = ne (cc)
OneByte-ne (there a d) e = OneByte-ne d (cc)

-- Four bytes are told apart by the word that they make.
read_of_four :
    (xs ys : List ℕ)
    → length xs ≡ 4
    → length ys ≡ 4
    → All IsByte xs
    → All IsByte ys
    → read_u32_le xs 0 ≡ read_u32_le ys 0
    → xs ≡ ys
unfolding read_u32_le
read_of_four (a ∷ b ∷ c ∷ d ∷ []) (a' ∷ b' ∷ c' ∷ d' ∷ []) h k hx hy e = ground (
  arith,
  join_u32_sum a b c d hx.0 hx.1.0 hx.1.1.0,
  join_u32_sum a' b' c' d' hy.0 hy.1.0 hy.1.1.0,
)
read_of_four (a ∷ b ∷ c ∷ d ∷ []) ys h k hx hy e = absurd (omega arith)
read_of_four xs ys h k hx hy e = absurd (omega arith)

read_injective :
    {xs ys : List ℕ}
    → length xs ≡ 4
    → All IsByte xs
    → All IsByte ys
    → OneByte xs ys
    → read_u32_le xs 0 ≢ read_u32_le ys 0
read_injective {xs} {ys} h hx hy d e =
    OneByte-ne d (read_of_four xs ys h (omega (arith, OneByte-length d)) hx hy e)

-- One changed byte, in the sum itself or before it, makes `validateEnvelope` refuse a record that it
-- accepted: for every magic and every expected length that leaves room for the sum.
pub validate_envelope_detects :
    (xs ys magic : List ℕ) (n : ℕ)
    → 4 ≤ n
    → All IsByte xs
    → All IsByte ys
    → OneByte xs ys
    → validate_envelope (some xs) n magic ≡ ok tt
    → validate_envelope (some ys) n magic ≢ ok tt
validate_envelope_detects xs ys magic n h hx hy d e e' =
    let (len, px) = stored_of_ok xs magic n e in
    let (len', py) = stored_of_ok ys magic n e' in
    elim (OneByte-split (n - 4) d) [
      | inl (p, q) ↦ crc32_detects (All-take (n - 4) xs hx) (All-take (n - 4) ys hy) p (
          cc (
            px,
            py,
            read-drop (n - 4) xs,
            read-drop (n - 4) ys,
            ap (λ (t : List ℕ). read_u32_le t 0) q,
          ))
      | inr (q, p) ↦
          read_injective (omega (arith, length-drop (n - 4) xs)) (All-drop (n - 4) xs hx)
            (All-drop (n - 4) ys hy) p
            (cc
              (px, py, read-drop (n - 4) xs, read-drop (n - 4) ys, ap (λ (t : List ℕ). crc32 t) q))
    ]
