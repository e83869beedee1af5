-- ===== src/HostProtocol/Cobs/Stuffed.antt =====
-- What `cobsEncode` makes of its input (lib/host_protocol/src/host_protocol.h), and its size.
use argus_redline.Base.{
  ℕ, zero, suc, ◌+◌, ◌≤◌, ◌<◌, ◌≡◌, ◌≢◌, refl, ap, ◌∙◌, arith, true, false, some, List, [], ◌∷◌,
  ◌++◌, ltb, ◌==◌, length, replicate, All, All-append, length-append, append_assoc, Bool-cases, inl,
  inr,
}
use argus_redline.Base.Words.{u8}
use argus_redline.HostProtocol.Cobs.{
  ok, ◌>>=◌, encode_zero, encode_nonzero, after_append, encode_byte, encode_bytes, finish, start,
  cobs_encode,
}
use argus_redline.HostProtocol.Cobs.Layout.{
  layout, append-layout, start_block-layout, finish-layout, room,
}

-- The encoding of `block ++ input`, of which `block` has no zero and is open.
unfoldable pub stuffed : List ℕ → List ℕ → List ℕ
stuffed block [] = (length block + 1) ∷ block
stuffed block (v ∷ input) = elim (v == 0) [
  | true ↦ ((length block + 1) ∷ block) ++ stuffed [] input
  | false ↦ stuffed (block ++ (v ∷ [])) input
]

pub stuffed-zero :
    (block input : List ℕ) (v : ℕ)
    → (v == 0) ≡ true
    → stuffed block (v ∷ input) ≡ ((length block + 1) ∷ block) ++ stuffed [] input
unfolding stuffed
stuffed-zero block input v e = rw (stuffed, e) refl

pub stuffed-nonzero :
    (block input : List ℕ) (v : ℕ)
    → (v == 0) ≡ false
    → stuffed block (v ∷ input) ≡ stuffed (block ++ (v ∷ [])) input
unfolding stuffed
stuffed-nonzero block input v e = rw (stuffed, e) refl

encode_byte-zero :
    (capacity : ℕ) (done block rest : List ℕ) (hole y v : ℕ)
    → (v == 0) ≡ true
    → length done + suc (length block) < capacity
    → encode_byte capacity v (layout done hole block (y ∷ rest))
      ≡ ok (layout (done ++ ((length block + 1) ∷ block)) y [] rest)
unfolding encode_byte encode_zero
encode_byte-zero capacity done block rest hole y v e h =
    rw (e, room capacity (length done) (omega arith))
      (start_block-layout capacity done block rest hole y h)

not_full : (n : ℕ) → n < 253 → (u8 (n + 1 + 1) == 0xff) ≡ false
not_full n h = ground arith

encode_byte-nonzero :
    (capacity : ℕ) (done block rest : List ℕ) (hole y v : ℕ)
    → (v == 0) ≡ false
    → length done + suc (length block) < capacity
    → length block < 253
    → encode_byte capacity v (layout done hole block (y ∷ rest))
      ≡ ok (layout done hole (block ++ (v ∷ [])) rest)
unfolding encode_byte encode_nonzero after_append
encode_byte-nonzero capacity done block rest hole y v e h l =
    rw
      (
        e,
        room capacity (length done + suc (length block)) h,
        append-layout done block rest hole y v (omega arith),
        not_full (length block) l,
      )
      refl

encode_bytes-layout :
    (capacity : ℕ) (input done block rest : List ℕ) (hole : ℕ)
    → length done + suc (length block + length rest) ≡ capacity
    → length input ≤ length rest
    → length block + length input < 254
    → (encode_bytes capacity input (layout done hole block rest) >>= finish capacity)
      ≡ ok (done ++ stuffed block input)
unfolding encode_bytes stuffed
encode_bytes-layout capacity [] done block rest hole c r l =
    finish-layout capacity done block rest hole (omega arith)
encode_bytes-layout capacity (v ∷ input) done block [] hole c r l = absurd (omega arith)
encode_bytes-layout capacity (v ∷ input) done block (y ∷ rest) hole c r l =
    elim (Bool-cases (v == 0)) [
      | inl e ↦
          rw
            (
              encode_byte-zero capacity done block rest hole y v e (omega arith),
              stuffed-zero block input v e,
            )
            (encode_bytes-layout capacity input (done ++ ((length block + 1) ∷ block)) [] rest y
                (omega (arith, length-append done ((length block + 1) ∷ block))) (omega arith)
                (omega arith)
              ∙ ap ok (append_assoc done ((length block + 1) ∷ block) (stuffed [] input)))
      | inr e ↦
          rw
            (
              encode_byte-nonzero capacity done block rest hole y v e (omega arith) (omega arith),
              stuffed-nonzero block input v e,
            )
            (encode_bytes-layout capacity input done (block ++ (v ∷ [])) rest hole
              (omega (arith, length-append block (v ∷ []))) (omega arith)
              (omega (arith, length-append block (v ∷ []))))
    ]

pub not_zero : (x : ℕ) → x ≢ 0 → (x == 0) ≡ false
not_zero x h = ground arith

pub fits : (m n : ℕ) → n ≤ m → ltb m n ≡ false
fits m n h = ground arith

pub nonzero : (v : ℕ) → (v == 0) ≡ false → v ≢ 0
nonzero v e = ground arith

pub stuffed_nonempty : (block input : List ℕ) → 0 < length (stuffed block input)
unfolding stuffed
stuffed_nonempty block [] = omega arith
stuffed_nonempty block (v ∷ input) = elim (Bool-cases (v == 0)) [
  | inl e ↦ rw (stuffed-zero block input v e) (omega arith)
  | inr e ↦ rw (stuffed-nonzero block input v e) (stuffed_nonempty (block ++ (v ∷ [])) input)
]

pub length-stuffed :
    (block input : List ℕ) → length (stuffed block input) ≡ length block + length input + 1
unfolding stuffed
length-stuffed block [] = omega arith
length-stuffed block (v ∷ input) = elim (Bool-cases (v == 0)) [
  | inl e ↦
      rw (stuffed-zero block input v e)
        (omega (arith, length-append block (stuffed [] input), length-stuffed [] input))
  | inr e ↦
      rw (stuffed-nonzero block input v e)
        (omega (arith, length-append block (v ∷ []), length-stuffed (block ++ (v ∷ [])) input))
]

pub stuffed_without_zero :
    (block input : List ℕ) → All (λ v. v ≢ 0) block → All (λ v. v ≢ 0) (stuffed block input)
unfolding stuffed
stuffed_without_zero block [] h = (omega arith, h)
stuffed_without_zero block (v ∷ input) h = elim (Bool-cases (v == 0)) [
  | inl e ↦
      rw (stuffed-zero block input v e)
        (omega arith, All-append _ block (stuffed [] input) h (stuffed_without_zero [] input tt))
  | inr e ↦ rw (stuffed-nonzero block input v e) (
      stuffed_without_zero (block ++ (v ∷ [])) input
        (All-append _ block (v ∷ []) h (nonzero v e, tt)))
]

length-replicate : (n : ℕ) → length {A = ℕ} (replicate n 0) ≡ n
length-replicate zero = refl
length-replicate (suc n) = ap suc (length-replicate n)

pub cobs_encode_lem :
    (input : List ℕ) (capacity : ℕ)
    → length input ≤ 138
    → length input < capacity
    → cobs_encode input (some capacity) ≡ ok (stuffed [] input)
unfolding cobs_encode start
cobs_encode_lem input zero h c = absurd (omega arith)
cobs_encode_lem input (suc capacity) h c =
    rw (fits 138 (length input) h, not_zero (suc capacity) (omega arith))
      (encode_bytes-layout (suc capacity) input [] [] (replicate capacity 0) 0
        (omega (arith, length-replicate capacity)) (omega (arith, length-replicate capacity))
        (omega arith))
