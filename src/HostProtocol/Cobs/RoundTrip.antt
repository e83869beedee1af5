-- ===== src/HostProtocol/Cobs/RoundTrip.antt =====
-- `cobsDecode` undoes `cobsEncode` (lib/host_protocol/src/host_protocol.h).
use argus_redline.Base.{
  ℕ, zero, suc, ◌+◌, ◌-◌, ◌≤◌, ◌<◌, ◌≡◌, ◌≢◌, refl, sym, subst, ap, ◌∙◌, arith, true, some, List,
  [], ◌∷◌, ◌++◌, ◌==◌, length, All, All-append, drop-append, length-append, append_nil,
  append_assoc, Bool-cases, inl, inr,
}
use argus_redline.HostProtocol.Cobs.{
  ok, ◌>>=◌, cobs_encode, read_block, separator, decode_block, decode_blocks, cobs_decode,
}
use argus_redline.HostProtocol.Cobs.Stuffed.{
  stuffed, stuffed-zero, stuffed-nonzero, not_zero, fits, nonzero, stuffed_nonempty, length-stuffed,
  stuffed_without_zero, cobs_encode_lem,
}

block_size : (n : ℕ) → n + 1 - 1 ≡ n
block_size n = omega arith

-- Reading a block without a zero takes it whole.
read_block_lem :
    (block rest : List ℕ)
    → All (λ v. v ≢ 0) block
    → read_block (length block) (block ++ rest) ≡ ok block
unfolding read_block
read_block_lem [] rest h = refl
read_block_lem (x ∷ block) rest h = rw (not_zero x h.0, read_block_lem block rest h.1) refl

decode_block_lem :
    (capacity : ℕ) (block rest written : List ℕ)
    → All (λ v. v ≢ 0) block
    → length written + length block ≤ capacity
    → decode_block capacity (length block + 1) (block ++ rest) written
      ≡ separator capacity (length block + 1) rest (written ++ block)
unfolding decode_block
decode_block_lem capacity block rest written h c =
    rw
      (
        not_zero (length block + 1) (omega arith),
        block_size (length block),
        fits (length (block ++ rest)) (length block) (omega (arith, length-append block rest)),
        fits (capacity - length written) (length block) (omega arith),
        read_block_lem block rest h,
        drop-append (length block) block rest refl,
      )
      refl

decode_blocks-block :
    (fuel capacity : ℕ) (block rest written : List ℕ)
    → All (λ v. v ≢ 0) block
    → length written + length block ≤ capacity
    → decode_blocks (suc fuel) capacity ((length block + 1) ∷ (block ++ rest)) written ≡ (
        separator capacity (length block + 1) rest (written ++ block)
        >>= decode_blocks fuel capacity rest)
unfolding decode_blocks
decode_blocks-block fuel capacity block rest written h c =
    rw
      (
        decode_block_lem capacity block rest written h c,
        block_size (length block),
        drop-append (length block) block rest refl,
      )
      refl

separator-last :
    (capacity code : ℕ) (written : List ℕ) → separator capacity code [] written ≡ ok written
unfolding separator
separator-last capacity code written = ground arith

separator-more :
    (capacity code : ℕ) (rest written : List ℕ)
    → code < 255
    → 0 < length rest
    → length written < capacity
    → separator capacity code rest written ≡ ok (written ++ (0 ∷ []))
unfolding separator
separator-more capacity code rest written h k c = ground arith

with_zero :
    (written block input : List ℕ) (v : ℕ)
    → (v == 0) ≡ true
    → ((written ++ block) ++ (0 ∷ [])) ++ input ≡ written ++ (block ++ (v ∷ input))
with_zero written block input v e =
    let z : v ≡ 0 = ground arith in
    rw z (append_assoc (written ++ block) (0 ∷ []) input ∙ append_assoc written block (0 ∷ input))

decode_blocks-stuffed :
    (fuel capacity : ℕ) (input block written : List ℕ)
    → All (λ v. v ≢ 0) block
    → length (stuffed block input) ≤ fuel
    → length written + length block + length input ≤ capacity
    → length block + length input < 254
    → decode_blocks fuel capacity (stuffed block input) written ≡ ok (written ++ (block ++ input))
unfolding decode_blocks stuffed
decode_blocks-stuffed zero capacity input block written h f c l =
    absurd (omega (arith, stuffed_nonempty block input))
decode_blocks-stuffed (suc fuel) capacity [] block written h f c l =
    subst
      (λ (b : List ℕ).
        decode_blocks (suc fuel) capacity ((length block + 1) ∷ b) written
        ≡ ok (written ++ (block ++ [])))
      (append_nil block)
      (decode_blocks-block fuel capacity block [] written h (omega arith)
        ∙ rw (separator-last capacity (length block + 1) (written ++ block))
            (ap ok (ap (λ (t : List ℕ). written ++ t) (sym (append_nil block)))))
decode_blocks-stuffed (suc fuel) capacity (v ∷ input) block written h f c l =
    elim (Bool-cases (v == 0)) [
      | inl e ↦ rw (stuffed-zero block input v e) (
          decode_blocks-block fuel capacity block (stuffed [] input) written h (omega arith)
          ∙ rw
              (separator-more capacity (length block + 1) (stuffed [] input) (written ++ block)
                (omega arith) (stuffed_nonempty [] input)
                (omega (arith, length-append written block)))
              (decode_blocks-stuffed fuel capacity input [] ((written ++ block) ++ (0 ∷ [])) tt
                  (omega (
                    arith,
                    length-append block (stuffed [] input),
                    subst (λ (t : List ℕ). length t ≤ suc fuel) (stuffed-zero block input v e) f,
                  ))
                  (omega
                    (arith, length-append written block, length-append (written ++ block) (0 ∷ [])))
                  (omega arith)
                ∙ ap ok (with_zero written block input v e)))
      | inr e ↦ rw (stuffed-nonzero block input v e) (
          decode_blocks-stuffed (suc fuel) capacity input (block ++ (v ∷ [])) written
            (All-append _ block (v ∷ []) h (nonzero v e, tt))
            (subst (λ (t : List ℕ). length t ≤ suc fuel) (stuffed-nonzero block input v e) f)
            (omega (arith, length-append block (v ∷ [])))
            (omega (arith, length-append block (v ∷ [])))
          ∙ ap (λ (t : List ℕ). ok (written ++ t)) (append_assoc block (v ∷ []) input))
    ]

-- At most 138 bytes, encoded into a buffer with room for one byte more, take exactly one byte more, none of them zero, and
-- decoding them into a buffer with room for the input gives it back.
pub cobs_decode-cobs_encode :
    (input : List ℕ) (capacity output_capacity : ℕ)
    → length input ≤ 138
    → length input < capacity
    → length input ≤ output_capacity
    → (bytes : List ℕ) × (cobs_encode input (some capacity) ≡ ok bytes)
      × (length bytes ≡ length input + 1)
      × All (λ v. v ≢ 0) bytes
      × (cobs_decode (some bytes) (some output_capacity) ≡ ok input)
unfolding cobs_decode
cobs_decode-cobs_encode input capacity output_capacity h c o = (
  stuffed [] input,
  cobs_encode_lem input capacity h c,
  omega (arith, length-stuffed [] input),
  stuffed_without_zero [] input tt,
  rw
      (
        not_zero (length (stuffed [] input)) (omega (arith, stuffed_nonempty [] input)),
        fits 139 (length (stuffed [] input)) (omega (arith, length-stuffed [] input)),
      )
      (decode_blocks-stuffed (length (stuffed [] input)) output_capacity input [] [] tt
        (omega arith) (omega arith) (omega arith)),
)
