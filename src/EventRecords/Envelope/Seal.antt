-- ===== src/EventRecords/Envelope/Seal.antt =====
-- The bytes that the encoders write: header, fields and checksum, as one list.
use argus_redline.Base.{
  ℕ, ◌+◌, ◌-◌, ◌/◌, ◌^◌, ◌≡◌, arith, some, List, [], ◌∷◌, ◌++◌, length, IsByte, All, take-append,
  set, set-append, drop-append, length-append,
}
use native.Mathlib.Nat.{add-zero}
use argus_redline.Base.Words.{join_u32-split, join_u16_sum, u8}
use argus_redline.EventRecords.Crc32.{crc32, crc32-lt}
use argus_redline.EventRecords.Envelope.{
  ok, read_u32_le, write_u32_le, finish_crc, validate_envelope, same_magic, read_u16_le,
}
use argus_redline.EventRecords.Envelope.Integrity.{read-drop}

-- The four bytes of the sum of what stands before them.
abbrev pub sum_bytes : List ℕ → List ℕ
sum_bytes xs =
    u8 (crc32 xs) ∷ u8 (crc32 xs / 2 ^ 8) ∷ u8 (crc32 xs / 2 ^ 16) ∷ u8 (crc32 xs / 2 ^ 24) ∷ []

read_sum :
    (k : ℕ) (xs : List ℕ)
    → All IsByte xs
    → length xs ≡ k
    → read_u32_le (xs ++ sum_bytes xs) k ≡ crc32 xs
unfolding read_u32_le
read_sum k xs b e =
    rw (read-drop k (xs ++ sum_bytes xs), drop-append k xs (sum_bytes xs) e)
      (join_u32-split (crc32 xs) (crc32-lt xs b))

-- An image that starts with the magic of a format, the schema and its length passes.
pub validate_envelope-seal :
    (m0 m1 m2 m3 size : ℕ) (rest : List ℕ)
    → let image = m0 ∷ m1 ∷ m2 ∷ m3 ∷ 1 ∷ 0 ∷ size ∷ 0 ∷ rest in
      All IsByte image
      → length image + 4 ≡ size
      → validate_envelope (some (image ++ sum_bytes image)) size (m0 ∷ m1 ∷ m2 ∷ m3 ∷ []) ≡ ok tt
unfolding validate_envelope same_magic read_u16_le
validate_envelope-seal m0 m1 m2 m3 size rest b h =
    let image : List ℕ = m0 ∷ m1 ∷ m2 ∷ m3 ∷ 1 ∷ 0 ∷ size ∷ 0 ∷ rest in
    rw
      (
        read_sum (size - 4) image b (omega arith),
        take-append (size - 4) image (sum_bytes image) (omega arith),
        join_u16_sum size 0 b.1.1.1.1.1.1.0,
      )
      (ground (arith, length-append image (sum_bytes image)))

-- What `finishCrc` makes of a buffer whose last four bytes are still clear.
pub finish_crc-append :
    (xs : List ℕ) (n : ℕ)
    → length xs + 4 ≡ n
    → finish_crc (xs ++ (0 ∷ 0 ∷ 0 ∷ 0 ∷ [])) n ≡ xs ++ sum_bytes xs
unfolding finish_crc write_u32_le
finish_crc-append xs n e =
    let clear : List ℕ = 0 ∷ 0 ∷ 0 ∷ 0 ∷ [] in
    let k : length xs ≡ n - 4 = omega arith in
    rw (
      take-append (n - 4) xs clear k,
      set_first (n - 4) xs clear (u8 (crc32 xs)) k,
      set-append (n - 4) 1 xs _ (u8 (crc32 xs / 2 ^ 8)) k,
      set-append (n - 4) 2 xs _ (u8 (crc32 xs / 2 ^ 16)) k,
      set-append (n - 4) 3 xs _ (u8 (crc32 xs / 2 ^ 24)) k,
    )
  where
    set_first :
        (k : ℕ) (xs ys : List ℕ) (v : ℕ) → length xs ≡ k → set (xs ++ ys) k v ≡ xs ++ set ys 0 v
    set_first k xs ys v e = rw (add-zero k) at (set-append k 0 xs ys v e)
