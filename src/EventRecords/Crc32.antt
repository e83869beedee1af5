-- ===== src/EventRecords/Crc32.antt =====
-- `crc32IsoHdlc` of lib/event_storage/src/event_records.h. No change within one byte keeps the sum:
-- each step is injective, because the polynomial's top bit tells an odd value from an even one.
use argus_redline.Base.{
  ℕ, zero, suc, ◌/◌, ◌≡◌, ◌≢◌, ◌∙◌, arith, not, Option, none, some, List, [], ◌∷◌, bit_and, bit_xor,
  ◌==◌, if◌then◌else◌, IsByte, All, OneByte, here, there,
}
use argus_redline.Base.Words.{IsU32}
use argus_redline.Base.Bits.{bit_and_mask, bit_xor-lt, le-bit_xor, bit_xor_injective, bit_xor_comm}

abbrev polynomial : ℕ
polynomial = 0xedb88320

abbrev all_ones : ℕ
all_ones = 0xffffffff

crc32_bit : ℕ → ℕ
crc32_bit value = if not (bit_and value 1 == 0) then bit_xor (value / 2) polynomial else value / 2

crc32_bits : ℕ → ℕ → ℕ
crc32_bits zero value = value
crc32_bits (suc rounds) value = crc32_bits rounds (crc32_bit value)

crc32_byte : ℕ → ℕ → ℕ
crc32_byte value byte = crc32_bits 8 (bit_xor value byte)

crc32_loop : ℕ → List ℕ → ℕ
crc32_loop value [] = value
crc32_loop value (byte ∷ rest) = crc32_loop (crc32_byte value byte) rest

unfoldable pub crc32 : List ℕ → ℕ
unfolding crc32_loop crc32_byte crc32_bits crc32_bit
crc32 input = bit_xor (crc32_loop all_ones input) all_ones

-- The function itself refuses a null pointer.
pub crc32_iso_hdlc : Option (List ℕ) → Option ℕ
crc32_iso_hdlc none = none
crc32_iso_hdlc (some input) = some (crc32 input)

crc32_bit-lt : (v : ℕ) → IsU32 v → IsU32 (crc32_bit v)
unfolding crc32_bit
crc32_bit-lt v h = ground (arith, bit_xor-lt 32 (v / 2) polynomial (omega arith) (omega arith))

crc32_bits-lt : (n v : ℕ) → IsU32 v → IsU32 (crc32_bits n v)
unfolding crc32_bits
crc32_bits-lt zero v h = h
crc32_bits-lt (suc n) v h = crc32_bits-lt n (crc32_bit v) (crc32_bit-lt v h)

crc32_byte-lt : (v b : ℕ) → IsU32 v → IsByte b → IsU32 (crc32_byte v b)
unfolding crc32_byte
crc32_byte-lt v b h k = crc32_bits-lt 8 (bit_xor v b) (bit_xor-lt 32 v b h (omega arith))

crc32_loop-lt : (v : ℕ) (xs : List ℕ) → IsU32 v → All IsByte xs → IsU32 (crc32_loop v xs)
unfolding crc32_loop
crc32_loop-lt v [] h k = h
crc32_loop-lt v (x ∷ xs) h k = crc32_loop-lt (crc32_byte v x) xs (crc32_byte-lt v x h k.0) k.1

pub crc32-lt : (xs : List ℕ) → All IsByte xs → IsU32 (crc32 xs)
unfolding crc32
crc32-lt xs k =
    bit_xor-lt 32 (crc32_loop all_ones xs) all_ones (crc32_loop-lt all_ones xs (omega arith) k)
      (omega arith)

crc32_bit_injective : (v w : ℕ) → IsU32 v → IsU32 w → crc32_bit v ≡ crc32_bit w → v ≡ w
unfolding crc32_bit
crc32_bit_injective v w hv hw e = ground (
  arith,
  bit_and_mask 1 v,
  bit_and_mask 1 w,
  le-bit_xor 31 (v / 2) polynomial (omega arith) (omega arith),
  le-bit_xor 31 (w / 2) polynomial (omega arith) (omega arith),
  bit_xor_injective (v / 2) (w / 2) polynomial,
)

crc32_bits_injective : (n v w : ℕ) → IsU32 v → IsU32 w → crc32_bits n v ≡ crc32_bits n w → v ≡ w
unfolding crc32_bits
crc32_bits_injective zero v w hv hw e = e
crc32_bits_injective (suc n) v w hv hw e =
    crc32_bit_injective v w hv hw
      (crc32_bits_injective n (crc32_bit v) (crc32_bit w) (crc32_bit-lt v hv) (crc32_bit-lt w hw) e)

crc32_byte_injective :
    (v w b : ℕ) → IsU32 v → IsU32 w → IsByte b → crc32_byte v b ≡ crc32_byte w b → v ≡ w
unfolding crc32_byte
crc32_byte_injective v w b hv hw hb e = bit_xor_injective v w b (
    crc32_bits_injective 8 (bit_xor v b) (bit_xor w b) (bit_xor-lt 32 v b hv (omega arith))
      (bit_xor-lt 32 w b hw (omega arith)) e)

crc32_byte_ne :
    (v a b : ℕ) → IsU32 v → IsByte a → IsByte b → a ≢ b → crc32_byte v a ≢ crc32_byte v b
unfolding crc32_byte
crc32_byte_ne v a b hv ha hb ne e = ne (
    bit_xor_injective a b v (
      bit_xor_comm a v
      ∙ (crc32_bits_injective 8 (bit_xor v a) (bit_xor v b) (bit_xor-lt 32 v a hv (omega arith))
            (bit_xor-lt 32 v b hv (omega arith)) e
          ∙ bit_xor_comm v b)))

crc32_loop_injective :
    (v w : ℕ) (xs : List ℕ)
    → IsU32 v
    → IsU32 w
    → All IsByte xs
    → crc32_loop v xs ≡ crc32_loop w xs
    → v ≡ w
unfolding crc32_loop
crc32_loop_injective v w [] hv hw k e = e
crc32_loop_injective v w (x ∷ xs) hv hw k e = crc32_byte_injective v w x hv hw k.0 (
    crc32_loop_injective (crc32_byte v x) (crc32_byte w x) xs (crc32_byte-lt v x hv k.0)
      (crc32_byte-lt w x hw k.0) k.1 e)

crc32_loop_detects :
    (v : ℕ) {xs ys : List ℕ}
    → IsU32 v
    → All IsByte xs
    → All IsByte ys
    → OneByte xs ys
    → crc32_loop v xs ≢ crc32_loop v ys
unfolding crc32_loop
crc32_loop_detects v hv hx hy (here a b xs ne) e = crc32_byte_ne v a b hv hx.0 hy.0 ne (
    crc32_loop_injective (crc32_byte v a) (crc32_byte v b) xs (crc32_byte-lt v a hv hx.0)
      (crc32_byte-lt v b hv hy.0) hx.1 e)
crc32_loop_detects v hv hx hy (there a d) e =
    crc32_loop_detects (crc32_byte v a) (crc32_byte-lt v a hv hx.0) hx.1 hy.1 d e

-- Two lists of bytes that differ in exactly one byte have different sums.
pub crc32_detects :
    {xs ys : List ℕ} → All IsByte xs → All IsByte ys → OneByte xs ys → crc32 xs ≢ crc32 ys
unfolding crc32
crc32_detects {xs} {ys} hx hy d e =
    crc32_loop_detects all_ones (omega arith) hx hy d
      (bit_xor_injective (crc32_loop all_ones xs) (crc32_loop all_ones ys) all_ones e)
