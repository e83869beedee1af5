-- ===== src/Base/Words.antt =====
-- Casts to the unsigned widths, and little-endian numbers as their bytes.
use Prim.Native.Nat.{ℕ, ◌+◌, ◌-◌, ◌*◌, ◌/◌, ◌%◌, ◌^◌, ◌<◌, bit_or}
use mathlib.Core.Path.{◌≡◌}
use native.Mathlib.Omega.{arith}
use argus_redline.Base.Bytes.{IsByte}
use argus_redline.Base.Bits.{bit_or_fields}

abbrev pub u8 : ℕ → ℕ
u8 n = n % 2 ^ 8

abbrev pub u16 : ℕ → ℕ
u16 n = n % 2 ^ 16

abbrev pub u32 : ℕ → ℕ
u32 n = n % 2 ^ 32

-- `a - b` on `uint32_t`. The natural subtraction stops at 0, so the modulus is added first.
abbrev pub sub_u32 : ℕ → ℕ → ℕ
sub_u32 a b = (a + 2 ^ 32 - b) % 2 ^ 32

abbrev pub IsU16 : ℕ → Type 0
IsU16 n = n < 2 ^ 16

abbrev pub IsU32 : ℕ → Type 0
IsU32 n = n < 2 ^ 32

abbrev pub join_u16 : ℕ → ℕ → ℕ
join_u16 b0 b1 = bit_or b0 (b1 * 2 ^ 8)

abbrev pub join_u32 : ℕ → ℕ → ℕ → ℕ → ℕ
join_u32 b0 b1 b2 b3 = bit_or (bit_or (bit_or b0 (b1 * 2 ^ 8)) (b2 * 2 ^ 16)) (b3 * 2 ^ 24)

pub join_u16_sum : (b0 b1 : ℕ) → IsByte b0 → join_u16 b0 b1 ≡ b0 + b1 * 2 ^ 8
join_u16_sum b0 b1 h0 = bit_or_fields 8 b0 b1 h0

pub join_u32_sum :
    (b0 b1 b2 b3 : ℕ)
    → IsByte b0
    → IsByte b1
    → IsByte b2
    → join_u32 b0 b1 b2 b3 ≡ b0 + b1 * 2 ^ 8 + b2 * 2 ^ 16 + b3 * 2 ^ 24
join_u32_sum b0 b1 b2 b3 h0 h1 h2 =
    rw (bit_or_fields 8 b0 b1 h0, bit_or_fields 16 (b0 + b1 * 2 ^ 8) b2 (omega arith))
      (bit_or_fields 24 (b0 + b1 * 2 ^ 8 + b2 * 2 ^ 16) b3 (omega arith))

-- The bytes of a number, lowest first, put together again.
pub join_u16-split : (n : ℕ) → IsU16 n → join_u16 (u8 n) (u8 (n / 2 ^ 8)) ≡ n
join_u16-split n h = omega (arith, join_u16_sum (u8 n) (u8 (n / 2 ^ 8)) (omega arith))

pub join_u32-split :
    (n : ℕ) → IsU32 n → join_u32 (u8 n) (u8 (n / 2 ^ 8)) (u8 (n / 2 ^ 16)) (u8 (n / 2 ^ 24)) ≡ n
join_u32-split n h = omega (
  arith,
  join_u32_sum (u8 n) (u8 (n / 2 ^ 8)) (u8 (n / 2 ^ 16)) (u8 (n / 2 ^ 24)) (omega arith)
      (omega arith) (omega arith),
)
