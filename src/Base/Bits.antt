-- ===== src/Base/Bits.antt =====
-- Laws of `|`, `&` and `^` at variables, from one equation for the lowest binary digit.
use Prim.Native.Nat.{
  ℕ, zero, suc, ◌+◌, ◌-◌, ◌*◌, ◌/◌, ◌%◌, ◌^◌, ◌≤◌, ◌<◌, min, max, bit_and, bit_or, bit_xor, digits,
  bitwise, differ, bit_and-bitwise, bit_or-bitwise, bit_xor-bitwise,
}
use mathlib.Core.Path.{◌≡◌, refl, sym, ap, subst, ◌∙◌}
use native.Mathlib.Nat.{le_refl, zero-add, suc-add, pow-suc, one-le-pow}
use native.Mathlib.Omega.{arith}

-- Induction along halves.
by_halves : (P : ℕ → Type 0) → P 0 → ((k : ℕ) → P (suc k / 2) → P (suc k)) → (a : ℕ) → P a
by_halves P base step a = upto a a (le_refl a)
  where
    upto : (limit k : ℕ) → k ≤ limit → P k
    upto limit zero h = base
    upto zero (suc k) h = absurd (omega arith)
    upto (suc limit) (suc k) h = step k (upto limit (suc k / 2) (omega arith))

module _ (rest : ℕ → ℕ) (digit : ℕ → ℕ → ℕ) where
  -- One unit of fuel more than the first operand needs changes nothing.
  spare_unit :
      (fuel k m : ℕ) → k ≤ fuel → digits rest digit (suc fuel) k m ≡ digits rest digit fuel k m
  spare_unit zero zero m h = refl
  spare_unit zero (suc k) m h = absurd (omega arith)
  spare_unit (suc fuel) zero m h = refl
  spare_unit (suc fuel) (suc k) m h = rw (spare_unit fuel (suc k / 2) (m / 2) (omega arith))

  spare_fuel :
      (extra fuel k m : ℕ)
      → k ≤ fuel
      → digits rest digit (extra + fuel) k m ≡ digits rest digit fuel k m
  spare_fuel zero fuel k m h = rw zero-add
  spare_fuel (suc extra) fuel k m h =
      rw (suc-add extra fuel)
        (spare_unit (extra + fuel) k m (omega arith) ∙ spare_fuel extra fuel k m h)

  exact_fuel : (fuel k m : ℕ) → k ≤ fuel → digits rest digit fuel k m ≡ digits rest digit k k m
  exact_fuel fuel k m h =
      subst (λ (n : ℕ). digits rest digit n k m ≡ digits rest digit k k m) (omega arith)
        (spare_fuel (fuel - k) k k m (le_refl k))

  lowest_digit :
      ((m : ℕ) → rest m ≡ digit 0 (m % 2) + rest (m / 2) * 2)
      → (k m : ℕ)
      → bitwise rest digit k m ≡ digit (k % 2) (m % 2) + bitwise rest digit (k / 2) (m / 2) * 2
  lowest_digit at_zero zero m = at_zero m
  lowest_digit at_zero (suc k) m = omega (arith, exact_fuel k (suc k / 2) (m / 2) (omega arith))

pub bit_or_step : (k m : ℕ) → bit_or k m ≡ max (k % 2) (m % 2) + bit_or (k / 2) (m / 2) * 2
bit_or_step k m = simp bit_or-bitwise (lowest_digit (λ y. y) max (λ y. omega arith) k m)

pub bit_and_step : (k m : ℕ) → bit_and k m ≡ min (k % 2) (m % 2) + bit_and (k / 2) (m / 2) * 2
bit_and_step k m = simp bit_and-bitwise (lowest_digit (λ y. 0) min (λ y. omega arith) k m)

-- The digit of an exclusive or, in arithmetic.
differ_digits : (x y : ℕ) → x < 2 → y < 2 → differ x y ≡ (x + y) % 2
differ_digits zero y p q = omega arith
differ_digits (suc zero) zero p q = refl
differ_digits (suc zero) (suc zero) p q = refl
differ_digits (suc zero) (suc (suc y)) p q = absurd (omega arith)
differ_digits (suc (suc x)) y p q = absurd (omega arith)

differ_bit : (a b : ℕ) → differ (a % 2) (b % 2) ≡ (a + b) % 2
differ_bit a b = omega (arith, differ_digits (a % 2) (b % 2) (omega arith) (omega arith))

pub zero-bit_xor : (b : ℕ) → bit_xor 0 b ≡ b
zero-bit_xor b = simp bit_xor-bitwise

differ_zero : (m : ℕ) → m ≡ differ 0 (m % 2) + m / 2 * 2
differ_zero m = omega arith

pub bit_xor_step : (a b : ℕ) → bit_xor a b ≡ (a + b) % 2 + bit_xor (a / 2) (b / 2) * 2
bit_xor_step zero b = omega (arith, zero-bit_xor b, zero-bit_xor (b / 2))
bit_xor_step (suc a) b =
    rw (← differ_bit (suc a) b)
      (simp bit_xor-bitwise (lowest_digit (λ y. y) differ differ_zero (suc a) b))

pub bit_xor-lt : (k a b : ℕ) → a < 2 ^ k → b < 2 ^ k → bit_xor a b < 2 ^ k
bit_xor-lt zero zero b p q = omega (arith, zero-bit_xor b)
bit_xor-lt zero (suc a) b p q = absurd (omega arith)
bit_xor-lt (suc k) a b p q = omega (
  arith,
  pow-suc 2 k,
  bit_xor_step a b,
  bit_xor-lt k (a / 2) (b / 2) (omega (arith, pow-suc 2 k)) (omega (arith, pow-suc 2 k)),
)

-- The top bit of the second operand survives if the first operand lies below it.
pub le-bit_xor : (k a p : ℕ) → a < 2 ^ k → 2 ^ k ≤ p → 2 ^ k ≤ bit_xor a p
le-bit_xor zero zero p h q = omega (arith, zero-bit_xor p)
le-bit_xor zero (suc a) p h q = absurd (omega arith)
le-bit_xor (suc k) a p h q = omega (
  arith,
  pow-suc 2 k,
  bit_xor_step a p,
  le-bit_xor k (a / 2) (p / 2) (omega (arith, pow-suc 2 k)) (omega (arith, pow-suc 2 k)),
)

bit_xor_self : (a : ℕ) → bit_xor a a ≡ 0
bit_xor_self =
    by_halves (λ a. bit_xor a a ≡ 0) refl λ k h. omega (arith, bit_xor_step (suc k) (suc k), h)

bit_xor-zero : (a : ℕ) → bit_xor a 0 ≡ a
bit_xor-zero = by_halves (λ a. bit_xor a 0 ≡ a) refl λ k h. omega (arith, bit_xor_step (suc k) 0, h)

pub bit_xor_cancel : (a p : ℕ) → bit_xor (bit_xor a p) p ≡ a
bit_xor_cancel =
    by_halves (λ a. (p : ℕ) → bit_xor (bit_xor a p) p ≡ a)
      (λ p. rw (zero-bit_xor p) (bit_xor_self p))
      λ k h p.
        let halves : bit_xor (suc k) p / 2 ≡ bit_xor (suc k / 2) (p / 2) =
          omega (arith, bit_xor_step (suc k) p) in
        rw (bit_xor_step (bit_xor (suc k) p) p, halves)
          (omega (arith, bit_xor_step (suc k) p, h (p / 2)))

pub bit_xor_comm : (a b : ℕ) → bit_xor a b ≡ bit_xor b a
bit_xor_comm =
    by_halves (λ a. (b : ℕ) → bit_xor a b ≡ bit_xor b a)
      (λ b. zero-bit_xor b ∙ sym (bit_xor-zero b))
      λ k h b. omega (arith, bit_xor_step (suc k) b, bit_xor_step b (suc k), h (b / 2))

pub bit_xor_injective : (a b p : ℕ) → bit_xor a p ≡ bit_xor b p → a ≡ b
bit_xor_injective a b p e =
    sym (bit_xor_cancel a p) ∙ (ap (λ (t : ℕ). bit_xor t p) e ∙ bit_xor_cancel b p)

double_shift : (k q : ℕ) → q * 2 ^ k + q * 2 ^ k ≡ q * 2 ^ suc k
double_shift k q = omega (arith, ap (λ (power : ℕ). q * power) (pow-suc 2 k))

zero-bit_or : (a : ℕ) → bit_or 0 a ≡ a
zero-bit_or a = simp bit_or-bitwise

-- `lo | (hi << k)` is a sum when `lo` fits `k` bits.
pub bit_or_fields : (k lo hi : ℕ) → lo < 2 ^ k → bit_or lo (hi * 2 ^ k) ≡ lo + hi * 2 ^ k
bit_or_fields zero lo hi fits = ground (arith, zero-bit_or hi)
bit_or_fields (suc k) lo hi fits = ground (
  arith,
  bit_or_step lo (hi * 2 ^ suc k),
  double_shift k hi,
  pow-suc 2 k,
  bit_or_fields k (lo / 2) hi (omega (arith, pow-suc 2 k)),
)

bit_and-zero : (a : ℕ) → bit_and a 0 ≡ 0
bit_and-zero = by_halves (λ a. bit_and a 0 ≡ 0) refl λ k h. omega (arith, bit_and_step (suc k) 0, h)

bit_and_fields : (k q r : ℕ) → r < 2 ^ k → bit_and (q * 2 ^ k + r) (2 ^ k - 1) ≡ r
bit_and_fields zero q r fits = rw bit_and-zero (omega arith)
bit_and_fields (suc k) q r fits = ground (
  arith,
  bit_and_step (q * 2 ^ suc k + r) (2 ^ suc k - 1),
  double_shift k q,
  pow-suc 2 k,
  one-le-pow k 2,
  bit_and_fields k q (r / 2) (omega (arith, pow-suc 2 k)),
)

-- A mask of the `k` low bits takes the remainder.
pub bit_and_mask : (k a : ℕ) → bit_and a (2 ^ k - 1) ≡ a % 2 ^ k
bit_and_mask k a = ground (arith, one-le-pow k 2, bit_and_fields k (a / 2 ^ k) (a % 2 ^ k))
