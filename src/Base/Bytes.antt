-- ===== src/Base/Bytes.antt =====
-- C arrays of bytes as lists with native indices, and the loops that copy and compare them.
use Prim.Native.Nat.{ℕ, zero, suc, ◌<◌}
use mathlib.Core.Bool.{Bool, true, false, ◌&&◌}
use mathlib.Core.Option.{Option, none, some}
use mathlib.Core.List.{List, [], ◌∷◌}
use argus_redline.Base.Tests.{◌==◌}

module _ {ℓ} {A : Type ℓ} where
  abbrev pub length : List A → ℕ
  length [] = 0
  length (x ∷ xs) = suc (length xs)

  abbrev pub get_elem? : List A → ℕ → Option A
  get_elem? [] i = none
  get_elem? (x ∷ xs) zero = some x
  get_elem? (x ∷ xs) (suc i) = get_elem? xs i

  abbrev pub get_or : List A → ℕ → A → A
  get_or [] i d = d
  get_or (x ∷ xs) zero d = x
  get_or (x ∷ xs) (suc i) d = get_or xs i d

  -- A write out of bounds changes nothing.
  abbrev pub set : List A → ℕ → A → List A
  set [] i v = []
  set (x ∷ xs) zero v = v ∷ xs
  set (x ∷ xs) (suc i) v = x ∷ set xs i v

  abbrev pub take : ℕ → List A → List A
  take zero xs = []
  take (suc n) [] = []
  take (suc n) (x ∷ xs) = x ∷ take n xs

  abbrev pub drop : ℕ → List A → List A
  drop zero xs = xs
  drop (suc n) [] = []
  drop (suc n) (x ∷ xs) = drop n xs

  abbrev pub replicate : ℕ → A → List A
  replicate zero a = []
  replicate (suc n) a = a ∷ replicate n a

  -- `for (i = 0; i < n; ++i) dst[i] = src[i];`
  abbrev pub copy : ℕ → List A → List A → List A
  copy zero dst src = dst
  copy (suc n) [] src = []
  copy (suc n) (d ∷ ds) [] = d ∷ ds
  copy (suc n) (d ∷ ds) (x ∷ xs) = x ∷ copy n ds xs

  -- The same loop with `dst + offset`.
  abbrev pub copy_at : ℕ → ℕ → List A → List A → List A
  copy_at zero n dst src = copy n dst src
  copy_at (suc offset) n [] src = []
  copy_at (suc offset) n (d ∷ ds) src = d ∷ copy_at offset n ds src

  abbrev pub All {κ} : (A → Type κ) → List A → Type κ
  All P [] = Unit
  All P (x ∷ xs) = P x × All P xs

abbrev pub IsByte : ℕ → Type 0
IsByte b = b < 256

-- `bytesEqual`, `samePayload` and the like: the first `n` bytes agree.
abbrev pub bytes_equal : ℕ → List ℕ → List ℕ → Bool
bytes_equal zero xs ys = true
bytes_equal (suc n) [] [] = true
bytes_equal (suc n) [] (y ∷ ys) = false
bytes_equal (suc n) (x ∷ xs) [] = false
bytes_equal (suc n) (x ∷ xs) (y ∷ ys) = (x == y) && bytes_equal n xs ys

-- `allZero` of the first `n` bytes.
abbrev pub all_zero : ℕ → List ℕ → Bool
all_zero zero xs = true
all_zero (suc n) [] = true
all_zero (suc n) (x ∷ xs) = (x == 0) && all_zero n xs
