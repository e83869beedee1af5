-- ===== src/Base/Change.antt =====
-- Lists that differ in exactly one byte.
use Prim.Native.Nat.{ℕ, zero, suc, ◌+◌}
use mathlib.Core.Path.{◌≡◌, refl, ap}
use mathlib.Core.Logic.{◌≢◌, ◌⊎◌, inl, inr}
use mathlib.Core.List.{List, [], ◌∷◌}
use native.Mathlib.Nat.{zero-add, suc-add}
use argus_redline.Base.Bytes.{length, get_or, take, drop, All, IsByte}

-- The two lists differ in the byte at one place and nowhere else.
pub data OneByte : List ℕ → List ℕ → Type 0 where
  here : (a b : ℕ) (xs : List ℕ) → a ≢ b → OneByte (a ∷ xs) (b ∷ xs)
  there : {xs ys : List ℕ} (a : ℕ) → OneByte xs ys → OneByte (a ∷ xs) (a ∷ ys)

-- The place lies before an index or behind it.
pub OneByte-split :
    (k : ℕ) {xs ys : List ℕ}
    → OneByte xs ys
    → (OneByte (take k xs) (take k ys) × (drop k xs ≡ drop k ys))
      ⊎ ((take k xs ≡ take k ys) × OneByte (drop k xs) (drop k ys))
OneByte-split zero d = inr (refl, d)
OneByte-split (suc k) (here a b xs ne) = inl (here a b (take k xs) ne, refl)
OneByte-split (suc k) (there a d) = elim (OneByte-split k d) [
  | inl (p, e) ↦ inl (there a p, e)
  | inr (e, p) ↦ inr (ap (λ t. a ∷ t) e, p)
]

pub OneByte-length : {xs ys : List ℕ} → OneByte xs ys → length xs ≡ length ys
OneByte-length (here a b xs ne) = refl
OneByte-length (there a d) = ap suc (OneByte-length d)

pub get_or-drop : (k i d : ℕ) (xs : List ℕ) → get_or xs (k + i) d ≡ get_or (drop k xs) i d
get_or-drop zero i d xs = rw zero-add
get_or-drop (suc k) i d [] = refl
get_or-drop (suc k) i d (x ∷ xs) = rw (suc-add k i) (get_or-drop k i d xs)

pub All-take : (k : ℕ) (xs : List ℕ) → All IsByte xs → All IsByte (take k xs)
All-take zero xs h = tt
All-take (suc k) [] h = tt
All-take (suc k) (x ∷ xs) h = (h.0, All-take k xs h.1)

pub All-drop : (k : ℕ) (xs : List ℕ) → All IsByte xs → All IsByte (drop k xs)
All-drop zero xs h = h
All-drop (suc k) [] h = tt
All-drop (suc k) (x ∷ xs) h = All-drop k xs h.1
