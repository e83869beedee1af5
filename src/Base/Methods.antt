-- ===== src/Base/Methods.antt =====
-- Methods that return a `bool` and change an object: `none` is `false`, and what was changed before
-- that stays changed.
use mathlib.Core.Path.{◌≡◌, refl}
use mathlib.Core.Bool.{Bool, true, false}
use mathlib.Core.Option.{Option, none, some}
use argus_redline.Base.Tests.{if◌then◌else◌}

abbrev pub Method : Type 0 → Type 0 → Type 0
Method S A = S → Option A × S

module _ {S : Type 0} where
  abbrev pub continue : {A B : Type 0} → Option A → (A → Method S B) → S → Option B × S
  continue none f s = (none, s)
  continue (some x) f s = f x s

  infixl 5 ◌>>=◌ ◌>>◌
  abbrev pub ◌>>=◌ : {A B : Type 0} → Method S A → (A → Method S B) → Method S B
  ◌>>=◌ m f s = let (r, s') = m s in continue r f s'

  abbrev pub ◌>>◌ : {B : Type 0} → Method S (Unit {0}) → Method S B → Method S B
  ◌>>◌ m k = m >>= λ _. k

  abbrev pub return : {A : Type 0} → A → Method S A
  return x s = (some x, s)

  -- `return false` after a change.
  abbrev pub stop : {A : Type 0} → (S → S) → Method S A
  stop f s = (none, f s)

  abbrev pub modify : (S → S) → Method S (Unit {0})
  modify f s = (some tt, f s)

  -- What holds of a result, by its two cases.
  abbrev pub After : {A : Type 0} → (A → S → Type 0) → (S → Type 0) → Option A × S → Type 0
  After P Q (some x, s) = P x s
  After P Q (none, s) = Q s

  pub After-bind :
      {A B : Type 0} (P : A → S → Type 0) (P' : B → S → Type 0) (Q : S → Type 0) (m : Method S A)
      (f : A → Method S B) (s : S)
      → After P Q (m s)
      → ((x : A) (u : S) → P x u → After P' Q (f x u))
      → After P' Q ((m >>= f) s)
  After-bind {A} {B} P P' Q m f s h k = go (m s) h
    where
      go : (r : Option A × S) → After P Q r → After P' Q (continue r.0 f r.1)
      go (some x, u) h = k x u h
      go (none, u) h = h

  pub After-map :
      {A : Type 0} (P P' : A → S → Type 0) (Q : S → Type 0) (r : Option A × S)
      → After P Q r
      → ((x : A) (u : S) → P x u → P' x u)
      → After P' Q r
  After-map P P' Q (some x, u) h k = k x u h
  After-map P P' Q (none, u) h k = h

  pub After-weaken :
      {A : Type 0} (P : A → S → Type 0) (Q Q' : S → Type 0) (r : Option A × S)
      → After P Q r
      → ((u : S) → Q u → Q' u)
      → After P Q' r
  After-weaken P Q Q' (some x, u) h k = h
  After-weaken P Q Q' (none, u) h k = k u h

  -- A branch, each side under what its test says.
  pub After-if :
      {A : Type 0} (P : A → S → Type 0) (Q : S → Type 0) (test : Bool) (x y : Option A × S)
      → (test ≡ true → After P Q x)
      → (test ≡ false → After P Q y)
      → After P Q (if test then x else y)
  After-if P Q true x y h k = h refl
  After-if P Q false x y h k = k refl
