-- ===== src/Base/Arrays.antt =====
-- Laws of the loops over arrays.
use Prim.Native.Nat.{ℕ, zero, suc, ◌-◌, ◌+◌, ◌≤◌, ◌<◌, min}
use mathlib.Core.Path.{◌≡◌, refl, ap}
use mathlib.Core.Bool.{true}
use mathlib.Core.List.{List, [], ◌∷◌, ◌++◌}
use native.Mathlib.Nat.{zero-add, suc-add, sub-zero, suc-sub-suc}
use native.Mathlib.Omega.{arith}
use argus_redline.Base.Bytes.{
  length, get_or, set, take, drop, replicate, copy, All, bytes_equal, all_zero,
}

module _ {ℓ} {A : Type ℓ} where
  pub length-append : (xs ys : List A) → length (xs ++ ys) ≡ length xs + length ys
  length-append [] ys = omega arith
  length-append (x ∷ xs) ys = omega (arith, length-append xs ys)

  pub append_nil : (xs : List A) → xs ++ [] ≡ xs
  append_nil [] = refl
  append_nil (x ∷ xs) = ap (λ (t : List A). x ∷ t) (append_nil xs)

  pub length-set : (xs : List A) (i : ℕ) (v : A) → length (set xs i v) ≡ length xs
  length-set [] i v = refl
  length-set (x ∷ xs) zero v = refl
  length-set (x ∷ xs) (suc i) v = ap suc (length-set xs i v)

  pub length-take : (n : ℕ) (xs : List A) → length (take n xs) ≡ min n (length xs)
  length-take zero xs = omega arith
  length-take (suc n) [] = omega arith
  length-take (suc n) (x ∷ xs) = omega (arith, length-take n xs)

  pub take-append : (n : ℕ) (xs ys : List A) → length xs ≡ n → take n (xs ++ ys) ≡ xs
  take-append zero [] ys e = refl
  take-append zero (x ∷ xs) ys e = absurd (omega arith)
  take-append (suc n) [] ys e = absurd (omega arith)
  take-append (suc n) (x ∷ xs) ys e = ap (λ t. x ∷ t) (take-append n xs ys (omega arith))

  pub drop-append : (n : ℕ) (xs ys : List A) → length xs ≡ n → drop n (xs ++ ys) ≡ ys
  drop-append zero [] ys e = refl
  drop-append zero (x ∷ xs) ys e = absurd (omega arith)
  drop-append (suc n) [] ys e = absurd (omega arith)
  drop-append (suc n) (x ∷ xs) ys e = drop-append n xs ys (omega arith)

  copy_self : (n : ℕ) (ds : List A) → copy n ds ds ≡ ds
  copy_self zero ds = refl
  copy_self (suc n) [] = refl
  copy_self (suc n) (d ∷ ds) = ap (λ t. d ∷ t) (copy_self n ds)

  get_or-replicate : (m i : ℕ) (d : A) → get_or (replicate m d) i d ≡ d
  get_or-replicate zero i d = refl
  get_or-replicate (suc m) zero d = refl
  get_or-replicate (suc m) (suc i) d = get_or-replicate m i d

  -- Copying looks at no more than the first `n` elements.
  pub copy-take : (n : ℕ) (ds xs : List A) → copy n ds (take n xs) ≡ copy n ds xs
  copy-take zero ds xs = refl
  copy-take (suc n) [] [] = refl
  copy-take (suc n) [] (x ∷ xs) = refl
  copy-take (suc n) (d ∷ ds) [] = refl
  copy-take (suc n) (d ∷ ds) (x ∷ xs) = ap (λ t. x ∷ t) (copy-take n ds xs)

  pub take-copy :
      (n : ℕ) (ds xs : List A) → n ≤ length ds → length xs ≡ n → take n (copy n ds xs) ≡ xs
  take-copy zero ds [] h e = refl
  take-copy zero ds (x ∷ xs) h e = absurd (omega arith)
  take-copy (suc n) [] xs h e = absurd (omega arith)
  take-copy (suc n) (d ∷ ds) [] h e = absurd (omega arith)
  take-copy (suc n) (d ∷ ds) (x ∷ xs) h e =
      ap (λ t. x ∷ t) (take-copy n ds xs (omega arith) (omega arith))

  pub copy-copy : (n : ℕ) (ds xs : List A) → copy n ds (copy n ds xs) ≡ copy n ds xs
  copy-copy zero ds xs = refl
  copy-copy (suc n) [] [] = refl
  copy-copy (suc n) [] (x ∷ xs) = refl
  copy-copy (suc n) (d ∷ ds) [] = ap (λ t. d ∷ t) (copy_self n ds)
  copy-copy (suc n) (d ∷ ds) (x ∷ xs) = ap (λ t. x ∷ t) (copy-copy n ds xs)

  -- Copying past a prefix copies the prefix whole.
  pub copy-append :
      (k n : ℕ) (ds es xs ys : List A)
      → length ds ≡ k
      → length xs ≡ k
      → copy (k + n) (ds ++ es) (xs ++ ys) ≡ xs ++ copy n es ys
  copy-append zero n [] es [] ys p q = rw zero-add
  copy-append zero n (d ∷ ds) es xs ys p q = absurd (omega arith)
  copy-append zero n [] es (x ∷ xs) ys p q = absurd (omega arith)
  copy-append (suc k) n [] es xs ys p q = absurd (omega arith)
  copy-append (suc k) n (d ∷ ds) es [] ys p q = absurd (omega arith)
  copy-append (suc k) n (d ∷ ds) es (x ∷ xs) ys p q =
      rw (suc-add k n) (ap (λ t. x ∷ t) (copy-append k n ds es xs ys (omega arith) (omega arith)))

  pub get_or-copy :
      (n i m : ℕ) (d : A) (xs : List A)
      → i < n
      → i < m
      → get_or (copy n (replicate m d) xs) i d ≡ get_or xs i d
  get_or-copy zero i m d xs p q = absurd (omega arith)
  get_or-copy (suc n) i zero d xs p q = absurd (omega arith)
  get_or-copy (suc n) i (suc m) d [] p q = get_or-replicate (suc m) i d
  get_or-copy (suc n) zero (suc m) d (x ∷ xs) p q = refl
  get_or-copy (suc n) (suc i) (suc m) d (x ∷ xs) p q =
      get_or-copy n i m d xs (omega arith) (omega arith)

  -- A copy that ends in the first part of an array leaves the second.
  pub copy-append_left :
      (n : ℕ) (ds es xs : List A) → n ≤ length ds → copy n (ds ++ es) xs ≡ copy n ds xs ++ es
  copy-append_left zero ds es xs h = refl
  copy-append_left (suc n) [] es xs h = absurd (omega arith)
  copy-append_left (suc n) (d ∷ ds) es [] h = refl
  copy-append_left (suc n) (d ∷ ds) es (x ∷ xs) h =
      ap (λ t. x ∷ t) (copy-append_left n ds es xs (omega arith))

  pub set-append :
      (k i : ℕ) (xs ys : List A) (v : A)
      → length xs ≡ k
      → set (xs ++ ys) (k + i) v ≡ xs ++ set ys i v
  set-append zero i [] ys v e = rw zero-add
  set-append zero i (x ∷ xs) ys v e = absurd (omega arith)
  set-append (suc k) i [] ys v e = absurd (omega arith)
  set-append (suc k) i (x ∷ xs) ys v e =
      rw (suc-add k i) (ap (λ t. x ∷ t) (set-append k i xs ys v (omega arith)))

  pub All-append {κ} : (P : A → Type κ) (xs ys : List A) → All P xs → All P ys → All P (xs ++ ys)
  All-append P [] ys h k = k
  All-append P (x ∷ xs) ys h k = (h.0, All-append P xs ys h.1 k)

  pub length-replicate : (n : ℕ) (x : A) → length (replicate n x) ≡ n
  length-replicate zero x = refl
  length-replicate (suc n) x = ap suc (length-replicate n x)

  pub length-copy : (n : ℕ) (ds xs : List A) → length (copy n ds xs) ≡ length ds
  length-copy zero ds xs = refl
  length-copy (suc n) [] xs = refl
  length-copy (suc n) (d ∷ ds) [] = refl
  length-copy (suc n) (d ∷ ds) (x ∷ xs) = ap suc (length-copy n ds xs)

  pub length-drop : (n : ℕ) (xs : List A) → length (drop n xs) ≡ length xs - n
  length-drop zero xs = omega arith
  length-drop (suc n) [] = omega arith
  length-drop (suc n) (x ∷ xs) = omega (arith, length-drop n xs)

  -- A list with an element at its head, by the accesses of the code.
  pub cons_of_length : (d : A) (xs : List A) → 0 < length xs → xs ≡ get_or xs 0 d ∷ drop 1 xs
  cons_of_length d [] h = absurd (omega arith)
  cons_of_length d (x ∷ xs) h = refl

pub All-set {ℓ κ} :
    {A : Type ℓ} (P : A → Type κ) (xs : List A) (k : ℕ) (x : A)
    → P x
    → All P xs
    → All P (set xs k x)
All-set P [] k x p h = tt
All-set P (y ∷ xs) zero x p h = (p, h.1)
All-set P (y ∷ xs) (suc k) x p h = (h.0, All-set P xs k x p h.1)

pub bytes_equal_refl : (n : ℕ) (xs : List ℕ) → bytes_equal n xs xs ≡ true
bytes_equal_refl zero xs = refl
bytes_equal_refl (suc n) [] = refl
bytes_equal_refl (suc n) (x ∷ xs) = ground (arith, bytes_equal_refl n xs)

pub take_of_bytes_equal :
    (n : ℕ) (xs ys : List ℕ) → bytes_equal n xs ys ≡ true → take n xs ≡ take n ys
take_of_bytes_equal zero xs ys e = refl
take_of_bytes_equal (suc n) [] [] e = refl
take_of_bytes_equal (suc n) [] (y ∷ ys) e = cc
take_of_bytes_equal (suc n) (x ∷ xs) [] e = cc
take_of_bytes_equal (suc n) (x ∷ xs) (y ∷ ys) e = ground (arith, take_of_bytes_equal n xs ys)

pub bytes_equal_of_take :
    (n : ℕ) (xs ys : List ℕ) → take n xs ≡ take n ys → bytes_equal n xs ys ≡ true
bytes_equal_of_take zero xs ys e = refl
bytes_equal_of_take (suc n) [] [] e = refl
bytes_equal_of_take (suc n) [] (y ∷ ys) e = cc
bytes_equal_of_take (suc n) (x ∷ xs) [] e = cc
bytes_equal_of_take (suc n) (x ∷ xs) (y ∷ ys) e = ground (arith, bytes_equal_of_take n xs ys)

replicate_of_all_zero :
    (m : ℕ) (xs : List ℕ) → length xs ≡ m → all_zero m xs ≡ true → replicate m 0 ≡ xs
replicate_of_all_zero zero [] e h = refl
replicate_of_all_zero zero (x ∷ xs) e h = absurd (omega arith)
replicate_of_all_zero (suc m) [] e h = absurd (omega arith)
replicate_of_all_zero (suc m) (x ∷ xs) e h = ground (arith, replicate_of_all_zero m xs)

-- An array whose tail is zero is what its head makes of a cleared array.
pub copy_of_zero_tail :
    (n m : ℕ) (xs : List ℕ)
    → length xs ≡ m
    → all_zero (m - n) (drop n xs) ≡ true
    → copy n (replicate m 0) xs ≡ xs
copy_of_zero_tail zero m xs e h = replicate_of_all_zero m xs e (rw sub-zero at h)
copy_of_zero_tail (suc n) zero [] e h = refl
copy_of_zero_tail (suc n) zero (x ∷ xs) e h = absurd (omega arith)
copy_of_zero_tail (suc n) (suc m) [] e h = absurd (omega arith)
copy_of_zero_tail (suc n) (suc m) (x ∷ xs) e h =
    ap (λ t. x ∷ t) (copy_of_zero_tail n m xs (omega arith) (rw suc-sub-suc at h))

pub copy_all :
    (n : ℕ) (ds xs ys : List ℕ) → length ds ≡ n → length xs ≡ n → copy n ds (xs ++ ys) ≡ xs
copy_all zero [] [] ys p q = refl
copy_all zero (d ∷ ds) xs ys p q = absurd (omega arith)
copy_all zero [] (x ∷ xs) ys p q = absurd (omega arith)
copy_all (suc n) [] xs ys p q = absurd (omega arith)
copy_all (suc n) (d ∷ ds) [] ys p q = absurd (omega arith)
copy_all (suc n) (d ∷ ds) (x ∷ xs) ys p q =
    ap (λ t. x ∷ t) (copy_all n ds xs ys (omega arith) (omega arith))

-- `allZero` of the rest of an array does not look past its end.
pub all_zero-append :
    (m : ℕ) (xs ys : List ℕ) → length xs ≡ m → all_zero m (xs ++ ys) ≡ all_zero m xs
all_zero-append zero xs ys e = refl
all_zero-append (suc m) [] ys e = absurd (omega arith)
all_zero-append (suc m) (x ∷ xs) ys e = rw (all_zero-append m xs ys (omega arith))

pub all_zero-drop_append :
    (n m : ℕ) (xs ys : List ℕ)
    → length xs ≡ m
    → n ≤ m
    → all_zero (m - n) (drop n (xs ++ ys)) ≡ all_zero (m - n) (drop n xs)
all_zero-drop_append zero m xs ys e h = all_zero-append (m - 0) xs ys (omega arith)
all_zero-drop_append (suc n) m [] ys e h = absurd (omega arith)
all_zero-drop_append (suc n) zero (x ∷ xs) ys e h = absurd (omega arith)
all_zero-drop_append (suc n) (suc m) (x ∷ xs) ys e h =
    rw (suc-sub-suc m n) (all_zero-drop_append n m xs ys (omega arith) (omega arith))

pub eq_of_bytes_equal :
    (n : ℕ) (xs ys : List ℕ) → length xs ≡ n → length ys ≡ n → bytes_equal n xs ys ≡ true → xs ≡ ys
eq_of_bytes_equal zero [] [] p q e = refl
eq_of_bytes_equal zero [] (y ∷ ys) p q e = absurd (omega arith)
eq_of_bytes_equal zero (x ∷ xs) ys p q e = absurd (omega arith)
eq_of_bytes_equal (suc n) [] ys p q e = absurd (omega arith)
eq_of_bytes_equal (suc n) (x ∷ xs) [] p q e = absurd (omega arith)
eq_of_bytes_equal (suc n) (x ∷ xs) (y ∷ ys) p q e = ground (arith, eq_of_bytes_equal n xs ys)
