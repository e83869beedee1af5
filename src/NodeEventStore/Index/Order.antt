-- ===== src/NodeEventStore/Index/Order.antt =====
-- The queue that `rebuildIndex` of lib/node_event_store/src/node_event_store.h leaves.
use argus_redline.Base.{
  ℕ, suc, ◌+◌, ◌≡◌, refl, inl, inr, arith, Bool, true, false, ◌&&◌, List, [], ◌∷◌, ◌++◌, All, ◌==◌,
  if◌then◌else◌, Bool-cases,
}
use argus_redline.EventRecords.NodeRecord.{NodeRecord}
use argus_redline.NodeEventStore.{SlotState, is_queued}
use argus_redline.NodeEventStore.Index.{
  identity_less, is_held, insert_back, sort_back, reverse_onto, sort,
}

-- How often a slot stands in the queue.
abbrev pub count : ℕ → List ℕ → ℕ
count k [] = 0
count k (x ∷ xs) = if k == x then suc (count k xs) else count k xs

abbrev pub is_wanted : SlotState → Bool
is_wanted s = is_held s && is_queued s.value

pub count-append : (k : ℕ) (xs ys : List ℕ) → count k (xs ++ ys) ≡ count k xs + count k ys
count-append k [] ys = omega arith
count-append k (x ∷ xs) ys = ground (arith, count-append k xs ys)

module _ (value : ℕ → NodeRecord) where
  -- The Event of the one slot is not newer than that of the other.
  abbrev pub IsBefore : ℕ → ℕ → Type 0
  IsBefore x y = identity_less (value y) (value x) ≡ false

  IsBefore-less : (x y : ℕ) → identity_less (value x) (value y) ≡ true → IsBefore x y
  unfolding identity_less
  IsBefore-less x y h = ground arith

  IsBefore-trans : (x y z : ℕ) → IsBefore x y → IsBefore y z → IsBefore x z
  unfolding identity_less
  IsBefore-trans x y z h k = ground arith

  -- Oldest first.
  abbrev pub IsOrdered : List ℕ → Type 0
  IsOrdered [] = Unit
  IsOrdered (x ∷ xs) = All (λ y. IsBefore x y) xs × IsOrdered xs

  -- Newest first.
  abbrev IsReversed : List ℕ → Type 0
  IsReversed [] = Unit
  IsReversed (x ∷ xs) = All (λ y. IsBefore y x) xs × IsReversed xs

  All-insert_back :
      (P : ℕ → Type 0) (x : ℕ) (ys : List ℕ) → P x → All P ys → All P (insert_back value x ys)
  unfolding insert_back
  All-insert_back P x [] p h = (p, tt)
  All-insert_back P x (y ∷ ys) p h = elim (Bool-cases (identity_less (value x) (value y))) [
    | inl e ↦ rw (e) (h.0, All-insert_back P x ys p h.1)
    | inr e ↦ rw (e) (p, h)
  ]

  All-IsBefore :
      (x y : ℕ) (zs : List ℕ)
      → IsBefore y x
      → All (λ z. IsBefore z y) zs
      → All (λ z. IsBefore z x) zs
  All-IsBefore x y [] h a = tt
  All-IsBefore x y (z ∷ zs) h a = (IsBefore-trans z y x a.0 h, All-IsBefore x y zs h a.1)

  insert_back-IsReversed :
      (x : ℕ) (ys : List ℕ) → IsReversed ys → IsReversed (insert_back value x ys)
  unfolding insert_back
  insert_back-IsReversed x [] h = (tt, tt)
  insert_back-IsReversed x (y ∷ ys) h = elim (Bool-cases (identity_less (value x) (value y))) [
    | inl e ↦ rw (e) (
      All-insert_back (λ z. IsBefore z y) x ys (IsBefore-less x y e) h.0,
      insert_back-IsReversed x ys h.1,
    )
    | inr e ↦ rw (e) ((e, All-IsBefore x y ys e h.0), h)
  ]

  sort_back-IsReversed : (xs ys : List ℕ) → IsReversed ys → IsReversed (sort_back value xs ys)
  unfolding sort_back
  sort_back-IsReversed [] ys h = h
  sort_back-IsReversed (x ∷ xs) ys h =
      sort_back-IsReversed xs (insert_back value x ys) (insert_back-IsReversed x ys h)

  abbrev AllBefore : List ℕ → List ℕ → Type 0
  AllBefore xs ys = All (λ x. All (λ y. IsBefore x y) ys) xs

  AllBefore-cons :
      (xs ys : List ℕ) (y : ℕ)
      → All (λ x. IsBefore x y) xs
      → AllBefore xs ys
      → AllBefore xs (y ∷ ys)
  AllBefore-cons [] ys y h k = tt
  AllBefore-cons (x ∷ xs) ys y h k = ((h.0, k.0), AllBefore-cons xs ys y h.1 k.1)

  reverse_onto-IsOrdered :
      (xs ys : List ℕ)
      → IsReversed xs
      → IsOrdered ys
      → AllBefore xs ys
      → IsOrdered (reverse_onto xs ys)
  unfolding reverse_onto
  reverse_onto-IsOrdered [] ys r o b = o
  reverse_onto-IsOrdered (x ∷ xs) ys r o b =
      reverse_onto-IsOrdered xs (x ∷ ys) r.1 (b.0, o) (AllBefore-cons xs ys x r.0 b.1)

  AllBefore-nil : (xs : List ℕ) → AllBefore xs []
  AllBefore-nil [] = tt
  AllBefore-nil (x ∷ xs) = (tt, AllBefore-nil xs)

  pub sort-IsOrdered : (xs : List ℕ) → IsOrdered (sort value xs)
  unfolding sort
  sort-IsOrdered xs =
      reverse_onto-IsOrdered (sort_back value xs []) [] (sort_back-IsReversed xs [] tt) tt
        (AllBefore-nil (sort_back value xs []))

  count-insert_back : (k x : ℕ) (ys : List ℕ) → count k (insert_back value x ys) ≡ count k (x ∷ ys)
  unfolding insert_back
  count-insert_back k x [] = refl
  count-insert_back k x (y ∷ ys) = elim (Bool-cases (identity_less (value x) (value y))) [
    | inl e ↦ rw (e) (ground (arith, count-insert_back k x ys))
    | inr e ↦ rw (e) refl
  ]

  count-sort_back :
      (k : ℕ) (xs ys : List ℕ) → count k (sort_back value xs ys) ≡ count k xs + count k ys
  unfolding sort_back
  count-sort_back k [] ys = omega arith
  count-sort_back k (x ∷ xs) ys =
      ground (arith, count-sort_back k xs (insert_back value x ys), count-insert_back k x ys)

  count-reverse_onto :
      (k : ℕ) (xs ys : List ℕ) → count k (reverse_onto xs ys) ≡ count k xs + count k ys
  unfolding reverse_onto
  count-reverse_onto k [] ys = omega arith
  count-reverse_onto k (x ∷ xs) ys = ground (arith, count-reverse_onto k xs (x ∷ ys))

  pub count-sort : (k : ℕ) (xs : List ℕ) → count k (sort value xs) ≡ count k xs
  unfolding sort
  count-sort k xs =
      omega (arith, count-reverse_onto k (sort_back value xs []) [], count-sort_back k xs [])
