-- ===== src/HubEventLedger/Unique.antt =====
-- No two slots of lib/hub_event_ledger/src/hub_event_ledger.h own one identity: the invariant, and the
-- writes that keep it.
use argus_redline.Base.{
  ℕ, zero, suc, ◌≡◌, ◌≢◌, inl, inr, refl, sym, ap, ◌∙◌, arith, true, false, none, some, List, [],
  ◌∷◌, get_elem?, set, Bool-cases,
}
use argus_redline.EventProtocol.{Identity, same_identity}
use argus_redline.EventRecords.HubRecord.{HubRecord}
use argus_redline.HubEventLedger.{SlotState, is_owned, identity}
use argus_redline.HubEventLedger.Slots.{owns, lookup, lookup-set}

abbrev pub IsUnique : List SlotState → Type 0
IsUnique [] = Unit
IsUnique (s ∷ slots) =
    (is_owned s.value ≡ true → lookup (identity s.value) slots ≡ none) × IsUnique slots

pub eq_of_same_identity : (i j : Identity) → same_identity i j ≡ true → i ≡ j
unfolding same_identity
eq_of_same_identity i j h = ground arith

pub same_identity_refl : (i : Identity) → same_identity i i ≡ true
unfolding same_identity
same_identity_refl i = ground arith

pub owns-identity :
    (i : Identity) (r : HubRecord) → owns i r ≡ true → (is_owned r ≡ true) × (identity r ≡ i)
owns-identity i r h = (ground arith, eq_of_same_identity (identity r) i (ground arith))

pub owns_own : (r : HubRecord) → is_owned r ≡ true → owns (identity r) r ≡ true
owns_own r h = rw (h, same_identity_refl (identity r)) refl

pub lookup-identity :
    (i : Identity) (slots : List SlotState) (r : HubRecord)
    → lookup i slots ≡ some r
    → owns i r ≡ true
unfolding lookup
lookup-identity i [] r h = cc
lookup-identity i (s ∷ slots) r h = elim (Bool-cases (owns i s.value)) [
  | inl e ↦
      let found : some s.value ≡ some r = rw (e, lookup) at h in
      let same : s.value ≡ r = cc in rw (← same) e
  | inr e ↦ lookup-identity i slots r (rw (e, lookup) at h)
]

lookup-owns :
    (i : Identity) (slots : List SlotState) (k : ℕ) (old : SlotState)
    → get_elem? slots k ≡ some old
    → owns i old.value ≡ true
    → lookup i slots ≢ none
unfolding lookup
lookup-owns i [] k old g h v = cc
lookup-owns i (s ∷ slots) zero old g h v =
    let same : s ≡ old = cc in
    let own : owns i s.value ≡ true = ap (λ (t : SlotState). owns i t.value) same ∙ h in
    let found : some s.value ≡ none = rw (own, lookup) at v in cc
lookup-owns i (s ∷ slots) (suc k) old g h v = elim (Bool-cases (owns i s.value)) [
  | inl e ↦ let found : some s.value ≡ none = rw (e, lookup) at v in cc
  | inr e ↦ lookup-owns i slots k old g h (rw (e, lookup) at v)
]

-- The rest of a list under whose head nothing is found.
lookup-tail :
    (i : Identity) (s : SlotState) (slots : List SlotState)
    → lookup i (s ∷ slots) ≡ none
    → (owns i s.value ≡ false) × (lookup i slots ≡ none)
unfolding lookup
lookup-tail i s slots h = elim (Bool-cases (owns i s.value)) [
  | inl e ↦ let found : some s.value ≡ none = rw (e, lookup) at h in cc
  | inr e ↦ (e, rw (e, lookup) at h)
]

still_none :
    (i : Identity) (slots : List SlotState) (k : ℕ) (old new : SlotState)
    → get_elem? slots k ≡ some old
    → owns i new.value ≡ false
    → lookup i slots ≡ none
    → lookup i (set slots k new) ≡ none
still_none i slots k old new g e h = elim (lookup-set i slots k old new g e) [
  | inl same ↦ same ∙ h
  | inr found ↦ cc
]

-- A record of an identity that is not in custody is written.
pub IsUnique-set_new :
    (slots : List SlotState) (k : ℕ) (old new : SlotState)
    → get_elem? slots k ≡ some old
    → lookup (identity new.value) slots ≡ none
    → IsUnique slots
    → IsUnique (set slots k new)
IsUnique-set_new [] k old new g h u = tt
IsUnique-set_new (s ∷ slots) zero old new g h u =
    (λ o. (lookup-tail (identity new.value) s slots h).1, u.1)
IsUnique-set_new (s ∷ slots) (suc k) old new g h u =
    let (apart, rest) = lookup-tail (identity new.value) s slots h in
    (
      λ o.
          still_none (identity s.value) slots k old new g (distinct s.value new.value o apart)
            (u.0 o),
      IsUnique-set_new slots k old new g rest u.1,
    )
  where
    distinct :
        (r t : HubRecord)
        → is_owned r ≡ true
        → owns (identity t) r ≡ false
        → owns (identity r) t ≡ false
    distinct r t o e = elim (Bool-cases (owns (identity r) t)) [
      | inr f ↦ f
      | inl f ↦
          let same = (owns-identity (identity r) t f).1 in
          let own : owns (identity t) r ≡ true =
            ap (λ (i : Identity). owns i r) same ∙ owns_own r o in
          cc
    ]

-- A record is replaced by one of the same identity.
pub IsUnique-set_same :
    (slots : List SlotState) (k : ℕ) (old new : SlotState)
    → get_elem? slots k ≡ some old
    → is_owned old.value ≡ true
    → identity new.value ≡ identity old.value
    → IsUnique slots
    → IsUnique (set slots k new)
IsUnique-set_same [] k old new g o same u = tt
IsUnique-set_same (s ∷ slots) zero old new g o same u =
    let head : s ≡ old = cc in
    let owned : is_owned s.value ≡ true = ap (λ (t : SlotState). is_owned t.value) head ∙ o in
    let i : identity new.value ≡ identity s.value =
      same ∙ ap (λ (t : SlotState). identity t.value) (sym head) in
    (λ x. ap (λ (j : Identity). lookup j slots) i ∙ u.0 owned, u.1)
IsUnique-set_same (s ∷ slots) (suc k) old new g o same u = (
  λ x.
      still_none (identity s.value) slots k old new g
        (not_own (identity s.value) old.value new.value same o
          (λ own. lookup-owns (identity s.value) slots k old g own (u.0 x)))
        (u.0 x),
  IsUnique-set_same slots k old new g o same u.1,
)
  where
    not_own :
        (i : Identity) (r t : HubRecord)
        → identity t ≡ identity r
        → is_owned r ≡ true
        → (owns i r ≡ true → ⊥)
        → owns i t ≡ false
    not_own i r t same o h = elim (Bool-cases (owns i t)) [
      | inr f ↦ f
      | inl f ↦
          let of_i = (owns-identity i t f).1 in
          absurd (
            h (
              rw o (
                ap (λ (j : Identity). same_identity j i) (sym same)
                ∙ ap (λ (j : Identity). same_identity j i) of_i
                ∙ same_identity_refl i)))
    ]
