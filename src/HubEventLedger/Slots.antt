-- ===== src/HubEventLedger/Slots.antt =====
-- The slots of lib/hub_event_ledger/src/hub_event_ledger.h as a map from identities to records, and the
-- slots that its loops find.
use argus_redline.Base.{
  ℕ, zero, suc, ◌+◌, ◌≡◌, ◌⊎◌, inl, inr, refl, sym, ap, ◌∙◌, arith, Bool, true, false, ◌&&◌, Option,
  none, some, List, [], ◌∷◌, if◌then◌else◌, get_elem?, set, ltb, Bool-cases,
}
use argus_redline.EventProtocol.{Identity, same_identity}
use argus_redline.EventRecords.HubRecord.{HubRecord, empty, same_state}
use argus_redline.HubEventLedger.{
  SlotState, is_owned, identity, find_from, first_empty, oldest, older,
}

abbrev pub owns : Identity → HubRecord → Bool
owns i r = is_owned r && same_identity (identity r) i

-- The record that is in custody under an identity.
unfoldable pub lookup : Identity → List SlotState → Option HubRecord
lookup i [] = none
lookup i (s ∷ slots) = if owns i s.value then some s.value else lookup i slots

-- A slot with an index counted from `n`.
pub record IsAt (slots : List SlotState) (n slot : ℕ) (r : HubRecord) : Type 0 where
  pub index : ℕ
  pub state : SlotState
  pub counted : slot ≡ n + index
  pub held : get_elem? slots index ≡ some state
  pub holds : state.value ≡ r

IsAt-suc :
    (slots : List SlotState) (s : SlotState) (n slot : ℕ) (r : HubRecord)
    → IsAt slots (n + 1) slot r
    → IsAt (s ∷ slots) n slot r
IsAt-suc slots s n slot r h = record {
  index = suc h.index;
  state = h.state;
  counted = omega (arith, h.counted);
  held = h.held;
  holds = h.holds;
}

abbrev pub hit : ℕ → HubRecord → Option (ℕ × HubRecord)
hit slot r = some (slot, r)

-- The first slot meets the test.
IsAt-zero :
    (slots : List SlotState) (s : SlotState) (n slot : ℕ) (r : HubRecord)
    → hit n s.value ≡ hit slot r
    → IsAt (s ∷ slots) n slot r
IsAt-zero slots s n slot r h =
    let counted : n ≡ slot = cc in
    record { index = 0; state = s; counted = omega (arith, counted); held = refl; holds = cc }

-- `find` and `lookup` agree, and what is written to the slot that was found is found next.
pub record IsFound (i : Identity) (slots : List SlotState) (n slot : ℕ) (r : HubRecord)
    : Type 0 where
  pub at : IsAt slots n slot r
  pub value : lookup i slots ≡ some r
  pub own : owns i r ≡ true
  pub replaced :
      (k : ℕ) (new : SlotState)
      → slot ≡ n + k
      → owns i new.value ≡ true
      → lookup i (set slots k new) ≡ some new.value

replaced_first :
    (i : Identity) (slots : List SlotState) (s : SlotState) (n slot k : ℕ) (r : HubRecord)
    (new : SlotState)
    → hit n s.value ≡ hit slot r
    → slot ≡ n + k
    → owns i new.value ≡ true
    → lookup i (set (s ∷ slots) k new) ≡ some new.value
unfolding lookup
replaced_first i slots s n slot zero r new found counted own = rw (own, lookup) refl
replaced_first i slots s n slot (suc k) r new found counted own =
    let same : n ≡ slot = cc in absurd (omega arith)

replaced_later :
    (i : Identity) (slots : List SlotState) (s : SlotState) (n slot k : ℕ) (r : HubRecord)
    (new : SlotState)
    → IsAt slots (n + 1) slot r
    → owns i s.value ≡ false
    → ((m : ℕ) (t : SlotState)
        → slot ≡ n + 1 + m
        → owns i t.value ≡ true
        → lookup i (set slots m t) ≡ some t.value)
    → slot ≡ n + k
    → owns i new.value ≡ true
    → lookup i (set (s ∷ slots) k new) ≡ some new.value
unfolding lookup
replaced_later i slots s n slot zero r new at e later counted own =
    absurd (omega (arith, at.counted))
replaced_later i slots s n slot (suc k) r new at e later counted own =
    rw (e, lookup) (later k new (omega arith) own)

pub find_from-IsFound :
    (i : Identity) (slots : List SlotState) (n slot : ℕ) (r : HubRecord)
    → find_from i slots n ≡ some (slot, r)
    → IsFound i slots n slot r
unfolding find_from lookup
find_from-IsFound i [] n slot r h = cc
find_from-IsFound i (s ∷ slots) n slot r h = elim (Bool-cases (owns i s.value)) [
  | inl e ↦
      let found : hit n s.value ≡ hit slot r = rw (e, find_from) at h in
      let same : s.value ≡ r = cc in
      record {
        at = IsAt-zero slots s n slot r found;
        value = rw (e, lookup) (ap some same);
        own = rw (← same) e;
        replaced = λ k new counted own. replaced_first i slots s n slot k r new found counted own;
      }
  | inr e ↦
      let later = find_from-IsFound i slots (n + 1) slot r (rw (e, find_from) at h) in
      record {
        at = IsAt-suc slots s n slot r later.at;
        value = rw (e, lookup) later.value;
        own = later.own;
        replaced = λ k new counted own.
            replaced_later i slots s n slot k r new later.at e later.replaced counted own;
      }
]

pub find_from-none :
    (i : Identity) (slots : List SlotState) (n : ℕ)
    → find_from i slots n ≡ none
    → lookup i slots ≡ none
unfolding find_from lookup
find_from-none i [] n h = refl
find_from-none i (s ∷ slots) n h = elim (Bool-cases (owns i s.value)) [
  | inl e ↦ let found : hit n s.value ≡ none = rw (e, find_from) at h in cc
  | inr e ↦ rw (e, lookup) (find_from-none i slots (n + 1) (rw (e, find_from) at h))
]

pub first_empty-IsAt :
    (slots : List SlotState) (n slot : ℕ)
    → first_empty slots n ≡ some slot
    → (r : HubRecord) × IsAt slots n slot r × (same_state r.state empty ≡ true)
unfolding first_empty
first_empty-IsAt [] n slot h = cc
first_empty-IsAt (s ∷ slots) n slot h = elim (Bool-cases (same_state s.value.state empty)) [
  | inl e ↦
      let found : some n ≡ some slot = rw (e, first_empty) at h in
      let same : n ≡ slot = cc in
      (s.value, IsAt-zero slots s n slot s.value (ap (λ (m : ℕ). hit m s.value) same), e)
  | inr e ↦
      let (r, at, v) = first_empty-IsAt slots (n + 1) slot (rw (e, first_empty) at h) in
      (r, IsAt-suc slots s n slot r at, v)
]

from_rest :
    (test : HubRecord → Bool) (slots : List SlotState) (s : SlotState) (n slot : ℕ)
    (found : Option (ℕ × HubRecord)) (r : HubRecord)
    → (found ≡ some (slot, r)) ⊎ (IsAt slots (n + 1) slot r × (test r ≡ true))
    → (found ≡ some (slot, r)) ⊎ (IsAt (s ∷ slots) n slot r × (test r ≡ true))
from_rest test slots s n slot found r (inl h) = inl h
from_rest test slots s n slot found r (inr (at, t)) = inr (IsAt-suc slots s n slot r at, t)

older-cases :
    (n : ℕ) (r : HubRecord) (found : Option (ℕ × HubRecord))
    → (older n r found ≡ some (n, r)) ⊎ (older n r found ≡ found)
older-cases n r none = inl refl
older-cases n r (some (m, f)) = elim (Bool-cases (ltb r.admission_ordinal f.admission_ordinal)) [
  | inl e ↦ inl (rw e refl)
  | inr e ↦ inr (rw e refl)
]

-- What is known of `found` when the loop has passed some slots.
pub oldest-IsAt :
    (test : HubRecord → Bool) (slots : List SlotState) (n slot : ℕ) (found : Option (ℕ × HubRecord))
    (r : HubRecord)
    → oldest test slots n found ≡ some (slot, r)
    → (found ≡ some (slot, r)) ⊎ (IsAt slots n slot r × (test r ≡ true))
unfolding oldest
oldest-IsAt test [] n slot found r h = inl h
oldest-IsAt test (s ∷ slots) n slot found r h = elim (Bool-cases (test s.value)) [
  | inr e ↦
      from_rest test slots s n slot found r
        (oldest-IsAt test slots (n + 1) slot found r (rw (e, oldest) at h))
  | inl e ↦
      elim (oldest-IsAt test slots (n + 1) slot (older n s.value found) r (rw (e, oldest) at h)) [
        | inr (at, t) ↦ inr (IsAt-suc slots s n slot r at, t)
        | inl q ↦ elim (older-cases n s.value found) [
          | inl new ↦
              let same : hit n s.value ≡ hit slot r = sym new ∙ q in
              let value : s.value ≡ r = cc in inr (IsAt-zero slots s n slot r same, rw (← value) e)
          | inr kept ↦ inl (sym kept ∙ q)
        ]
      ]
]

-- A write to a slot gives back what it held before, or leaves alone what is not its own.
pub lookup-set :
    (i : Identity) (slots : List SlotState) (k : ℕ) (old new : SlotState)
    → get_elem? slots k ≡ some old
    → owns i new.value ≡ false
    → (lookup i (set slots k new) ≡ lookup i slots) ⊎ (lookup i slots ≡ some old.value)
unfolding lookup
lookup-set i [] k old new g h = cc
lookup-set i (s ∷ slots) zero old new g h = elim (Bool-cases (owns i s.value)) [
  | inl e ↦
      let same : s ≡ old = cc in inr (rw (e, lookup) (ap (λ (t : SlotState). some t.value) same))
  | inr e ↦ inl (rw (e, h, lookup) refl)
]
lookup-set i (s ∷ slots) (suc k) old new g h = elim (Bool-cases (owns i s.value)) [
  | inl e ↦ inl (rw (e, lookup) refl)
  | inr e ↦ rw (e, lookup) (lookup-set i slots k old new g h)
]

pub lookup-set_own :
    (i : Identity) (slots : List SlotState) (k : ℕ) (old new : SlotState)
    → get_elem? slots k ≡ some old
    → owns i new.value ≡ true
    → lookup i slots ≡ none
    → lookup i (set slots k new) ≡ some new.value
unfolding lookup
lookup-set_own i [] k old new g h v = cc
lookup-set_own i (s ∷ slots) zero old new g h v = rw (h, lookup) refl
lookup-set_own i (s ∷ slots) (suc k) old new g h v = elim (Bool-cases (owns i s.value)) [
  | inl e ↦ let found : some s.value ≡ none = rw (e, lookup) at v in cc
  | inr e ↦ rw (e, lookup) (lookup-set_own i slots k old new g h (rw (e, lookup) at v))
]
