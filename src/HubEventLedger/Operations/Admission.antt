-- ===== src/HubEventLedger/Operations/Admission.antt =====
-- `admit` of lib/hub_event_ledger/src/hub_event_ledger.h does to the custody what an admission may do.
use argus_redline.Base.{
  ℕ, ◌-◌, ◌≤◌, ◌<◌, ◌≡◌, ◌≢◌, inl, inr, refl, subst, sym, ap, ◌∙◌, arith, true, false, some, none,
  List, ◌==◌, Bool-cases, Option-cases, All, IsByte, length, copy, drop, all_zero,
  copy_of_zero_tail, get_elem?, set,
}
use argus_redline.Base.Words.{IsU32}
use argus_redline.EventProtocol.{Event, Identity, has_valid_endpoints}
use argus_redline.EventRecords.Envelope
use argus_redline.EventRecords.Canonical.{Content, valid_canonical_event, has_zero_tail}
use argus_redline.EventRecords.HubRecord.{
  HubRecord, HubState, empty, same_state, validate_hub_record, validate_owned, valid_hub_state,
  content,
}
use argus_redline.EventStore.{CopySlot}
use argus_redline.HubEventLedger.Interface.{Storage}
use argus_redline.HubEventLedger.{
  Ledger, SlotState, durable_new_admission, validate_admission, event_identity, identity, is_owned,
  first_empty, oldest_reclaimable, reclaimable,
}
use argus_redline.HubEventLedger.Commits.{slot_state}
use argus_redline.HubEventLedger.Commits.Records.{IsStorable}
use argus_redline.HubEventLedger.Slots.{
  lookup, hit, owns, IsAt, first_empty-IsAt, oldest-IsAt, lookup-set, lookup-set_own,
}
use argus_redline.HubEventLedger.Unique.{lookup-identity, owns-identity, owns_own}
use argus_redline.HubEventLedger.Invariant.{IsBelow, IsBelow-lookup}
use argus_redline.HubEventLedger.Custody.{
  Entry, custody, entry_of, entry_at, Admits, IsConsumed, WasConsumed,
}
use argus_redline.HubEventLedger.Operations.{admitted_record, target_slot}

-- The fields of the Event are in the ranges of their types.
pub record IsTyped (e : Event) : Type 0 where
  pub source_byte : IsByte e.source
  pub family_byte : IsByte e.family
  pub flags_byte : IsByte e.flags
  pub epoch_word : IsU32 e.epoch
  pub id_word : IsU32 e.id
  pub lifetime_word : IsU32 e.lifetime_budget_seconds
  pub body_size : length e.body ≡ 12
  pub body_bytes : All IsByte e.body

admitted-zero_tail :
    (e : Event) (l : Ledger)
    → validate_admission e l ≡ durable_new_admission
    → all_zero (12 - e.body_length) (drop e.body_length e.body) ≡ true
unfolding validate_admission
admitted-zero_tail e l h = ground arith

abbrev content_with : Event → List ℕ → Content
content_with e body = record {
  family = e.family;
  flags = e.flags;
  body_length = e.body_length;
  epoch = e.epoch;
  id = e.id;
  lifetime = e.lifetime_budget_seconds;
  body = body;
}

admitted-canonical :
    (e : Event) (l : Ledger)
    → validate_admission e l ≡ durable_new_admission
    → valid_canonical_event e.source (content_with e e.body) ≡ true
unfolding validate_admission valid_canonical_event has_valid_endpoints
admitted-canonical e l h = ground arith

owned-accepted :
    (r : HubRecord)
    → r.state ≡ HubState.active
    → (r.admission_ordinal == 0) ≡ false
    → valid_canonical_event r.source_device_id (content r) ≡ true
    → has_zero_tail r.body_length r.body ≡ true
    → validate_hub_record r ≡ Envelope.ok tt
unfolding validate_hub_record validate_owned valid_hub_state
owned-accepted r a o c z = rw (a, o, c, z) refl

pub admitted_record-IsStorable :
    (e : Event) (l : Ledger) (g n : ℕ)
    → IsTyped e
    → validate_admission e l ≡ durable_new_admission
    → 0 < n
    → IsU32 n
    → IsStorable (admitted_record e g n)
admitted_record-IsStorable e l g n t h p w =
    let zero = admitted-zero_tail e l h in
    let same = copy_of_zero_tail e.body_length 12 e.body t.body_size zero in
    record {
      typed = record {
        generation_word = omega arith;
        state_known = refl;
        state_byte = omega arith;
        source_byte = t.source_byte;
        family_byte = t.family_byte;
        flags_byte = t.flags_byte;
        epoch_word = t.epoch_word;
        id_word = t.id_word;
        lifetime_word = t.lifetime_word;
        ordinal_word = w;
        body_size = ap length same ∙ t.body_size;
        body_bytes = subst (All IsByte) (sym same) t.body_bytes;
      };
      accepted =
          owned-accepted (admitted_record e g n) refl (ground arith)
            (ap (λ (b : List ℕ). valid_canonical_event e.source (content_with e b)) same
              ∙ admitted-canonical e l h)
            (ap (has_zero_tail e.body_length) same ∙ zero);
    }

pub admitted-owned : (e : Event) (g n : ℕ) → is_owned (admitted_record e g n) ≡ true
unfolding is_owned
admitted-owned e g n = refl

-- The slot that a new admission takes: one that is free, or one that the host has consumed.
pub record IsTarget (slots : List SlotState) (target : ℕ) : Type 0 where
  pub old : SlotState
  pub held : get_elem? slots target ≡ some old
  pub spent : is_owned old.value ≡ true → IsConsumed old.value.state

pub IsAt-held :
    (slots : List SlotState) (slot : ℕ) (r : HubRecord) (at : IsAt slots 0 slot r)
    → get_elem? slots slot ≡ some at.state
IsAt-held slots slot r at =
    let same : slot ≡ at.index = omega (arith, at.counted) in rw same at.held

spent_empty :
    (r : HubRecord) (s : SlotState)
    → same_state r.state empty ≡ true
    → s.value ≡ r
    → is_owned s.value ≡ true
    → IsConsumed s.value.state
unfolding is_owned
spent_empty r s v same o =
    let is_empty : same_state s.value.state empty ≡ true =
      ap (λ (x : HubRecord). same_state x.state empty) same ∙ v in
    ground arith

oldest_reclaimable-IsTarget :
    (e : Event) (slots : List SlotState) (slot : ℕ) (r : HubRecord)
    → oldest_reclaimable e slots ≡ hit slot r
    → IsTarget slots slot
unfolding oldest_reclaimable reclaimable
oldest_reclaimable-IsTarget e slots slot r h =
    elim (oldest-IsAt (reclaimable e) slots 0 slot none r h) [
      | inl q ↦ cc
      | inr (at, test) ↦
          let spent : IsConsumed r.state = ground arith in
          record {
            old = at.state;
            held = IsAt-held slots slot r at;
            spent = λ o. subst (λ (x : HubRecord). IsConsumed x.state) (sym at.holds) spent;
          }
    ]

pub target_slot-IsTarget :
    (storage : Storage) (e : Event) (slots : List SlotState) (target : ℕ)
    → target_slot storage e slots ≡ some target
    → IsTarget slots target
unfolding target_slot
target_slot-IsTarget storage e slots target h = elim (Option-cases (first_empty slots 0)) [
  | inr (slot, f) ↦
      let (r, at, v) = first_empty-IsAt slots 0 slot f in
      let found : some slot ≡ some target = rw (f, target_slot) at h in
      let same : slot ≡ target = cc in
      rw (← same) (record {
        old = at.state;
        held = IsAt-held slots slot r at;
        spent = λ o. spent_empty r at.state v at.holds o;
      })
  | inl f ↦ elim (Option-cases (oldest_reclaimable e slots)) [
    | inl q ↦ let found : none ≡ some target = rw (f, q, target_slot) at h in cc
    | inr (p, q) ↦
        let found : some p.0 ≡ some target = rw (f, q, target_slot) at h in
        let same : p.0 ≡ target = cc in rw (← same) (oldest_reclaimable-IsTarget e slots p.0 p.1 q)
  ]
]

entry-below :
    (slots : List SlotState) (bound n : ℕ) (i : Identity) (x : Entry)
    → All (IsBelow bound) slots
    → bound ≤ n
    → custody slots i ≡ some x
    → x.ordinal < n
entry-below slots bound n i x below b h = elim (Option-cases (lookup i slots)) [
  | inl e ↦ let none_at : custody slots i ≡ none = ap entry_at e in cc
  | inr (r, e) ↦
      let at : custody slots i ≡ some (entry_of r) = ap entry_at e in
      let same : entry_of r ≡ x = cc in
      let own = lookup-identity i slots r e in
      let less = IsBelow-lookup bound i slots r below e (owns-identity i r own).0 in
      let ordinal : r.admission_ordinal ≡ x.ordinal = ap (λ (y : Entry). y.ordinal) same in
      omega arith
]

pub not_own : (i : Identity) (r : HubRecord) → i ≢ identity r → owns i r ≡ false
not_own i r apart = elim (Bool-cases (owns i r)) [
  | inl own ↦ absurd (apart (sym (owns-identity i r own).1))
  | inr other ↦ other
]

-- What was written for a new Event, and the invariant with it.
module _ (e : Event) (slots : List SlotState) (free : lookup (event_identity e) slots ≡ none) where
  -- The custody once the record of the Event is in its slot.
  pub stored-Admits :
      (target g n bound : ℕ) (copy : CopySlot)
      → IsTarget slots target
      → All (IsBelow bound) slots
      → bound ≤ n
      → Admits e durable_new_admission n
          (custody slots)
          (custody (set slots target (slot_state (admitted_record e g n) copy)))
  stored-Admits target g n bound copy t below b =
      let new = slot_state (admitted_record e g n) copy in
      let own : owns (event_identity e) (admitted_record e g n) ≡ true =
        owns_own (admitted_record e g n) (admitted-owned e g n) in
      (
        ap entry_at free,
        ap entry_at (lookup-set_own (event_identity e) slots target t.old new t.held own free),
        λ i x h. entry-below slots bound n i x below b h,
        λ i apart.
            elim (lookup-set i slots target t.old new t.held
              (not_own i (admitted_record e g n) apart)) [
                | inl same ↦ inl (ap entry_at same)
                | inr found ↦ inr (
                    subst WasConsumed (sym (ap entry_at found)) (
                      t.spent
                        (owns-identity i t.old.value
                          (lookup-identity i slots t.old.value found)).0))
              ],
      )
