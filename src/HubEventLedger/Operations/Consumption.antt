-- ===== src/HubEventLedger/Operations/Consumption.antt =====
-- `consume` of lib/hub_event_ledger/src/hub_event_ledger.h does to the custody what a consumption may do.
use argus_redline.Base.{
  All-set, ℕ, ◌≡◌, inl, inr, refl, subst, sym, ap, ◌∙◌, arith, Bool, true, false, Option, some,
  none, List, if◌then◌else◌, Option-cases, Bool-cases, set, [], ◌∷◌, All, not,
}
use argus_redline.Base.Methods.{After, After-weaken}
use argus_redline.EventProtocol.{Identity}
use argus_redline.EventRecords.Envelope
use argus_redline.EventRecords.HubRecord.{
  HubRecord, HubState, same_state, validate_hub_record, validate_owned, valid_hub_state,
}
use argus_redline.EventStore.{CopySlot, opposite}
use argus_redline.HubEventLedger.Interface.{Storage, IsHonest}
use argus_redline.HubEventLedger.{
  Ledger, SlotState, ConsumeStatus, ConsumeResult, find_from, is_owned, identity,
}
use argus_redline.HubEventLedger.Commits.{Machine, put_record, slot_state, record_medium}
use argus_redline.HubEventLedger.Commits.Durable.{Fails}
use argus_redline.HubEventLedger.Commits.Records.{IsStorable, commit_record_to-After}
use argus_redline.HubEventLedger.Slots.{
  lookup, hit, owns, IsFound, find_from-IsFound, find_from-none, lookup-set,
}
use argus_redline.HubEventLedger.Unique.{
  IsUnique-set_same, owns-identity, owns_own, lookup-identity,
}
use argus_redline.HubEventLedger.Invariant.{
  IsLedger, IsHeld, IsKept, HasOrdinals-put_record, IsBelow-lookup, record_medium-IsKept,
}
use argus_redline.HubEventLedger.Operations.Reports.{IsLedger-set_report}
use argus_redline.HubEventLedger.Custody.{custody, entry_of, entry_at, Consumes}
use argus_redline.HubEventLedger.Operations.{
  active_copy, commit_record, consumed_record, after_consume, consume_found, consume, set_report,
}
use argus_redline.HubEventLedger.Operations.Admission.{not_own, IsAt-held}

consumed-owned : (r : HubRecord) → is_owned (consumed_record r) ≡ true
unfolding is_owned
consumed-owned r = refl

-- What is owned and not consumed is active.
active_of_owned :
    (r : HubRecord)
    → is_owned r ≡ true
    → same_state r.state HubState.consumed ≡ false
    → same_state r.state HubState.active ≡ true
unfolding is_owned
active_of_owned r o h = ground arith

not_empty : (r : HubRecord) → is_owned r ≡ true → same_state r.state HubState.empty ≡ false
unfolding is_owned
not_empty r o = ground arith

consumed-accepted :
    (r : HubRecord)
    → is_owned r ≡ true
    → validate_hub_record r ≡ Envelope.ok tt
    → validate_hub_record (consumed_record r) ≡ Envelope.ok tt
unfolding validate_hub_record valid_hub_state validate_owned
consumed-accepted r o h = let apart = not_empty r o in ground (arith, apart)

consumed_record-IsStorable :
    (r : HubRecord) → is_owned r ≡ true → IsStorable r → IsStorable (consumed_record r)
consumed_record-IsStorable r o v =
    let t = v.typed in
    record {
      typed = record {
        generation_word = omega arith;
        state_known = refl;
        state_byte = omega arith;
        source_byte = t.source_byte;
        family_byte = t.family_byte;
        flags_byte = t.flags_byte;
        epoch_word = t.epoch_word;
        id_word = t.id_word;
        lifetime_word = t.lifetime_word;
        ordinal_word = t.ordinal_word;
        body_size = t.body_size;
        body_bytes = t.body_bytes;
      };
      accepted = consumed-accepted r o v.accepted;
    }

IsStorable-lookup :
    (i : Identity) (slots : List SlotState) (r : HubRecord)
    → lookup i slots ≡ some r
    → is_owned r ≡ true
    → All IsHeld slots
    → IsStorable r
unfolding lookup
IsStorable-lookup i [] r h o a = cc
IsStorable-lookup i (s ∷ slots) r h o a = elim (Bool-cases (owns i s.value)) [
  | inl e ↦
      let found : some s.value ≡ some r = rw (e, lookup) at h in
      let same : s.value ≡ r = cc in subst IsStorable same (a.0 (rw same o))
  | inr e ↦ IsStorable-lookup i slots r (rw (e, lookup) at h) o a.1
]

-- The custody once the tombstone is in its slot.
stored-Consumes :
    (i : Identity) (slots : List SlotState) (slot : ℕ) (r : HubRecord) (copy : CopySlot)
    → IsFound i slots 0 slot r
    → same_state r.state HubState.consumed ≡ false
    → Consumes i ConsumeStatus.consumed
        (custody slots)
        (custody (set slots slot (slot_state (consumed_record r) copy)))
stored-Consumes i slots slot r copy f h =
    let new = slot_state (consumed_record r) copy in
    let (owned, same) = owns-identity i r f.own in
    let own : owns i (consumed_record r) ≡ true =
      ap (λ (j : Identity). owns j (consumed_record r)) (sym same)
      ∙ owns_own (consumed_record r) (consumed-owned r) in
    (
      (
        entry_of r,
        ap entry_at f.value,
        active_of_owned r owned h,
        ap entry_at (f.replaced slot new (omega arith) own),
      ),
      λ j apart.
          elim (lookup-set j slots slot f.at.state new (IsAt-held slots slot r f.at)
            (not_own j (consumed_record r) (λ e. apart (e ∙ same)))) [
              | inl kept ↦ ap entry_at kept
              | inr found ↦
                  let other =
                    (owns-identity j f.at.state.value
                      (lookup-identity j slots f.at.state.value found)).1 in
                  absurd (apart (sym other ∙ ap identity f.at.holds ∙ same))
            ],
    )

module _ (storage : Storage) (honest : IsHonest storage) (i : Identity) (s : Machine storage)
    (ledger : IsLedger s.ledger) where
  -- What a consumption does to the custody, and that it keeps the invariant.
  abbrev Consumed : ConsumeResult × Machine storage → Type 0
  Consumed (r, t) =
      Consumes i r.status (custody s.ledger.slots) (custody t.ledger.slots) × IsLedger t.ledger

  put-IsLedger :
      (slot : ℕ) (r : HubRecord) (copy : CopySlot)
      → IsFound i s.ledger.slots 0 slot r
      → IsLedger (put_record slot (consumed_record r) copy s.ledger)
  put-IsLedger slot r copy f =
      let new = slot_state (consumed_record r) copy in
      let (owned, same) = owns-identity i r f.own in
      let storable = IsStorable-lookup i s.ledger.slots r f.value owned ledger.storable in
      record {
        unique =
            IsUnique-set_same s.ledger.slots slot f.at.state new
              (IsAt-held s.ledger.slots slot r f.at) (ap is_owned f.at.holds ∙ owned)
              (sym (ap identity f.at.holds)) ledger.unique;
        storable =
            All-set IsHeld s.ledger.slots slot new
              (λ o. consumed_record-IsStorable r owned storable) ledger.storable;
        ordinals = λ ready.
            let h = ledger.ordinals ready in
            HasOrdinals-put_record slot (consumed_record r) copy s.ledger h (λ o.
              IsBelow-lookup s.ledger.next_volatile_ordinal i s.ledger.slots r h.below f.value
                owned);
      }

  after_consume-Consumed :
      (slot : ℕ) (r : HubRecord) (copy : CopySlot) (q : Option (Unit {0}) × Machine storage)
      → IsFound i s.ledger.slots 0 slot r
      → same_state r.state HubState.consumed ≡ false
      → After
          (λ u t. t.ledger ≡ put_record slot (consumed_record r) copy s.ledger)
          (λ t. IsKept s.ledger t.ledger)
          q
      → Consumed (after_consume storage slot q)
  unfolding after_consume
  after_consume-Consumed slot r copy (some u, t) f h p = (
    subst
        (λ (x : List SlotState).
          Consumes i ConsumeStatus.consumed (custody s.ledger.slots) (custody x))
        (sym (ap (λ (l : Ledger). l.slots) p)) (stored-Consumes i s.ledger.slots slot r copy f h),
    IsLedger-set_report _ (set_report _ t.ledger)
        (IsLedger-set_report _ t.ledger (subst IsLedger (sym p) (put-IsLedger slot r copy f))),
  )
  after_consume-Consumed slot r copy (none, t) f h p = (
    λ j. ap (λ (x : List SlotState). entry_at (lookup j x)) p.0,
    IsLedger-set_report _ t.ledger p.1,
  )

  Consumed-if :
      (test : Bool) (x y : ConsumeResult × Machine storage)
      → (test ≡ true → Consumed x)
      → (test ≡ false → Consumed y)
      → Consumed (if test then x else y)
  Consumed-if true x y h k = h refl
  Consumed-if false x y h k = k refl

  consume_hit :
      (slot : ℕ) (r : HubRecord)
      → find_from i s.ledger.slots 0 ≡ hit slot r
      → Consumed (consume_found storage (hit slot r) s)
  unfolding consume_found commit_record
  consume_hit slot r found =
      let f = find_from-IsFound i s.ledger.slots 0 slot r found in
      let (owned, same) = owns-identity i r f.own in
      let copy = opposite (active_copy slot s.ledger) in
      let storable = IsStorable-lookup i s.ledger.slots r f.value owned ledger.storable in
      Consumed-if (same_state r.state HubState.consumed) _ _
        (λ spent. (((entry_of r, ap entry_at f.value, spent), λ j. refl), ledger))
        λ fresh.
          after_consume-Consumed slot r copy (commit_record storage slot (consumed_record r) s) f
            fresh
            (After-weaken (λ u t. t.ledger ≡ put_record slot (consumed_record r) copy s.ledger)
              (λ t. Fails (record_medium storage slot) s.ledger t.ledger)
              (λ t. IsKept s.ledger t.ledger) (commit_record storage slot (consumed_record r) s)
              (commit_record_to-After storage honest slot (consumed_record r) copy s
                (consumed_record-IsStorable r owned storable))
              λ t q. record_medium-IsKept storage s.ledger ledger slot t.ledger q)

  consume_miss : find_from i s.ledger.slots 0 ≡ none → Consumed (consume_found storage none s)
  unfolding consume_found
  consume_miss absent =
      ((ap entry_at (find_from-none i s.ledger.slots 0 absent), λ j. refl), ledger)

  consume_any : Consumed (consume_found storage (find_from i s.ledger.slots 0) s)
  consume_any = elim (Option-cases (find_from i s.ledger.slots 0)) [
    | inl absent ↦ rw absent (consume_miss absent)
    | inr ((slot, r), found) ↦ rw found (consume_hit slot r found)
  ]

  -- Whatever state its ledger is in, `consume` on an honest storage does to the custody what the
  -- specification allows with the status that it returns, and it keeps the invariant.
  pub consume-Consumes :
      Consumes i
        (consume storage i s).0.status
        (custody s.ledger.slots)
        (custody (consume storage i s).1.ledger.slots)
      × IsLedger (consume storage i s).1.ledger
  unfolding consume
  consume-Consumes =
      Consumed-if (not s.ledger.ledger_healthy) _ _ (λ x. (λ j. refl, ledger)) λ x. consume_any
