-- ===== src/HubEventLedger/Operations/Refinement.antt =====
-- `admit` and `consume` of lib/hub_event_ledger/src/hub_event_ledger.h refine the specification of the
-- custody.
use argus_redline.Base.{
  All-set, ℕ, ◌≤◌, ◌<◌, ◌≡◌, ◌⊎◌, inl, inr, refl, subst, sym, ap, ◌∙◌, arith, Bool, true, false,
  not, Option, some, none, List, if◌then◌else◌, Option-cases, set, get_elem?,
}
use argus_redline.Base.Methods.{return, After, After-bind, After-weaken}
use argus_redline.EventProtocol.{Event, same_identity}
use argus_redline.EventRecords.HubRecord.{HubRecord, content}
use argus_redline.EventStore.{CopySlot, opposite}
use argus_redline.HubEventLedger.Interface.{Storage, IsHonest}
use argus_redline.HubEventLedger.{
  Ledger, SlotState, durable_new_admission, exact_duplicate, identity_content_mismatch, capacity,
  AdmissionStatus, AdmissionResult, validate_admission, event_identity, same_canonical, find_from,
}
use argus_redline.HubEventLedger.Commits.{Machine, put_record, slot_state, record_medium}
use argus_redline.HubEventLedger.Commits.Durable.{Fails}
use argus_redline.HubEventLedger.Commits.Records.{IsStorable, commit_record_to-After}
use argus_redline.HubEventLedger.Slots.{lookup, hit, owns, find_from-IsFound, find_from-none}
use argus_redline.HubEventLedger.Unique.{IsUnique-set_new}
use argus_redline.HubEventLedger.Invariant.{
  IsHeld, IsLedger, IsKept, HasOrdinals-put_record, record_medium-IsKept,
}
use argus_redline.HubEventLedger.Custody.{Custody, custody, entry_of, entry_at, Admits, HasContent}
use argus_redline.HubEventLedger.Operations.{
  admitted_record, generation_at, active_copy, commit_record, allocate_ordinal, store_new,
  after_store, admit_to, admit_known, admit, target_slot, set_report, is_new,
}
use argus_redline.HubEventLedger.Operations.Reports.{IsLedger-set_report}
use argus_redline.HubEventLedger.Operations.Ordinals.{IsGiven, allocate_ordinal-After}
use argus_redline.HubEventLedger.Operations.Admission.{
  IsTyped, IsTarget, admitted_record-IsStorable, target_slot-IsTarget, stored-Admits,
}

-- `sameCanonical` compares the content.
same_canonical-HasContent :
    (r : HubRecord) (e : Event) → same_canonical r e ≡ true → HasContent (content r) e
unfolding same_canonical same_identity
same_canonical-HasContent r e h =
    (ground arith, ground arith, ground arith, ground arith, ground arith)

HasContent-same_canonical :
    (r : HubRecord) (e : Event)
    → owns (event_identity e) r ≡ true
    → HasContent (content r) e
    → same_canonical r e ≡ true
unfolding same_canonical same_identity
HasContent-same_canonical r e o h = ground arith

-- The statuses with which an Event is judged before the slots are looked at.
abbrev is_verdict : AdmissionStatus → Bool
is_verdict durable_new_admission = true
is_verdict AdmissionStatus.unsupported_event = true
is_verdict AdmissionStatus.malformed_event = true
is_verdict AdmissionStatus.routing_rejected = true
is_verdict _ = false

validate_admission-is_verdict :
    (e : Event) (l : Ledger) → is_verdict (validate_admission e l) ≡ true
unfolding validate_admission
validate_admission-is_verdict e l = ground arith

refusal :
    (e : Event) (c : Custody) (status : AdmissionStatus)
    → is_verdict status ≡ true
    → is_new status ≡ false
    → Admits e status 0 c c
refusal e c durable_new_admission h n = cc
refusal e c exact_duplicate h n = cc
refusal e c identity_content_mismatch h n = cc
refusal e c capacity h n = cc
refusal e c AdmissionStatus.unsupported_event h n = λ i. refl
refusal e c AdmissionStatus.malformed_event h n = λ i. refl
refusal e c AdmissionStatus.routing_rejected h n = λ i. refl
refusal e c AdmissionStatus.storage_failure h n = cc
refusal e c AdmissionStatus.degraded h n = cc

new_status : (status : AdmissionStatus) → is_new status ≡ true → status ≡ durable_new_admission
new_status durable_new_admission h = refl
new_status exact_duplicate h = cc
new_status identity_content_mismatch h = cc
new_status capacity h = cc
new_status AdmissionStatus.unsupported_event h = cc
new_status AdmissionStatus.malformed_event h = cc
new_status AdmissionStatus.routing_rejected h = cc
new_status AdmissionStatus.storage_failure h = cc
new_status AdmissionStatus.degraded h = cc

module _ (storage : Storage) (honest : IsHonest storage) (e : Event) (s : Machine storage)
    (ledger : IsLedger s.ledger) where
  -- What an admission does to the custody, and that it keeps the invariant.
  abbrev Admitted : AdmissionResult × Machine storage → Type 0
  Admitted (r, t) =
      Admits e r.status r.admission_ordinal (custody s.ledger.slots) (custody t.ledger.slots)
      × IsLedger t.ledger

  Admitted-if :
      (test : Bool) (x y : AdmissionResult × Machine storage)
      → (test ≡ true → Admitted x)
      → (test ≡ false → Admitted y)
      → Admitted (if test then x else y)
  Admitted-if true x y h k = h refl
  Admitted-if false x y h k = k refl

  module _ (typed : IsTyped e) (valid : validate_admission e s.ledger ≡ durable_new_admission)
      (free : lookup (event_identity e) s.ledger.slots ≡ none) where
    abbrev Stored : ℕ → ℕ → Machine storage → Type 0
    Stored target n t =
        IsLedger t.ledger
        × (s.ledger.next_volatile_ordinal ≤ n)
        × ((g : ℕ) × (copy : CopySlot) × (t.ledger.slots
              ≡ set s.ledger.slots target (slot_state (admitted_record e g n) copy)))

    abbrev Lost : Machine storage → Type 0
    Lost t = IsKept s.ledger t.ledger

    put-IsLedger :
        (target g n : ℕ) (copy : CopySlot) (l : Ledger)
        → IsStorable (admitted_record e g n)
        → IsTarget s.ledger.slots target
        → l.slots ≡ s.ledger.slots
        → IsLedger l
        → n < l.next_volatile_ordinal
        → IsLedger (put_record target (admitted_record e g n) copy l)
    put-IsLedger target g n copy l storable t same v b = record {
      storable =
          All-set IsHeld l.slots target (slot_state (admitted_record e g n) copy) (λ o. storable)
            v.storable;
      unique =
          IsUnique-set_new l.slots target t.old (slot_state (admitted_record e g n) copy)
            (ap (λ (x : List SlotState). get_elem? x target) same ∙ t.held)
            (ap (λ (x : List SlotState). lookup (event_identity e) x) same ∙ free) v.unique;
      ordinals =
          λ r. HasOrdinals-put_record target (admitted_record e g n) copy l (v.ordinals r) (λ o. b);
    }

    store_new-After :
        (target : ℕ)
        → IsTarget s.ledger.slots target
        → s.ledger.ordinal_ready ≡ true
        → After (Stored target) Lost (store_new storage e target s)
    unfolding store_new commit_record
    store_new-After target t ready =
        After-bind (IsGiven storage honest s ledger) (Stored target) Lost (allocate_ordinal storage)
          _ s (allocate_ordinal-After storage honest s ledger ready)
          λ n u p.
            let next = admitted_record e (generation_at target u.ledger) n in
            let copy = opposite (active_copy target u.ledger) in
            let storable =
              admitted_record-IsStorable e s.ledger (generation_at target u.ledger) n typed valid
                p.2 p.3 in
            After-bind (λ x v. v.ledger ≡ put_record target next copy u.ledger) (Stored target) Lost
              (commit_record storage target next) (λ _. return n) u
              (After-weaken (λ x v. v.ledger ≡ put_record target next copy u.ledger)
                (λ v. Fails (record_medium storage target) u.ledger v.ledger) Lost
                (commit_record storage target next u)
                (commit_record_to-After storage honest target next copy u storable)
                λ v f.
                  let (same, kept) = record_medium-IsKept storage u.ledger p.1 target v.ledger f in
                  (same ∙ p.0, kept))
              λ x v q. (
                subst IsLedger (sym q) (
                    put-IsLedger target (generation_at target u.ledger) n copy u.ledger storable t
                      p.0 p.1 p.5),
                p.4,
                (
                  generation_at target u.ledger,
                  copy,
                  ap (λ (l : Ledger). l.slots) q
                      ∙ ap (λ (x : List SlotState). set x target (slot_state next copy)) p.0,
                ),
              )

    after_store-Admitted :
        (target : ℕ) (r : Option ℕ × Machine storage)
        → IsTarget s.ledger.slots target
        → (s.ledger.ordinal_ready ≡ true) ⊎ (r ≡ (none, s))
        → After (Stored target) Lost r
        → Admitted (after_store storage target r)
    unfolding after_store
    after_store-Admitted target (none, t) at ready h = (
      (ap entry_at free, λ i. ap (λ (x : List SlotState). entry_at (lookup i x)) h.0),
      IsLedger-set_report _ t.ledger h.1,
    )
    after_store-Admitted target (some n, t) at (inr absent) h = cc
    after_store-Admitted target (some n, t) at (inl ready) (v, later, (g, copy, slots)) = (
      subst
          (λ (x : List SlotState).
            Admits e durable_new_admission n (custody s.ledger.slots) (custody x))
          (sym slots)
          (stored-Admits e s.ledger.slots free target g n s.ledger.next_volatile_ordinal copy at
            (ledger.ordinals ready).below later),
      IsLedger-set_report _ (set_report _ t.ledger) (IsLedger-set_report _ t.ledger v),
    )

    admit_to-none : Admitted (admit_to storage none e s)
    unfolding admit_to
    admit_to-none = ((ap entry_at free, λ i. refl), ledger)

    admit_to-some :
        (target : ℕ)
        → IsTarget s.ledger.slots target
        → Admitted (admit_to storage (some target) e s)
    unfolding admit_to
    admit_to-some target at =
        Admitted-if (not s.ledger.ordinal_ready) _ _
          (λ x. after_store-Admitted target (none, s) at (inr refl) (refl, ledger))
          λ x.
            let ready : s.ledger.ordinal_ready ≡ true = ground arith in
            after_store-Admitted target (store_new storage e target s) at (inl ready)
              (store_new-After target at ready)

    admit_to-Admitted : Admitted (admit_to storage (target_slot storage e s.ledger.slots) e s)
    admit_to-Admitted = elim (Option-cases (target_slot storage e s.ledger.slots)) [
      | inl absent ↦ rw absent (admit_to-none)
      | inr (target, found) ↦
          rw found
            (admit_to-some target (target_slot-IsTarget storage e s.ledger.slots target found))
    ]

  admit_new :
      IsTyped e
      → validate_admission e s.ledger ≡ durable_new_admission
      → lookup (event_identity e) s.ledger.slots ≡ none
      → Admitted (admit_known storage none e s)
  unfolding admit_known
  admit_new typed valid free = admit_to-Admitted typed valid free

  admit_old :
      (slot : ℕ) (r : HubRecord)
      → find_from (event_identity e) s.ledger.slots 0 ≡ hit slot r
      → Admitted (admit_known storage (hit slot r) e s)
  unfolding admit_known
  admit_old slot r found =
      let f = find_from-IsFound (event_identity e) s.ledger.slots 0 slot r found in
      Admitted-if (same_canonical r e) _ _
        (λ same. (
          ((entry_of r, ap entry_at f.value, same_canonical-HasContent r e same, refl), λ i. refl),
          IsLedger-set_report _ s.ledger ledger,
        ))
        λ differs. (
          (
            (
              entry_of r,
              ap entry_at f.value,
              λ c. let same = HasContent-same_canonical r e f.own c in cc,
            ),
            λ i. refl,
          ),
          IsLedger-set_report _ s.ledger ledger,
        )

  admit_known-Admitted :
      IsTyped e
      → validate_admission e s.ledger ≡ durable_new_admission
      → Admitted (admit_known storage (find_from (event_identity e) s.ledger.slots 0) e s)
  admit_known-Admitted typed valid =
      elim (Option-cases (find_from (event_identity e) s.ledger.slots 0)) [
        | inl absent ↦
            rw absent
              (admit_new typed valid (find_from-none (event_identity e) s.ledger.slots 0 absent))
        | inr ((slot, r), found) ↦ rw found (admit_old slot r found)
      ]

  -- Whatever state its ledger is in, `admit` on an honest storage does to the custody what the
  -- specification allows, with the status and the ordinal that it returns, and it keeps the invariant.
  pub admit-Admits :
      IsTyped e
      → Admits e
          (admit storage e s).0.status
          (admit storage e s).0.admission_ordinal
          (custody s.ledger.slots)
          (custody (admit storage e s).1.ledger.slots)
        × IsLedger (admit storage e s).1.ledger
  unfolding admit
  admit-Admits typed =
      Admitted-if (not s.ledger.ledger_healthy) _ _ (λ x. (λ i. refl, ledger))
        λ x.
          Admitted-if (not (is_new (validate_admission e s.ledger))) _ _
            (λ refused. (
              refusal e (custody s.ledger.slots) (validate_admission e s.ledger)
                  (validate_admission-is_verdict e s.ledger) (ground arith),
              ledger,
            ))
            λ accepted.
              admit_known-Admitted typed (new_status (validate_admission e s.ledger) (ground arith))
