-- ===== src/HubEventLedger/Invariant.antt =====
-- The invariant of the ledger of lib/hub_event_ledger/src/hub_event_ledger.h, and the changes that keep
-- it.
use argus_redline.Base.{
  All-set, ℕ, ◌≤◌, ◌<◌, ◌≡◌, inl, inr, refl, subst, sym, arith, true, some, List, [], ◌∷◌, All,
  Bool-cases,
}
use argus_redline.EventProtocol.{Identity}
use argus_redline.EventRecords.HubRecord.{HubRecord}
use argus_redline.EventRecords.HubMetadata.{IsMetadata}
use argus_redline.EventStore.{CopySlot}
use argus_redline.HubEventLedger.{SlotState, Ledger, Status, is_owned}
use argus_redline.HubEventLedger.Interface.{Storage}
use argus_redline.HubEventLedger.Commits.{
  fail_ledger, put_record, slot_state, record_medium, metadata_medium,
}
use argus_redline.HubEventLedger.Commits.Durable.{Fails}
use argus_redline.HubEventLedger.Commits.Records.{IsStorable}
use argus_redline.HubEventLedger.Slots.{lookup, owns}
use argus_redline.HubEventLedger.Unique.{IsUnique}

abbrev pub IsBelow : ℕ → SlotState → Type 0
IsBelow n s = is_owned s.value ≡ true → s.value.admission_ordinal < n

-- What a slot owns can be stored.
abbrev pub IsHeld : SlotState → Type 0
IsHeld s = is_owned s.value ≡ true → IsStorable s.value

-- The ordinals that the ledger gives out next have been reserved in the storage, are not 0, and lie above
-- those that it has given out. A ledger that recovers on an empty storage has none left, from 0 to 0.
pub record HasOrdinals (l : Ledger) : Type 0 where
  pub metadata : IsMetadata l.metadata
  pub positive : l.next_volatile_ordinal < l.volatile_end_exclusive → 0 < l.next_volatile_ordinal
  pub within : l.next_volatile_ordinal ≤ l.volatile_end_exclusive
  pub reserved : l.volatile_end_exclusive ≤ l.metadata.next_unreserved_admission_ordinal
  pub below : All (IsBelow l.next_volatile_ordinal) l.slots

pub record IsLedger (l : Ledger) : Type 0 where
  pub unique : IsUnique l.slots
  pub storable : All IsHeld l.slots
  pub ordinals : l.ordinal_ready ≡ true → HasOrdinals l

pub All-IsBelow :
    (m n : ℕ) (slots : List SlotState) → m ≤ n → All (IsBelow m) slots → All (IsBelow n) slots
All-IsBelow m n [] h a = tt
All-IsBelow m n (s ∷ slots) h a =
    (λ o. let below = a.0 o in omega arith, All-IsBelow m n slots h a.1)

pub IsBelow-lookup :
    (n : ℕ) (i : Identity) (slots : List SlotState) (r : HubRecord)
    → All (IsBelow n) slots
    → lookup i slots ≡ some r
    → is_owned r ≡ true
    → r.admission_ordinal < n
unfolding lookup
IsBelow-lookup n i [] r a h o = cc
IsBelow-lookup n i (s ∷ slots) r a h o = elim (Bool-cases (owns i s.value)) [
  | inl e ↦
      let found : some s.value ≡ some r = rw (e, lookup) at h in
      let same : s.value ≡ r = cc in
      subst (λ (x : HubRecord). x.admission_ordinal < n) same (a.0 (rw same o))
  | inr e ↦ IsBelow-lookup n i slots r a.1 (rw (e, lookup) at h) o
]

pub HasOrdinals-put_record :
    (slot : ℕ) (r : HubRecord) (copy : CopySlot) (l : Ledger)
    → HasOrdinals l
    → (is_owned r ≡ true → r.admission_ordinal < l.next_volatile_ordinal)
    → HasOrdinals (put_record slot r copy l)
HasOrdinals-put_record slot r copy l h b = record {
  metadata = h.metadata;
  positive = h.positive;
  within = h.within;
  reserved = h.reserved;
  below = All-set (IsBelow l.next_volatile_ordinal) l.slots slot (slot_state r copy) b h.below;
}

IsLedger-fail_ledger : (e : Status) (l : Ledger) → IsLedger l → IsLedger (fail_ledger e l)
IsLedger-fail_ledger e l h = record {
  unique = h.unique;
  storable = h.storable;
  ordinals = λ r.
      let o = h.ordinals r in
      record {
        metadata = o.metadata;
        positive = o.positive;
        within = o.within;
        reserved = o.reserved;
        below = o.below;
      };
}

-- After a commit that failed, the slots are as before, and so is the invariant.
abbrev pub IsKept : Ledger → Ledger → Type 0
IsKept l l' = (l'.slots ≡ l.slots) × IsLedger l'

module _ (storage : Storage) (l : Ledger) (ledger : IsLedger l) where
  pub record_medium-IsKept :
      (slot : ℕ) (l' : Ledger) → Fails (record_medium storage slot) l l' → IsKept l l'
  record_medium-IsKept slot l' (inl (e, h)) =
      subst (IsKept l) (sym h) (refl, IsLedger-fail_ledger e l ledger)
  record_medium-IsKept slot l' (inr h) =
      subst (IsKept l) (sym h) (refl, IsLedger-fail_ledger _ l ledger)

  pub metadata_medium-IsKept : (l' : Ledger) → Fails (metadata_medium storage) l l' → IsKept l l'
  metadata_medium-IsKept l' (inl (e, h)) =
      subst (IsKept l) (sym h)
        (refl, record { unique = ledger.unique; storable = ledger.storable; ordinals = λ r. cc })
  metadata_medium-IsKept l' (inr h) =
      subst (IsKept l) (sym h)
        (refl, record { unique = ledger.unique; storable = ledger.storable; ordinals = λ r. cc })
