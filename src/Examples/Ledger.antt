-- ===== src/Examples/Ledger.antt =====
-- The ledger of lib/hub_event_ledger/src/hub_event_ledger.h on a storage in memory.
use argus_redline.Base.{
  ℕ, zero, suc, ◌≡◌, inl, refl, arith, true, false, none, List, [], ◌∷◌, ◌==◌, if◌then◌else◌,
  replicate, All,
}
use argus_redline.EventIdentity.Interface.{StorageResult}
use argus_redline.EventStore.{CopySlot, a}
use argus_redline.EventProtocol.{Event}
use argus_redline.EventProtocol.Family
use argus_redline.HubEventLedger.Interface.{Storage, IsHonest}
use argus_redline.HubEventLedger.{Ledger, SlotState, Status, reset, is_owned, event_identity}
use argus_redline.HubEventLedger.Commits.{Machine, slot_state, same_copy}
use argus_redline.HubEventLedger.Recovery.{fresh_record, fresh_metadata}
use argus_redline.HubEventLedger.Unique.{IsUnique}
use argus_redline.HubEventLedger.Invariant.{IsLedger, IsHeld, IsBelow}
use argus_redline.HubEventLedger.Custody.{custody, Admits, Consumes}
use argus_redline.HubEventLedger.Operations.{admit, consume}
use argus_redline.HubEventLedger.Operations.Admission.{IsTyped}
use argus_redline.HubEventLedger.Operations.Refinement.{admit-Admits}
use argus_redline.HubEventLedger.Operations.Consumption.{consume-Consumes}

record Files : Type 0 where
  metadata : CopySlot → List ℕ
  events : ℕ → CopySlot → List ℕ

abbrev files : Storage
files = record {
  World = Files;
  read_metadata =
      λ c w. (record { result = StorageResult.ok; bytes = w.metadata c; length = 24 }, w);
  write_metadata = λ c bytes w. (
    StorageResult.ok,
    record w { metadata = λ d. if same_copy c d then bytes else w.metadata d },
  );
  read_copy =
      λ slot c w. (record { result = StorageResult.ok; bytes = w.events slot c; length = 56 }, w);
  write_copy = λ slot c bytes w. (
    StorageResult.ok,
    record w {
      events = λ i d.
          if slot == i then (if same_copy c d then bytes else w.events i d) else w.events i d;
    },
  );
  commit = λ w. (StorageResult.ok, w);
}

abbrev files-IsHonest : IsHonest files
files-IsHonest = record {
  stored = λ slot c w. w.events slot c;
  read_gives = λ slot c w. inl refl;
  read_keeps = λ slot i c d w. refl;
  stored_metadata = λ c w. w.metadata c;
  read_metadata_gives = λ c w. inl refl;
  read_metadata_keeps = λ c d w. refl;
}

abbrev free_slots : ℕ → List SlotState
free_slots n = replicate n (slot_state fresh_record a)

not_owned : is_owned fresh_record ≡ false
unfolding is_owned
not_owned = refl

free_slots-IsUnique : (n : ℕ) → IsUnique (free_slots n)
free_slots-IsUnique zero = tt
free_slots-IsUnique (suc n) = (λ o. let free = not_owned in cc, free_slots-IsUnique n)

free_slots-IsHeld : (n : ℕ) → All IsHeld (free_slots n)
free_slots-IsHeld zero = tt
free_slots-IsHeld (suc n) = (λ o. let free = not_owned in cc, free_slots-IsHeld n)

free_slots-IsBelow : (m n : ℕ) → All (IsBelow m) (free_slots n)
free_slots-IsBelow m zero = tt
free_slots-IsBelow m (suc n) = (λ o. let free = not_owned in cc, free_slots-IsBelow m n)

-- As recover leaves it on an empty storage.
abbrev fresh : Ledger
fresh = record (reset none) {
  slots = free_slots 8;
  metadata = fresh_metadata;
  next_volatile_ordinal = 0;
  volatile_end_exclusive = 0;
  hub_device_id = 1;
  node_device_id = 2;
  has_metadata = true;
  ledger_healthy = true;
  ordinal_ready = true;
  status = Status.ready;
}

fresh-IsLedger : IsLedger fresh
fresh-IsLedger = record {
  unique = free_slots-IsUnique 8;
  storable = free_slots-IsHeld 8;
  ordinals = λ r. record {
    metadata = record {
      generation_word = omega arith;
      ordinal_word = omega arith;
      ordinal_nonzero = λ z. absurd (omega arith);
    };
    positive = λ l. omega arith;
    within = omega arith;
    reserved = omega arith;
    below = free_slots-IsBelow 0 8;
  };
}

abbrev pressed : Event
pressed = record {
  source = 2;
  destination = 1;
  sequence = 9;
  family = Family.button;
  epoch = 7;
  id = 3;
  flags = 0;
  lifetime_budget_seconds = 600;
  body_length = 1;
  body = 1 ∷ replicate 11 0;
}

pressed-IsTyped : IsTyped pressed
pressed-IsTyped = record {
  source_byte = omega arith;
  family_byte = omega arith;
  flags_byte = omega arith;
  epoch_word = omega arith;
  id_word = omega arith;
  lifetime_word = omega arith;
  body_size = refl;
  body_bytes = omega arith;
}

abbrev start : Machine files
start = record { ledger = fresh; world = record { metadata = λ c. []; events = λ i c. [] } }

admit-Admits_example :
    Admits pressed
      (admit files pressed start).0.status
      (admit files pressed start).0.admission_ordinal
      (custody (free_slots 8))
      (custody (admit files pressed start).1.ledger.slots)
    × IsLedger (admit files pressed start).1.ledger
admit-Admits_example =
    admit-Admits files files-IsHonest pressed start fresh-IsLedger pressed-IsTyped

-- The ledger after the admission, whose Event the host then consumes.
abbrev after_admission : Machine files
after_admission = (admit files pressed start).1

consume-Consumes_example :
    Consumes
      (event_identity pressed)
      (consume files (event_identity pressed) after_admission).0.status
      (custody after_admission.ledger.slots)
      (custody (consume files (event_identity pressed) after_admission).1.ledger.slots)
    × IsLedger (consume files (event_identity pressed) after_admission).1.ledger
consume-Consumes_example =
    consume-Consumes files files-IsHonest (event_identity pressed) after_admission
      (admit-Admits files files-IsHonest pressed start fresh-IsLedger pressed-IsTyped).1
