-- ===== src/HubEventLedger/Operations/Ordinals.antt =====
-- `allocateOrdinal` of lib/hub_event_ledger/src/hub_event_ledger.h gives out fresh ordinals.
use argus_redline.Base.{
  ℕ, ◌+◌, ◌≤◌, ◌<◌, ◌≡◌, refl, subst, sym, arith, true, false, not, ltb, ◌==◌, All,
}
use argus_redline.Base.Words.{IsU32, u32}
use argus_redline.Base.Methods.{After, After-bind, After-weaken, After-if}
use argus_redline.EventRecords.HubMetadata.{HubMetadata, IsMetadata}
use argus_redline.EventStore.{opposite}
use argus_redline.HubEventLedger.Interface.{Storage, IsHonest}
use argus_redline.HubEventLedger.{Ledger}
use argus_redline.HubEventLedger.Commits.{Machine, put_metadata, metadata_medium, commit_metadata}
use argus_redline.HubEventLedger.Commits.Durable.{Fails}
use argus_redline.HubEventLedger.Commits.Records.{commit_metadata-After}
use argus_redline.HubEventLedger.Unique.{IsUnique}
use argus_redline.HubEventLedger.Invariant.{
  HasOrdinals, IsLedger, IsHeld, IsKept, All-IsBelow, metadata_medium-IsKept,
}
use argus_redline.HubEventLedger.Operations.{
  reserve, take_ordinal, allocate_ordinal, next_metadata, set_block,
}

next_metadata-IsMetadata :
    (m : HubMetadata)
    → IsMetadata m
    → ltb 0xffffffdf m.next_unreserved_admission_ordinal ≡ false
    → IsMetadata (next_metadata m)
next_metadata-IsMetadata m v e =
    let word = v.ordinal_word in
    record {
      generation_word = omega arith;
      ordinal_word = omega arith;
      ordinal_nonzero = λ z. absurd (ground arith);
    }

module _ (storage : Storage) (honest : IsHonest storage) (s : Machine storage)
    (ledger : IsLedger s.ledger) where
  -- The ordinal that was given out lies above all before it, and the next ones lie above it.
  abbrev pub IsGiven : ℕ → Machine storage → Type 0
  IsGiven n t =
      (t.ledger.slots ≡ s.ledger.slots)
      × IsLedger t.ledger
      × (0 < n)
      × IsU32 n
      × (s.ledger.next_volatile_ordinal ≤ n)
      × (n < t.ledger.next_volatile_ordinal)

  abbrev pub IsLost : Machine storage → Type 0
  IsLost t = IsKept s.ledger t.ledger

  -- A block with at least one ordinal left.
  record IsOpen (l : Ledger) : Type 0 where
    same : l.slots ≡ s.ledger.slots
    unique : IsUnique l.slots
    storable : All IsHeld l.slots
    ordinals : HasOrdinals l
    left : l.next_volatile_ordinal < l.volatile_end_exclusive
    later : s.ledger.next_volatile_ordinal ≤ l.next_volatile_ordinal

  take_ordinal-After :
      (t : Machine storage) → IsOpen t.ledger → After IsGiven IsLost (take_ordinal storage t)
  unfolding take_ordinal
  take_ordinal-After t h =
      let word = h.ordinals.metadata.ordinal_word in
      let within = h.ordinals.within in
      let reserved = h.ordinals.reserved in
      let positive = h.ordinals.positive h.left in
      let left = h.left in
      let next : u32 (t.ledger.next_volatile_ordinal + 1) ≡ t.ledger.next_volatile_ordinal + 1 =
        omega arith in
      (
        h.same,
        record {
          unique = h.unique;
          storable = h.storable;
          ordinals = λ r. record {
            metadata = h.ordinals.metadata;
            positive = λ l. omega arith;
            within = omega arith;
            reserved = reserved;
            below =
                All-IsBelow t.ledger.next_volatile_ordinal
                  (u32 (t.ledger.next_volatile_ordinal + 1)) t.ledger.slots (omega arith)
                  h.ordinals.below;
          };
        },
        positive,
        omega arith,
        h.later,
        omega arith,
      )

  -- The next block, once its reservation is committed.
  next_block-IsOpen :
      HasOrdinals s.ledger
      → ltb 0xffffffdf s.ledger.metadata.next_unreserved_admission_ordinal ≡ false
      → IsOpen (
          set_block s.ledger.metadata.next_unreserved_admission_ordinal (
            put_metadata
              (next_metadata s.ledger.metadata)
              (opposite s.ledger.metadata_copy)
              s.ledger))
  next_block-IsOpen h e =
      let v = next_metadata-IsMetadata s.ledger.metadata h.metadata e in
      let start = s.ledger.metadata.next_unreserved_admission_ordinal in
      let nonzero = h.metadata.ordinal_nonzero in
      let positive : 0 < start = ground arith in
      let within = h.within in
      let reserved = h.reserved in
      let bound : start ≤ 0xffffffdf = ground arith in
      record {
        same = refl;
        unique = ledger.unique;
        storable = ledger.storable;
        ordinals = record {
          metadata = v;
          positive = λ l. omega arith;
          within = omega arith;
          reserved = omega arith;
          below =
              All-IsBelow s.ledger.next_volatile_ordinal start s.ledger.slots (omega arith) h.below;
        };
        left = omega arith;
        later = omega arith;
      }

  reserve-After : HasOrdinals s.ledger → After (λ u t. IsOpen t.ledger) IsLost (reserve storage s)
  unfolding reserve
  reserve-After h =
      let m = s.ledger.metadata in
      let target = opposite s.ledger.metadata_copy in
      let Stored = λ (u : Unit {0}) (t : Machine storage).
        t.ledger ≡ put_metadata (next_metadata m) target s.ledger in
      let open_after = λ (u : Unit {0}) (t : Machine storage). IsOpen t.ledger in
      After-if open_after IsLost (ltb 0xffffffdf m.next_unreserved_admission_ordinal) _ _
        (λ e.
          (refl, record { unique = ledger.unique; storable = ledger.storable; ordinals = λ r. cc }))
        λ e.
          After-bind Stored open_after IsLost (commit_metadata storage (next_metadata m) target) _ s
            (After-weaken Stored (λ t. Fails (metadata_medium storage) s.ledger t.ledger) IsLost
              (commit_metadata storage (next_metadata m) target s)
              (commit_metadata-After storage honest (next_metadata m) target s
                (next_metadata-IsMetadata m h.metadata e))
              λ t f. metadata_medium-IsKept storage s.ledger ledger t.ledger f)
            λ u t p.
              subst (λ (x : Ledger). IsOpen (set_block m.next_unreserved_admission_ordinal x))
                (sym p) (next_block-IsOpen h e)

  pub allocate_ordinal-After :
      s.ledger.ordinal_ready ≡ true → After IsGiven IsLost (allocate_ordinal storage s)
  unfolding allocate_ordinal
  allocate_ordinal-After ready =
      let h = ledger.ordinals ready in
      let within = h.within in
      let full = s.ledger.next_volatile_ordinal == s.ledger.volatile_end_exclusive in
      After-if IsGiven IsLost (not s.ledger.ordinal_ready) _ _ (λ e. ground arith)
        λ _.
          After-if IsGiven IsLost full _ _
            (λ e.
              After-bind (λ u t. IsOpen t.ledger) IsGiven IsLost (reserve storage)
                (λ _. take_ordinal storage) s (reserve-After h) λ u t p. take_ordinal-After t p)
            λ e. take_ordinal-After s (record {
              same = refl;
              unique = ledger.unique;
              storable = ledger.storable;
              ordinals = h;
              left = ground arith;
              later = omega arith;
            })
