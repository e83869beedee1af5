-- ===== src/EventIdentity/Allocate.antt =====
-- The identities that a ready allocator hands out: below the high water of its metadata, never twice
-- and in increasing order.
use argus_redline.Base.{
  ℕ, ◌+◌, ◌-◌, ◌*◌, ◌^◌, ◌<◌, ◌≤◌, ◌≡◌, ◌≢◌, refl, sym, subst, ap, ◌∙◌, arith, List, [], ◌∷◌, zero,
  suc, true, false, Bool-cases, inl, inr, ◌⊎◌, ◌==◌, ltb, if◌then◌else◌,
}
use argus_redline.Base.Words.{u32}
use argus_redline.EventProtocol.{Identity}
use argus_redline.EventRecords.NodeMetadata.{NodeMetadata, IsMetadata}
use argus_redline.EventIdentity.Interface.{Device}
use argus_redline.EventIdentity.{
  Machine, Allocator, AllocationResult, Attempt, Status, done, failed, modify, adopt,
  commit_metadata, target_slot, allocate, allocate_ready, hand_out, after_reservation,
  reserve_block, next_block, block_start, set_block, is_failure, no_identity, ready, is_exhausted,
  uint32_max,
}
use argus_redline.EventIdentity.Commit.{After, After-bind, failed_with, commit_metadata-After}

-- The order of identities: by epoch, then by identifier.
abbrev pub place : Identity → ℕ
place i = i.epoch * 2 ^ 32 + i.id

-- Identities from here on are not promised to any block.
abbrev pub high_water : NodeMetadata → ℕ
high_water m = m.event_epoch * 2 ^ 32 + m.next_unreserved_event_id

-- The next identity is not before this place.
abbrev pub position : Allocator → ℕ
position c = c.metadata.event_epoch * 2 ^ 32 + c.next_volatile_id

-- A ready allocator: its metadata is fit to be stored, and its block ends at or before the high water.
pub record IsReady (c : Allocator) : Type 0 where
  pub metadata : IsMetadata c.metadata
  pub front : 1 ≤ c.next_volatile_id
  pub block : c.next_volatile_id ≤ c.volatile_end_exclusive
  pub reserved : c.volatile_end_exclusive ≤ c.metadata.next_unreserved_event_id
  pub flag : c.is_ready ≡ true

next_epoch_bound :
    (m : NodeMetadata)
    → IsMetadata m
    → ltb (uint32_max - 32) m.next_unreserved_event_id ≡ true
    → is_exhausted m ≡ false
    → u32 (m.event_epoch + 1) ≢ 0
next_epoch_bound m v e h = ground arith

unreserved_bound :
    (m : NodeMetadata)
    → ltb (uint32_max - 32) m.next_unreserved_event_id ≡ false
    → u32 (m.next_unreserved_event_id + 32) < 2 ^ 32
unreserved_bound m e = omega arith

unreserved_nonzero :
    (m : NodeMetadata)
    → ltb (uint32_max - 32) m.next_unreserved_event_id ≡ false
    → u32 (m.next_unreserved_event_id + 32) ≢ 0
unreserved_nonzero m e = ground arith

next_block-IsMetadata :
    (m : NodeMetadata) → IsMetadata m → is_exhausted m ≡ false → IsMetadata (next_block m)
next_block-IsMetadata m v h = elim (Bool-cases (ltb (uint32_max - 32) m.next_unreserved_event_id)) [
  | inl e ↦ rw e (record {
    generation_word = omega arith;
    source_byte = v.source_byte;
    epoch_word = omega arith;
    next_word = omega arith;
    source_nonzero = v.source_nonzero;
    epoch_nonzero = next_epoch_bound m v e h;
    next_nonzero = omega arith;
  })
  | inr e ↦ rw e (record {
    generation_word = omega arith;
    source_byte = v.source_byte;
    epoch_word = v.epoch_word;
    next_word = unreserved_bound m e;
    source_nonzero = v.source_nonzero;
    epoch_nonzero = v.epoch_nonzero;
    next_nonzero = unreserved_nonzero m e;
  })
]

-- The block that is reserved starts at or after the old high water.
block_start-high_water :
    (m : NodeMetadata)
    → IsMetadata m
    → is_exhausted m ≡ false
    → (high_water m ≤ (next_block m).event_epoch * 2 ^ 32 + block_start m)
      × (1 ≤ block_start m)
      × (block_start m + 32 ≡ (next_block m).next_unreserved_event_id)
block_start-high_water m v h = ground arith

module _ (device : Device) where
  open device use {World}

  -- A reservation keeps the allocator ready and moves it to a fresh block, or fails.
  abbrev Reserved : Allocator → Allocator → Type 0
  Reserved c d =
      IsReady d
      × (position c ≤ position d)
      × (d.next_volatile_id < d.volatile_end_exclusive)
      × (d.source_device_id ≡ c.source_device_id)

  abbrev Stopped : Allocator → Status → Machine device → Type 0
  Stopped c e t = (t.allocator ≡ failed_with e c) × (is_failure e ≡ true)

  block_ready :
      (c : Allocator) (target : _)
      → IsReady c
      → is_exhausted c.metadata ≡ false
      → Reserved c
          (set_block (block_start c.metadata) (adopt device (next_block c.metadata) target c))
  unfolding adopt
  block_ready c target i h =
      let v = next_block-IsMetadata c.metadata i.metadata h in
      let (high, start, end) = block_start-high_water c.metadata i.metadata h in
      (
        record {
          metadata = v;
          front = start;
          block = omega arith;
          reserved = omega arith;
          flag = refl;
        },
        omega arith,
        omega arith,
        refl,
      )

  reserve_block-After :
      (s : Machine device)
      → IsReady s.allocator
      → After device
          (λ u t. Reserved s.allocator t.allocator)
          (Stopped s.allocator)
          (reserve_block device s)
  unfolding reserve_block
  reserve_block-After s i = elim (Bool-cases (is_exhausted s.allocator.metadata)) [
    | inl e ↦ rw e (refl, refl)
    | inr e ↦ rw e (
        After-bind device
          (λ u t.
            t.allocator
            ≡ adopt device (next_block s.allocator.metadata) (target_slot device s.allocator)
                s.allocator)
          (λ u t. Reserved s.allocator t.allocator) (Stopped s.allocator)
          (commit_metadata device (next_block s.allocator.metadata))
          (λ u. modify device (set_block (block_start s.allocator.metadata))) s
          (commit_metadata-After device (next_block s.allocator.metadata) s
            (next_block-IsMetadata _ i.metadata e))
          λ u t p.
            subst (λ d. Reserved s.allocator (set_block (block_start s.allocator.metadata) d))
              (sym p) (block_ready s.allocator (target_slot device s.allocator) i e))
  ]

-- An identity was handed out: not before the allocator's position, and below the high water of the
-- metadata that it then holds; the allocator is past it and still ready.
pub record Allocated (c : Allocator) (r : AllocationResult) (d : Allocator) : Type 0 where
  pub status : r.status ≡ ready
  pub next : IsReady d
  pub later : position c ≤ place r.identity
  pub passed : place r.identity < position d
  pub committed : place r.identity < high_water d.metadata
  pub source : r.identity.source_device_id ≡ c.source_device_id
  pub same_source : d.source_device_id ≡ c.source_device_id

-- No identity was handed out: the allocator has stopped with the status that the caller sees.
pub record Refused (c : Allocator) (r : AllocationResult) (d : Allocator) : Type 0 where
  pub status : is_failure r.status ≡ true
  pub stopped : d ≡ failed_with r.status c

module _ (device : Device) where
  hand_out_lem :
      (c : Allocator) (s : Machine device)
      → IsReady s.allocator
      → position c ≤ position s.allocator
      → s.allocator.next_volatile_id < s.allocator.volatile_end_exclusive
      → s.allocator.source_device_id ≡ c.source_device_id
      → let (r, t) = hand_out device s in Allocated c r t.allocator
  unfolding hand_out
  hand_out_lem c s i p l q = record {
    status = refl;
    next = record {
      metadata = i.metadata;
      front = omega arith;
      block = omega arith;
      reserved = i.reserved;
      flag = i.flag;
    };
    later = p;
    passed = omega arith;
    committed = omega arith;
    source = q;
    same_source = q;
  }

  after_reservation_lem :
      (c : Allocator) (r : Attempt (Unit {0}) × Machine device)
      → After device (λ u t. Reserved device c t.allocator) (Stopped device c) r
      → let (q, t) = after_reservation device r in
        Allocated c q t.allocator ⊎ Refused c q t.allocator
  unfolding after_reservation
  after_reservation_lem c (done u, t) (i, p, l, q) = inl (hand_out_lem c t i p l q)
  after_reservation_lem c (failed e, t) (h, f) = inr (record { status = f; stopped = h })

  pub allocate-ready :
      (s : Machine device)
      → s.allocator.is_ready ≡ true
      → allocate device s ≡ allocate_ready device s
  unfolding allocate
  allocate-ready s h = ground (arith, h)

  allocate_ready_after :
      (s : Machine device)
      → IsReady s.allocator
      → let (r, t) = allocate_ready device s in
        Allocated s.allocator r t.allocator ⊎ Refused s.allocator r t.allocator
  unfolding allocate_ready
  allocate_ready_after s i =
      elim (Bool-cases (s.allocator.next_volatile_id == s.allocator.volatile_end_exclusive)) [
        | inl e ↦ rw e (after_reservation_lem s.allocator _ (reserve_block-After device s i))
        | inr e ↦ rw e (inl (hand_out_lem s.allocator s i (omega arith) (ground arith) refl))
      ]

  -- A ready allocator hands out an identity not before its position and below the high water of its
  -- metadata, or it stops with a failure; a failed reservation changes nothing else.
  pub allocate_after :
      (s : Machine device)
      → IsReady s.allocator
      → let (r, t) = allocate device s in
        Allocated s.allocator r t.allocator ⊎ Refused s.allocator r t.allocator
  allocate_after s i =
      subst
        (λ (r : AllocationResult × Machine device).
          Allocated s.allocator r.0 r.1.allocator ⊎ Refused s.allocator r.0 r.1.allocator)
        (sym (allocate-ready s i.flag)) (allocate_ready_after s i)

  -- The identities that the next `n` calls of `allocate` hand out.
  pub handed_out : ℕ → Machine device → List Identity
  handed_out zero s = []
  handed_out (suc n) s =
      let (r, t) = allocate device s in
      let rest = handed_out n t in if is_failure r.status then rest else r.identity ∷ rest

-- Identities in strictly increasing order, the first at `low` or later.
pub Increasing : ℕ → List Identity → Type 0
Increasing low [] = Unit {0}
Increasing low (i ∷ is) = (low ≤ place i) × Increasing (place i + 1) is

pub Increasing-weaken :
    (low high : ℕ) (is : List Identity) → low ≤ high → Increasing high is → Increasing low is
unfolding Increasing
Increasing-weaken low high [] h i = tt
Increasing-weaken low high (x ∷ is) h (i, j) = (omega arith, j)

step : {m n : ℕ} → m < n → m + 1 ≤ n
step h = omega arith

module _ (device : Device) where
  allocate-stopped :
      (s : Machine device)
      → s.allocator.is_ready ≡ false
      → allocate device s ≡ (record { status = s.allocator.status; identity = no_identity }, s)
  unfolding allocate
  allocate-stopped s h = ground (arith, h)

  -- A stopped allocator hands out nothing more.
  stopped_hands_out_nothing :
      (n : ℕ) (s : Machine device)
      → s.allocator.is_ready ≡ false
      → is_failure s.allocator.status ≡ true
      → handed_out device n s ≡ []
  unfolding handed_out allocate
  stopped_hands_out_nothing zero s h f = refl
  stopped_hands_out_nothing (suc n) s h f =
      rw (allocate-stopped s h, f) (stopped_hands_out_nothing n s h f)

  -- From a ready allocator, the identities of any number of calls are strictly increasing in epoch and
  -- identifier, none of them before the allocator's position: no identity is handed out twice.
  pub handed_out-Increasing :
      (n : ℕ) (s : Machine device)
      → IsReady s.allocator
      → Increasing (position s.allocator) (handed_out device n s)
  unfolding handed_out Increasing
  handed_out-Increasing zero s i = tt
  handed_out-Increasing (suc n) s i = elim (allocate_after device s i) [
    | inl a ↦ rw (ap is_failure a.status) (
      a.later,
      Increasing-weaken (place (allocate device s).0.identity + 1)
          (position (allocate device s).1.allocator) _ (step a.passed)
          (handed_out-Increasing n _ a.next),
    )
    | inr f ↦
        rw
          (
            f.status,
            stopped_hands_out_nothing n (allocate device s).1
                (ap (λ (c : Allocator). c.is_ready) f.stopped)
                (ap (λ (c : Allocator). is_failure c.status) f.stopped ∙ f.status),
          )
          tt
  ]
