-- ===== src/NodeEventDelivery/Policy.antt =====
-- The class Policy of lib/node_event_delivery/src/node_event_delivery.h.
pub mod Custody
pub mod Turns
use argus_redline.Base.{
  ℕ, zero, suc, ◌+◌, ◌-◌, ◌*◌, ◌/◌, ◌^◌, ◌%◌, Bool, true, false, not, ◌&&◌, ◌||◌, Option, none,
  some, List, ltb, leb, if◌then◌else◌, replicate, get_or, set,
}
use argus_redline.Base.Words.{sub_u32}
use argus_redline.Base.Methods.{Method, ◌>>=◌, ◌>>◌, return, stop, modify}
use argus_redline.EventRecords.NodeRecord.{NodeRecord, NodeState, same_state}
use argus_redline.NodeEventStore.{
  MutationStatus, AttemptStatus, node_event_capacity, is_queued, record_at,
}
use argus_redline.NodeEventStore.Commits
use argus_redline.NodeEventStore.Interface.{Storage}
use argus_redline.NodeEventStore.Operations

abbrev pub checkpoint_seconds : ℕ
checkpoint_seconds = 60

abbrev pub checkpoint_milliseconds : ℕ
checkpoint_milliseconds = 60000

pub data Status : Type 0 where
  ready store_degraded debit_failure checkpoint_failure expiry_failure invalid_slot not_queued :
      Status

pub data AttemptResult : Type 0 where
  armed exhausted expired not_queued invalid_slot storage_failure degraded : AttemptResult

pub record SlotRuntime : Type 0 where
  pub tracked : Bool
  pub baseline_milliseconds : ℕ
  pub uncommitted_milliseconds : ℕ

pub record Policy : Type 0 where
  pub runtime : List SlotRuntime
  pub is_ready : Bool
  pub status : Status

abbrev pub untracked : SlotRuntime
untracked = record { tracked = false; baseline_milliseconds = 0; uncommitted_milliseconds = 0 }

abbrev pub reset : Policy
reset = record { runtime = replicate 8 untracked; is_ready = false; status = Status.store_degraded }

-- A slot that is followed from now on.
abbrev pub tracked_from : ℕ → SlotRuntime
tracked_from now = record {
  tracked = true;
  baseline_milliseconds = now;
  uncommitted_milliseconds = 0;
}

abbrev pub is_mutated : MutationStatus → Bool
is_mutated MutationStatus.ok = true
is_mutated _ = false

abbrev pub queued_only : Option NodeRecord → Option NodeRecord
queued_only none = none
queued_only (some r) = if is_queued r then some r else none

abbrev pub runtime_at : ℕ → Policy → SlotRuntime
runtime_at slot p = get_or p.runtime slot untracked

abbrev pub put_runtime : ℕ → SlotRuntime → Policy → Policy
put_runtime slot t p = record p { runtime = set p.runtime slot t }

abbrev pub failed : Status → Policy → Policy
failed e p = record p { is_ready = false; status = e }

module _ (storage : Storage) where
  pub record Machine : Type 0 where
    pub policy : Policy
    pub node : Commits.Machine storage

  abbrev pub change : (Policy → Policy) → Machine → Machine
  change f s = record s { policy = f s.policy }

  abbrev pub fail : {A : Type 0} → Status → Method Machine A
  fail e = stop (change (failed e))

  -- The record of a slot that is queued.
  abbrev pub queued_at : ℕ → Machine → Option NodeRecord
  queued_at slot s = queued_only (record_at slot s.node.store)

  -- A change of the store that must succeed.
  pub mutate :
      Status
      → (Commits.Machine storage → MutationStatus × Commits.Machine storage)
      → Method Machine (Unit {0})
  mutate e f s =
      let (r, node) = f s.node in
      (if is_mutated r then return tt else fail e) (record s { node = node })

  -- What a restart costs an Event, however short it was.
  pub debit : ℕ → Option NodeRecord → Method Machine (Unit {0})
  unfolding mutate
  debit slot none = return tt
  debit slot (some r) = mutate Status.debit_failure (
      if leb r.remaining_active_seconds checkpoint_seconds
      then Operations.mark_expired storage slot
      else Operations.checkpoint_remaining storage slot
          (r.remaining_active_seconds - checkpoint_seconds))

  -- The loops over the slots that are left, from the given one.
  pub debit_slots : ℕ → ℕ → Method Machine (Unit {0})
  unfolding debit
  debit_slots zero slot = return tt
  debit_slots (suc n) slot = do (λ s. debit slot (queued_at slot s) s); debit_slots n (slot + 1)

  abbrev track_queued : ℕ → ℕ → Option NodeRecord → Policy → Policy
  track_queued slot now none p = p
  track_queued slot now (some r) p = put_runtime slot (tracked_from now) p

  pub initialize_tracked_slots : ℕ → ℕ → ℕ → Machine → Machine
  initialize_tracked_slots zero slot now s = s
  initialize_tracked_slots (suc n) slot now s =
      initialize_tracked_slots n (slot + 1) now
        (change (track_queued slot now (queued_at slot s)) s)

  pub recover_slots : ℕ → Method Machine (Unit {0})
  unfolding debit_slots initialize_tracked_slots
  recover_slots now = do
    debit_slots 8 0
    modify (λ s.
        change (λ p. record p { is_ready = true; status = Status.ready })
          (initialize_tracked_slots 8 0 now s))

  -- The status that `recover` returns is the one of the policy afterwards.
  pub recover : ℕ → Machine → Machine
  unfolding recover_slots
  recover now s =
      let t = change (λ p. reset) s in
      (if not t.node.store.healthy then fail Status.store_degraded t else recover_slots now t).1

  abbrev pub is_working : Machine → Bool
  is_working s = s.policy.is_ready && s.node.store.healthy

  abbrev pub track : ℕ → ℕ → Option NodeRecord → Machine → Status × Machine
  track slot now none s = (Status.not_queued, s)
  track slot now (some r) s = (Status.ready, change (put_runtime slot (tracked_from now)) s)

  pub track_enqueued : ℕ → ℕ → Machine → Status × Machine
  track_enqueued slot now s =
      if not (is_working s)
      then (Status.store_degraded, change (failed Status.store_degraded) s)
      else if leb node_event_capacity slot
      then (Status.invalid_slot, s)
      else track slot now (queued_at slot s) s

  -- A checkpoint of one minute is taken from the time that is not committed yet.
  abbrev pub commit_minute : ℕ → Policy → Policy
  commit_minute slot p =
      put_runtime slot
        (record (runtime_at slot p) {
          uncommitted_milliseconds =
              (runtime_at slot p).uncommitted_milliseconds - checkpoint_milliseconds;
        })
        p

  -- One turn of the inner loop of `service`; the result says whether there is another.
  pub settle : ℕ → Option NodeRecord → Method Machine Bool
  unfolding mutate
  settle slot none s = (do modify (change (put_runtime slot untracked)); return false) s
  settle slot (some r) s =
      let uncommitted = (runtime_at slot s.policy).uncommitted_milliseconds in
      if ltb checkpoint_seconds r.remaining_active_seconds
        && leb checkpoint_milliseconds uncommitted
      then (do
        mutate Status.checkpoint_failure (
            Operations.checkpoint_remaining storage slot
              (r.remaining_active_seconds - checkpoint_seconds))
        modify (change (commit_minute slot))
        return true)
          s
      else if leb (r.remaining_active_seconds * 1000) uncommitted
      then (do
        mutate Status.expiry_failure (Operations.mark_expired storage slot)
        modify (change (put_runtime slot untracked))
        return false)
          s
      else return false s

  -- The inner loop, of at most so many turns; the result says whether it came to its own end, or else ran out
  -- of turns. Every turn but the last commits a minute.
  pub settle_all : ℕ → ℕ → Method Machine Bool
  unfolding settle
  settle_all zero slot = return false
  settle_all (suc n) slot = do
    again ← (λ s. settle slot (queued_at slot s) s)
    if again then settle_all n slot else return true

  abbrev pub turns : ℕ → Machine → ℕ
  turns slot s = suc ((runtime_at slot s.policy).uncommitted_milliseconds / checkpoint_milliseconds)

  abbrev pub charge : ℕ → SlotRuntime → SlotRuntime
  charge now t = record t {
    baseline_milliseconds = now;
    uncommitted_milliseconds =
        (t.uncommitted_milliseconds + sub_u32 now t.baseline_milliseconds) % 2 ^ 64;
  }

  pub service_record : ℕ → ℕ → Option NodeRecord → Method Machine (Unit {0})
  unfolding settle_all
  service_record slot now none s = modify (change (put_runtime slot untracked)) s
  service_record slot now (some r) s =
      let t = runtime_at slot s.policy in
      let charged = change (put_runtime slot (charge now t)) s in
      if not t.tracked
      then modify (change (put_runtime slot (tracked_from now))) s
      else (settle_all (turns slot charged) slot >>= λ finished. return tt) charged

  pub service_slots : ℕ → ℕ → ℕ → Method Machine (Unit {0})
  unfolding service_record
  service_slots zero slot now = return tt
  service_slots (suc n) slot now = do
    (λ s. service_record slot now (queued_at slot s) s)
    service_slots n (slot + 1) now

  -- `none` is the status of the policy afterwards, `some` is READY.
  pub service : ℕ → Method Machine (Unit {0})
  unfolding service_slots
  service now s =
      if not (is_working s) then fail Status.store_degraded s else service_slots 8 0 now s

  abbrev remaining : SlotRuntime → Option NodeRecord → ℕ
  remaining t none = 0
  remaining t (some r) =
      if t.tracked then r.remaining_active_seconds - t.uncommitted_milliseconds / 1000 else 0

  pub effective_remaining_seconds : ℕ → Machine → ℕ
  effective_remaining_seconds slot s =
      if not s.policy.is_ready || leb node_event_capacity slot
      then 0
      else remaining (runtime_at slot s.policy) (queued_at slot s)

  abbrev has_time : SlotRuntime → Option NodeRecord → Bool
  has_time t none = false
  has_time t (some r) = ltb t.uncommitted_milliseconds (r.remaining_active_seconds * 1000)

  pub eligible : ℕ → Machine → Bool
  eligible slot s =
      if not (is_working s)
        || (leb node_event_capacity slot || not (runtime_at slot s.policy).tracked)
      then false
      else has_time (runtime_at slot s.policy) (queued_at slot s)

  pub after_store : AttemptStatus × Commits.Machine storage → Machine → AttemptResult × Machine
  after_store (AttemptStatus.armed, node) s = (AttemptResult.armed, record s { node = node })
  after_store (AttemptStatus.exhausted, node) s =
      (AttemptResult.exhausted, record s { node = node })
  after_store (AttemptStatus.invalid_slot, node) s =
      (AttemptResult.invalid_slot, record s { node = node })
  after_store (AttemptStatus.not_queued, node) s =
      (AttemptResult.not_queued, record s { node = node })
  after_store (AttemptStatus.storage_failure, node) s = (
    AttemptResult.storage_failure,
    change (failed Status.store_degraded) (record s { node = node }),
  )
  after_store (AttemptStatus.degraded, node) s =
      (AttemptResult.degraded, change (failed Status.store_degraded) (record s { node = node }))

  pub arm_record : ℕ → Option NodeRecord → Machine → AttemptResult × Machine
  unfolding after_store eligible
  arm_record slot none s = (AttemptResult.expired, s)
  arm_record slot (some r) s =
      if same_state r.state NodeState.expired
      then (AttemptResult.expired, s)
      else if not (is_queued r)
      then (AttemptResult.not_queued, s)
      else if not (eligible slot s)
      then (AttemptResult.expired, s)
      else after_store (Operations.arm_attempt storage slot s.node) s

  abbrev pub after_service : ℕ → Option (Unit {0}) × Machine → AttemptResult × Machine
  after_service slot (none, s) = (AttemptResult.storage_failure, s)
  after_service slot (some u, s) =
      if leb node_event_capacity slot
      then (AttemptResult.invalid_slot, s)
      else arm_record slot (record_at slot s.node.store) s

  pub arm_attempt : ℕ → ℕ → Machine → AttemptResult × Machine
  unfolding service arm_record
  arm_attempt slot now s =
      if not s.policy.is_ready
      then (AttemptResult.degraded, s)
      else after_service slot (service now s)
