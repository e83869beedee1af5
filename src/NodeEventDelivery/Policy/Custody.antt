-- ===== src/NodeEventDelivery/Policy/Custody.antt =====
-- What the methods of the class Policy of lib/node_event_delivery/src/node_event_delivery.h make of the
-- slots of the store.
use argus_redline.Base.{
  inl, inr, Bool-cases, subst, sym, ℕ, zero, suc, ◌+◌, ◌-◌, ◌*◌, ◌&&◌, not, ◌≡◌, refl, Bool, true,
  false, Option, none, some, if◌then◌else◌, ltb, leb,
}
use argus_redline.Base.Methods.{Method, ◌>>=◌, return, continue, modify}
use argus_redline.EventRecords.NodeRecord.{NodeRecord, NodeState, same_state}
use argus_redline.NodeEventStore.{MutationStatus, AttemptStatus, is_queued, record_at}
use argus_redline.NodeEventStore.Commits
use argus_redline.NodeEventStore.Interface.{Storage}
use argus_redline.NodeEventStore.Operations
use argus_redline.NodeEventStore.Operations.Transitions.{
  mark_expired_call, checkpoint_call, arm_call, run,
}
use argus_redline.NodeEventStore.Operations.Life.{Kind, ending, ageing, arming, HasMoved}
use argus_redline.NodeEventStore.Operations.Routes.{
  Any, Route, stay, Route-trans, Route-step, only, run-May,
}
use argus_redline.NodeEventDelivery.Policy.{
  Policy, Status, AttemptResult, Machine, eligible, fail, change, reset, untracked, tracked_from,
  put_runtime, is_mutated, mutate, debit, debit_slots, recover_slots, recover,
  initialize_tracked_slots, commit_minute, track, track_enqueued, settle, settle_all,
  service_record, service_slots, service, runtime_at, turns, charge, queued_at, is_working,
  after_store, arm_record, after_service, arm_attempt, checkpoint_seconds, checkpoint_milliseconds,
}

-- Serving the time may age and end the Event of any slot.
pub record Serves (May : Kind → ℕ → Type 0) : Type 0 where
  pub ages : (slot : ℕ) → May ageing slot
  pub ends : (slot : ℕ) → May ending slot

module _ (storage : Storage) where
  pub track_enqueued-slots :
      (slot now : ℕ) (s : Machine storage)
      → (track_enqueued storage slot now s).1.node.store.slots ≡ s.node.store.slots
  unfolding track_enqueued
  track_enqueued-slots slot now s = elim (Bool-cases (not (is_working storage s))) [
    | inl e ↦ rw (e) refl
    | inr e ↦ rw (e) (elim (Bool-cases (leb 8 slot)) [
      | inl f ↦ rw (f) refl
      | inr f ↦ rw (f) (go (queued_at storage slot s))
    ])
  ]
    where
      go :
          (r : Option NodeRecord)
          → (track storage slot now r s).1.node.store.slots ≡ s.node.store.slots
      go none = refl
      go (some r) = refl

module _ (storage : Storage) (May : Kind → ℕ → Type 0) (serves : Serves May) where
  -- A method that moves the slots along routes only.
  pub record IsMoving {A : Type 0} (m : Machine storage → A × Machine storage) : Type 0 where
    pub path : (s : Machine storage) → Route May s.node.store.slots (m s).1.node.store.slots

  IsMoving-bind :
      {A B : Type 0} (m : Method (Machine storage) A) (f : A → Method (Machine storage) B)
      → IsMoving m
      → ((x : A) → IsMoving (f x))
      → IsMoving (m >>= f)
  IsMoving-bind {A} {B} m f h k = record {
    path = λ s. Route-trans May s.node.store.slots (m s).1.node.store.slots _ (h.path s) (go (m s));
  }
    where
      go :
          (q : Option A × Machine storage)
          → Route May q.1.node.store.slots (continue q.0 f q.1).1.node.store.slots
      go (some x, t) = (k x).path t
      go (none, t) = stay

  IsMoving-if :
      {A : Type 0} (test : Machine storage → Bool) (x y : Machine storage → A × Machine storage)
      → IsMoving x
      → IsMoving y
      → IsMoving (λ s. if test s then x s else y s)
  IsMoving-if {A} test x y h k = record { path = λ s. go (test s) s }
    where
      go :
          (b : Bool) (s : Machine storage)
          → Route May s.node.store.slots (if b then x s else y s).1.node.store.slots
      go true s = h.path s
      go false s = k.path s

  -- What changes no slot.
  IsMoving-still :
      {A : Type 0} (x : A) (f : Policy → Policy) → IsMoving (λ s. (x, change storage f s))
  IsMoving-still x f = record { path = λ s. stay }

  mutate-IsMoving :
      (e : Status) (f : Commits.Machine storage → MutationStatus × Commits.Machine storage)
      → ((node : Commits.Machine storage)
          → HasMoved Any May node.store.slots (f node).1.store.slots)
      → IsMoving (mutate storage e f)
  unfolding mutate
  mutate-IsMoving e f h = record { path = λ s. go s (f s.node) (h s.node) }
    where
      go :
          (s : Machine storage) (q : MutationStatus × Commits.Machine storage)
          → HasMoved Any May s.node.store.slots q.1.store.slots
          → Route May s.node.store.slots
              ((if is_mutated q.0 then return tt else fail storage e)
                (record s { node = q.1 })).1.node.store.slots
      go s (MutationStatus.ok, node) h = Route-step May s.node.store.slots node.store.slots h
      go s (MutationStatus.storage_failure, node) h =
          Route-step May s.node.store.slots node.store.slots h
      go s (MutationStatus.invalid_slot, node) h =
          Route-step May s.node.store.slots node.store.slots h
      go s (MutationStatus.invalid_transition, node) h =
          Route-step May s.node.store.slots node.store.slots h
      go s (MutationStatus.degraded, node) h = Route-step May s.node.store.slots node.store.slots h

  checkpoint-IsMoving :
      (e : Status) (slot remaining : ℕ)
      → IsMoving (mutate storage e (Operations.checkpoint_remaining storage slot remaining))
  unfolding run
  checkpoint-IsMoving e slot remaining =
      mutate-IsMoving e (Operations.checkpoint_remaining storage slot remaining) λ node.
        run-May May storage (checkpoint_call slot remaining) node
          (only May ageing slot (serves.ages slot))

  expire-IsMoving :
      (e : Status) (slot : ℕ) → IsMoving (mutate storage e (Operations.mark_expired storage slot))
  unfolding run
  expire-IsMoving e slot = mutate-IsMoving e (Operations.mark_expired storage slot) λ node.
      run-May May storage (mark_expired_call slot) node (only May ending slot (serves.ends slot))

  return-IsMoving : {A : Type 0} (x : A) → IsMoving (return x)
  return-IsMoving x = record { path = λ s. stay }

  modify-IsMoving : (f : Policy → Policy) → IsMoving (modify (change storage f))
  modify-IsMoving f = record { path = λ s. stay }

  debit-IsMoving : (slot : ℕ) (r : Option NodeRecord) → IsMoving (debit storage slot r)
  unfolding debit
  debit-IsMoving slot none = return-IsMoving tt
  debit-IsMoving slot (some r) =
      elim (Bool-cases (leb r.remaining_active_seconds checkpoint_seconds)) [
        | inl e ↦ rw (e) (expire-IsMoving Status.debit_failure slot)
        | inr e ↦ rw (e) (
            checkpoint-IsMoving Status.debit_failure slot
              (r.remaining_active_seconds - checkpoint_seconds))
      ]

  debit_slots-IsMoving : (n slot : ℕ) → IsMoving (debit_slots storage n slot)
  unfolding debit_slots
  debit_slots-IsMoving zero slot = return-IsMoving tt
  debit_slots-IsMoving (suc n) slot =
      IsMoving-bind (λ s. debit storage slot (queued_at storage slot s) s)
        (λ _. debit_slots storage n (slot + 1))
        (record { path = λ s. (debit-IsMoving slot (queued_at storage slot s)).path s })
        λ _. debit_slots-IsMoving n (slot + 1)

  initialize_tracked_slots-slots :
      (n slot now : ℕ) (s : Machine storage)
      → (initialize_tracked_slots storage n slot now s).node.store.slots ≡ s.node.store.slots
  unfolding initialize_tracked_slots
  initialize_tracked_slots-slots zero slot now s = refl
  initialize_tracked_slots-slots (suc n) slot now s =
      initialize_tracked_slots-slots n (slot + 1) now _

  settle-IsMoving : (slot : ℕ) (r : Option NodeRecord) → IsMoving (settle storage slot r)
  unfolding settle
  settle-IsMoving slot none = record { path = λ s. stay }
  settle-IsMoving slot (some r) =
      IsMoving-if
        (λ s.
          ltb checkpoint_seconds r.remaining_active_seconds
          && leb checkpoint_milliseconds (runtime_at slot s.policy).uncommitted_milliseconds)
        _ _
        (IsMoving-bind
          (mutate storage Status.checkpoint_failure (
            Operations.checkpoint_remaining storage slot
              (r.remaining_active_seconds - checkpoint_seconds)))
          (λ _. modify (change storage (commit_minute storage slot)) >>= λ _. return true)
          (checkpoint-IsMoving Status.checkpoint_failure slot
            (r.remaining_active_seconds - checkpoint_seconds))
          λ _. record { path = λ s. stay })
        (IsMoving-if
          (λ s.
            leb (r.remaining_active_seconds * 1000)
              (runtime_at slot s.policy).uncommitted_milliseconds)
          _ _
          (IsMoving-bind
            (mutate storage Status.expiry_failure (Operations.mark_expired storage slot))
            (λ _. modify (change storage (put_runtime slot untracked)) >>= λ _. return false)
            (expire-IsMoving Status.expiry_failure slot) λ _. record { path = λ s. stay })
          (return-IsMoving false))

  settle_all-IsMoving : (n slot : ℕ) → IsMoving (settle_all storage n slot)
  unfolding settle_all
  settle_all-IsMoving zero slot = return-IsMoving false
  settle_all-IsMoving (suc n) slot =
      IsMoving-bind (λ s. settle storage slot (queued_at storage slot s) s)
        (λ again. if again then settle_all storage n slot else return true)
        (record { path = λ s. (settle-IsMoving slot (queued_at storage slot s)).path s })
        (go (settle_all-IsMoving n slot))
    where
      go :
          IsMoving (settle_all storage n slot)
          → (again : Bool) → IsMoving (if again then settle_all storage n slot else return true)
      go h true = h
      go h false = return-IsMoving true

  service_record-IsMoving :
      (slot now : ℕ) (r : Option NodeRecord) → IsMoving (service_record storage slot now r)
  unfolding service_record
  service_record-IsMoving slot now none = modify-IsMoving (put_runtime slot untracked)
  service_record-IsMoving slot now (some r) =
      IsMoving-if (λ s. not (runtime_at slot s.policy).tracked) _ _
        (modify-IsMoving (put_runtime slot (tracked_from now)))
        (record {
          path = λ s.
              let charged =
                change storage (put_runtime slot (charge storage now (runtime_at slot s.policy)))
                  s in
              (IsMoving-bind (settle_all storage (turns storage slot charged) slot)
                  (λ finished. return tt) (settle_all-IsMoving (turns storage slot charged) slot)
                  λ finished. return-IsMoving tt).path
                charged;
        })

  service_slots-IsMoving : (n slot now : ℕ) → IsMoving (service_slots storage n slot now)
  unfolding service_slots
  service_slots-IsMoving zero slot now = return-IsMoving tt
  service_slots-IsMoving (suc n) slot now =
      IsMoving-bind (λ s. service_record storage slot now (queued_at storage slot s) s)
        (λ _. service_slots storage n (slot + 1) now)
        (record {
          path = λ s. (service_record-IsMoving slot now (queued_at storage slot s)).path s;
        })
        λ _. service_slots-IsMoving n (slot + 1) now

  pub service-IsMoving : (now : ℕ) → IsMoving (service storage now)
  unfolding service
  service-IsMoving now =
      IsMoving-if (λ s. not (is_working storage s)) (fail storage Status.store_degraded) _
        (record { path = λ s. stay }) (service_slots-IsMoving 8 0 now)

  pub recover-Route :
      (now : ℕ) (s : Machine storage)
      → Route May s.node.store.slots (recover storage now s).node.store.slots
  unfolding recover recover_slots
  recover-Route now s =
      (IsMoving-if (λ t. not t.node.store.healthy) (fail storage Status.store_degraded)
          (recover_slots storage now) (record { path = λ s. stay })
          (IsMoving-bind (debit_slots storage 8 0) _ (debit_slots-IsMoving 8 0) λ _. record {
            path = λ t.
                subst (Route May t.node.store.slots)
                  (sym (initialize_tracked_slots-slots 8 0 now t)) stay;
          })).path
        (change storage (λ p. reset) s)

  after_store-slots :
      (q : AttemptStatus × Commits.Machine storage) (s : Machine storage)
      → (after_store storage q s).1.node.store.slots ≡ q.1.store.slots
  unfolding after_store
  after_store-slots (AttemptStatus.armed, node) s = refl
  after_store-slots (AttemptStatus.exhausted, node) s = refl
  after_store-slots (AttemptStatus.invalid_slot, node) s = refl
  after_store-slots (AttemptStatus.not_queued, node) s = refl
  after_store-slots (AttemptStatus.storage_failure, node) s = refl
  after_store-slots (AttemptStatus.degraded, node) s = refl

  arm_record-IsMoving :
      (slot : ℕ) (r : Option NodeRecord) → May arming slot → IsMoving (arm_record storage slot r)
  unfolding arm_record run
  arm_record-IsMoving slot none may = record { path = λ s. stay }
  arm_record-IsMoving slot (some r) may =
      IsMoving-if (λ s. same_state r.state NodeState.expired) _ _ (record { path = λ s. stay })
        (IsMoving-if (λ s. not (is_queued r)) _ _ (record { path = λ s. stay })
          (IsMoving-if (λ s. not (eligible storage slot s)) _ _ (record { path = λ s. stay })
            (record {
              path = λ s.
                  subst (Route May s.node.store.slots)
                    (sym (after_store-slots (Operations.arm_attempt storage slot s.node) s))
                    (Route-step May s.node.store.slots _
                      (run-May May storage (arm_call slot) s.node (only May arming slot may)));
            })))

  after_service-Route :
      (slot : ℕ) (q : Option (Unit {0}) × Machine storage)
      → May arming slot
      → Route May q.1.node.store.slots (after_service storage slot q).1.node.store.slots
  after_service-Route slot (none, t) may = stay
  after_service-Route slot (some u, t) may =
      (IsMoving-if (λ t. leb 8 slot) (λ t. (AttemptResult.invalid_slot, t))
          (λ t. arm_record storage slot (record_at slot t.node.store) t)
          (record { path = λ s. stay })
          (record {
            path = λ t. (arm_record-IsMoving slot (record_at slot t.node.store) may).path t;
          })).path
        t

  pub arm_attempt-IsMoving :
      (slot now : ℕ) → May arming slot → IsMoving (arm_attempt storage slot now)
  unfolding arm_attempt
  arm_attempt-IsMoving slot now may =
      IsMoving-if (λ s. not s.policy.is_ready) _ _ (record { path = λ s. stay })
        (record {
          path = λ s.
              Route-trans May s.node.store.slots (service storage now s).1.node.store.slots _
                ((service-IsMoving now).path s)
                (after_service-Route slot (service storage now s) may);
        })
