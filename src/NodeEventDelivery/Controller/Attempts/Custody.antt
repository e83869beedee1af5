-- ===== src/NodeEventDelivery/Controller/Attempts/Custody.antt =====
-- What the steps that the methods of the class Controller share make of the slots of the store, in
-- lib/node_event_delivery/src/node_event_delivery.h.
use argus_redline.Base.{
  ℕ, ◌+◌, ◌≡◌, refl, subst, Bool, true, false, Option, none, some, List, if◌then◌else◌, ltb, leb,
}
use argus_redline.EventRecords.NodeRecord.{NodeRecord, NodeState, max_attempts}
use argus_redline.RuntimeState.{set_hub_unavailable}
use argus_redline.NodeEventStore.{MutationStatus, SlotState}
use argus_redline.NodeEventStore.Commits
use argus_redline.NodeEventStore.Interface.{Storage}
use argus_redline.NodeEventStore.Operations
use argus_redline.NodeEventStore.Operations.Transitions.{mark_failed_call, run}
use argus_redline.NodeEventStore.Operations.Life.{Kind, ending, HasMoved}
use argus_redline.NodeEventStore.Operations.Routes.{
  Any, Route, stay, Route-trans, Route-step, only, run-May,
}
use argus_redline.NodeEventDelivery.Policy
use argus_redline.NodeEventDelivery.Policy.Custody.{Serves, service-IsMoving}
use argus_redline.NodeEventDelivery.Controller.{
  RuntimeState, ControllerStatus, ControllerResult, Sources, receive_result, is_state, backoff_base,
  has_state, clear_attempt, set_state, max_backoff_jitter_milliseconds,
}
use argus_redline.NodeEventDelivery.Controller.Attempts.{
  Machine, Handler, change, put_node, put_world, report, answer, current, degrade, settled,
  mark_failed, after_lifetime, service_lifetime, unless_expired, schedule, retry, failed_attempt,
}

module _ (storage : Storage) (sources : Sources storage) where
  abbrev pub slots_of : Machine storage sources → List SlotState
  slots_of s = s.policy.node.store.slots

module _ (storage : Storage) (sources : Sources storage) (May : Kind → ℕ → Type 0) where
  -- A method that moves the slots along routes only.
  pub record IsMoving (h : Handler storage sources) : Type 0 where
    pub path :
        (s : Machine storage sources)
        → Route May (slots_of storage sources s) (slots_of storage sources (h s).1)

  pub Route-if :
      {A : Type 0} (b : Bool) (s : Machine storage sources) (x y : A × Machine storage sources)
      → (b ≡ true → Route May (slots_of storage sources s) (slots_of storage sources x.1))
      → (b ≡ false → Route May (slots_of storage sources s) (slots_of storage sources y.1))
      → Route May (slots_of storage sources s) (slots_of storage sources (if b then x else y).1)
  Route-if true s x y h k = h refl
  Route-if false s x y h k = k refl

  pub IsMoving-if :
      (test : Machine storage sources → Bool) (x y : Handler storage sources)
      → IsMoving x
      → IsMoving y
      → IsMoving (λ s. if test s then x s else y s)
  IsMoving-if test x y h k = record { path = λ s. go (test s) s }
    where
      go :
          (b : Bool) (s : Machine storage sources)
          → Route May
              (slots_of storage sources s)
              (slots_of storage sources (if b then x s else y s).1)
      go true s = h.path s
      go false s = k.path s

  -- A method after a change that leaves the slots alone.
  pub IsMoving-after :
      (k : Handler storage sources) (f : Machine storage sources → Machine storage sources)
      → ((s : Machine storage sources)
          → slots_of storage sources (f s) ≡ slots_of storage sources s)
      → IsMoving k
      → IsMoving (λ s. k (f s))
  IsMoving-after k f same h = record {
    path = λ s.
        subst (λ x. Route May x (slots_of storage sources (k (f s)).1)) (same s) (h.path (f s));
  }

  pub settled-Route :
      (q : MutationStatus × Commits.Machine storage) (k : Handler storage sources)
      (s : Machine storage sources)
      → HasMoved Any May (slots_of storage sources s) q.1.store.slots
      → IsMoving k
      → Route May
          (slots_of storage sources s)
          (slots_of storage sources (settled storage sources q k s).1)
  settled-Route (MutationStatus.ok, node) k s h m =
      Route-trans May (slots_of storage sources s) node.store.slots _
        (Route-step May (slots_of storage sources s) node.store.slots h)
        (m.path (put_node storage sources node s))
  settled-Route (MutationStatus.storage_failure, node) k s h m =
      Route-step May (slots_of storage sources s) node.store.slots h
  settled-Route (MutationStatus.invalid_slot, node) k s h m =
      Route-step May (slots_of storage sources s) node.store.slots h
  settled-Route (MutationStatus.invalid_transition, node) k s h m =
      Route-step May (slots_of storage sources s) node.store.slots h
  settled-Route (MutationStatus.degraded, node) k s h m =
      Route-step May (slots_of storage sources s) node.store.slots h

  pub answer-IsMoving : (r : ControllerResult) → IsMoving (answer storage sources r)
  answer-IsMoving r = record { path = λ s. stay }

  pub degrade-IsMoving : (status : ControllerStatus) → IsMoving (degrade storage sources status)
  degrade-IsMoving status = record { path = λ s. stay }

module _ (storage : Storage) (sources : Sources storage) (May : Kind → ℕ → Type 0)
    (serves : Serves May) where
  -- What follows the service of the time and the test for an expiry runs with the control unchanged.
  pub service_lifetime-Route :
      (now : ℕ) (k : Handler storage sources) (s : Machine storage sources)
      → ((policy : Policy.Machine storage)
          → Route May policy.node.store.slots
              (slots_of storage sources (k (record s { policy = policy })).1))
      → Route May (slots_of storage sources s) (
          slots_of storage sources
            (service_lifetime storage sources now (unless_expired storage sources k) s).1)
  unfolding service_lifetime after_lifetime
  service_lifetime-Route now k s h =
      go (Policy.service storage now s.policy)
        ((service-IsMoving storage May serves now).path s.policy)
    where
      run :
          (t : Machine storage sources) (b c : Bool)
          → Route May (slots_of storage sources t) (slots_of storage sources (k t).1)
          → Route May
              (slots_of storage sources t)
              (slots_of storage sources (if c then (receive_result, t) else k t).1)
      run t b true p = stay
      run t b false p = p

      choose :
          (t : Machine storage sources) (b : Bool)
          → Route May (slots_of storage sources t) (slots_of storage sources (k t).1)
          → Route May (slots_of storage sources t) (
              slots_of storage sources
                (unless_expired storage sources k (
                  if b
                  then change storage sources
                      (λ c. clear_attempt (set_state RuntimeState.expired c))
                      t
                  else t)).1)
      choose t true p = stay
      choose t false p = run t true (is_state t.control.state RuntimeState.expired) p

      go :
          (q : Option (Unit {0}) × Policy.Machine storage)
          → Route May (slots_of storage sources s) q.1.node.store.slots
          → Route May (slots_of storage sources s) (
              slots_of storage sources
                (after_lifetime storage sources (unless_expired storage sources k) q s).1)
      go (none, policy) p = p
      go (some u, policy) p =
          let t : Machine storage sources = record s { policy = policy } in
          Route-trans May (slots_of storage sources s) policy.node.store.slots _ p
            (choose t (has_state NodeState.expired (current storage sources t)) (h policy))

  pub mark_failed-IsMoving :
      (k : Handler storage sources)
      → IsMoving storage sources May k
      → IsMoving storage sources May (mark_failed storage sources k)
  unfolding mark_failed run
  mark_failed-IsMoving k h = record {
    path = λ s.
        settled-Route storage sources May
          (Operations.mark_failed storage s.control.active_slot s.policy.node)
          (λ t. k (change storage sources (λ c. clear_attempt (set_state RuntimeState.failed c)) t))
          s
          (run-May May storage (mark_failed_call s.control.active_slot) s.policy.node
            (only May ending s.control.active_slot (serves.ends s.control.active_slot)))
          (IsMoving-after storage sources May k
            (change storage sources (λ c. clear_attempt (set_state RuntimeState.failed c)))
            (λ t. refl) h);
  }

  schedule-IsMoving :
      (now attempts : ℕ) → IsMoving storage sources May (schedule storage sources now attempts)
  unfolding schedule
  schedule-IsMoving now attempts = record {
    path = λ s. go s (sources.next_milliseconds s.policy.node.world);
  }
    where
      go :
          (s : Machine storage sources) (q : ℕ × storage.device.World)
          → Route May (slots_of storage sources s) (
              slots_of storage sources
                (if ltb max_backoff_jitter_milliseconds q.0
                  then degrade storage sources ControllerStatus.invalid_configuration
                      (put_world storage sources q.1 s)
                  else (
                    receive_result,
                    change storage sources
                        (λ c. record c {
                          deadline_origin = now;
                          deadline_duration = backoff_base attempts + q.0;
                          state = RuntimeState.backoff;
                        })
                        (put_world storage sources q.1 s),
                  )).1)
      go s (jitter, world) = choose (ltb max_backoff_jitter_milliseconds jitter)
        where
          choose :
              (b : Bool)
              → Route May (slots_of storage sources s) (
                  slots_of storage sources
                    (if b
                      then degrade storage sources ControllerStatus.invalid_configuration
                          (put_world storage sources world s)
                      else (
                        receive_result,
                        change storage sources
                            (λ c. record c {
                              deadline_origin = now;
                              deadline_duration = backoff_base attempts + jitter;
                              state = RuntimeState.backoff;
                            })
                            (put_world storage sources world s),
                      )).1)
          choose true = stay
          choose false = stay

  retry-IsMoving :
      (now : ℕ) (r : Option NodeRecord) → IsMoving storage sources May (retry storage sources now r)
  unfolding retry
  retry-IsMoving now none =
      mark_failed-IsMoving (answer storage sources receive_result)
        (answer-IsMoving storage sources May receive_result)
  retry-IsMoving now (some r) =
      IsMoving-if storage sources May (λ s. leb max_attempts r.attempts_used) _ _
        (mark_failed-IsMoving (answer storage sources receive_result)
          (answer-IsMoving storage sources May receive_result))
        (schedule-IsMoving now r.attempts_used)

  pub failed_attempt-IsMoving :
      (now : ℕ) (evidence : Bool)
      → IsMoving storage sources May (failed_attempt storage sources now evidence)
  unfolding failed_attempt
  failed_attempt-IsMoving now true = record {
    path = λ s.
        let t = report storage sources (set_hub_unavailable true) s in
        (retry-IsMoving now (current storage sources t)).path t;
  }
  failed_attempt-IsMoving now false = record {
    path = λ s. (retry-IsMoving now (current storage sources s)).path s;
  }
