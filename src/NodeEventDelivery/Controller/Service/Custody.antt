-- ===== src/NodeEventDelivery/Controller/Service/Custody.antt =====
-- What recovery and `service` of the class Controller of lib/node_event_delivery/src/node_event_delivery.h
-- make of the slots of the store.
use argus_redline.Base.{
  ℕ, ◌≡◌, refl, subst, sym, Bool, true, false, not, ◌&&◌, if◌then◌else◌, leb, inl, inr, Bool-cases,
}
use argus_redline.Base.Words.{sub_u32}
use argus_redline.EventProtocol.{has_valid_endpoints}
use argus_redline.EventRecords.NodeRecord.{max_attempts}
use argus_redline.NodeEventStore.Interface.{Storage}
use argus_redline.NodeEventStore.Operations.Routes.{Route, stay, Route-trans}
use argus_redline.NodeEventDelivery.Policy
use argus_redline.NodeEventDelivery.Policy.{Status}
use argus_redline.NodeEventDelivery.Policy.Custody.{Serves, recover-Route, track_enqueued-slots}
use argus_redline.NodeEventDelivery.Controller.{
  RuntimeState, ControllerStatus, ControllerResult, Sources, Control, is_state, result, reset,
  set_state, terminal, admission_timeout_milliseconds,
}
use argus_redline.NodeEventDelivery.Controller.Attempts.{
  Machine, change, answer, current, attempts_used, degrade_silently, usable, load_head, mark_failed,
}
use argus_redline.NodeEventDelivery.Controller.Attempts.Custody.{
  slots_of, IsMoving, IsMoving-if, IsMoving-after, mark_failed-IsMoving, failed_attempt-IsMoving,
  service_lifetime-Route, answer-IsMoving,
}
use argus_redline.NodeEventDelivery.Controller.Service.{
  active_result, after_policy, is_ready_status, recover, track_enqueued, service_state,
  after_release, service_active, service,
}
use argus_redline.NodeEventStore.Operations.Life.{Kind}

module _ (storage : Storage) (sources : Sources storage) (May : Kind → ℕ → Type 0) where
  pub track_enqueued-IsMoving :
      (slot now : ℕ) → IsMoving storage sources May (track_enqueued storage sources slot now)
  unfolding track_enqueued
  track_enqueued-IsMoving slot now =
      IsMoving-if storage sources May (λ s. not (usable storage sources s)) _ _
        (record { path = λ s. stay })
        (record {
          path = λ s.
              go s (Policy.track_enqueued storage slot now s.policy)
                (track_enqueued-slots storage slot now s.policy);
        })
    where
      go :
          (s : Machine storage sources) (q : Status × Policy.Machine storage)
          → q.1.node.store.slots ≡ slots_of storage sources s
          → Route May (slots_of storage sources s) (
              slots_of storage sources
                ((if is_ready_status storage sources q.0
                    then answer storage sources (result ControllerStatus.ok)
                    else degrade_silently storage sources ControllerStatus.policy_failure)
                  (record s { policy = q.1 })).1)
      go s (status, policy) same = choose (is_ready_status storage sources status)
        where
          choose :
              (b : Bool)
              → Route May (slots_of storage sources s) (
                  slots_of storage sources
                    ((if b
                        then answer storage sources (result ControllerStatus.ok)
                        else degrade_silently storage sources ControllerStatus.policy_failure)
                      (record s { policy = policy })).1)
          choose true = subst (Route May (slots_of storage sources s)) (sym same) stay
          choose false = subst (Route May (slots_of storage sources s)) (sym same) stay

module _ (storage : Storage) (sources : Sources storage) (May : Kind → ℕ → Type 0)
    (serves : Serves May) where
  -- A method that looks at the state but changes nothing, or the controller alone.
  still :
      (r : ControllerResult) (f : Control → Control)
      → IsMoving storage sources May (λ s. (r, change storage sources f s))
  still r f = record { path = λ s. stay }

  active_result-IsMoving : IsMoving storage sources May (active_result storage sources)
  active_result-IsMoving = record { path = λ s. stay }

  after_policy-IsMoving : IsMoving storage sources May (after_policy storage sources)
  unfolding after_policy
  after_policy-IsMoving =
      IsMoving-after storage sources May
        (λ t.
          if t.control.active
            && leb max_attempts (attempts_used storage sources (current storage sources t))
          then mark_failed storage sources (active_result storage sources) t
          else active_result storage sources t)
        (λ s.
          load_head storage sources
            (change storage sources (λ c. record c { initialized = true }) s))
        (λ s. refl)
        (IsMoving-if storage sources May
          (λ t.
            t.control.active
            && leb max_attempts (attempts_used storage sources (current storage sources t)))
          _ _
          (mark_failed-IsMoving storage sources May serves (active_result storage sources)
            active_result-IsMoving)
          active_result-IsMoving)

  pub recover-IsMoving :
      (source hub now : ℕ) → IsMoving storage sources May (recover storage sources source hub now)
  unfolding recover
  recover-IsMoving source hub now =
      IsMoving-if storage sources May (λ s. not (has_valid_endpoints source hub)) _ _
        (still (result ControllerStatus.invalid_configuration) (λ c. reset))
        (record {
          path = λ s.
              let policy = Policy.recover storage now s.policy in
              let t : Machine storage sources = record {
                control = record reset { source = source; destination = hub };
                policy = policy;
              } in
              Route-trans May (slots_of storage sources s) policy.node.store.slots _
                (recover-Route storage May serves now s.policy)
                (go t (is_ready_status storage sources policy.policy.status));
        })
    where
      go :
          (t : Machine storage sources) (b : Bool)
          → Route May (slots_of storage sources t) (
              slots_of storage sources
                (if b
                  then after_policy storage sources t
                  else degrade_silently storage sources ControllerStatus.policy_failure t).1)
      go t true = after_policy-IsMoving.path t
      go t false = stay

  service_state-IsMoving :
      (now : ℕ) (work : Bool) (state : RuntimeState)
      → IsMoving storage sources May (service_state storage sources now work state)
  unfolding service_state
  service_state-IsMoving now work RuntimeState.queued =
      IsMoving-if storage sources May
        (λ s. leb max_attempts (attempts_used storage sources (current storage sources s))) _ _
        (mark_failed-IsMoving storage sources May serves
          (answer storage sources (result ControllerStatus.ok))
          (answer-IsMoving storage sources May (result ControllerStatus.ok)))
        (IsMoving-if storage sources May (λ s. not work) _ _
          (still (result ControllerStatus.ok) (set_state RuntimeState.ready))
          (answer-IsMoving storage sources May (result ControllerStatus.ok)))
  service_state-IsMoving now true RuntimeState.ready = record { path = λ s. stay }
  service_state-IsMoving now false RuntimeState.ready = record { path = λ s. stay }
  service_state-IsMoving now work RuntimeState.wait_admission =
      IsMoving-if storage sources May
        (λ s. leb admission_timeout_milliseconds (sub_u32 now s.control.deadline_origin)) _ _
        (failed_attempt-IsMoving storage sources May serves now true)
        (answer-IsMoving storage sources May (result ControllerStatus.ok))
  service_state-IsMoving now work RuntimeState.backoff =
      IsMoving-if storage sources May
        (λ s. leb s.control.deadline_duration (sub_u32 now s.control.deadline_origin)) _ _
        (still (result ControllerStatus.ok)
          (set_state (if work then RuntimeState.queued else RuntimeState.ready)))
        (answer-IsMoving storage sources May (result ControllerStatus.ok))
  service_state-IsMoving now work RuntimeState.tx_prepare = record { path = λ s. stay }
  service_state-IsMoving now work RuntimeState.tx = record { path = λ s. stay }
  service_state-IsMoving now work RuntimeState.released = record { path = λ s. stay }
  service_state-IsMoving now work RuntimeState.failed = record { path = λ s. stay }
  service_state-IsMoving now work RuntimeState.expired = record { path = λ s. stay }

  service_active-IsMoving :
      (now : ℕ) (work : Bool)
      → IsMoving storage sources May (service_active storage sources now work)
  unfolding service_active
  service_active-IsMoving now work =
      IsMoving-if storage sources May (λ s. not s.control.active) _ _
        (answer-IsMoving storage sources May (result ControllerStatus.no_active_event))
        (record {
          path = λ s.
              service_lifetime-Route storage sources May serves now
                (λ t.
                  if terminal t.control.state
                  then (result ControllerStatus.ok, t)
                  else service_state storage sources now work t.control.state t)
                s
                λ policy.
                  (IsMoving-if storage sources May (λ t. terminal t.control.state)
                      (answer storage sources (result ControllerStatus.ok))
                      (λ t. service_state storage sources now work t.control.state t)
                      (answer-IsMoving storage sources May (result ControllerStatus.ok))
                      (record {
                        path = λ t. (service_state-IsMoving now work t.control.state).path t;
                      })).path
                    (record s { policy = policy });
        })

  load-slots :
      (t : Machine storage sources)
      → slots_of storage sources (if t.control.active then t else load_head storage sources t)
        ≡ slots_of storage sources t
  load-slots t = elim (Bool-cases t.control.active) [ inl e ↦ rw (e) refl | inr e ↦ rw (e) refl ]

  pub service-IsMoving :
      (now : ℕ) (work : Bool) → IsMoving storage sources May (service storage sources now work)
  unfolding service
  service-IsMoving now work =
      IsMoving-if storage sources May (λ s. not (usable storage sources s)) _ _
        (answer-IsMoving storage sources May (result ControllerStatus.degraded))
        (IsMoving-after storage sources May
          (λ t.
            service_active storage sources now work
              (if t.control.active then t else load_head storage sources t))
          (after_release storage sources) after_release-slots
          (IsMoving-after storage sources May (service_active storage sources now work)
            (λ t. if t.control.active then t else load_head storage sources t) load-slots
            (service_active-IsMoving now work)))
    where
      after_release-slots :
          (s : Machine storage sources)
          → slots_of storage sources (after_release storage sources s) ≡ slots_of storage sources s
      after_release-slots s = elim (Bool-cases (is_state s.control.state RuntimeState.released)) [
        | inl e ↦ rw (e) refl
        | inr e ↦ rw (e) refl
      ]
