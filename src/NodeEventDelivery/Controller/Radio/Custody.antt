-- ===== src/NodeEventDelivery/Controller/Radio/Custody.antt =====
-- What the methods around a transmission of the class Controller of
-- lib/node_event_delivery/src/node_event_delivery.h make of the slots of the store.
use argus_redline.Base.{ℕ, ◌≡◌, arith, refl, true, false, not, ◌&&◌, ◌||◌, Option, none, some, List}
use argus_redline.EventProtocol.{
  AdmissionResponse, AdmissionStatus, encode_event, decode_admission_response, matches_event,
}
use argus_redline.NodeEventStore.Interface.{Storage}
use argus_redline.NodeEventStore.Operations
use argus_redline.NodeEventStore.Operations.Transitions.{release_call, reclaim_call, run}
use argus_redline.NodeEventStore.Operations.Routes.{Route, stay, Route-trans, only, run-May}
use argus_redline.NodeEventDelivery.Policy
use argus_redline.NodeEventDelivery.Policy.{AttemptResult}
use argus_redline.NodeEventDelivery.Policy.Custody.{Serves, arm_attempt-IsMoving}
use argus_redline.NodeEventDelivery.Controller.{
  RuntimeState, ControllerStatus, Sources, result, receive_result, is_state, set_state, event_of,
  packet_capacity,
}
use argus_redline.NodeEventDelivery.Controller.Attempts.{
  Machine, Handler, change, put_world, answer, current, usable, head_still_authoritative,
  service_lifetime, failed_attempt, unless_expired,
}
use argus_redline.NodeEventDelivery.Controller.Attempts.Custody.{
  slots_of, IsMoving, IsMoving-if, settled-Route, mark_failed-IsMoving, failed_attempt-IsMoving,
  service_lifetime-Route, Route-if, answer-IsMoving,
}
use argus_redline.NodeEventDelivery.Controller.Radio.{
  encoded, record_of, send, after_arm, arm, grant_transmit, while_in, tx_started, tx_start_failed,
  await_admission, tx_completed, admit, admit_response, admission_candidate, reclaim_terminal,
}
use argus_redline.NodeEventDelivery.Controller.Radio
use argus_redline.NodeEventDelivery.Controller.Radio.Admission.{IsAdmission, state_of_code}
use argus_redline.NodeEventStore.Operations.Life.{Kind, arming, release, reclamation}

module _ (storage : Storage) (sources : Sources storage) (May : Kind → ℕ → Type 0)
    (serves : Serves May) where
  encoded-IsMoving :
      (bytes : Option (List ℕ)) → IsMoving storage sources May (encoded storage sources bytes)
  encoded-IsMoving none = record { path = λ s. stay }
  encoded-IsMoving (some bytes) = record { path = λ s. stay }

  send-IsMoving :
      (sequence : Option ℕ) → IsMoving storage sources May (send storage sources sequence)
  unfolding send
  send-IsMoving none = record { path = λ s. stay }
  send-IsMoving (some sequence) = record {
    path = λ s.
        let e =
          event_of s.control sequence (record_of storage sources (current storage sources s)) in
        (encoded-IsMoving (encode_event e (some packet_capacity))).path
          (change storage sources (λ c. record c { attempt_event = e }) s);
  }

  reclaimed-Route :
      (q : AttemptResult × Policy.Machine storage) (s : Machine storage sources)
      → Route May q.1.node.store.slots (slots_of storage sources (after_arm storage sources q s).1)
  unfolding after_arm
  reclaimed-Route (AttemptResult.armed, policy) s =
      let t : Machine storage sources = record s { policy = policy } in
      let (sequence, world) = sources.next_sequence t.policy.node.world in
      (send-IsMoving sequence).path (put_world storage sources world t)
  reclaimed-Route (AttemptResult.exhausted, policy) s =
      (mark_failed-IsMoving storage sources May serves (answer storage sources receive_result)
          (answer-IsMoving storage sources May receive_result)).path
        (record s { policy = policy })
  reclaimed-Route (AttemptResult.expired, policy) s = stay
  reclaimed-Route (AttemptResult.not_queued, policy) s = stay
  reclaimed-Route (AttemptResult.invalid_slot, policy) s = stay
  reclaimed-Route (AttemptResult.storage_failure, policy) s = stay
  reclaimed-Route (AttemptResult.degraded, policy) s = stay

  arm-Route :
      (now : ℕ) (s : Machine storage sources)
      → May arming s.control.active_slot
      → Route May
          (slots_of storage sources s)
          (slots_of storage sources (arm storage sources now s).1)
  unfolding arm
  arm-Route now s may =
      Route-if storage sources May (not (head_still_authoritative storage sources s)) s _ _
        (λ e. stay)
        λ e.
          Route-trans May (slots_of storage sources s) _ _
            ((arm_attempt-IsMoving storage May serves s.control.active_slot now may).path s.policy)
            (reclaimed-Route (Policy.arm_attempt storage s.control.active_slot now s.policy) s)

  -- An attempt is armed only for the active Event, and only if the controller was ready.
  pub grant_transmit-Route :
      (now : ℕ) (s : Machine storage sources)
      → (s.control.active ≡ true
          → is_state s.control.state RuntimeState.ready ≡ true
          → May arming s.control.active_slot)
      → Route May
          (slots_of storage sources s)
          (slots_of storage sources (grant_transmit storage sources now s).1)
  unfolding grant_transmit
  grant_transmit-Route now s h =
      Route-if storage sources May (not (usable storage sources s)) s _ _ (λ e. stay)
        λ e.
          Route-if storage sources May
            (not (s.control.active && is_state s.control.state RuntimeState.ready)) s _ _
            (λ f. stay)
            λ f.
              let t = change storage sources (set_state RuntimeState.tx_prepare) s in
              service_lifetime-Route storage sources May serves now (arm storage sources now) t
                λ policy.
                  arm-Route now (record t { policy = policy }) (h (ground arith) (ground arith))

  -- The methods that go on in one state after the time has been served.
  while_in-IsMoving :
      (state : RuntimeState) (now : ℕ) (k : Handler storage sources)
      → IsMoving storage sources May k
      → IsMoving storage sources May (
          while_in storage sources state
            (service_lifetime storage sources now (unless_expired storage sources k)))
  while_in-IsMoving state now k h =
      IsMoving-if storage sources May
        (λ s. not (usable storage sources s && is_state s.control.state state)) _ _
        (answer-IsMoving storage sources May (result ControllerStatus.invalid_state))
        (record {
          path = λ s.
              service_lifetime-Route storage sources May serves now k s
                λ policy. h.path (record s { policy = policy });
        })

  pub tx_started-IsMoving :
      (now : ℕ) → IsMoving storage sources May (tx_started storage sources now)
  unfolding tx_started
  tx_started-IsMoving now =
      while_in-IsMoving RuntimeState.tx now (answer storage sources (result ControllerStatus.ok))
        (answer-IsMoving storage sources May (result ControllerStatus.ok))

  pub tx_start_failed-IsMoving :
      (now : ℕ) → IsMoving storage sources May (tx_start_failed storage sources now)
  unfolding tx_start_failed
  tx_start_failed-IsMoving now =
      while_in-IsMoving RuntimeState.tx now (failed_attempt storage sources now false)
        (failed_attempt-IsMoving storage sources May serves now false)

  pub tx_completed-IsMoving :
      (now : ℕ) → IsMoving storage sources May (tx_completed storage sources now)
  unfolding tx_completed
  tx_completed-IsMoving now =
      while_in-IsMoving RuntimeState.tx now (await_admission storage sources now)
        (record { path = λ s. stay })

  release-Route :
      (s : Machine storage sources)
      → May release s.control.active_slot
      → Route May
          (slots_of storage sources s)
          (slots_of storage sources (Radio.release storage sources s).1)
  unfolding Radio.release run
  release-Route s may =
      settled-Route storage sources May
        (Operations.release_queued storage s.control.active_slot s.policy.node) _ s
        (run-May May storage (release_call s.control.active_slot) s.policy.node
          (only May release s.control.active_slot may))
        (record { path = λ t. stay })

  admit-Route :
      (now : ℕ) (status : AdmissionStatus) (s : Machine storage sources)
      → (status ≡ AdmissionStatus.admitted → May release s.control.active_slot)
      → Route May
          (slots_of storage sources s)
          (slots_of storage sources (admit storage sources now status s).1)
  unfolding admit
  admit-Route now AdmissionStatus.admitted s h = release-Route s (h refl)
  admit-Route now AdmissionStatus.capacity s h =
      (failed_attempt-IsMoving storage sources May serves now true).path s
  admit-Route now AdmissionStatus.identity_content_mismatch s h =
      (mark_failed-IsMoving storage sources May serves (answer storage sources receive_result)
          (answer-IsMoving storage sources May receive_result)).path
        s
  admit-Route now AdmissionStatus.unsupported_event s h =
      (mark_failed-IsMoving storage sources May serves (answer storage sources receive_result)
          (answer-IsMoving storage sources May receive_result)).path
        s
  admit-Route now AdmissionStatus.malformed_event s h =
      (mark_failed-IsMoving storage sources May serves (answer storage sources receive_result)
          (answer-IsMoving storage sources May receive_result)).path
        s

  admit_response-Route :
      (now : ℕ) (o : Option AdmissionResponse) (s : Machine storage sources)
      → ((r : AdmissionResponse)
          → o ≡ some r
          → (s.control.correlation_valid && matches_event r s.control.attempt_event) ≡ true
          → r.status ≡ AdmissionStatus.admitted
          → May release s.control.active_slot)
      → Route May
          (slots_of storage sources s)
          (slots_of storage sources (admit_response storage sources now o s).1)
  unfolding admit_response
  admit_response-Route now none s h = stay
  admit_response-Route now (some response) s h =
      Route-if storage sources May
        (not (s.control.correlation_valid && matches_event response s.control.attempt_event)) s _ _
        (λ e. stay) λ e. admit-Route now response.status s (h response refl (ground arith))

  -- An Event is released only by an answer that admits it.
  pub admission_candidate-Route :
      (bytes : Option (List ℕ)) (now : ℕ) (s : Machine storage sources)
      → (IsAdmission bytes s → May release s.control.active_slot)
      → Route May
          (slots_of storage sources s)
          (slots_of storage sources (admission_candidate storage sources bytes now s).1)
  unfolding admission_candidate
  admission_candidate-Route bytes now s h =
      Route-if storage sources May
        (not (usable storage sources s && is_state s.control.state RuntimeState.wait_admission)) s _
        _ (λ e. stay)
        λ e.
          service_lifetime-Route storage sources May serves now
            (admit_response storage sources now (decode_admission_response bytes)) s
            λ policy.
              admit_response-Route now (decode_admission_response bytes)
                (record s { policy = policy })
                λ r decoded matched admitted. h (record {
                  response = r;
                  decoded = decoded;
                  waiting = state_of_code s.control.state (ground arith);
                  correlated = ground (arith, matched);
                  matching = ground (arith, matched);
                  admitted = admitted;
                })

module _ (storage : Storage) (sources : Sources storage) (May : Kind → ℕ → Type 0) where
  -- Reclamation needs an Event that has ended.
  pub reclaim_terminal-Route :
      (s : Machine storage sources)
      → (s.control.active ≡ true
          → (is_state s.control.state RuntimeState.failed
              || is_state s.control.state RuntimeState.expired)
            ≡ true
          → May reclamation s.control.active_slot)
      → Route May
          (slots_of storage sources s)
          (slots_of storage sources (reclaim_terminal storage sources s).1)
  unfolding reclaim_terminal run
  reclaim_terminal-Route s h =
      Route-if storage sources May
        (not (
          usable storage sources s
          && (s.control.active
              && (is_state s.control.state RuntimeState.failed
                  || is_state s.control.state RuntimeState.expired))))
        s _ _ (λ e. stay)
        λ e.
          settled-Route storage sources May
            (Operations.reclaim storage s.control.active_slot s.policy.node) _ s
            (run-May May storage (reclaim_call s.control.active_slot) s.policy.node
              (only May reclamation s.control.active_slot (h (ground arith) (ground arith))))
            (record { path = λ t. stay })
