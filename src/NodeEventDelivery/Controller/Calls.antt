-- ===== src/NodeEventDelivery/Controller/Calls.antt =====
-- What a call of a method of the class Controller of lib/node_event_delivery/src/node_event_delivery.h, or of
-- reclaimTerminals, may do to the Events of the store.
use argus_redline.Base.{ℕ, ◌≡◌, ◌||◌, refl, Bool, true, false, Option, List}
use argus_redline.NodeEventStore.Interface.{Storage}
use argus_redline.NodeEventStore.Operations.Life.{
  Kind, ending, ageing, arming, release, reclamation,
}
use argus_redline.NodeEventStore.Operations.Routes.{Route}
use argus_redline.NodeEventDelivery.Controller.{Sources, RuntimeState, is_state}
use argus_redline.NodeEventDelivery.Controller.Attempts.{Machine}
use argus_redline.NodeEventDelivery.Policy.Custody.{Serves}
use argus_redline.NodeEventDelivery.Controller.Radio.Admission.{IsAdmission}
use argus_redline.NodeEventDelivery.Controller.Service.{recover, track_enqueued, service}
use argus_redline.NodeEventDelivery.Controller.Service.Custody.{
  recover-IsMoving, track_enqueued-IsMoving, service-IsMoving,
}
use argus_redline.NodeEventDelivery.Controller.Radio.{
  grant_transmit, tx_started, tx_start_failed, tx_completed, admission_candidate, reclaim_terminal,
}
use argus_redline.NodeEventDelivery.Controller.Radio.Custody.{
  grant_transmit-Route, tx_started-IsMoving, tx_start_failed-IsMoving, tx_completed-IsMoving,
  admission_candidate-Route, reclaim_terminal-Route,
}
use argus_redline.NodeEventDelivery.Reclamation.{reclaim_terminals}
use argus_redline.NodeEventDelivery.Reclamation.Custody.{reclaim_terminals-Route}

pub data Call : Type 0 where
  recover_call : ℕ → ℕ → ℕ → Call
  track_enqueued_call : ℕ → ℕ → Call
  service_call : ℕ → Bool → Call
  grant_transmit_call tx_started_call tx_start_failed_call tx_completed_call : ℕ → Call
  admission_call : Option (List ℕ) → ℕ → Call
  reclaim_call : Call
  reclaim_terminals_call : Bool → Call

-- The methods that charge the time that has passed to the Events.
abbrev pub serves_time : Call → Bool
serves_time (track_enqueued_call slot now) = false
serves_time reclaim_call = false
serves_time (reclaim_terminals_call controller) = false
serves_time (recover_call source hub now) = true
serves_time (service_call now work) = true
serves_time (grant_transmit_call now) = true
serves_time (tx_started_call now) = true
serves_time (tx_start_failed_call now) = true
serves_time (tx_completed_call now) = true
serves_time (admission_call bytes now) = true

module _ (storage : Storage) (sources : Sources storage) where
  pub run : Call → Machine storage sources → Machine storage sources
  run (recover_call source hub now) s = (recover storage sources source hub now s).1
  run (track_enqueued_call slot now) s = (track_enqueued storage sources slot now s).1
  run (service_call now work) s = (service storage sources now work s).1
  run (grant_transmit_call now) s = (grant_transmit storage sources now s).1
  run (tx_started_call now) s = (tx_started storage sources now s).1
  run (tx_start_failed_call now) s = (tx_start_failed storage sources now s).1
  run (tx_completed_call now) s = (tx_completed storage sources now s).1
  run (admission_call bytes now) s = (admission_candidate storage sources bytes now s).1
  run reclaim_call s = (reclaim_terminal storage sources s).1
  run (reclaim_terminals_call controller) s = (reclaim_terminals storage sources controller s).1

  -- What a call may do, from the state that it meets: serve the time of any slot, in the methods that do so;
  -- arm the active Event if the controller is ready; release the active Event for the Hub's answer that it is
  -- admitted; and free the slots of Events that have ended.
  pub data Allowed (s : Machine storage sources) : Call → Kind → ℕ → Type 0 where
    ages : (call : Call) (slot : ℕ) → serves_time call ≡ true → Allowed s call ageing slot
    ends : (call : Call) (slot : ℕ) → serves_time call ≡ true → Allowed s call ending slot
    arms :
        (now : ℕ)
        → s.control.active ≡ true
        → is_state s.control.state RuntimeState.ready ≡ true
        → Allowed s (grant_transmit_call now) arming s.control.active_slot
    releases :
        (bytes : Option (List ℕ)) (now : ℕ)
        → IsAdmission bytes s
        → Allowed s (admission_call bytes now) release s.control.active_slot
    reclaims :
        s.control.active ≡ true
        → (is_state s.control.state RuntimeState.failed
            || is_state s.control.state RuntimeState.expired)
          ≡ true
        → Allowed s reclaim_call reclamation s.control.active_slot
    collects :
        (controller : Bool) (slot : ℕ)
        → Allowed s (reclaim_terminals_call controller) reclamation slot

  Allowed-Serves :
      (call : Call) (s : Machine storage sources)
      → serves_time call ≡ true
      → Serves (Allowed s call)
  Allowed-Serves call s h = record {
    ages = λ slot. ages call slot h;
    ends = λ slot. ends call slot h;
  }

  -- Whatever storage, clock, sequences and jitter answer, a call of a method of the controller or of
  -- reclaimTerminals changes the slots of the store only by moves of single slots along the life of an
  -- Event, and only by these: Events are aged and ended only by the methods that serve the time;
  -- an attempt is armed only by grantTransmit, for the active Event, when the controller was ready; an Event
  -- is released only by admissionCandidate, the active one, when the controller was waiting and the bytes
  -- decode to a response that matches the Event of the attempt and says ADMITTED; a slot is freed otherwise
  -- only by reclaimTerminal, the active one in state FAILED or EXPIRED, or by reclaimTerminals.
  pub run-Route :
      (call : Call) (s : Machine storage sources)
      → Route (Allowed s call) s.policy.node.store.slots (run call s).policy.node.store.slots
  unfolding run
  run-Route (recover_call source hub now) s =
      (recover-IsMoving storage sources (Allowed s (recover_call source hub now))
          (Allowed-Serves (recover_call source hub now) s refl) source hub now).path
        s
  run-Route (track_enqueued_call slot now) s =
      (track_enqueued-IsMoving storage sources (Allowed s (track_enqueued_call slot now)) slot
          now).path
        s
  run-Route (service_call now work) s =
      (service-IsMoving storage sources (Allowed s (service_call now work))
          (Allowed-Serves (service_call now work) s refl) now work).path
        s
  run-Route (grant_transmit_call now) s =
      grant_transmit-Route storage sources (Allowed s (grant_transmit_call now))
        (Allowed-Serves (grant_transmit_call now) s refl) now s (λ a r. arms now a r)
  run-Route (tx_started_call now) s =
      (tx_started-IsMoving storage sources (Allowed s (tx_started_call now))
          (Allowed-Serves (tx_started_call now) s refl) now).path
        s
  run-Route (tx_start_failed_call now) s =
      (tx_start_failed-IsMoving storage sources (Allowed s (tx_start_failed_call now))
          (Allowed-Serves (tx_start_failed_call now) s refl) now).path
        s
  run-Route (tx_completed_call now) s =
      (tx_completed-IsMoving storage sources (Allowed s (tx_completed_call now))
          (Allowed-Serves (tx_completed_call now) s refl) now).path
        s
  run-Route (admission_call bytes now) s =
      admission_candidate-Route storage sources (Allowed s (admission_call bytes now))
        (Allowed-Serves (admission_call bytes now) s refl) bytes now s (λ a. releases bytes now a)
  run-Route reclaim_call s =
      reclaim_terminal-Route storage sources (Allowed s reclaim_call) s (λ a r. reclaims a r)
  run-Route (reclaim_terminals_call controller) s =
      reclaim_terminals-Route storage sources (Allowed s (reclaim_terminals_call controller))
        (λ slot. collects controller slot) controller s
