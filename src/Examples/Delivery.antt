-- ===== src/Examples/Delivery.antt =====
-- The delivery of lib/node_event_delivery/src/node_event_delivery.h on a store in memory.
use argus_redline.EventProtocol.{
  Event, AdmissionStatus, make_admission_response, encode_admission_response,
}
use argus_redline.EventProtocol.Family
use argus_redline.NodeEventDelivery.Controller.{RuntimeState, is_state}
use argus_redline.NodeEventDelivery.Controller.Radio.{admission_candidate}
use argus_redline.NodeEventDelivery.Controller.Radio.Admission.{
  IsAdmission, admission_candidate-IsAdmission,
}
use argus_redline.Base.{Option, ◌⊎◌, refl}
use argus_redline.Base.{ℕ, ◌≡◌, true, false, some, List, ◌∷◌, replicate}
use argus_redline.NodeEventStore.Operations.Routes.{Route}
use argus_redline.NodeEventDelivery.Policy
use argus_redline.NodeEventDelivery.Policy.{SlotRuntime, settle_all, turns}
use argus_redline.NodeEventDelivery.Policy.Turns.{Finished, Halted, settle_all-turns}
use argus_redline.Base.Methods.{After}
use argus_redline.NodeEventDelivery.Controller.{Sources, reset}
use argus_redline.NodeEventDelivery.Controller.Attempts.{Machine}
use argus_redline.NodeEventDelivery.Controller.Calls.{admission_call, Allowed, run, run-Route}
use argus_redline.Examples.Store.{cells, empty, button, recovered}
use argus_redline.NodeEventStore.Operations.Transitions
use argus_redline.NodeEventStore.Operations.Transitions.{enqueue_call}

abbrev sources : Sources cells
sources = record { next_sequence = λ w. (some 9, w); next_milliseconds = λ w. (100, w) }

-- Two minutes and a half have passed.
abbrev waiting : Policy.Machine cells
waiting = record {
  policy = record Policy.reset {
    runtime =
        record { tracked = true; baseline_milliseconds = 0; uncommitted_milliseconds = 150000 }
        ∷ replicate 7 Policy.untracked;
    is_ready = true;
  };
  node = empty;
}

settle_all-turns_example :
    After (Finished cells 0) (Halted cells 0) (settle_all cells (turns cells 0 waiting) 0 waiting)
settle_all-turns_example = settle_all-turns cells 0 waiting

-- The controller waits for the Hub's answer to an Event.
abbrev pressed : Event
pressed = record {
  source = 2;
  destination = 1;
  sequence = 9;
  family = Family.button;
  epoch = 7;
  id = 1;
  flags = 0;
  lifetime_budget_seconds = 600;
  body_length = 1;
  body = 1 ∷ replicate 11 0;
}

abbrev awaiting : Machine cells sources
awaiting = record {
  control = record reset {
    source = 2;
    destination = 1;
    active_slot = 0;
    active = true;
    initialized = true;
    correlation_valid = true;
    state = RuntimeState.wait_admission;
    attempt_event = pressed;
  };
  policy = waiting;
}

abbrev answer : Option (List ℕ)
answer =
    encode_admission_response (make_admission_response pressed AdmissionStatus.admitted) (some 15)

admission_candidate-IsAdmission_example :
    (is_state
        (admission_candidate cells sources answer 100 awaiting).1.control.state
        RuntimeState.released
      ≡ false)
    ⊎ IsAdmission answer awaiting
admission_candidate-IsAdmission_example =
    admission_candidate-IsAdmission cells sources answer 100 awaiting refl

-- The same with an Event in the store.
abbrev holding : Machine cells sources
holding = record awaiting {
  policy = record waiting { node = Transitions.run cells (enqueue_call button) recovered };
}

run-Route_example :
    Route
      (Allowed cells sources holding (admission_call answer 100))
      holding.policy.node.store.slots
      (run cells sources (admission_call answer 100) holding).policy.node.store.slots
run-Route_example = run-Route cells sources (admission_call answer 100) holding
