-- ===== src/Examples/Input.antt =====
-- The button of lib/device_input/src/device_input.h, and the Events that it makes, at concrete values.
use argus_redline.EventProducers.{CreationResult, Sink, ButtonContext, new_producer}
use argus_redline.EventProducers.Gestures.{presses, observe_all, observe_all-presses}
use argus_redline.Base.{ℕ, zero, suc, ◌≡◌, ◌≤◌, refl, Bool, true, false, List, [], ◌∷◌, All}
use argus_redline.DeviceInput.{Button, ButtonEvent, ButtonEvents, no_events, new_button, update}
use argus_redline.DeviceInput.Startup.{held, held_is_silent}
use argus_redline.DeviceInput.Edges.{Follows, update-Follows}

held_is_silent_example :
    All
      (λ (r : ButtonEvents × Bool). (r.0 ≡ no_events) × (r.1 ≡ false))
      (held (0 ∷ 50 ∷ 9000 ∷ []) (new_button 40 1000 3000))
held_is_silent_example = held_is_silent (0 ∷ 50 ∷ 9000 ∷ []) (new_button 40 1000 3000) refl

-- Armed, with a press that is a candidate since 100.
abbrev pressing : Button
pressing = record (new_button 40 1000 3000) {
  initialized = true;
  armed = true;
  candidate_pressed = true;
  candidate_since_ms = 100;
}

update-Follows_example : Follows pressing (update true 140 pressing)
update-Follows_example = update-Follows true 140 pressing refl refl

abbrev at_home : ButtonContext
at_home = record {
  display_awake = true;
  editor_active = false;
  home_screen = true;
  button_event_selected = true;
}

-- A short press on the home screen.
abbrev short_gesture : List (ButtonEvents × ButtonContext)
short_gesture =
    (record { first = ButtonEvent.press; second = ButtonEvent.none }, at_home)
    ∷ ((record { first = ButtonEvent.release; second = ButtonEvent.short_press }, at_home) ∷ [])

-- A sink with room for so many Events.
abbrev small_sink : Sink
small_sink = record { World = ℕ; create = λ input room. create_in room }
  where
    create_in : ℕ → CreationResult × ℕ
    create_in zero = (CreationResult.queue_full, zero)
    create_in (suc room) = (CreationResult.enqueued, room)

observe_all-presses_example :
    ((observe_all small_sink short_gesture new_producer (1, (0, 0))).1.0 ≤ presses short_gesture)
    × ((observe_all small_sink short_gesture new_producer (1, (0, 0))).1.1 ≤ presses short_gesture)
observe_all-presses_example = observe_all-presses small_sink short_gesture 1
