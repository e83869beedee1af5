-- ===== src/EventProducers/Gestures.antt =====
-- How many Events the button of lib/event_producers/src/event_producers.h makes.
use argus_redline.Base.{
  ℕ, suc, ◌+◌, ◌≤◌, ◌≡◌, inl, inr, arith, Bool, true, false, not, ◌&&◌, List, [], ◌∷◌, ◌==◌,
  if◌then◌else◌, Bool-cases,
}
use argus_redline.DeviceInput.{ButtonEvent, ButtonEvents}
use argus_redline.EventProtocol.Family
use argus_redline.EventProtocol.{is_valid_button_event}
use argus_redline.EventProducers.{
  Sink, ButtonContext, ButtonProducer, ButtonProductionResult, new_producer, emit, emit_button,
  emit_manual_check_in, observe_one, observe_button, nothing_produced,
}

-- A sink with two numbers beside it: the Events of the button that it was handed, and the others.
abbrev pub counting : Sink → Sink
counting inner = record {
  World = inner.World × (ℕ × ℕ);
  create = λ input w.
      let (r, v) = inner.create input w.0 in
      (r, (v, (if input.family == Family.button then (suc w.1.0, w.1.1) else (w.1.0, suc w.1.1))));
}

abbrev number : Bool → ℕ
number true = 1
number false = 0

abbrev press_of : ButtonEvent → ℕ
press_of ButtonEvent.press = 1
press_of ButtonEvent.none = 0
press_of ButtonEvent.release = 0
press_of ButtonEvent.short_press = 0
press_of ButtonEvent.long_press = 0
press_of ButtonEvent.very_long_press = 0

-- The presses among the events of some samples.
abbrev pub presses : List (ButtonEvents × ButtonContext) → ℕ
presses [] = 0
presses ((events, c) ∷ samples) = press_of events.first + press_of events.second + presses samples

module _ (inner : Sink) where
  abbrev sink : Sink
  sink = counting inner

  abbrev World : Type 0
  World = inner.World × (ℕ × ℕ)

  -- The world after some calls of `observe`.
  pub observe_all : List (ButtonEvents × ButtonContext) → ButtonProducer → World → World
  observe_all [] p w = w
  observe_all ((events, c) ∷ samples) p w =
      let (q, (r, w')) = observe_button sink events c p w in observe_all samples q w'

  -- No more than the given number of Events, with those that the gesture may still make.
  abbrev IsWithin : ℕ → ButtonProducer → World → Type 0
  IsWithin n p w = (w.1.0 + number p.gesture_eligible ≤ n) × (w.1.1 + number p.manual_eligible ≤ n)

  abbrev LeavesWithin : ButtonProducer × (ButtonProductionResult × World) → ℕ → Type 0
  LeavesWithin q n = IsWithin n q.0 q.1.1

  number_most : (b : Bool) → number b ≤ 1
  number_most true = omega arith
  number_most false = omega arith

  number_unless : (b c : Bool) → number (if b then false else c) ≤ number c
  number_unless true true = omega arith
  number_unless true false = omega arith
  number_unless false c = omega arith

  observe_one-IsWithin :
      (event : ButtonEvent) (c : ButtonContext) (p : ButtonProducer) (r : ButtonProductionResult)
      (w : World) (n : ℕ)
      → IsWithin n p w
      → LeavesWithin (observe_one sink event c p r w) (press_of event + n)
  unfolding observe_one emit_button emit_manual_check_in emit is_valid_button_event
  observe_one-IsWithin ButtonEvent.press c p r w n h = (
    omega (
      arith,
      h.0,
      number_most (c.button_event_selected && (c.display_awake && not c.editor_active)),
    ),
    omega (arith, h.1, number_most (c.display_awake && (not c.editor_active && c.home_screen))),
  )
  observe_one-IsWithin ButtonEvent.none c p r w n h = (omega (arith, h.0), omega (arith, h.1))
  observe_one-IsWithin ButtonEvent.long_press c p r w n h = (omega (arith, h.0), omega (arith, h.1))
  observe_one-IsWithin ButtonEvent.very_long_press c p r w n h =
      (omega (arith, h.0), omega (arith, h.1))
  observe_one-IsWithin ButtonEvent.short_press c p r w n h = elim (Bool-cases p.gesture_eligible) [
    | inl e ↦
        rw (e) (let k : w.1.0 + 1 ≤ n = (rw (e) at h).0 in omega (arith, k), omega (arith, h.1))
    | inr e ↦ rw (e) (elim (Bool-cases p.gesture_suppressed) [
      | inl f ↦ rw (f) (omega (arith, h.0), omega (arith, h.1))
      | inr f ↦ rw (f) (omega (arith, h.0), omega (arith, h.1))
    ])
  ]
  observe_one-IsWithin ButtonEvent.release c p r w n h =
      elim (Bool-cases (p.manual_eligible && (p.long_observed && not p.very_long_observed))) [
        | inl e ↦ rw (e) (
            let m : p.manual_eligible ≡ true = ground arith in
            let k : w.1.1 + 1 ≤ n = (rw (m) at h).1 in
            (
              omega (arith, h.0, number_unless p.long_observed p.gesture_eligible),
              omega (arith, k),
            ))
        | inr e ↦ rw (e) (
          omega (arith, h.0, number_unless p.long_observed p.gesture_eligible),
          omega (arith, h.1),
        )
      ]

  observe_button-IsWithin :
      (events : ButtonEvents) (c : ButtonContext) (p : ButtonProducer) (w : World) (n : ℕ)
      → IsWithin n p w
      → LeavesWithin
          (observe_button sink events c p w)
          (press_of events.second + (press_of events.first + n))
  unfolding observe_button
  observe_button-IsWithin events c p w n h =
      let s = observe_one sink events.first c p (nothing_produced sink) w in
      observe_one-IsWithin events.second c s.0 s.1.0 s.1.1 (press_of events.first + n)
        (observe_one-IsWithin events.first c p (nothing_produced sink) w n h)

  observe_all-most :
      (samples : List (ButtonEvents × ButtonContext)) (p : ButtonProducer) (w : World) (n : ℕ)
      → IsWithin n p w
      → ((observe_all samples p w).1.0 ≤ presses samples + n)
        × ((observe_all samples p w).1.1 ≤ presses samples + n)
  unfolding observe_all
  observe_all-most [] p w n h = (omega (arith, h.0), omega (arith, h.1))
  observe_all-most ((events, c) ∷ samples) p w n h =
      let s = observe_button sink events c p w in
      let rest =
        observe_all-most samples s.0 s.1.1 (press_of events.second + (press_of events.first + n))
          (observe_button-IsWithin events c p w n h) in
      (omega (arith, rest.0), omega (arith, rest.1))

  -- Whatever samples the button gives and in whatever contexts, a new producer hands a sink no more button
  -- Events and no more check-ins than there were presses; the sink is any sink, with any state that its answers
  -- depend on and change.
  pub observe_all-presses :
      (samples : List (ButtonEvents × ButtonContext)) (v : inner.World)
      → ((observe_all samples new_producer (v, (0, 0))).1.0 ≤ presses samples)
        × ((observe_all samples new_producer (v, (0, 0))).1.1 ≤ presses samples)
  observe_all-presses samples v =
      let h = observe_all-most samples new_producer (v, (0, 0)) 0 (omega arith, omega arith) in
      (omega (arith, h.0), omega (arith, h.1))
