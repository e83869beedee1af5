-- ===== src/EventProducers.antt =====
-- lib/event_producers/src/event_producers.h: what makes the Node's Events from its button and its sensors.
-- The sink that takes them is an interface there; it is a function of the state of the world. A value of
-- `int64_t` has 2 ^ 33 added, so that all of them are natural numbers.
pub mod Gestures
use argus_redline.Base.{
  ℕ, ◌+◌, ◌-◌, ◌/◌, ◌^◌, Bool, true, false, not, ◌&&◌, ◌||◌, ◌∷◌, List, ltb, leb, ◌==◌,
  if◌then◌else◌, replicate,
}
use argus_redline.Base.Words.{u8}
use argus_redline.DeviceInput.{ButtonEvent, ButtonEvents, is_none}
use argus_redline.EventProtocol.{
  is_valid_button_event, is_valid_sensor_value_type, is_valid_threshold_relation, write_u32_le,
}
use argus_redline.EventProtocol.Family
use argus_redline.NodeEventStore.{EnqueueStatus, EventInput}
use argus_redline.NodeEventStore.Commits
use argus_redline.NodeEventStore.Interface.{Storage}
use argus_redline.NodeEventStore.Operations

abbrev pub producer_flags : ℕ
producer_flags = 0

abbrev pub producer_lifetime_seconds : ℕ
producer_lifetime_seconds = 3600

pub data CreationResult : Type 0 where
  enqueued queue_full invalid_event storage_failure : CreationResult

-- `CreationSink`.
pub record Sink : Type 1 where
  pub World : Type 0
  pub create : EventInput → World → CreationResult × World

abbrev pub normalize : EnqueueStatus → CreationResult
normalize EnqueueStatus.enqueued = CreationResult.enqueued
normalize EnqueueStatus.queue_full = CreationResult.queue_full
normalize EnqueueStatus.invalid_event = CreationResult.invalid_event
normalize EnqueueStatus.storage_failure = CreationResult.storage_failure
normalize EnqueueStatus.identity_failure = CreationResult.storage_failure
normalize EnqueueStatus.degraded = CreationResult.storage_failure

-- `StoreCreationSink`, without the copy of the last result that it keeps.
abbrev pub store_sink : Storage → Sink
store_sink storage = record {
  World = Commits.Machine storage;
  create = λ input s. let (r, t) = Operations.enqueue storage input s in (normalize r.status, t);
}

pub record Emission : Type 0 where
  pub attempted : Bool
  pub result : CreationResult

abbrev pub no_emission : Emission
no_emission = record { attempted = false; result = CreationResult.invalid_event }

abbrev pub make_input : ℕ → ℕ → List ℕ → EventInput
make_input family body_length body = record {
  family = family;
  flags = producer_flags;
  lifetime_budget_seconds = producer_lifetime_seconds;
  body_length = body_length;
  body = body;
}

abbrev pub button_event_code : ButtonEvent → ℕ
button_event_code ButtonEvent.none = 0
button_event_code ButtonEvent.press = 1
button_event_code ButtonEvent.release = 2
button_event_code ButtonEvent.short_press = 3
button_event_code ButtonEvent.long_press = 4
button_event_code ButtonEvent.very_long_press = 5

abbrev pub button_input : ButtonEvent → EventInput
button_input event = make_input Family.button 1 (button_event_code event ∷ replicate 11 0)

-- With the reason USER_REQUEST.
abbrev pub manual_input : EventInput
manual_input = make_input Family.manual_check_in 1 (1 ∷ replicate 11 0)

pub record ButtonContext : Type 0 where
  pub display_awake : Bool
  pub editor_active : Bool
  pub home_screen : Bool
  pub button_event_selected : Bool

pub record ButtonProductionResult : Type 0 where
  pub button : Emission
  pub manual_check_in : Emission
  pub button_suppressed : Bool

pub record ButtonProducer : Type 0 where
  pub gesture_eligible : Bool
  pub gesture_suppressed : Bool
  pub manual_eligible : Bool
  pub long_observed : Bool
  pub very_long_observed : Bool

abbrev pub new_producer : ButtonProducer
new_producer = record {
  gesture_eligible = false;
  gesture_suppressed = false;
  manual_eligible = false;
  long_observed = false;
  very_long_observed = false;
}

pub record ThresholdPolicy : Type 0 where
  pub capability_id : ℕ
  pub value_type : ℕ
  pub threshold_bits : ℕ
  pub hysteresis_bits : ℕ
  pub relation : ℕ

pub record SensorThresholdProducer : Type 0 where
  pub policy : ThresholdPolicy
  pub initialized : Bool
  pub armed : Bool

abbrev is_signed_type : ℕ → Bool
is_signed_type value_type = (value_type == 0x03) || (value_type == 0x05)

pub numeric_value : ThresholdPolicy → ℕ → ℕ
numeric_value p bits =
    if is_signed_type p.value_type && leb (2 ^ 31) bits
    then 2 ^ 33 + bits - 2 ^ 32
    else 2 ^ 33 + bits

-- `(bits & 0xFFFF0000) == 0` is a test for less than 2 ^ 16.
pub valid_observed : ThresholdPolicy → ℕ → Bool
valid_observed p bits =
    (not (p.value_type == 0x04) && not (p.value_type == 0x06)) || ltb bits (2 ^ 16)

pub valid_policy : ThresholdPolicy → Bool
unfolding valid_observed
valid_policy p =
    if (p.capability_id == 0)
      || (not (is_valid_sensor_value_type p.value_type)
          || not (is_valid_threshold_relation p.relation))
    then false
    else valid_observed p p.threshold_bits

abbrev crossed_above : ℕ
crossed_above = 0x02

pub is_active : ThresholdPolicy → ℕ → Bool
unfolding numeric_value
is_active p value =
    if p.relation == crossed_above
    then ltb (numeric_value p p.threshold_bits) (numeric_value p value)
    else ltb (numeric_value p value) (numeric_value p p.threshold_bits)

pub is_rearmed : ThresholdPolicy → ℕ → Bool
unfolding numeric_value
is_rearmed p value =
    if p.relation == crossed_above
    then leb (numeric_value p value) (numeric_value p p.threshold_bits - p.hysteresis_bits)
    else leb (numeric_value p p.threshold_bits + p.hysteresis_bits) (numeric_value p value)

abbrev pub sensor_input : ThresholdPolicy → ℕ → EventInput
sensor_input p observed_bits = make_input Family.sensor_threshold 8 (
    write_u32_le
      (u8 p.capability_id
        ∷ (p.capability_id / 2 ^ 8
            ∷ (p.value_type ∷ (0 ∷ (0 ∷ (0 ∷ (0 ∷ (p.relation ∷ replicate 4 0))))))))
      3 observed_bits)

module _ (sink : Sink) where
  -- An Emission with the world that the sink leaves.
  abbrev pub Emitting : Type 0
  Emitting = sink.World → Emission × sink.World

  pub emit : EventInput → Emitting
  emit input w = let (r, w') = sink.create input w in (record { attempted = true; result = r }, w')

  abbrev silent : Emitting
  silent w = (no_emission, w)

  pub emit_button : ButtonEvent → Emitting
  unfolding emit
  emit_button event w =
      if is_none event
      then silent w
      else if not (is_valid_button_event (button_event_code event))
      then silent w
      else emit (button_input event) w

  pub emit_manual_check_in : Emitting
  unfolding emit
  emit_manual_check_in w = emit manual_input w

  abbrev pub State : Type 0
  State = ButtonProducer × (ButtonProductionResult × sink.World)

  abbrev with_button : ButtonProducer → ButtonProductionResult → Emission × sink.World → State
  with_button p r (emission, w) = (p, (record r { button = emission }, w))

  abbrev with_manual : ButtonProducer → ButtonProductionResult → Emission × sink.World → State
  with_manual p r (emission, w) = (p, (record r { manual_check_in = emission }, w))

  -- The gesture ends.
  abbrev ended : ButtonProducer → ButtonProducer
  ended p = record p {
    gesture_eligible = if p.long_observed then false else p.gesture_eligible;
    gesture_suppressed = false;
    manual_eligible = false;
    long_observed = false;
    very_long_observed = false;
  }

  pub observe_one :
      ButtonEvent → ButtonContext → ButtonProducer → ButtonProductionResult → sink.World → State
  unfolding emit_button emit_manual_check_in
  observe_one ButtonEvent.press c p r w =
      let eligible = c.button_event_selected && (c.display_awake && not c.editor_active) in
      let next : ButtonProducer = record {
        gesture_eligible = eligible;
        gesture_suppressed = c.button_event_selected && not eligible;
        manual_eligible = c.display_awake && (not c.editor_active && c.home_screen);
        long_observed = false;
        very_long_observed = false;
      } in
      (next, (r, w))
  observe_one ButtonEvent.short_press c p r w =
      let next = record p {
        gesture_eligible = false;
        gesture_suppressed = false;
        manual_eligible = false;
      } in
      if p.gesture_eligible
      then with_button next r (emit_button ButtonEvent.short_press w)
      else if p.gesture_suppressed
      then (next, (record r { button_suppressed = true }, w))
      else (next, (r, w))
  observe_one ButtonEvent.long_press c p r w =
      (record p { long_observed = if p.manual_eligible then true else p.long_observed }, (r, w))
  observe_one ButtonEvent.very_long_press c p r w =
      (record p { very_long_observed = true; manual_eligible = false }, (r, w))
  observe_one ButtonEvent.release c p r w =
      if p.manual_eligible && (p.long_observed && not p.very_long_observed)
      then with_manual (ended p) r (emit_manual_check_in w)
      else (ended p, (r, w))
  observe_one ButtonEvent.none c p r w = (p, (r, w))

  abbrev pub nothing_produced : ButtonProductionResult
  nothing_produced = record {
    button = no_emission;
    manual_check_in = no_emission;
    button_suppressed = false;
  }

  pub observe_button : ButtonEvents → ButtonContext → ButtonProducer → sink.World → State
  unfolding observe_one
  observe_button events c p w =
      let (q, (r, v)) = observe_one events.first c p nothing_produced w in
      observe_one events.second c q r v

  -- `observe` of the class SensorThresholdProducer.
  pub observe_sensor :
      Bool
      → ℕ
      → SensorThresholdProducer
      → sink.World
      → SensorThresholdProducer × (Emission × sink.World)
  unfolding emit valid_policy valid_observed is_active is_rearmed
  observe_sensor available observed_bits p w =
      if not available
        || (not (valid_policy p.policy) || not (valid_observed p.policy observed_bits))
      then (p, (no_emission, w))
      else (let active = is_active p.policy observed_bits in
          if not p.initialized
          then (record p { initialized = true; armed = not active }, (no_emission, w))
          else if not p.armed
          then (
            record p { armed = if is_rearmed p.policy observed_bits then true else p.armed },
            (no_emission, w),
          )
          else if not active
          then (p, (no_emission, w))
          else (record p { armed = false }, emit (sensor_input p.policy observed_bits) w))
