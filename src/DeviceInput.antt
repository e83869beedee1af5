-- ===== src/DeviceInput.antt =====
-- lib/device_input/src/device_input.h: a debounced button.
pub mod Edges
pub mod Startup
use argus_redline.Base.{ℕ, ◌+◌, Bool, true, false, not, ◌&&◌, leb, if◌then◌else◌}
use argus_redline.Base.Words.{sub_u32}

pub data ButtonEvent : Type 0 where
  none press release short_press long_press very_long_press : ButtonEvent

abbrev pub is_none : ButtonEvent → Bool
is_none none = true
is_none _ = false

pub record ButtonEvents : Type 0 where
  pub first : ButtonEvent
  pub second : ButtonEvent

abbrev pub no_events : ButtonEvents
no_events = record { first = none; second = none }

pub record ButtonSnapshot : Type 0 where
  pub available : Bool
  pub pressed : Bool

pub record Button : Type 0 where
  pub debounce_ms : ℕ
  pub long_press_ms : ℕ
  pub very_long_press_ms : ℕ
  pub initialized : Bool
  pub armed : Bool
  pub stable_pressed : Bool
  pub candidate_pressed : Bool
  pub long_press_emitted : Bool
  pub very_long_press_emitted : Bool
  pub candidate_since_ms : ℕ
  pub press_since_ms : ℕ

-- The constructor; the third time's default is 3000.
abbrev pub new_button : ℕ → ℕ → ℕ → Button
new_button debounce_ms long_press_ms very_long_press_ms = record {
  debounce_ms = debounce_ms;
  long_press_ms = long_press_ms;
  very_long_press_ms = very_long_press_ms;
  initialized = false;
  armed = false;
  stable_pressed = false;
  candidate_pressed = false;
  long_press_emitted = false;
  very_long_press_emitted = false;
  candidate_since_ms = 0;
  press_since_ms = 0;
}

-- `a == b` on `bool`.
abbrev pub same : Bool → Bool → Bool
same true b = b
same false b = not b

pub elapsed : ℕ → ℕ → ℕ
elapsed now since = sub_u32 now since

pub append : ButtonEvents → ButtonEvent → ButtonEvents
append events event =
    if is_none events.first
    then record events { first = event }
    else if is_none events.second
    then record events { second = event }
    else events

-- `candidatePressed_ = pressed; candidateSinceMs_ = nowMs;`
abbrev start_candidate : Bool → ℕ → Button → Button
start_candidate pressed now s = record s { candidate_pressed = pressed; candidate_since_ms = now }

-- The end of `updateStartupHeldState`: a release that has lasted arms the button.
arm : ℕ → Button → Button
arm now s =
    if leb s.debounce_ms (elapsed now s.candidate_since_ms)
    then record s { stable_pressed = false; armed = true }
    else s

pub update_startup_held_state : Bool → ℕ → Button → Button
unfolding arm
update_startup_held_state pressed now s =
    if pressed
    then start_candidate true now s
    else arm now (if s.candidate_pressed then start_candidate false now s else s)

-- A change of the stable state.
change : Bool → ℕ → Button → ButtonEvents × Button
change true now s = (
  record { first = press; second = none },
  record s {
    stable_pressed = true;
    press_since_ms = now;
    long_press_emitted = false;
    very_long_press_emitted = false;
  },
)
change false now s = (
  record { first = release; second = if not s.long_press_emitted then short_press else none },
  record s { stable_pressed = false },
)

-- The candidate that differs from the stable state has lasted, or not yet.
accept : Bool → ℕ → Button → ButtonEvents × Button
unfolding change
accept pressed now s =
    if leb s.debounce_ms (elapsed now s.candidate_since_ms)
    then change pressed now s
    else (no_events, s)

debounce : Bool → ℕ → Button → ButtonEvents × Button
unfolding accept
debounce pressed now s =
    if same pressed s.stable_pressed
    then (no_events, start_candidate s.stable_pressed now s)
    else accept pressed now
        (if not (same s.candidate_pressed pressed) then start_candidate pressed now s else s)

emit_long : ℕ → ButtonEvents × Button → ButtonEvents × Button
emit_long now (events, s) =
    if s.stable_pressed
      && (not s.long_press_emitted && leb s.long_press_ms (elapsed now s.press_since_ms))
    then (append events long_press, record s { long_press_emitted = true })
    else (events, s)

emit_very_long : ℕ → ButtonEvents × Button → ButtonEvents × Button
emit_very_long now (events, s) =
    if s.stable_pressed
      && (not s.very_long_press_emitted && leb s.very_long_press_ms (elapsed now s.press_since_ms))
    then (append events very_long_press, record s { very_long_press_emitted = true })
    else (events, s)

pub update : Bool → ℕ → Button → ButtonEvents × Button
unfolding update_startup_held_state debounce emit_long emit_very_long append
update pressed now s =
    if not s.initialized
    then (
      no_events,
      record s {
        initialized = true;
        stable_pressed = pressed;
        candidate_pressed = pressed;
        candidate_since_ms = now;
        armed = not pressed;
      },
    )
    else if not s.armed
    then (no_events, update_startup_held_state pressed now s)
    else emit_very_long now (emit_long now (debounce pressed now s))

pub snapshot : Button → ButtonSnapshot
snapshot s = record {
  available = s.initialized && s.armed;
  pressed = (s.initialized && s.armed) && s.stable_pressed;
}
