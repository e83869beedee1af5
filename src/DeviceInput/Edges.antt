-- ===== src/DeviceInput/Edges.antt =====
-- The events of a button follow its stable state (lib/device_input/src/device_input.h).
use argus_redline.Base.{
  ℕ, ◌≡◌, refl, sym, subst, ◌∙◌, arith, Bool, true, false, not, ◌&&◌, leb, Bool-cases, inl, inr,
}
use argus_redline.DeviceInput.{
  ButtonEvents, ButtonEvent, press, release, short_press, long_press, very_long_press, Button,
  update, append, debounce, accept, change, emit_long, emit_very_long, elapsed,
}

abbrev is_press : ButtonEvent → Bool
is_press press = true
is_press _ = false

abbrev is_release : ButtonEvent → Bool
is_release release = true
is_release _ = false

abbrev is_short_press : ButtonEvent → Bool
is_short_press short_press = true
is_short_press _ = false

-- What the events say of the stable state before and after, and of a long press that was given. A PRESS
-- or a RELEASE can only be the first event, and a SHORT_PRESS only the second.
pub record Follows (s : Button) (r : ButtonEvents × Button) : Type 0 where
  pub pressed : is_press r.0.first ≡ (not s.stable_pressed && r.1.stable_pressed)
  pub released : is_release r.0.first ≡ (s.stable_pressed && not r.1.stable_pressed)
  pub short :
      is_short_press r.0.second
      ≡ ((s.stable_pressed && not r.1.stable_pressed) && not s.long_press_emitted)
  pub no_late_press : is_press r.0.second ≡ false
  pub no_late_release : is_release r.0.second ≡ false
  pub no_early_short : is_short_press r.0.first ≡ false

debounce-Follows : (pressed : Bool) (now : ℕ) (s : Button) → Follows s (debounce pressed now s)
unfolding debounce accept change
debounce-Follows pressed now s = record {
  pressed = ground arith;
  released = ground arith;
  short = ground arith;
  no_late_press = ground arith;
  no_late_release = ground arith;
  no_early_short = ground arith;
}

-- A long press that is appended leaves what the events say of edges.
record Harmless (event : ButtonEvent) : Type 0 where
  no_press : is_press event ≡ false
  no_release : is_release event ≡ false
  no_short : is_short_press event ≡ false

append-Harmless :
    (events : ButtonEvents) (event : ButtonEvent)
    → Harmless event
    → (is_press (append events event).first ≡ is_press events.first)
      × (is_release (append events event).first ≡ is_release events.first)
      × (is_short_press (append events event).second ≡ is_short_press events.second)
      × (is_press (append events event).second ≡ is_press events.second)
      × (is_release (append events event).second ≡ is_release events.second)
      × (is_short_press (append events event).first ≡ is_short_press events.first)
unfolding append
append-Harmless events event h = ground (arith, h.no_press, h.no_release, h.no_short)

emit_long-Follows :
    (now : ℕ) (s : Button) (r : ButtonEvents × Button) → Follows s r → Follows s (emit_long now r)
unfolding emit_long
emit_long-Follows now s (events, t) v =
    let (p, q, u, l, m, n) =
      append-Harmless events long_press
        (record { no_press = refl; no_release = refl; no_short = refl }) in
    elim (Bool-cases (
      t.stable_pressed
      && (not t.long_press_emitted && leb t.long_press_ms (elapsed now t.press_since_ms)))) [
        | inl e ↦
            rw (emit_long, e)
              (record {
                pressed = p ∙ v.pressed;
                released = q ∙ v.released;
                short = u ∙ v.short;
                no_late_press = l ∙ v.no_late_press;
                no_late_release = m ∙ v.no_late_release;
                no_early_short = n ∙ v.no_early_short;
              })
        | inr e ↦ rw (emit_long, e) v
      ]

emit_very_long-Follows :
    (now : ℕ) (s : Button) (r : ButtonEvents × Button)
    → Follows s r
    → Follows s (emit_very_long now r)
unfolding emit_very_long
emit_very_long-Follows now s (events, t) v =
    let (p, q, u, l, m, n) =
      append-Harmless events very_long_press
        (record { no_press = refl; no_release = refl; no_short = refl }) in
    elim (Bool-cases (
      t.stable_pressed
      && (not t.very_long_press_emitted
          && leb t.very_long_press_ms (elapsed now t.press_since_ms)))) [
            | inl e ↦
                rw (emit_very_long, e)
                  (record {
                    pressed = p ∙ v.pressed;
                    released = q ∙ v.released;
                    short = u ∙ v.short;
                    no_late_press = l ∙ v.no_late_press;
                    no_late_release = m ∙ v.no_late_release;
                    no_early_short = n ∙ v.no_early_short;
                  })
            | inr e ↦ rw (emit_very_long, e) v
          ]

update-armed :
    (pressed : Bool) (now : ℕ) (s : Button)
    → s.initialized ≡ true
    → s.armed ≡ true
    → update pressed now s ≡ emit_very_long now (emit_long now (debounce pressed now s))
unfolding update
update-armed pressed now s i a = ground (arith, i, a)

-- For an armed button, a sample gives PRESS exactly when the stable state becomes pressed, RELEASE
-- exactly when it becomes released, and SHORT_PRESS exactly when it becomes released and no long press was
-- given: PRESS and RELEASE as the first event and never as the second, SHORT_PRESS as the second and never
-- as the first.
pub update-Follows :
    (pressed : Bool) (now : ℕ) (s : Button)
    → s.initialized ≡ true
    → s.armed ≡ true
    → Follows s (update pressed now s)
update-Follows pressed now s i a =
    subst (Follows s) (sym (update-armed pressed now s i a))
      (emit_very_long-Follows now s _ (emit_long-Follows now s _ (debounce-Follows pressed now s)))
