-- ===== src/DeviceInput/Startup.antt =====
-- A button that is held while the device starts (lib/device_input/src/device_input.h).
use argus_redline.Base.{ℕ, ◌≡◌, arith, Bool, true, false, List, [], ◌∷◌, All}
use argus_redline.DeviceInput.{
  ButtonEvents, no_events, Button, update, update_startup_held_state, snapshot,
}

-- What samples of a pressed button at the given times give.
pub held : List ℕ → Button → List (ButtonEvents × Bool)
held [] s = []
held (now ∷ times) s =
    let (events, s') = update true now s in
    let rest = held times s' in (events, (snapshot s').available) ∷ rest

update_held :
    (now : ℕ) (s : Button)
    → s.armed ≡ false
    → ((update true now s).0 ≡ no_events) × ((update true now s).1.armed ≡ false)
unfolding update update_startup_held_state
update_held now s h = ground (arith, h)

unavailable : (s : Button) → s.armed ≡ false → (snapshot s).available ≡ false
unfolding snapshot
unavailable s h = ground (arith, h)

-- As long as a button that is not armed is sampled as pressed, at whatever times, it gives no event and
-- is not available; a new button is such a button.
pub held_is_silent :
    (times : List ℕ) (s : Button)
    → s.armed ≡ false
    → All (λ r. (r.0 ≡ no_events) × (r.1 ≡ false)) (held times s)
unfolding held
held_is_silent [] s h = tt
held_is_silent (now ∷ times) s h =
    let (e, a) = update_held now s h in ((e, unavailable _ a), held_is_silent times _ a)
