-- ===== src/EventProtocol/Validity.antt =====
-- What `isValidEvent` says of the fields, and that it reads no byte past the body's length.
use argus_redline.Base.{
  ℕ, ◌≤◌, ◌<◌, ◌≡◌, ◌⊎◌, arith, true, List, length, copy, replicate, get_or-copy, IsByte,
}
use argus_redline.Base.Words.{IsU32}
use argus_redline.EventProtocol.{Event, max_body_size, is_valid_event, is_valid_family_body}

-- The ranges of the C types, and the size of the array.
pub record IsEvent (e : Event) : Type 0 where
  pub epoch_word : IsU32 e.epoch
  pub id_word : IsU32 e.id
  pub lifetime_word : IsU32 e.lifetime_budget_seconds
  pub flags_byte : IsByte e.flags
  pub length_byte : IsByte e.body_length
  pub body_size : length e.body ≡ max_body_size

pub body_length_cases :
    (family n : ℕ) (body : List ℕ) → is_valid_family_body family body n ≡ true → (n ≡ 1) ⊎ (n ≡ 8)
unfolding is_valid_family_body
body_length_cases family n body h = ground arith

pub is_valid_event-le : (e : Event) → is_valid_event e ≡ true → e.body_length ≤ max_body_size
unfolding is_valid_event
is_valid_event-le e h = ground arith

-- The body as the receiver holds it: the sent bytes, and zeros behind them.
pub is_valid_family_body-copy :
    (family n : ℕ) (body : List ℕ)
    → is_valid_family_body family (copy n (replicate 12 0) body) n
      ≡ is_valid_family_body family body n
unfolding is_valid_family_body
is_valid_family_body-copy family n body =
    let kept = λ (i : ℕ) (h : i < n) (k : i < 12). get_or-copy n i 12 0 body h k in
    ground (arith, kept 0, kept 1, kept 2, kept 5, kept 6, kept 7)
