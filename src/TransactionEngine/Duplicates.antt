-- ===== src/TransactionEngine/Duplicates.antt =====
-- The Node executes a command once, however often it is sent (`evaluateNodeCommand` of
-- lib/transaction_engine/src/transaction_engine.h).
use argus_redline.Base.{
  ℕ, zero, suc, ◌≤◌, ◌≡◌, ==_refl, ◌⊎◌, inl, inr, refl, arith, Bool, true, false, ◌&&◌, List, [],
  ◌∷◌, ◌==◌, if◌then◌else◌, length, bytes_equal, All,
}
use argus_redline.Protocol.{
  Packet, AckStatus, success, same_type, is_addressed_to, is_supported_command_opcode,
  is_valid_command_payload,
}
use argus_redline.Protocol
use argus_redline.TransactionEngine.{
  Tracker, differs, is_duplicate, fill, remember, NodeCommandOutcome, duplicate, ack_success,
  evaluation, evaluate_node_command,
}

abbrev pub is_executed : NodeCommandOutcome → Bool
is_executed ack_success = true
is_executed _ = false

-- What the Node asks of a command before it looks at the tracker.
unfoldable pub is_admissible : ℕ → ℕ → Packet → Bool
is_admissible local_device_id peer_device_id command =
    is_addressed_to command local_device_id
    && (same_type command.type Protocol.command
        && ((command.source == peer_device_id)
            && (is_supported_command_opcode command.opcode
                && is_valid_command_payload command.opcode command.payload_length)))

none_below : (n : ℕ) → ¬ (suc n ≤ 0)
none_below n h = omega arith

bytes_equal-fill :
    (slots n : ℕ) (xs : List ℕ)
    → n ≤ slots
    → n ≤ length xs
    → bytes_equal n xs (fill slots n xs) ≡ true
bytes_equal-fill slots zero xs h k = refl
bytes_equal-fill zero (suc n) xs h k = elim (none_below n h) [ ]
bytes_equal-fill (suc slots) (suc n) [] h k = elim (none_below n k) [ ]
bytes_equal-fill (suc slots) (suc n) (x ∷ xs) h k =
    rw (bytes_equal-fill slots n xs (omega arith) (omega arith), ==_refl x) refl

differs-remember :
    (command : Packet) (status : AckStatus)
    → command.payload_length ≤ 26
    → differs (remember command status) command ≡ false
unfolding differs remember
differs-remember command status h = ground (arith, h)

module _ (local peer : ℕ) where
  pub is_duplicate-remember :
      (command : Packet) (status : AckStatus)
      → command.payload_length ≤ 26
      → length command.payload ≡ 26
      → is_duplicate (remember command status) command ≡ true
  unfolding is_duplicate remember
  is_duplicate-remember command status h k =
      rw (differs-remember command status h)
        (bytes_equal-fill 26 command.payload_length command.payload h (omega arith))

  evaluate-inadmissible :
      (command : Packet) (t : Tracker)
      → is_admissible local peer command ≡ false
      → ((evaluate_node_command command local peer t).1 ≡ t)
        × (is_executed (evaluate_node_command command local peer t).0.outcome ≡ false)
  unfolding is_admissible evaluate_node_command
  evaluate-inadmissible command t h = ground arith

  evaluate-admissible :
      (command : Packet) (t : Tracker)
      → is_admissible local peer command ≡ true
      → evaluate_node_command command local peer t ≡ (
          if is_duplicate t command
          then (evaluation duplicate t.status, t)
          else (evaluation ack_success success, remember command success))
  unfolding is_admissible evaluate_node_command
  evaluate-admissible command t h = ground (arith, h)

  -- How many of the packets the Node executes, in the order of their arrival.
  pub executions : List Packet → Tracker → ℕ
  executions [] t = 0
  executions (x ∷ xs) t =
      let (e, t') = evaluate_node_command x local peer t in
      let rest = executions xs t' in if is_executed e.outcome then suc rest else rest

  -- A packet that the Node does not admit is not executed and leaves the tracker as it was.
  executions-inadmissible :
      (x : Packet) (xs : List Packet) (t : Tracker)
      → is_admissible local peer x ≡ false
      → executions (x ∷ xs) t ≡ executions xs t
  unfolding executions
  executions-inadmissible x xs t h = let (e, f) = evaluate-inadmissible x t h in rw (f, e) refl

  executions-duplicate :
      (x : Packet) (xs : List Packet) (t : Tracker)
      → is_admissible local peer x ≡ true
      → is_duplicate t x ≡ true
      → executions (x ∷ xs) t ≡ executions xs t
  unfolding executions
  executions-duplicate x xs t h d = rw (evaluate-admissible x t h, d) refl

  executions-new :
      (x : Packet) (xs : List Packet) (t : Tracker)
      → is_admissible local peer x ≡ true
      → is_duplicate t x ≡ false
      → executions (x ∷ xs) t ≡ suc (executions xs (remember x success))
  unfolding executions
  executions-new x xs t h d = rw (evaluate-admissible x t h, d) refl

  module _ (command : Packet) (admissible : is_admissible local peer command ≡ true)
      (short : command.payload_length ≤ 26) (whole : length command.payload ≡ 26) where
    no_more_executions :
        (xs : List Packet)
        → All (λ x. (x ≡ command) ⊎ (is_admissible local peer x ≡ false)) xs
        → executions xs (remember command success) ≡ 0
    unfolding executions
    no_more_executions [] h = refl
    no_more_executions (x ∷ xs) (inl e, h) =
        rw
          (
            e,
            executions-duplicate command xs (remember command success) admissible
                (is_duplicate-remember command success short whole),
          )
          (no_more_executions xs h)
    no_more_executions (x ∷ xs) (inr e, h) =
        rw (executions-inadmissible x xs (remember command success) e) (no_more_executions xs h)

    -- A command for this Node, from its peer, supported and well formed, that the tracker does not hold
    -- is executed exactly once when it arrives and is then retransmitted any number of times, among any packets
    -- that the Node does not admit.
    pub executed_once :
        (xs : List Packet) (t : Tracker)
        → is_duplicate t command ≡ false
        → All (λ x. (x ≡ command) ⊎ (is_admissible local peer x ≡ false)) xs
        → executions (command ∷ xs) t ≡ 1
    executed_once xs t d h =
        rw (executions-new command xs t admissible d, no_more_executions xs h) refl
