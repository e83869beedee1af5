-- ===== src/HostTransport/Completion.antt =====
-- A submitted frame is sent whole (lib/host_transport/src/host_transport.h).
use argus_redline.Base.{
  ℕ, zero, suc, ◌+◌, ◌-◌, ◌<◌, ◌≤◌, ◌≡◌, ◌⊎◌, inl, inr, min, refl, sym, ap, ap₂, ◌∙◌, arith, Bool,
  true, false, Bool-cases, some, List, [], ◌∷◌, ◌++◌, ◌==◌, if◌then◌else◌, length, take, drop,
  length-take, append_nil, All,
}
use argus_redline.HostProtocol.Frame.{Frame, Encoded, encode_frame}
use argus_redline.HostProtocol.Frame.RoundTrip.{IsFrame}
use argus_redline.HostTransport.Interface.{ByteStream, IsHonest}
use argus_redline.HostTransport.{
  has_pending_tx, submit, SubmitStatus, Adapter, TxResult, remaining_tx, advance, settle, transmit,
  service_tx,
}
use argus_redline.HostTransport.Delivery.{
  fits, none_pending, none_pending_not, length-take-le, drop_nothing, unsent, service_all,
  in_flight, submit-encode_frame, service_all-in_flight,
}

-- Nothing is pending, or a part of what is pending is still to be sent.
pub IsAdapter : Adapter → Type 0
IsAdapter s = (length s.pending ≡ 0) ⊎ (s.pending_offset < length s.pending)

-- What is left after a call that sends something.
Closer : Adapter → Adapter → Type 0
Closer s s' = IsAdapter s' × (remaining_tx s' < remaining_tx s)

remaining-open :
    (s : Adapter)
    → s.pending_offset < length s.pending
    → remaining_tx s ≡ length s.pending - s.pending_offset
remaining-open s h = rw (none_pending_not (length s.pending) (omega arith)) refl

advance-Closer :
    (written : ℕ) (s : Adapter)
    → s.pending_offset < length s.pending
    → 0 < written
    → written ≤ length s.pending - s.pending_offset
    → Closer s (advance written s).1
unfolding advance Closer IsAdapter
advance-Closer written s h p q =
    elim (Bool-cases (s.pending_offset + written == length s.pending)) [
      | inl e ↦ rw (advance, e) (inl refl, rw (remaining-open s h) (omega arith))
      | inr e ↦
          let below : s.pending_offset + written < length s.pending = ground arith in
          rw (advance, e)
            (
              inr below,
              rw (remaining-open s h, none_pending_not (length s.pending) (omega arith))
                  (omega arith),
            )
    ]

settle-Closer :
    (attempt written : ℕ) (s : Adapter)
    → s.pending_offset < length s.pending
    → 0 < written
    → written ≤ attempt
    → attempt ≤ length s.pending - s.pending_offset
    → Closer s (settle attempt written s).1
unfolding settle
settle-Closer attempt written s h p q r =
    rw (settle, fits attempt written q, none_pending_not written p)
      (advance-Closer written s h p (omega arith))

length-drop : (n : ℕ) (xs : List ℕ) → length (drop n xs) ≡ length xs - n
length-drop zero xs = omega arith
length-drop (suc n) [] = omega arith
length-drop (suc n) (x ∷ xs) = omega (arith, length-drop n xs)

drop_empty : (n : ℕ) (xs : List ℕ) → length xs ≡ 0 → drop n xs ≡ []
drop_empty n [] e = drop_nothing n
drop_empty n (x ∷ xs) e = absurd (omega arith)

-- A stream that always takes something.
pub record IsWilling (stream : ByteStream) : Type 0 where
  pub writable : (w : stream.World) → 0 < (stream.available_for_write w).0
  pub accepts :
      (bytes : List ℕ) (w : stream.World) → 0 < length bytes → 0 < (stream.write bytes w).0

abbrev pub IsPositive : ℕ → Type 0
IsPositive n = 0 < n

module _ (stream : ByteStream) (honest : IsHonest stream) (willing : IsWilling stream) where
  open stream use {World, write, available_for_write}
  open honest use {sent}

  transmit-Closer :
      (attempt : ℕ) (s : Adapter) (w : World)
      → s.pending_offset < length s.pending
      → 0 < attempt
      → attempt ≤ length s.pending - s.pending_offset
      → Closer s (transmit stream attempt s w).1.0
  unfolding transmit
  transmit-Closer attempt s w h p q =
      let chunk = take attempt (drop s.pending_offset s.pending) in
      let size = length-take attempt (drop s.pending_offset s.pending) in
      let rest = length-drop s.pending_offset s.pending in
      settle-Closer attempt (write chunk w).0 s h
        (willing.accepts chunk w (omega (arith, size, rest)))
        (omega (
          arith,
          honest.write_bounded chunk w,
          length-take-le attempt (drop s.pending_offset s.pending),
        ))
        q

  Closer-if :
      (s : Adapter) (test : Bool) (x y : TxResult × (Adapter × World))
      → test ≡ false
      → Closer s y.1.0
      → Closer s (if test then x else y).1.0
  Closer-if s false x y e c = c
  Closer-if s true x y e c = cc

  service_tx-Closer :
      (budget : ℕ) (s : Adapter) (w : World)
      → s.pending_offset < length s.pending
      → 0 < budget
      → Closer s (service_tx stream budget s w).1.0
  unfolding service_tx
  service_tx-Closer budget s w h p =
      let writable = willing.writable w in
      let open_bytes = remaining-open s h in
      Closer-if s (length s.pending == 0) _ _ (none_pending_not (length s.pending) (omega arith)) (
        Closer-if s (budget == 0) _ _ (none_pending_not budget p) (
          Closer-if s ((available_for_write w).0 == 0) _ _
            (none_pending_not (available_for_write w).0 writable)
            (transmit-Closer (min (min (available_for_write w).0 budget) (remaining_tx s)) s
              (available_for_write w).1 h (omega (arith, open_bytes)) (omega (arith, open_bytes)))))

  service_tx_idle :
      (budget : ℕ) (s : Adapter) (w : World)
      → length s.pending ≡ 0
      → (service_tx stream budget s w).1.0 ≡ s
  unfolding service_tx
  service_tx_idle budget s w e = rw (none_pending (length s.pending) e) refl

  service_all_finishes :
      (budgets : List ℕ) (s : Adapter) (w : World)
      → IsAdapter s
      → All IsPositive budgets
      → remaining_tx s ≤ length budgets
      → length (service_all stream honest budgets (s, w)).0.pending ≡ 0
  unfolding service_all IsAdapter Closer
  service_all_finishes [] s w (inl e) p h = e
  service_all_finishes [] s w (inr o) p h = absurd (omega (arith, remaining-open s o))
  service_all_finishes (budget ∷ budgets) s w (inl e) p h =
      let s' = (service_tx stream budget s w).1.0 in
      let kept = service_tx_idle budget s w e in
      let e' : length s'.pending ≡ 0 = ap (λ (t : Adapter). length t.pending) kept ∙ e in
      service_all_finishes budgets s' (service_tx stream budget s w).1.1 (inl e') p.1
        (rw (none_pending (length s'.pending) e') (omega arith))
  service_all_finishes (budget ∷ budgets) s w (inr o) p h =
      let closer = service_tx-Closer budget s w o p.0 in
      service_all_finishes budgets (service_tx stream budget s w).1.0
        (service_tx stream budget s w).1.1 closer.0 p.1 (omega (arith, closer.1))

  drained :
      (t : Adapter × World) (bytes : List ℕ)
      → length t.0.pending ≡ 0
      → in_flight stream honest t ≡ bytes
      → (has_pending_tx t.0 ≡ false) × (sent t.1 ≡ bytes)
  unfolding has_pending_tx unsent
  drained t bytes e h = (
    rw (none_pending (length t.0.pending) e) refl,
    sym (append_nil (sent t.1))
        ∙ ap (λ (ys : List ℕ). sent t.1 ++ ys) (sym (drop_empty t.0.pending_offset t.0.pending e))
        ∙ h,
  )

  sent_whole :
      (budgets bytes : List ℕ) (s : Adapter) (w : World)
      → 0 < length bytes
      → length bytes ≤ length budgets
      → All IsPositive budgets
      → s.pending ≡ bytes
      → s.pending_offset ≡ 0
      → (has_pending_tx (service_all stream honest budgets (s, w)).0 ≡ false)
        × (sent (service_all stream honest budgets (s, w)).1 ≡ sent w ++ bytes)
  unfolding IsAdapter unsent
  sent_whole budgets bytes s w q enough p e o =
      let size : length s.pending ≡ length bytes = ap (λ (t : List ℕ). length t) e in
      let below : s.pending_offset < length s.pending = omega (arith, size) in
      drained (service_all stream honest budgets (s, w)) (sent w ++ bytes)
        (service_all_finishes budgets s w (inr below) p
          (omega (arith, remaining-open s below, size)))
        (service_all-in_flight stream honest budgets (s, w)
          ∙ ap₂ (λ (n : ℕ) (t : List ℕ). sent w ++ drop n t) o e)

  -- A frame that the protocol allows, encoded into a buffer of at least twelve bytes more than its
  -- payload and submitted to an adapter with nothing pending, is sent whole by as many calls of
  -- `serviceTx` with positive budgets as it has bytes, if the stream is honest and always takes
  -- something: then nothing is pending, and exactly the frame's bytes were sent since.
  pub submit_completes :
      (f : Frame) (capacity : ℕ) (budgets : List ℕ) (s : Adapter) (w : World)
      → IsFrame f
      → f.payload_length + 12 ≤ capacity
      → length s.pending ≡ 0
      → All IsPositive budgets
      → f.payload_length + 12 ≤ length budgets
      → (bytes : List ℕ) × (encode_frame f (some capacity) ≡ Encoded.ok bytes)
        × (has_pending_tx (service_all stream honest budgets ((submit (some bytes) s).1, w)).0
            ≡ false)
        × (sent (service_all stream honest budgets ((submit (some bytes) s).1, w)).1
            ≡ sent w ++ bytes)
  submit_completes f capacity budgets s w v h e p enough =
      let (bytes, encoded, size, accepted) = submit-encode_frame f capacity s v h e in
      let queued = ap (λ (r : SubmitStatus × Adapter). r.1) accepted in
      let (idle, whole) =
        sent_whole budgets bytes (submit (some bytes) s).1 w (omega (arith, size))
          (omega (arith, size)) p (ap (λ (t : Adapter). t.pending) queued)
          (ap (λ (t : Adapter). t.pending_offset) queued) in
      (bytes, encoded, idle, whole)
