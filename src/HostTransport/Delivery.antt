-- ===== src/HostTransport/Delivery.antt =====
-- Every byte of a submitted frame is sent once and in order (lib/host_transport/src/host_transport.h).
use native.Mathlib.Nat.{zero-add, suc-add}
use argus_redline.Base.{
  ◌+◌, ◌<◌, length-append, ℕ, zero, suc, ◌+◌, ◌≤◌, ◌≡◌, inl, inr, min, refl, sym, ap, ap₂, ◌∙◌,
  arith, Bool, true, false, Bool-cases, some, List, [], ◌∷◌, ◌++◌, append_assoc, ltb, ◌==◌,
  if◌then◌else◌, length, take, drop, length-take,
}
use argus_redline.HostProtocol.Frame.{Frame, DecodeResult, Encoded, encode_frame, decode_frame}
use argus_redline.HostProtocol.Frame.RoundTrip.{IsFrame, decode_frame-encode_frame}
use argus_redline.HostProtocol.Stream.{zero_frame}
use argus_redline.HostTransport.Interface.{ByteStream, IsHonest}
use argus_redline.HostTransport.{
  submit, SubmitStatus, Adapter, TxResult, remaining_tx, advance, settle, transmit, service_tx,
}

-- What is still to be sent.
unfoldable pub unsent : Adapter → List ℕ
unsent s = drop s.pending_offset s.pending

pub fits : (m n : ℕ) → n ≤ m → ltb m n ≡ false
fits m n h = ground arith

take-drop : (n : ℕ) (xs : List ℕ) → take n xs ++ drop n xs ≡ xs
take-drop zero xs = refl
take-drop (suc n) [] = refl
take-drop (suc n) (x ∷ xs) = ap (λ (t : List ℕ). x ∷ t) (take-drop n xs)

pub drop_nothing : (n : ℕ) → drop {A = ℕ} n [] ≡ []
drop_nothing zero = refl
drop_nothing (suc n) = refl

drop-drop : (m n : ℕ) (xs : List ℕ) → drop (m + n) xs ≡ drop n (drop m xs)
drop-drop zero n xs = rw zero-add refl
drop-drop (suc m) n [] = drop_nothing (suc m + n) ∙ sym (drop_nothing n)
drop-drop (suc m) n (x ∷ xs) = rw (suc-add m n) (drop-drop m n xs)

take-take : (m n : ℕ) (xs : List ℕ) → m ≤ n → take m (take n xs) ≡ take m xs
take-take zero n xs h = refl
take-take (suc m) zero xs h = absurd (omega arith)
take-take (suc m) (suc n) [] h = refl
take-take (suc m) (suc n) (x ∷ xs) h = ap (λ (t : List ℕ). x ∷ t) (take-take m n xs (omega arith))

drop_all : (n : ℕ) (xs : List ℕ) → n ≡ length xs → drop n xs ≡ []
drop_all n [] h = drop_nothing n
drop_all zero (x ∷ xs) h = absurd (omega arith)
drop_all (suc n) (x ∷ xs) h = drop_all n xs (omega arith)

advance-unsent :
    (written : ℕ) (s : Adapter) → unsent (advance written s).1 ≡ drop written (unsent s)
unfolding advance unsent
advance-unsent written s = elim (Bool-cases (s.pending_offset + written == length s.pending)) [
  | inl e ↦
      rw (advance, e)
        (sym (drop_all (s.pending_offset + written) s.pending (ground arith))
          ∙ drop-drop s.pending_offset written s.pending)
  | inr e ↦ rw (advance, e) (drop-drop s.pending_offset written s.pending)
]

settle-unsent :
    (attempt written : ℕ) (s : Adapter)
    → written ≤ attempt
    → unsent (settle attempt written s).1 ≡ drop written (unsent s)
unfolding settle
settle-unsent attempt written s h = elim (Bool-cases (written == 0)) [
  | inl e ↦ let z : written ≡ 0 = ground arith in rw (settle, fits attempt written h, e) (rw z refl)
  | inr e ↦ rw (settle, fits attempt written h, e) (advance-unsent written s)
]

pub length-take-le : (n : ℕ) (xs : List ℕ) → length (take n xs) ≤ n
length-take-le n xs = omega (arith, length-take n xs)

pub none_pending : (n : ℕ) → n ≡ 0 → (n == 0) ≡ true
none_pending n e = ground arith

pub none_pending_not : (n : ℕ) → 0 < n → (n == 0) ≡ false
none_pending_not n h = ground arith

submit_accepts :
    (bytes : List ℕ) (s : Adapter)
    → length s.pending ≡ 0
    → 0 < length bytes
    → length bytes ≤ 140
    → (decode_frame (some bytes) zero_frame).0 ≡ DecodeResult.ok
    → submit (some bytes) s ≡ (SubmitStatus.ok, record s { pending = bytes; pending_offset = 0 })
unfolding submit
submit_accepts bytes s e p q d =
    rw
      (
        none_pending (length s.pending) e,
        none_pending_not (length bytes) p,
        fits 140 (length bytes) q,
        d,
      )
      refl

-- A frame that the protocol allows, encoded, is accepted by an adapter with nothing pending.
pub submit-encode_frame :
    (f : Frame) (capacity : ℕ) (s : Adapter)
    → IsFrame f
    → f.payload_length + 12 ≤ capacity
    → length s.pending ≡ 0
    → (bytes : List ℕ) × (encode_frame f (some capacity) ≡ Encoded.ok bytes)
      × (length bytes ≡ f.payload_length + 12)
      × (submit (some bytes) s
          ≡ (SubmitStatus.ok, record s { pending = bytes; pending_offset = 0 }))
submit-encode_frame f capacity s v h e =
    let (candidate, encoded, l, z, d) = decode_frame-encode_frame f zero_frame capacity v h in
    let bytes : List ℕ = candidate ++ (0 ∷ []) in
    let size : length bytes ≡ f.payload_length + 12 =
      omega (arith, l, length-append candidate (0 ∷ [])) in
    (
      bytes,
      encoded,
      size,
      submit_accepts bytes s e (omega (arith, size)) (omega (arith, size, v.short))
          (ap (λ (r : DecodeResult × Frame). r.0) d),
    )

module _ (stream : ByteStream) (honest : IsHonest stream) where
  open stream use {World, write, available_for_write}
  open honest use {sent}

  -- What was sent, and after it what is still to be sent.
  abbrev pub in_flight : Adapter × World → List ℕ
  in_flight t = sent t.1 ++ unsent t.0

  transmit-in_flight :
      (attempt : ℕ) (s : Adapter) (w : World)
      → in_flight (transmit stream attempt s w).1 ≡ in_flight (s, w)
  unfolding transmit unsent
  transmit-in_flight attempt s w =
      let chunk = take attempt (unsent s) in
      let accepted = (write chunk w).0 in
      let enough : accepted ≤ attempt =
        omega (arith, honest.write_bounded chunk w, length-take-le attempt (unsent s)) in
      ap₂ (λ (xs : List ℕ) (ys : List ℕ). xs ++ ys)
        (honest.write_sends chunk w
          ∙ ap (λ (t : List ℕ). sent w ++ t) (take-take accepted attempt (unsent s) enough))
        (settle-unsent attempt accepted s enough)
      ∙ append_assoc (sent w) (take accepted (unsent s)) (drop accepted (unsent s))
      ∙ ap (λ (t : List ℕ). sent w ++ t) (take-drop accepted (unsent s))

  in_flight-if :
      (test : Bool) (x y : TxResult × (Adapter × World)) (bytes : List ℕ)
      → in_flight x.1 ≡ bytes
      → in_flight y.1 ≡ bytes
      → in_flight (if test then x else y).1 ≡ bytes
  in_flight-if true x y bytes h k = h
  in_flight-if false x y bytes h k = k

  -- Whatever the budget and whatever the stream accepts, a call of `serviceTx` on an honest stream
  -- moves bytes from the front of what is to be sent to the end of what was sent: together they are the same
  -- bytes in the same order.
  pub service_tx-in_flight :
      (budget : ℕ) (s : Adapter) (w : World)
      → in_flight (service_tx stream budget s w).1 ≡ in_flight (s, w)
  unfolding service_tx
  service_tx-in_flight budget s w =
      let w' = (available_for_write w).1 in
      let kept : in_flight (s, w') ≡ in_flight (s, w) =
        ap (λ (t : List ℕ). t ++ unsent s) (honest.query_keeps w) in
      in_flight-if (length s.pending == 0) _ _ _ refl (
        in_flight-if (budget == 0) _ _ _ refl (
          in_flight-if ((available_for_write w).0 == 0) _ _ _ kept (
            transmit-in_flight (min (min (available_for_write w).0 budget) (remaining_tx s)) s w'
            ∙ kept)))

  -- Calls of `serviceTx` with the given budgets.
  unfoldable pub service_all : List ℕ → Adapter × World → Adapter × World
  service_all [] t = t
  service_all (budget ∷ budgets) t = service_all budgets (service_tx stream budget t.0 t.1).1

  pub service_all-in_flight :
      (budgets : List ℕ) (t : Adapter × World) → in_flight (service_all budgets t) ≡ in_flight t
  unfolding service_all
  service_all-in_flight [] t = refl
  service_all-in_flight (budget ∷ budgets) t =
      service_all-in_flight budgets (service_tx stream budget t.0 t.1).1
      ∙ service_tx-in_flight budget t.0 t.1

  -- A frame that the protocol allows, encoded into a buffer of at least twelve bytes more than its
  -- payload and submitted to an adapter with nothing pending, is accepted; after any number of calls
  -- of `serviceTx` with any budgets, what an honest stream has sent since and what is still to be sent
  -- are together the frame's bytes, so none is lost, doubled or out of order.
  pub submit-service_all :
      (f : Frame) (capacity : ℕ) (budgets : List ℕ) (s : Adapter) (w : World)
      → IsFrame f
      → f.payload_length + 12 ≤ capacity
      → length s.pending ≡ 0
      → (bytes : List ℕ) × (encode_frame f (some capacity) ≡ Encoded.ok bytes)
        × ((submit (some bytes) s).0 ≡ SubmitStatus.ok)
        × (in_flight (service_all budgets ((submit (some bytes) s).1, w)) ≡ sent w ++ bytes)
  unfolding unsent
  submit-service_all f capacity budgets s w v h e =
      let (bytes, encoded, size, accepted) = submit-encode_frame f capacity s v h e in
      (
        bytes,
        encoded,
        ap (λ (r : SubmitStatus × Adapter). r.0) accepted,
        service_all-in_flight budgets ((submit (some bytes) s).1, w)
            ∙ ap (λ (r : SubmitStatus × Adapter). sent w ++ unsent r.1) accepted,
      )
