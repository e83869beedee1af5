-- ===== src/HostProtocol/Stream/Chunks.antt =====
-- How the serial input is cut into calls of `consume` makes no difference
-- (lib/host_protocol/src/host_protocol_stream.h).
use argus_redline.Base.{
  ℕ, ◌+◌, ◌≡◌, refl, subst, ap, ◌∙◌, arith, Bool, some, true, false, not, List, [], ◌∷◌, ◌++◌, ltb,
  ◌==◌, if◌then◌else◌, length, inl, inr, ◌⊎◌,
}
use argus_redline.HostProtocol.Frame.{Frame, DecodeResult, decode_frame}
use argus_redline.HostProtocol.Stream.{
  zero_frame, StreamParser, StreamEvent, no_event, Step, continue, return, discard, collect,
  complete, event_of, step, consume_bytes, consume, StreamResult,
}
use argus_redline.HostProtocol.Stream.Resync.{if_both, consume_bytes-continue, consume_bytes-return}

-- Whether the call has used up its input without an event.
abbrev pub is_quiet : StreamEvent → Bool
is_quiet no_event = true
is_quiet _ = false

abbrev speaks : Step → Bool
speaks (continue p) = true
speaks (return e r f p) = not (is_quiet e)

abbrev Speaks : Step → Type 0
Speaks s = speaks s ≡ true

event_of_speaks : (r : DecodeResult) → is_quiet (event_of r) ≡ false
event_of_speaks DecodeResult.ok = refl
event_of_speaks _ = refl

step-Speaks : (x : ℕ) (p : StreamParser) → Speaks (step x p)
unfolding step discard collect complete
step-Speaks x p =
    if_both Speaks p.discarding_oversize _ _
      (λ d. if_both Speaks (x == 0) _ _ (λ h. refl) λ h. refl)
      λ d.
        if_both Speaks (not (x == 0)) _ _
          (λ h. if_both Speaks (ltb (length p.candidate) 139) _ _ (λ k. refl) λ k. refl)
          λ h.
            if_both Speaks (length p.candidate == 0) _ _ (λ k. refl)
              λ k.
                rw (event_of_speaks (decode_frame (some (p.candidate ++ (0 ∷ []))) zero_frame).0)
                  refl

returned_event : (e : StreamEvent) → not (is_quiet e) ≡ true → is_quiet e ≡ false
returned_event e h = ground arith

Step-cases :
    (s : Step)
    → ((q : StreamParser) × (s ≡ continue q))
      ⊎ ((e : StreamEvent) × (r : DecodeResult) × (f : Frame) × (q : StreamParser) × (s
            ≡ return e r f q))
Step-cases (continue q) = inl (q, refl)
Step-cases (return e r f q) = inr (e, r, f, q, refl)

-- The same of the loop, from any count on.
consume_bytes-append :
    (xs ys : List ℕ) (n : ℕ) (p : StreamParser)
    → let (r, q) = consume_bytes xs n p in
      consume_bytes (xs ++ ys) n p
      ≡ (if is_quiet r.event then consume_bytes ys (n + length xs) q else (r, q))
unfolding consume_bytes
consume_bytes-append [] ys n p = ap (λ m. consume_bytes ys m p) (omega arith)
consume_bytes-append (x ∷ xs) ys n p = elim (Step-cases (step x p)) [
  | inl (q, h) ↦
      rw (consume_bytes-continue x xs n p q h, consume_bytes-continue x (xs ++ ys) n p q h)
        (consume_bytes-append xs ys (n + 1) q
          ∙ ap
              (λ m.
                if is_quiet (consume_bytes xs (n + 1) q).0.event
                then consume_bytes ys m (consume_bytes xs (n + 1) q).1
                else consume_bytes xs (n + 1) q)
              (omega arith))
  | inr (e, r, f, q, h) ↦
      rw
        (
          consume_bytes-return x xs n p q e r f h,
          consume_bytes-return x (xs ++ ys) n p q e r f h,
          returned_event e (subst Speaks h (step-Speaks x p)),
        )
        refl
]

-- The result of a call that comes after a part of the input was consumed.
abbrev pub later : ℕ → StreamResult × StreamParser → StreamResult × StreamParser
later n (r, q) = (record r { consumed = n + r.consumed }, q)

consume_bytes-later :
    (xs : List ℕ) (m n : ℕ) (p : StreamParser)
    → consume_bytes xs (m + n) p ≡ later m (consume_bytes xs n p)
unfolding consume_bytes
consume_bytes-later [] m n p = refl
consume_bytes-later (x ∷ xs) m n p = elim (Step-cases (step x p)) [
  | inl (q, h) ↦
      rw (consume_bytes-continue x xs (m + n) p q h, consume_bytes-continue x xs n p q h)
        (ap (λ k. consume_bytes xs k q) (omega arith) ∙ consume_bytes-later xs m (n + 1) q)
  | inr (e, r, f, q, h) ↦
      rw (consume_bytes-return x xs (m + n) p q e r f h, consume_bytes-return x xs n p q e r f h)
        (ap (λ (k : ℕ). (record { consumed = k; event = e; decode_result = r; frame = f }, q))
          (omega arith))
]

-- One call of consume with two parts of an input does what a call with the first part does if that
-- returns an event, and otherwise what a second call, with the second part and the parser that the first
-- has left, does, with the length of the first part added to what it has consumed.
pub consume-append :
    (xs ys : List ℕ) (p : StreamParser)
    → let (r, q) = consume (some xs) p in
      consume (some (xs ++ ys)) p
      ≡ (if is_quiet r.event then later (length xs) (consume (some ys) q) else (r, q))
unfolding consume
consume-append xs ys p =
    consume_bytes-append xs ys 0 p
    ∙ ap
        (λ (t : StreamResult × StreamParser).
          if is_quiet (consume_bytes xs 0 p).0.event then t else consume_bytes xs 0 p)
        (ap (λ k. consume_bytes ys k (consume_bytes xs 0 p).1) (omega arith)
          ∙ consume_bytes-later ys (length xs) 0 (consume_bytes xs 0 p).1)
