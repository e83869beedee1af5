-- ===== src/HostProtocol/Stream/Resync.antt =====
-- The parser finds every frame that follows a delimiter, whatever came before it
-- (lib/host_protocol/src/host_protocol_stream.h).
use argus_redline.Base.{
  ℕ, ◌+◌, ◌≤◌, ◌<◌, ◌≡◌, ◌≢◌, refl, sym, ap, ap₂, ◌∙◌, arith, Bool, true, false, not, some, List,
  [], ◌∷◌, ◌++◌, append_assoc, append_nil, ltb, ◌==◌, if◌then◌else◌, length, length-append, All,
}
use argus_redline.HostProtocol.Frame.{Frame, DecodeResult, Encoded, encode_frame, decode_frame}
use argus_redline.HostProtocol.Frame.RoundTrip.{IsFrame, received, decode_frame-encode_frame}
use argus_redline.HostProtocol.Stream.{
  StreamParser, StreamEvent, frame_ready, reset, zero_frame, Step, continue, return, discard,
  collect, complete, step, consume_bytes, consume,
}

abbrev pub parser_of : Step → StreamParser
parser_of (continue p) = p
parser_of (return e d f p) = p

-- The parser after bytes that are given to it in any number of calls.
pub parser_after : List ℕ → StreamParser → StreamParser
parser_after [] p = p
parser_after (x ∷ xs) p = parser_after xs (parser_of (step x p))

-- The candidate fits in its array, and is empty while the parser discards.
pub record IsParser (p : StreamParser) : Type 0 where
  pub bounded : length p.candidate ≤ 139
  pub discarding : p.discarding_oversize ≡ true → length p.candidate ≡ 0

pub if_both :
    (P : Step → Type 0) (b : Bool) (x y : Step)
    → (b ≡ true → P x)
    → (b ≡ false → P y)
    → P (if b then x else y)
if_both P true x y h k = h refl
if_both P false x y h k = k refl

abbrev Resets : Step → Type 0
Resets s = parser_of s ≡ reset

room : (n m : ℕ) → ltb n 139 ≡ true → m ≡ n + 1 → m ≤ 139
room n m h e = ground arith

not_delimiter : (x : ℕ) → x ≢ 0 → (x == 0) ≡ false
not_delimiter x h = ground arith

fits : (n : ℕ) → n < 139 → ltb n 139 ≡ true
fits n h = ground arith

abbrev KeepsParser : Step → Type 0
KeepsParser s = IsParser (parser_of s)

reset-IsParser : IsParser reset
reset-IsParser = record { bounded = omega arith; discarding = λ e. refl }

-- A full candidate is given up, so the array is never written past its end.
collect-IsParser :
    (x : ℕ) (p : StreamParser) → p.discarding_oversize ≡ false → KeepsParser (collect x p)
unfolding collect
collect-IsParser x p e =
    if_both KeepsParser (ltb (length p.candidate) 139) _ _
      (λ h. record {
        bounded = room (length p.candidate) _ h (length-append p.candidate (x ∷ []));
        discarding = λ d. cc;
      })
      λ h. record { bounded = omega arith; discarding = λ d. refl }

complete-IsParser : (p : StreamParser) → IsParser p → KeepsParser (complete p)
unfolding complete
complete-IsParser p v =
    if_both KeepsParser (length p.candidate == 0) _ _ (λ h. v) λ h. reset-IsParser

-- Every byte keeps the candidate within its array of 139 bytes.
pub step-IsParser : (x : ℕ) (p : StreamParser) → IsParser p → IsParser (parser_of (step x p))
unfolding step discard
step-IsParser x p v =
    if_both KeepsParser p.discarding_oversize _ _
      (λ d. if_both KeepsParser (x == 0) _ _ (λ h. reset-IsParser) λ h. v)
      λ d.
        if_both KeepsParser (not (x == 0)) _ _ (λ h. collect-IsParser x p d)
          λ h. complete-IsParser p v

no_bytes : (xs : List ℕ) → (length xs == 0) ≡ true → xs ≡ []
no_bytes [] h = refl
no_bytes (x ∷ xs) h = absurd (ground arith)

step-delimiter : (p : StreamParser) → parser_of (step 0 p) ≡ reset
unfolding step discard complete
step-delimiter p =
    if_both Resets p.discarding_oversize _ _ (λ d. refl)
      λ d.
        if_both Resets (length p.candidate == 0) _ _
          (λ h. λ k. record { candidate = no_bytes p.candidate h k; discarding_oversize = d k })
          λ h. refl

parser_after-append :
    (xs ys : List ℕ) (p : StreamParser)
    → parser_after (xs ++ ys) p ≡ parser_after ys (parser_after xs p)
unfolding parser_after
parser_after-append [] ys p = refl
parser_after-append (x ∷ xs) ys p = parser_after-append xs ys (parser_of (step x p))

-- After a delimiter the parser is as new, whatever it was and whatever came before.
pub parser_after-delimiter :
    (xs : List ℕ) (p : StreamParser) → parser_after (xs ++ (0 ∷ [])) p ≡ reset
unfolding parser_after
parser_after-delimiter xs p = parser_after-append xs (0 ∷ []) p ∙ step-delimiter (parser_after xs p)

step-collect :
    (x : ℕ) (c : List ℕ)
    → x ≢ 0
    → length c < 139
    → step x (record { candidate = c; discarding_oversize = false })
      ≡ continue (record { candidate = c ++ (x ∷ []); discarding_oversize = false })
unfolding step collect
step-collect x c h l = rw (not_delimiter x h, fits (length c) l) refl

pub consume_bytes-continue :
    (x : ℕ) (xs : List ℕ) (n : ℕ) (p q : StreamParser)
    → step x p ≡ continue q
    → consume_bytes (x ∷ xs) n p ≡ consume_bytes xs (n + 1) q
unfolding consume_bytes
consume_bytes-continue x xs n p q e = rw (consume_bytes, e) refl

pub consume_bytes-return :
    (x : ℕ) (xs : List ℕ) (n : ℕ) (p q : StreamParser) (e : StreamEvent) (r : DecodeResult)
    (f : Frame)
    → step x p ≡ return e r f q
    → consume_bytes (x ∷ xs) n p
      ≡ (record { consumed = n + 1; event = e; decode_result = r; frame = f }, q)
unfolding consume_bytes
consume_bytes-return x xs n p q e r f h = rw (consume_bytes, h) refl

-- A candidate's bytes are collected.
consume_bytes-collect :
    (xs rest c : List ℕ) (n : ℕ)
    → All (λ x. x ≢ 0) xs
    → length c + length xs ≤ 139
    → consume_bytes (xs ++ rest) n (record { candidate = c; discarding_oversize = false })
      ≡ consume_bytes rest
          (n + length xs)
          (record { candidate = c ++ xs; discarding_oversize = false })
unfolding consume_bytes
consume_bytes-collect [] rest c n h l =
    ap₂
      (λ (m : ℕ) (l : List ℕ).
        consume_bytes rest m (record { candidate = l; discarding_oversize = false }))
      (omega arith) (sym (append_nil c))
consume_bytes-collect (x ∷ xs) rest c n h l =
    consume_bytes-continue x (xs ++ rest) n (record { candidate = c; discarding_oversize = false })
      _ (step-collect x c h.0 (omega arith))
    ∙ (consume_bytes-collect xs rest (c ++ (x ∷ [])) (n + 1) h.1
          (omega (arith, length-append c (x ∷ [])))
        ∙ ap₂
            (λ (m : ℕ) (l : List ℕ).
              consume_bytes rest m (record { candidate = l; discarding_oversize = false }))
            (omega arith) (append_assoc c (x ∷ []) xs))

step_complete :
    (c : List ℕ) (f : Frame)
    → 0 < length c
    → decode_frame (some (c ++ (0 ∷ []))) zero_frame ≡ (DecodeResult.ok, f)
    → step 0 (record { candidate = c; discarding_oversize = false })
      ≡ return frame_ready DecodeResult.ok f reset
unfolding step complete
step_complete c f h d = rw (not_delimiter (length c) (omega arith), d) refl

consume_bytes_complete :
    (c rest : List ℕ) (f : Frame) (n : ℕ)
    → 0 < length c
    → decode_frame (some (c ++ (0 ∷ []))) zero_frame ≡ (DecodeResult.ok, f)
    → consume_bytes (0 ∷ rest) n (record { candidate = c; discarding_oversize = false }) ≡ (
      record { consumed = n + 1; event = frame_ready; decode_result = DecodeResult.ok; frame = f },
      reset,
    )
unfolding consume_bytes
consume_bytes_complete c rest f n h d =
    consume_bytes-return 0 rest n (record { candidate = c; discarding_oversize = false }) reset
      frame_ready DecodeResult.ok f (step_complete c f h d)

-- Whatever bytes the parser was given before, in however many calls and from whatever state, once they end with
-- a delimiter, the bytes of an encoded frame make the next call consume exactly them and return the
-- frame as ready; what follows them is left for later calls, which start from a new parser.
pub consume-encode_frame :
    (noise rest : List ℕ) (p : StreamParser) (f : Frame) (capacity : ℕ)
    → IsFrame f
    → f.payload_length + 12 ≤ capacity
    → (candidate : List ℕ) × (encode_frame f (some capacity) ≡ Encoded.ok (candidate ++ (0 ∷ [])))
      × (consume (some (candidate ++ (0 ∷ rest))) (parser_after (noise ++ (0 ∷ [])) p) ≡ (
        record {
          consumed = f.payload_length + 12;
          event = frame_ready;
          decode_result = DecodeResult.ok;
          frame = received f;
        },
        reset,
      ))
unfolding consume
consume-encode_frame noise rest p f capacity v h =
    let (candidate, e, l, z, d) = decode_frame-encode_frame f zero_frame capacity v h in
    (
      candidate,
      e,
      rw (parser_after-delimiter noise p) (
          consume_bytes-collect candidate (0 ∷ rest) [] 0 z (omega (arith, l, v.short))
          ∙ consume_bytes_complete candidate rest (received f) (0 + length candidate)
              (omega (arith, l)) d
          ∙ ap
              (λ (n : ℕ). (
                record {
                  consumed = n;
                  event = frame_ready;
                  decode_result = DecodeResult.ok;
                  frame = received f;
                },
                reset,
              ))
              (omega (arith, l))),
    )
