-- ===== src/HostProtocol/Frame/RoundTrip.antt =====
-- `decodeFrame` undoes `encodeFrame` (lib/host_protocol/src/host_protocol.h).
use argus_redline.Base.{
  ℕ, zero, suc, ◌+◌, ◌-◌, ◌/◌, ◌^◌, ◌≤◌, ◌<◌, ◌≡◌, ◌≢◌, refl, subst, ap, ◌∙◌, arith, true, false,
  ◌||◌, some, List, [], ◌∷◌, ◌++◌, ltb, leb, ◌==◌, length, get_or, take, replicate, copy, All,
  length-append, append_assoc, length-take, take-append, ==_refl,
}
use argus_redline.Base.Words.{IsU16, u8, join_u16-split}
use argus_redline.HostProtocol.Cobs
use argus_redline.HostProtocol.Cobs.{cobs_encode, cobs_decode}
use argus_redline.HostProtocol.Cobs.RoundTrip.{cobs_decode-cobs_encode}
use argus_redline.HostProtocol.Crc16.{crc16_ccitt_false, crc16_ccitt_false-IsU16}
use argus_redline.HostProtocol.Frame.{
  Frame, MessageType, message_type_code, message_type_of_code, is_known_message_type, hello_request,
  hello_response, operation_request, operation_response, protocol_error, unknown,
  is_supported_version, has_supported_flags, is_valid_envelope_request_id, Encoded, DecodeResult,
  body, crc_bytes, decoded_bytes, encode_decoded, encode_frame, decoded_payload_length,
  candidate_frame, check_vocabulary, stored_crc, decode_decoded, decode_candidate, decode_frame,
}

-- A frame that `encodeFrame` accepts, with a payload of its stated length.
pub record IsFrame (f : Frame) : Type 0 where
  pub version : is_supported_version f.major f.minor ≡ true
  pub known : is_known_message_type f.message_type ≡ true
  pub flags : has_supported_flags f.flags ≡ true
  pub identifier : is_valid_envelope_request_id f.message_type f.request_id ≡ true
  pub identifier_word : IsU16 f.request_id
  pub short : f.payload_length ≤ 128
  pub whole : f.payload_length ≤ length f.payload

-- The frame that a decoder makes of it: the payload past its length is 0.
abbrev pub received : Frame → Frame
received f = record f { payload = copy f.payload_length (replicate 128 0) f.payload }

message_type_round :
    (t : MessageType)
    → is_known_message_type t ≡ true
    → message_type_of_code (message_type_code t) ≡ t
message_type_round hello_request h = refl
message_type_round hello_response h = refl
message_type_round operation_request h = refl
message_type_round operation_response h = refl
message_type_round protocol_error h = refl
message_type_round (unknown n) h = cc

get_first : (k : ℕ) (xs ys : List ℕ) (y : ℕ) → length xs ≡ k → get_or (xs ++ (y ∷ ys)) k 0 ≡ y
get_first zero [] ys y e = refl
get_first zero (x ∷ xs) ys y e = absurd (omega arith)
get_first (suc k) [] ys y e = absurd (omega arith)
get_first (suc k) (x ∷ xs) ys y e = get_first k xs ys y (omega arith)

get_second :
    (k : ℕ) (xs ys : List ℕ) (y z : ℕ) → length xs ≡ k → get_or (xs ++ (y ∷ z ∷ ys)) (k + 1) 0 ≡ z
get_second k xs ys y z e =
    subst (λ (l : List ℕ). get_or l (k + 1) 0 ≡ z) (append_assoc xs (y ∷ []) (z ∷ ys))
      (get_first (k + 1) (xs ++ (y ∷ [])) ys z (omega (arith, length-append xs (y ∷ []))))

stored_crc-append :
    (xs : List ℕ) (crc k : ℕ) → length xs ≡ k → IsU16 crc → stored_crc (xs ++ crc_bytes crc) k ≡ crc
unfolding stored_crc
stored_crc-append xs crc k e h =
    rw
      (
        get_first k xs (u8 (crc / 2 ^ 8) ∷ []) (u8 crc) e,
        get_second k xs [] (u8 crc) (u8 (crc / 2 ^ 8)) e,
      )
      (join_u16-split crc h)

length-body : (f : Frame) → IsFrame f → length (body f) ≡ 8 + f.payload_length
unfolding body
length-body f v = omega (arith, v.whole, length-take f.payload_length f.payload)

length-decoded_bytes : (f : Frame) → IsFrame f → length (decoded_bytes f) ≡ 10 + f.payload_length
unfolding decoded_bytes
length-decoded_bytes f v =
    omega (arith, length-body f v, length-append (body f) (crc_bytes (crc16_ccitt_false (body f))))

decoded_payload_length_lem :
    (f : Frame) → IsFrame f → decoded_payload_length (decoded_bytes f) ≡ f.payload_length
unfolding decoded_bytes body
decoded_payload_length_lem f v = join_u16-split f.payload_length (omega (arith, v.short))

stored_crc_lem :
    (f : Frame)
    → IsFrame f
    → stored_crc (decoded_bytes f) (8 + f.payload_length) ≡ crc16_ccitt_false (body f)
unfolding decoded_bytes
stored_crc_lem f v =
    stored_crc-append (body f) _ _ (length-body f v) (crc16_ccitt_false-IsU16 (body f))

copy-take_append :
    (n : ℕ) (ds xs ys : List ℕ) → n ≤ length xs → copy n ds (take n xs ++ ys) ≡ copy n ds xs
copy-take_append zero ds xs ys h = refl
copy-take_append (suc n) [] xs ys h = ground arith
copy-take_append (suc n) (d ∷ ds) [] ys h = absurd (omega arith)
copy-take_append (suc n) (d ∷ ds) (x ∷ xs) ys h =
    ap (λ (t : List ℕ). x ∷ t) (copy-take_append n ds xs ys (omega arith))

candidate_frame_lem : (f : Frame) → IsFrame f → candidate_frame (decoded_bytes f) ≡ received f
unfolding candidate_frame decoded_bytes body
candidate_frame_lem f v =
    rw
      (
        decoded_payload_length_lem f v,
        message_type_round f.message_type v.known,
        join_u16-split f.request_id v.identifier_word,
      )
      (ap (λ (p : List ℕ). record f { payload = p })
        (copy-take_append f.payload_length (replicate 128 0) f.payload _ v.whole))

major_lem : (f : Frame) → is_supported_version f.major f.minor ≡ true → (f.major == 0) ≡ true
major_lem f h = ground arith

minor_lem :
    (f : Frame)
    → is_supported_version f.major f.minor ≡ true
    → (ltb f.minor 1 || ltb 2 f.minor) ≡ false
minor_lem f h = ground arith

check_vocabulary_lem : (f : Frame) → IsFrame f → check_vocabulary (received f) ≡ DecodeResult.ok
unfolding check_vocabulary
check_vocabulary_lem f v =
    rw (major_lem f v.version, minor_lem f v.version, v.known, v.flags, v.identifier) refl

body_lem : (f : Frame) → IsFrame f → take (8 + f.payload_length) (decoded_bytes f) ≡ body f
unfolding decoded_bytes
body_lem f v = take-append (8 + f.payload_length) (body f) _ (length-body f v)

length_in_range : (m n : ℕ) → m ≡ 10 + n → n ≤ 128 → (ltb m 10 || ltb 138 m) ≡ false
length_in_range m n e h = ground arith

same_length : (m n : ℕ) → m ≡ 10 + n → (m == 10 + n) ≡ true
same_length m n e = ground arith

fits : (m n : ℕ) → n ≤ m → ltb m n ≡ false
fits m n h = ground arith

decode_decoded_lem :
    (f g : Frame) → IsFrame f → decode_decoded (decoded_bytes f) g ≡ (DecodeResult.ok, received f)
unfolding decode_decoded
decode_decoded_lem f g v =
    rw
      (
        length_in_range (length (decoded_bytes f)) f.payload_length (length-decoded_bytes f v)
            v.short,
        decoded_payload_length_lem f v,
        fits 128 f.payload_length v.short,
        same_length (length (decoded_bytes f)) f.payload_length (length-decoded_bytes f v),
        body_lem f v,
        stored_crc_lem f v,
        ==_refl (crc16_ccitt_false (body f)),
        candidate_frame_lem f v,
        check_vocabulary_lem f v,
      )
      refl

get_last : (xs : List ℕ) (y : ℕ) → get_or (xs ++ (y ∷ [])) (length xs) 0 ≡ y
get_last xs y = get_first (length xs) xs [] y refl

not_zero : (n : ℕ) → (suc n == 0) ≡ false
not_zero n = ground arith

one_more : (xs : List ℕ) → length (xs ++ (0 ∷ [])) ≡ suc (length xs)
one_more xs = omega (arith, length-append xs (0 ∷ []))

not_empty : (n : ℕ) → 0 < n → (n == 0) ≡ false
not_empty n h = ground arith

less_one : (n : ℕ) → suc n - 1 ≡ n
less_one n = omega arith

room : (xs : List ℕ) (n : ℕ) → length xs < suc n → leb (suc n) (length xs) ≡ false
room xs n h = ground arith

-- The frame's bytes, sealed and stuffed, with the delimiter after them.
encode_decoded_lem :
    (decoded candidate : List ℕ) (capacity : ℕ)
    → cobs_encode decoded (some capacity) ≡ Cobs.ok candidate
    → length candidate < suc capacity
    → encode_decoded decoded (suc capacity) ≡ Encoded.ok (candidate ++ (0 ∷ []))
unfolding encode_decoded
encode_decoded_lem decoded candidate capacity e h =
    rw (not_zero capacity, less_one capacity, e, room candidate capacity h) refl

encode_frame_lem :
    (f : Frame) (capacity : ℕ)
    → IsFrame f
    → encode_frame f (some capacity) ≡ encode_decoded (decoded_bytes f) capacity
unfolding encode_frame
encode_frame_lem f capacity v =
    rw (fits 128 f.payload_length v.short, v.version, v.known, v.flags, v.identifier) refl

decode_candidate_lem :
    (candidate decoded : List ℕ) (g : Frame)
    → cobs_decode (some candidate) (some 138) ≡ Cobs.ok decoded
    → decode_candidate candidate g ≡ decode_decoded decoded g
unfolding decode_candidate
decode_candidate_lem candidate decoded g d = rw (decode_candidate, d) refl

-- A delimited candidate of at most 139 bytes that decodes to the frame's bytes.
decode_frame_lem :
    (f g : Frame) (candidate : List ℕ)
    → IsFrame f
    → 0 < length candidate
    → length candidate ≤ 139
    → cobs_decode (some candidate) (some 138) ≡ Cobs.ok (decoded_bytes f)
    → decode_frame (some (candidate ++ (0 ∷ []))) g ≡ (DecodeResult.ok, received f)
unfolding decode_frame
decode_frame_lem f g candidate v p h d =
    rw
      (
        one_more candidate,
        less_one (length candidate),
        not_zero (length candidate),
        fits 140 (suc (length candidate)) (omega arith),
        get_last candidate 0,
        not_empty (length candidate) p,
        take-append (length candidate) candidate (0 ∷ []) refl,
      )
      (decode_candidate_lem candidate (decoded_bytes f) g d ∙ decode_decoded_lem f g v)

-- A frame that the protocol allows is encoded into a buffer of at least twelve bytes more than its
-- payload, as bytes of which the last and only the last is the delimiter 0; decoding them returns OK and leaves
-- the frame, its payload filled up with 0, whatever the variable held before.
pub decode_frame-encode_frame :
    (f g : Frame) (capacity : ℕ)
    → IsFrame f
    → f.payload_length + 12 ≤ capacity
    → (candidate : List ℕ) × (encode_frame f (some capacity) ≡ Encoded.ok (candidate ++ (0 ∷ [])))
      × (length candidate ≡ f.payload_length + 11)
      × All (λ b. b ≢ 0) candidate
      × (decode_frame (some (candidate ++ (0 ∷ []))) g ≡ (DecodeResult.ok, received f))
decode_frame-encode_frame f g zero v c = absurd (omega arith)
decode_frame-encode_frame f g (suc capacity) v c =
    let size = length-decoded_bytes f v in
    let (candidate, e, l, z, d) =
      cobs_decode-cobs_encode (decoded_bytes f) capacity 138 (omega (arith, size, v.short))
        (omega (arith, size)) (omega (arith, size, v.short)) in
    (
      candidate,
      encode_frame_lem f (suc capacity) v
          ∙ encode_decoded_lem (decoded_bytes f) candidate capacity e (omega (arith, l, size)),
      omega (arith, l, size),
      z,
      decode_frame_lem f g candidate v (omega (arith, l, size)) (omega (arith, l, size, v.short)) d,
    )
