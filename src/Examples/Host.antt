-- ===== src/Examples/Host.antt =====
-- The frames of lib/host_protocol at concrete values.
use argus_redline.Base.{
  ℕ, ◌+◌, ◌≡◌, ◌≢◌, refl, arith, true, some, List, [], ◌∷◌, ◌++◌, length, replicate, All,
  if◌then◌else◌,
}
use argus_redline.HostProtocol.Cobs
use argus_redline.HostProtocol.Cobs.{cobs_encode, cobs_decode}
use argus_redline.HostProtocol.Cobs.RoundTrip.{cobs_decode-cobs_encode}
use argus_redline.HostProtocol.Frame.{
  Frame, hello_request, Encoded, DecodeResult, encode_frame, decode_frame,
}
use argus_redline.HostProtocol.Frame.RoundTrip.{IsFrame, received, decode_frame-encode_frame}
use argus_redline.HostProtocol.Stream.{StreamParser, reset, zero_frame, frame_ready, consume}
use argus_redline.HostProtocol.Stream.Resync.{parser_after, IsParser, consume-encode_frame}
use argus_redline.HostProtocol.Stream.Chunks.{is_quiet, later, consume-append}

cobs_decode-cobs_encode_example :
    (bytes : List ℕ) × (cobs_encode (1 ∷ 0 ∷ 2 ∷ []) (some 4) ≡ Cobs.ok bytes)
    × (length bytes ≡ 3 + 1)
    × All (λ v. v ≢ 0) bytes
    × (cobs_decode (some bytes) (some 3) ≡ Cobs.ok (1 ∷ 0 ∷ 2 ∷ []))
cobs_decode-cobs_encode_example =
    cobs_decode-cobs_encode (1 ∷ 0 ∷ 2 ∷ []) 4 3 (omega arith) (omega arith) (omega arith)

abbrev hello : Frame
hello = record {
  major = 0;
  minor = 2;
  message_type = hello_request;
  flags = 0;
  request_id = 0x0102;
  payload_length = 2;
  payload = 1 ∷ 2 ∷ replicate 126 0;
}

hello-IsFrame : IsFrame hello
hello-IsFrame = record {
  version = refl;
  known = refl;
  flags = refl;
  identifier = refl;
  identifier_word = omega arith;
  short = omega arith;
  whole = omega arith;
}

decode_frame-encode_frame_example :
    (candidate : List ℕ) × (encode_frame hello (some 140) ≡ Encoded.ok (candidate ++ (0 ∷ [])))
    × (length candidate ≡ 2 + 11)
    × All (λ b. b ≢ 0) candidate
    × (decode_frame (some (candidate ++ (0 ∷ []))) zero_frame ≡ (DecodeResult.ok, received hello))
decode_frame-encode_frame_example =
    decode_frame-encode_frame hello zero_frame 140 hello-IsFrame (omega arith)

-- A parser that discards.
abbrev discarding : StreamParser
discarding = record { candidate = []; discarding_oversize = true }

consume-encode_frame_example :
    (candidate : List ℕ) × (encode_frame hello (some 140) ≡ Encoded.ok (candidate ++ (0 ∷ [])))
    × (consume
          (some (candidate ++ (0 ∷ 5 ∷ [])))
          (parser_after ((3 ∷ 4 ∷ []) ++ (0 ∷ [])) discarding)
        ≡ (
          record {
            consumed = 2 + 12;
            event = frame_ready;
            decode_result = DecodeResult.ok;
            frame = received hello;
          },
          reset,
        ))
consume-encode_frame_example =
    consume-encode_frame (3 ∷ 4 ∷ []) (5 ∷ []) discarding hello 140 hello-IsFrame (omega arith)

discarding-IsParser : IsParser discarding
discarding-IsParser = record { bounded = omega arith; discarding = λ e. refl }

consume-append_example :
    let (r, q) = consume (some (3 ∷ [])) reset in
    consume (some (3 ∷ 4 ∷ 0 ∷ [])) reset
    ≡ (if is_quiet r.event then later 1 (consume (some (4 ∷ 0 ∷ [])) q) else (r, q))
consume-append_example = consume-append (3 ∷ []) (4 ∷ 0 ∷ []) reset
