-- ===== src/Examples/Transport.antt =====
-- The adapter of lib/host_transport/src/host_transport.h on a stream in memory.
use argus_redline.Base.{
  ℕ, zero, suc, All, ◌+◌, ◌<◌, false, ◌≤◌, ◌≡◌, refl, arith, some, none, List, [], ◌∷◌, ◌++◌,
  length, take, replicate, length-take,
}
use argus_redline.HostProtocol.Frame.{Frame, hello_request, Encoded, encode_frame}
use argus_redline.HostProtocol.Frame.RoundTrip.{IsFrame}
use argus_redline.HostTransport.Interface.{ByteStream, IsHonest}
use argus_redline.HostTransport.{reset, submit, SubmitStatus, has_pending_tx}
use argus_redline.HostTransport.Completion.{IsPositive, IsWilling, submit_completes}
use argus_redline.HostTransport.Delivery.{in_flight, service_all, submit-service_all}

-- Its state is what was sent; it takes at most two bytes at a time.
abbrev slow : ByteStream
slow = record {
  World = List ℕ;
  available = λ w. (0, w);
  read = λ w. (none, w);
  available_for_write = λ w. (9, w);
  write = λ bytes w. (length (take 2 bytes), w ++ take 2 bytes);
}

slow-IsHonest : IsHonest slow
slow-IsHonest = record {
  sent = λ w. w;
  write_bounded = bounded;
  write_sends = sends;
  query_keeps = λ w. refl;
}
  where
    bounded : (bytes w : List ℕ) → length (take 2 bytes) ≤ length bytes
    bounded bytes w = omega (arith, length-take 2 bytes)

    sends : (bytes w : List ℕ) → w ++ take 2 bytes ≡ w ++ take (length (take 2 bytes)) bytes
    sends [] w = refl
    sends (x ∷ []) w = refl
    sends (x ∷ y ∷ bytes) w = refl

abbrev ping : Frame
ping = record {
  major = 0;
  minor = 1;
  message_type = hello_request;
  flags = 0;
  request_id = 1;
  payload_length = 1;
  payload = 7 ∷ replicate 127 0;
}

ping-IsFrame : IsFrame ping
ping-IsFrame = record {
  version = refl;
  known = refl;
  flags = refl;
  identifier = refl;
  identifier_word = omega arith;
  short = omega arith;
  whole = omega arith;
}

submit-service_all_example :
    (bytes : List ℕ) × (encode_frame ping (some 64) ≡ Encoded.ok bytes)
    × ((submit (some bytes) reset).0 ≡ SubmitStatus.ok)
    × (in_flight slow slow-IsHonest
          (service_all slow slow-IsHonest (5 ∷ 1 ∷ 0 ∷ 64 ∷ []) ((submit (some bytes) reset).1, []))
        ≡ [] ++ bytes)
unfolding slow-IsHonest
submit-service_all_example =
    submit-service_all slow slow-IsHonest ping 64 (5 ∷ 1 ∷ 0 ∷ 64 ∷ []) reset [] ping-IsFrame
      (omega arith) refl

slow-IsWilling : IsWilling slow
slow-IsWilling = record { writable = λ w. omega arith; accepts = takes }
  where
    takes : (bytes w : List ℕ) → 0 < length bytes → 0 < length (take 2 bytes)
    takes bytes w h = omega (arith, length-take 2 bytes)

abbrev budgets : ℕ → List ℕ
budgets zero = []
budgets (suc n) = (n + 1) ∷ budgets n

budgets-IsPositive : (n : ℕ) → All IsPositive (budgets n)
budgets-IsPositive zero = tt
budgets-IsPositive (suc n) = (omega arith, budgets-IsPositive n)

submit_completes_example :
    (bytes : List ℕ) × (encode_frame ping (some 64) ≡ Encoded.ok bytes)
    × (has_pending_tx
          (service_all slow slow-IsHonest (budgets 13) ((submit (some bytes) reset).1, [])).0
        ≡ false)
    × ((service_all slow slow-IsHonest (budgets 13) ((submit (some bytes) reset).1, [])).1
        ≡ [] ++ bytes)
unfolding slow-IsHonest
submit_completes_example =
    submit_completes slow slow-IsHonest slow-IsWilling ping 64 (budgets 13) reset [] ping-IsFrame
      (omega arith) refl (budgets-IsPositive 13) (omega arith)
