-- ===== src/EventProtocol/RoundTrip.antt =====
-- Events survive the radio packet.
use argus_redline.Base.{
  ℕ, ◌+◌, ◌/◌, ◌^◌, ◌≤◌, ◌≡◌, refl, ap, ◌∙◌, arith, true, some, List, ◌++◌, length, take, copy,
  replicate, copy-append, copy-copy, length-copy, bit_and,
}
use argus_redline.Base.Words.{IsU32, u8, join_u32, join_u32-split}
use argus_redline.Base.Bits.{bit_and_mask}
use argus_redline.Protocol.{decode, empty_packet}
use argus_redline.Protocol.RoundTrip.{received, decode-encode}
use argus_redline.EventProtocol.{
  Event, event_packet, event_of_packet, decode_event_packet, encode_event, decode_event,
  is_valid_event,
}
use argus_redline.EventProtocol.Validity.{IsEvent, is_valid_event-le, is_valid_family_body-copy}

-- A word put together from the bytes that `writeUint32Le` masks out.
pub join_masked :
    (n : ℕ)
    → IsU32 n
    → join_u32
        (bit_and n 0xff)
        (bit_and (n / 2 ^ 8) 0xff)
        (bit_and (n / 2 ^ 16) 0xff)
        (bit_and (n / 2 ^ 24) 0xff)
      ≡ n
join_masked n h =
    rw
      (
        bit_and_mask 8 n,
        bit_and_mask 8 (n / 2 ^ 8),
        bit_and_mask 8 (n / 2 ^ 16),
        bit_and_mask 8 (n / 2 ^ 24),
      )
      (join_u32-split n h)

-- The Event that the receiver holds: the body's array is zero past its length.
abbrev pub delivered : Event → Event
delivered e = record e { body = copy e.body_length (replicate 12 0) e.body }

payload_received :
    (e : Event)
    → e.body_length ≤ 12
    → (received (event_packet e) empty_packet).payload ≡ (event_packet e).payload
unfolding event_packet
payload_received e h = rw small (
    copy-append 14 e.body_length (replicate 14 0) (replicate 12 0)
      (take 14 (event_packet e).payload) (copy e.body_length (replicate 12 0) e.body) refl refl
    ∙ ap (λ t. take 14 (event_packet e).payload ++ t)
        (copy-copy e.body_length (replicate 12 0) e.body))
  where
    small : u8 (14 + e.body_length) ≡ 14 + e.body_length
    small = omega arith

packet_received :
    (e : Event) → e.body_length ≤ 12 → received (event_packet e) empty_packet ≡ event_packet e
packet_received e h =
    ap (λ (t : List ℕ). record (event_packet e) { payload = t }) (payload_received e h)

event_of_event_packet : (e : Event) → IsEvent e → event_of_packet (event_packet e) ≡ delivered e
unfolding event_of_packet event_packet
event_of_event_packet e v = rw (
  join_masked e.epoch v.epoch_word,
  join_masked e.id v.id_word,
  join_masked e.lifetime_budget_seconds v.lifetime_word,
  copy-copy e.body_length (replicate 12 0) e.body,
)

delivered_valid : (e : Event) → is_valid_event e ≡ true → is_valid_event (delivered e) ≡ true
unfolding is_valid_event
delivered_valid e h = rw (is_valid_family_body-copy e.family e.body_length e.body) h

decode_event_packet_lem :
    (e : Event)
    → IsEvent e
    → is_valid_event e ≡ true
    → decode_event_packet (event_packet e) ≡ some (delivered e)
unfolding decode_event_packet event_packet
decode_event_packet_lem e v h =
    ground (arith, event_of_event_packet e v, delivered_valid e h, is_valid_event-le e h)

packet_length :
    (e : Event) → e.body_length ≤ 12 → (event_packet e).payload_length ≡ 14 + e.body_length
unfolding event_packet
packet_length e h = omega arith

payload_size : (e : Event) → length (event_packet e).payload ≡ 26
unfolding event_packet
payload_size e = omega (arith, length-copy e.body_length (replicate 12 0) e.body)

encode_event-valid :
    (e : Event) (capacity : ℕ)
    → is_valid_event e ≡ true
    → 20 + e.body_length ≤ capacity
    → (bytes : List ℕ) × (encode_event e (some capacity) ≡ some bytes)
      × (length bytes ≡ 20 + e.body_length)
      × (decode (some bytes) empty_packet ≡ some (event_packet e))
unfolding encode_event
encode_event-valid e capacity h c =
    let small : e.body_length ≤ 12 = is_valid_event-le e h in
    let (bytes, enc, size, dec) =
      decode-encode (event_packet e) empty_packet capacity
        (omega (arith, packet_length e small, payload_size e))
        (omega (arith, packet_length e small)) (omega (arith, packet_length e small)) in
    (
      bytes,
      rw h enc,
      omega (arith, size, packet_length e small),
      dec ∙ ap some (packet_received e small),
    )

-- A valid Event, with fields in the ranges of their types, is encoded in any buffer that holds 20
-- bytes and its body, as exactly that many bytes; and decoding them gives the Event back, its body
-- zero past its length.
pub decode_event-encode_event :
    (e : Event) (capacity : ℕ)
    → IsEvent e
    → is_valid_event e ≡ true
    → 20 + e.body_length ≤ capacity
    → (bytes : List ℕ) × (encode_event e (some capacity) ≡ some bytes)
      × (length bytes ≡ 20 + e.body_length)
      × (decode_event (some bytes) ≡ some (delivered e))
unfolding decode_event
decode_event-encode_event e capacity v h c =
    let (bytes, enc, size, dec) = encode_event-valid e capacity h c in
    (bytes, enc, size, rw (dec, decode_event) (decode_event_packet_lem e v h))
