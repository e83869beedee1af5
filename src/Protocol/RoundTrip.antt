-- ===== src/Protocol/RoundTrip.antt =====
-- What `decode` returns for the bytes of `encode`, and which bytes it accepts.
use argus_redline.Base.{
  ℕ, ◌+◌, ◌≤◌, ◌≡◌, refl, sym, subst, arith, some, List, [], ◌∷◌, ◌++◌, length, get_or, take, drop,
  copy, bit_and, length-take, copy-take, take-copy, length-drop,
}
use argus_redline.Base.Bits.{bit_and_mask}
use argus_redline.Protocol.{
  Packet, PacketType, command, ack, error, response, event, packet_type_code, packet_type_of_code,
  make_control, get_version, get_packet_type, header_bytes, decode_fields, encode, decode,
  max_payload_size, header_size,
}

control_version : (t : PacketType) → get_version (make_control t) ≡ 1
unfolding get_version make_control
control_version command = refl
control_version ack = refl
control_version error = refl
control_version response = refl
control_version event = refl

control_type : (t : PacketType) → get_packet_type (make_control t) ≡ some t
unfolding get_packet_type make_control
control_type command = refl
control_type ack = refl
control_type error = refl
control_type response = refl
control_type event = refl

-- The packet that a receiver holds who decodes the bytes of `p` over the packet `q`.
abbrev pub received : Packet → Packet → Packet
received p q = record p { payload = copy p.payload_length q.payload p.payload }

-- A packet whose payload length is at most 26 and at most its array's size is encoded in a buffer that
-- holds its header and payload, as exactly that many bytes; decoding them over any packet gives its
-- header fields and puts its payload over the front of the other's.
pub decode-encode :
    (p q : Packet) (capacity : ℕ)
    → p.payload_length ≤ length p.payload
    → p.payload_length ≤ max_payload_size
    → header_size + p.payload_length ≤ capacity
    → (bytes : List ℕ) × (encode p (some capacity) ≡ some bytes)
      × (length bytes ≡ header_size + p.payload_length)
      × (decode (some bytes) q ≡ some (received p q))
unfolding encode decode
decode-encode p q capacity hp hl hc = (
  header_bytes p ++ take p.payload_length p.payload,
  ground arith,
  omega (arith, size),
  ground (
    arith,
    size,
    control_version p.type,
    control_type p.type,
    copy-take p.payload_length q.payload p.payload,
  ),
)
  where
    size : length (take p.payload_length p.payload) ≡ p.payload_length
    size = omega (arith, length-take p.payload_length p.payload)

code_of_type : (n : ℕ) (t : PacketType) → packet_type_of_code n ≡ some t → packet_type_code t ≡ n
code_of_type n t e = ground arith

control_code : (t : PacketType) → make_control t ≡ 16 + packet_type_code t
unfolding make_control
control_code command = refl
control_code ack = refl
control_code error = refl
control_code response = refl
control_code event = refl

-- A control byte of this version is the one that `make_control` gives for its type.
control_of :
    (control : ℕ) (t : PacketType)
    → get_version control ≡ 1
    → get_packet_type control ≡ some t
    → make_control t ≡ control
unfolding get_version get_packet_type
control_of control t v e =
    omega (arith, control_code t, code_of_type (bit_and control 0x0f) t e, bit_and_mask 4 control)

header_of_length :
    (xs : List ℕ)
    → 6 ≤ length xs
    → xs
      ≡ get_or xs 0 0
        ∷ get_or xs 1 0
        ∷ get_or xs 2 0
        ∷ get_or xs 3 0
        ∷ get_or xs 4 0
        ∷ get_or xs 5 0
        ∷ drop 6 xs
header_of_length [] h = absurd (omega arith)
header_of_length (a ∷ []) h = absurd (omega arith)
header_of_length (a ∷ b ∷ []) h = absurd (omega arith)
header_of_length (a ∷ b ∷ c ∷ []) h = absurd (omega arith)
header_of_length (a ∷ b ∷ c ∷ d ∷ []) h = absurd (omega arith)
header_of_length (a ∷ b ∷ c ∷ d ∷ e ∷ []) h = absurd (omega arith)
header_of_length (a ∷ b ∷ c ∷ d ∷ e ∷ f ∷ xs) h = refl

-- What an accepted input looks like.
pub record Accepted (input : List ℕ) (t : PacketType) : Type 0 where
  pub header : 6 ≤ length input
  pub version_ok : get_version (get_or input 0 0) ≡ 1
  pub type_ok : get_packet_type (get_or input 0 0) ≡ some t
  pub bounded : get_or input 5 0 ≤ max_payload_size
  pub exact : length input ≡ header_size + get_or input 5 0

decode-Accepted :
    (input : List ℕ) (p q : Packet)
    → decode (some input) q ≡ some p
    → Accepted input p.type × (p ≡ decode_fields input q p.type)
unfolding decode
decode-Accepted input p q h = ground arith

encode-decode_fields :
    (input : List ℕ) (q : Packet) (t : PacketType) (capacity : ℕ)
    → length q.payload ≡ max_payload_size
    → Accepted input t
    → length input ≤ capacity
    → encode (decode_fields input q t) (some capacity) ≡ some input
unfolding encode decode_fields
encode-decode_fields input q t capacity hq a hc = ground (
  arith,
  control_of (get_or input 0 0) t a.version_ok a.type_ok,
  sym (header_of_length input a.header),
  take-copy (get_or input 5 0) q.payload (drop 6 input) (omega arith)
      (omega (arith, length-drop 6 input)),
)

-- A packet that `decode` accepts is encoded as the very bytes that it was decoded from, so it has
-- one form on the wire: for every input, for a receiver whose payload array has its 26 bytes, and
-- for an output buffer at least as long as the input.
pub encode-decode :
    (input : List ℕ) (p q : Packet) (capacity : ℕ)
    → length q.payload ≡ max_payload_size
    → decode (some input) q ≡ some p
    → length input ≤ capacity
    → encode p (some capacity) ≡ some input
encode-decode input p q capacity hq hd hc =
    let (a, e) = decode-Accepted input p q hd in
    subst (λ r. encode r (some capacity) ≡ some input) (sym e)
      (encode-decode_fields input q p.type capacity hq a hc)
