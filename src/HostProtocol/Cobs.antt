-- ===== src/HostProtocol/Cobs.antt =====
-- `cobsEncode` and `cobsDecode` of lib/host_protocol/src/host_protocol.h. An input pointer is `none`
-- where it is null; an output is `none` where it is null and its capacity otherwise, and a call's
-- result is the bytes that it leaves in the output, up to `outputLength`. The only caller of `cobsEncode`
-- gives it an array, so its test for a null input with a length is left out.
pub mod Layout
pub mod Stuffed
pub mod RoundTrip
pub mod Fuel
use argus_redline.Base.{
  ℕ, zero, suc, ◌+◌, ◌-◌, ◌^◌, ◌≡◌, ◌⊎◌, inl, inr, refl, Bool, true, false, not, ◌&&◌, ◌||◌, Option,
  none, some, List, [], ◌∷◌, ◌++◌, ltb, leb, ◌==◌, if◌then◌else◌, length, set, take, drop,
  replicate,
}
use argus_redline.Base.Words.{u8}

abbrev pub max_decoded_frame_size : ℕ
max_decoded_frame_size = 138

abbrev pub max_cobs_candidate_size : ℕ
max_cobs_candidate_size = 139

-- `CobsResult` but for `OK`.
pub data CobsError : Type 0 where
  null_argument input_too_large output_too_small malformed_input : CobsError

pub data Result (A : Type 0) : Type 0 where
  ok : A → Result A
  err : CobsError → Result A

infixl 5 ◌>>=◌ ◌>>◌
abbrev pub ◌>>=◌ : {A B : Type 0} → Result A → (next : A → Result B) → Result B
ok value >>= next = next value
err code >>= next = err code

abbrev pub ◌>>◌ : {B : Type 0} → Result (Unit {0}) → Result B → Result B
test >> next = test >>= λ u. next

-- `if (test) return error;`
abbrev pub refuse : Bool → CobsError → Result (Unit {0})
refuse test e = if test then err e else ok tt

-- The variables of `cobsEncode`'s loop.
pub record Encoder : Type 0 where
  pub output : List ℕ
  pub code_index : ℕ
  pub write_index : ℕ
  pub code : ℕ

-- `output[codeIndex] = code; codeIndex = writeIndex; ++writeIndex; code = 1;` with the test between.
pub start_block : ℕ → Encoder → Result Encoder
start_block capacity s = do
  let output = set s.output s.code_index s.code
  refuse (leb capacity s.write_index) output_too_small
  ok (record {
    output = output;
    code_index = s.write_index;
    write_index = s.write_index + 1;
    code = 1;
  })

pub append : ℕ → Encoder → Encoder
append value s = record s {
  output = set s.output s.write_index value;
  write_index = s.write_index + 1;
  code = u8 (s.code + 1);
}

-- The test on `code` after a byte was written.
after_append : ℕ → Encoder → Result Encoder
unfolding start_block
after_append capacity s = if s.code == 0xff then start_block capacity s else ok s

encode_zero : ℕ → Encoder → Result Encoder
unfolding start_block
encode_zero capacity s = do
  refuse (leb capacity s.code_index) output_too_small
  start_block capacity s

encode_nonzero : ℕ → ℕ → Encoder → Result Encoder
unfolding append after_append
encode_nonzero capacity value s = do
  refuse (leb capacity s.write_index) output_too_small
  after_append capacity (append value s)

encode_byte : ℕ → ℕ → Encoder → Result Encoder
unfolding encode_zero encode_nonzero
encode_byte capacity value s =
    if value == 0 then encode_zero capacity s else encode_nonzero capacity value s

pub encode_bytes : ℕ → List ℕ → Encoder → Result Encoder
unfolding encode_byte
encode_bytes capacity [] s = ok s
encode_bytes capacity (value ∷ input) s =
    encode_byte capacity value s >>= encode_bytes capacity input

-- The last block's code.
pub finish : ℕ → Encoder → Result (List ℕ)
finish capacity s = do
  refuse (leb capacity s.code_index) output_too_small
  ok (take s.write_index (set s.output s.code_index s.code))

-- The output's bytes before the call, which are all written over, are taken as 0.
pub start : ℕ → Encoder
start capacity = record { output = replicate capacity 0; code_index = 0; write_index = 1; code = 1 }

pub cobs_encode : List ℕ → Option ℕ → Result (List ℕ)
unfolding encode_bytes finish start
cobs_encode input none = err null_argument
cobs_encode input (some capacity) = do
  refuse (ltb max_decoded_frame_size (length input)) input_too_large
  refuse (capacity == 0) output_too_small
  s ← encode_bytes capacity input (start capacity)
  finish capacity s

-- The loop over the bytes of a block: what it writes, or a zero among them.
read_block : ℕ → List ℕ → Result (List ℕ)
read_block zero input = ok []
read_block (suc n) [] = ok []
read_block (suc n) (value ∷ input) = do
  refuse (value == 0) malformed_input
  rest ← read_block n input
  ok (value ∷ rest)

-- The zero that a block ends with, unless it is a full one or the last.
separator : ℕ → ℕ → List ℕ → List ℕ → Result (List ℕ)
separator capacity code rest written =
    if not (code == 0xff) && ltb 0 (length rest)
    then (if leb capacity (length written) then err output_too_small else ok (written ++ (0 ∷ [])))
    else ok written

-- The loop's body, with what the loop has written: a block whose code was read from before `input`.
decode_block : ℕ → ℕ → List ℕ → List ℕ → Result (List ℕ)
unfolding read_block separator
decode_block capacity code input written = do
  refuse (code == 0) malformed_input
  refuse (ltb (length input) (code - 1)) malformed_input
  refuse (ltb (capacity - length written) (code - 1)) output_too_small
  block ← read_block (code - 1) input
  separator capacity code (drop (code - 1) input) (written ++ block)

-- The fuel is the input's length, and each block takes at least one byte.
decode_blocks : ℕ → ℕ → List ℕ → List ℕ → Result (List ℕ)
unfolding decode_block
decode_blocks fuel capacity [] written = ok written
decode_blocks zero capacity (code ∷ input) written = err malformed_input
decode_blocks (suc fuel) capacity (code ∷ input) written =
    decode_block capacity code input written >>= decode_blocks fuel capacity (drop (code - 1) input)

pub cobs_decode : Option (List ℕ) → Option ℕ → Result (List ℕ)
unfolding decode_blocks
cobs_decode none output = err null_argument
cobs_decode (some input) none = err null_argument
cobs_decode (some input) (some capacity) = do
  refuse (length input == 0) malformed_input
  refuse (ltb max_cobs_candidate_size (length input)) input_too_large
  decode_blocks (length input) capacity input []
