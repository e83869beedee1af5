-- ===== src/HostProtocol/Stream.antt =====
-- lib/host_protocol/src/host_protocol_stream.h: the parser that finds frames in the serial input. Of
-- the array `candidate_` the first `candidateLength_` bytes are kept, which are all that is read.
pub mod Chunks
pub mod Resync
use argus_redline.Base.{
  ℕ, ◌+◌, Bool, true, false, not, Option, none, some, List, [], ◌∷◌, ◌++◌, ltb, ◌==◌, if◌then◌else◌,
  length, replicate,
}
use argus_redline.HostProtocol.Cobs.{max_cobs_candidate_size}
use argus_redline.HostProtocol.Frame.{Frame, unknown, DecodeResult, decode_frame}

pub data StreamEvent : Type 0 where
  no_event frame_ready frame_rejected oversized_candidate invalid_argument : StreamEvent

pub record StreamResult : Type 0 where
  pub consumed : ℕ
  pub event : StreamEvent
  pub decode_result : DecodeResult
  pub frame : Frame

pub record StreamParser : Type 0 where
  pub candidate : List ℕ
  pub discarding_oversize : Bool

-- Also a new parser.
abbrev pub reset : StreamParser
reset = record { candidate = []; discarding_oversize = false }

-- `result = {}`, whose frame is all zeros.
abbrev pub zero_frame : Frame
zero_frame = record {
  major = 0;
  minor = 0;
  message_type = unknown 0;
  flags = 0;
  request_id = 0;
  payload_length = 0;
  payload = replicate 128 0;
}

-- What one byte does: the loop goes on, or it returns a result.
pub data Step : Type 0 where
  continue : StreamParser → Step
  return : StreamEvent → DecodeResult → Frame → StreamParser → Step

discard : ℕ → StreamParser → Step
discard value p =
    if value == 0
    then return oversized_candidate DecodeResult.encoded_frame_too_large zero_frame reset
    else continue p

collect : ℕ → StreamParser → Step
collect value p =
    if ltb (length p.candidate) max_cobs_candidate_size
    then continue (record p { candidate = p.candidate ++ (value ∷ []) })
    else continue (record { candidate = []; discarding_oversize = true })

abbrev pub event_of : DecodeResult → StreamEvent
event_of DecodeResult.ok = frame_ready
event_of _ = frame_rejected

complete : StreamParser → Step
complete p =
    if length p.candidate == 0
    then continue p
    else let (result, frame) = decode_frame (some (p.candidate ++ (0 ∷ []))) zero_frame in
      return (event_of result) result frame reset

pub step : ℕ → StreamParser → Step
step value p =
    if p.discarding_oversize
    then discard value p
    else if not (value == 0)
    then collect value p
    else complete p

-- The loop, from `consumed` on.
pub consume_bytes : List ℕ → ℕ → StreamParser → StreamResult × StreamParser
consume_bytes [] consumed p = (
  record {
    consumed = consumed;
    event = no_event;
    decode_result = DecodeResult.ok;
    frame = zero_frame;
  },
  p,
)
consume_bytes (value ∷ input) consumed p = elim (step value p) [
  | continue p' ↦ consume_bytes input (consumed + 1) p'
  | return event decode_result frame p' ↦ (
    record { consumed = consumed + 1; event = event; decode_result = decode_result; frame = frame },
    p',
  )
]

-- A null pointer with a length that is not 0 is `none`.
pub consume : Option (List ℕ) → StreamParser → StreamResult × StreamParser
unfolding consume_bytes
consume none p = (
  record {
    consumed = 0;
    event = invalid_argument;
    decode_result = DecodeResult.null_argument;
    frame = zero_frame;
  },
  p,
)
consume (some input) p = consume_bytes input 0 p
