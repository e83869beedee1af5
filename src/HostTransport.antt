-- ===== src/HostTransport.antt =====
-- lib/host_transport/src/host_transport.h: frames over a stream of bytes. Of the array `pending_` the
-- first `pendingLength_` bytes are kept. The fields that exist only for traces are left out.
pub mod Interface
pub mod Delivery
pub mod Completion
use argus_redline.Base.{
  ℕ, zero, suc, ◌+◌, ◌-◌, ◌%◌, min, Bool, true, false, not, ◌||◌, Option, none, some, List, [], ◌∷◌,
  ltb, ◌==◌, if◌then◌else◌, length, take, drop,
}
use argus_redline.HostProtocol.Frame.{DecodeResult, max_encoded_frame_size, decode_frame}
use argus_redline.HostProtocol.Stream
use argus_redline.HostProtocol.Stream.{
  StreamParser, StreamResult, StreamEvent, no_event, zero_frame, consume,
}
use Interface.{ByteStream}

pub data RxStatus : Type 0 where
  no_activity progress parser_event input_error : RxStatus

pub data SubmitStatus : Type 0 where
  ok busy invalid_argument invalid_frame : SubmitStatus

pub data TxStatus : Type 0 where
  idle blocked progress complete output_error : TxStatus

pub record RxResult : Type 0 where
  pub status : RxStatus
  pub bytes_read : ℕ
  pub parser_result : StreamResult

pub record TxResult : Type 0 where
  pub status : TxStatus
  pub bytes_written : ℕ
  pub remaining : ℕ

pub record Adapter : Type 0 where
  pub parser : StreamParser
  pub pending : List ℕ
  pub pending_offset : ℕ

-- Also a new adapter.
abbrev pub reset : Adapter
reset = record { parser = Stream.reset; pending = []; pending_offset = 0 }

pub has_pending_tx : Adapter → Bool
has_pending_tx s = not (length s.pending == 0)

abbrev pub remaining_tx : Adapter → ℕ
remaining_tx s = if length s.pending == 0 then 0 else length s.pending - s.pending_offset

abbrev is_quiet : StreamEvent → Bool
is_quiet no_event = true
is_quiet _ = false

abbrev is_ok : DecodeResult → Bool
is_ok DecodeResult.ok = true
is_ok _ = false

pub submit : Option (List ℕ) → Adapter → SubmitStatus × Adapter
submit frame s = if not (length s.pending == 0) then (busy, s) else elim frame [
  | none ↦ (invalid_argument, s)
  | some bytes ↦
      if (length bytes == 0) || ltb max_encoded_frame_size (length bytes)
      then (invalid_argument, s)
      else if not (is_ok (decode_frame (some bytes) zero_frame).0)
      then (invalid_frame, s)
      else (ok, record s { pending = bytes; pending_offset = 0 })
]

abbrev rx : RxStatus → ℕ → StreamResult → RxResult
rx status bytes_read parser_result = record {
  status = status;
  bytes_read = bytes_read;
  parser_result = parser_result;
}

-- The end of the loop.
abbrev rx_end : ℕ → StreamResult → RxResult
rx_end bytes_read last =
    rx (if not (bytes_read == 0) then RxStatus.progress else no_activity) bytes_read last

abbrev no_result : StreamResult
no_result = record {
  consumed = 0;
  event = no_event;
  decode_result = DecodeResult.ok;
  frame = zero_frame;
}

abbrev tx : TxStatus → ℕ → ℕ → TxResult
tx status bytes_written remaining = record {
  status = status;
  bytes_written = bytes_written;
  remaining = remaining;
}

-- After bytes were written.
advance : ℕ → Adapter → TxResult × Adapter
advance written s =
    if s.pending_offset + written == length s.pending
    then (tx complete written 0, record s { pending = []; pending_offset = 0 })
    else (
      tx TxStatus.progress written (length s.pending - (s.pending_offset + written)),
      record s { pending_offset = s.pending_offset + written },
    )

settle : ℕ → ℕ → Adapter → TxResult × Adapter
unfolding advance
settle attempt written s =
    if ltb attempt written
    then (tx output_error 0 (remaining_tx s), s)
    else if written == 0
    then (tx blocked 0 (remaining_tx s), s)
    else advance written s

module _ (stream : ByteStream) where
  open stream use {World, available, read, available_for_write, write}

  -- The loop, with what is left of the budget, the bytes that were read, and the last result.
  rx_loop : ℕ → ℕ → StreamResult → Adapter → World → RxResult × (Adapter × World)
  rx_loop zero bytes_read last s w = (rx_end bytes_read last, (s, w))
  rx_loop (suc budget) bytes_read last s w =
      let (count, w1) = available w in
      let (value, w2) = read w1 in
      elim (count == 0) [
        | true ↦ (rx_end bytes_read last, (s, w1))
        | false ↦ elim value [
          | none ↦ (rx input_error bytes_read last, (s, w2))
          | some byte ↦
              let (result, parser) = consume (some (byte % 256 ∷ [])) s.parser in
              elim (is_quiet result.event) [
                | true ↦ rx_loop budget (bytes_read + 1) result (record s { parser = parser }) w2
                | false ↦
                    (rx parser_event (bytes_read + 1) result, (record s { parser = parser }, w2))
              ]
        ]
      ]

  pub service_rx : ℕ → Adapter → World → RxResult × (Adapter × World)
  unfolding rx_loop
  service_rx budget s w = rx_loop budget 0 no_result s w

  transmit : ℕ → Adapter → World → TxResult × (Adapter × World)
  unfolding settle
  transmit attempt s w =
      let (written, w') = write (take attempt (drop s.pending_offset s.pending)) w in
      let (result, s') = settle attempt written s in (result, (s', w'))

  pub service_tx : ℕ → Adapter → World → TxResult × (Adapter × World)
  unfolding transmit
  service_tx budget s w =
      if length s.pending == 0
      then (tx idle 0 (remaining_tx s), (s, w))
      else if budget == 0
      then (tx blocked 0 (remaining_tx s), (s, w))
      else (let (writable, w') = available_for_write w in
          if writable == 0
          then (tx blocked 0 (remaining_tx s), (s, w'))
          else transmit (min (min writable budget) (remaining_tx s)) s w')
