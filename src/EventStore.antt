-- ===== src/EventStore.antt =====
-- lib/event_storage/src/event_store.h: the order of generations, and the choice between two copies.
pub mod Generations
pub mod Recovery
use argus_redline.Base.{
  ℕ, ◌^◌, Bool, true, false, not, ◌&&◌, Option, none, some, List, ltb, ◌==◌, if◌then◌else◌,
  bytes_equal,
}
use argus_redline.Base.Words.{sub_u32}

pub data CopySlot : Type 0 where
  a b : CopySlot

abbrev pub opposite : CopySlot → CopySlot
opposite a = b
opposite b = a

pub data FixedReadStatus : Type 0 where
  ok missing unavailable : FixedReadStatus

pub data ReadBackResult : Type 0 where
  match mismatch missing unavailable : ReadBackResult

pub data GenerationOrder : Type 0 where
  left_newer right_newer equal ambiguous : GenerationOrder

pub data SelectionResult : Type 0 where
  newest_a newest_b only_a_valid only_b_valid both_invalid : SelectionResult
  equal_identical equal_disagreement generation_ambiguous : SelectionResult

-- `bytes` has the format's fixed size.
pub record FixedCopy : Type 0 where
  pub status : FixedReadStatus
  pub bytes : List ℕ

unfoldable pub compare_generations : ℕ → ℕ → GenerationOrder
compare_generations left right =
    if left == right
    then equal
    else let distance = sub_u32 left right in
      if distance == 0x80000000
      then ambiguous
      else if ltb distance 0x80000000
      then left_newer
      else right_newer

abbrev pub is_ok : FixedReadStatus → Bool
is_ok ok = true
is_ok missing = false
is_ok unavailable = false

unfoldable pub classify_read_back : ℕ → List ℕ → FixedCopy → ReadBackResult
classify_read_back size written read_back = elim read_back.status [
  | ok ↦ if bytes_equal size written read_back.bytes then match else mismatch
  | missing ↦ missing
  | unavailable ↦ unavailable
]

-- `selectCopies<Size, Record, DecodeFunction>`: a format is its size, its decoder and the generation
-- of a decoded record.
pub record Format (Record : Type 0) : Type 0 where
  pub size : ℕ
  pub decode : List ℕ → Option Record
  pub generation : Record → ℕ

-- The results of the call: what it returns, and what it leaves in `selected` and `selectedSlot`.
pub record Selection (Record : Type 0) : Type 0 where
  pub result : SelectionResult
  pub selected : Record
  pub slot : CopySlot

module _ {Record : Type 0} (format : Format Record) where
  open format use {size, decode, generation}

  abbrev pub valid : FixedCopy → Option Record
  valid copy = elim copy.status [ ok ↦ decode copy.bytes | missing ↦ none | unavailable ↦ none ]

  select_valid : FixedCopy → FixedCopy → Record → Record → Record → CopySlot → Selection Record
  select_valid copy_a copy_b decoded_a decoded_b selected slot =
      elim (compare_generations (generation decoded_a) (generation decoded_b)) [
        | equal ↦
            if not (bytes_equal size copy_a.bytes copy_b.bytes)
            then record { result = equal_disagreement; selected = selected; slot = slot }
            else record { result = equal_identical; selected = decoded_a; slot = a }
        | ambiguous ↦ record { result = generation_ambiguous; selected = selected; slot = slot }
        | left_newer ↦ record { result = newest_a; selected = decoded_a; slot = a }
        | right_newer ↦ record { result = newest_b; selected = decoded_b; slot = b }
      ]

  -- The last two arguments are what `selected` and `selectedSlot` hold before the call.
  unfoldable pub select_copies : FixedCopy → FixedCopy → Record → CopySlot → Selection Record
  unfolding select_valid
  select_copies copy_a copy_b selected slot = elim (valid copy_a) [
    | none ↦ elim (valid copy_b) [
      | none ↦ record { result = both_invalid; selected = selected; slot = slot }
      | some decoded_b ↦ record { result = only_b_valid; selected = decoded_b; slot = b }
    ]
    | some decoded_a ↦ elim (valid copy_b) [
      | none ↦ record { result = only_a_valid; selected = decoded_a; slot = a }
      | some decoded_b ↦ select_valid copy_a copy_b decoded_a decoded_b selected slot
    ]
  ]
