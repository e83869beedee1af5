-- ===== src/EventStore/Recovery.antt =====
-- What `selectCopies` makes of a slot that was written last, whole or torn.
use argus_redline.Base.{Option-cases, inl, inr, ◌+◌, Bool, true, false, ◌≡◌, arith, some}
use argus_redline.Base.Words.{IsU32, u32}
use argus_redline.EventStore.{
  opposite, both_invalid, equal_disagreement, generation_ambiguous, SelectionResult, CopySlot, a, b,
  FixedCopy, Format, valid, select_copies,
}
use argus_redline.EventStore.Generations.{compare_generations_next, compare_generations_previous}

-- The results that leave a record in `selected`.
abbrev pub is_chosen : SelectionResult → Bool
is_chosen both_invalid = false
is_chosen equal_disagreement = false
is_chosen generation_ambiguous = false
is_chosen _ = true

-- The copies as `selectCopies` takes them, by slot.
abbrev pub Copies : Type 0
Copies = CopySlot → FixedCopy

module _ {Record : Type 0} (format : Format Record) where
  open format use {generation}

  -- After `next` was written to the slot opposite to the one that holds `old`, with the generation
  -- that follows, the choice is `next` in its slot.
  pub select_copies_next :
      (copies : Copies) (target : CopySlot) (old next selected : Record) (slot : CopySlot)
      → IsU32 (generation old)
      → valid format (copies (opposite target)) ≡ some old
      → valid format (copies target) ≡ some next
      → generation next ≡ u32 (generation old + 1)
      → let s = select_copies format (copies a) (copies b) selected slot in
        (s.selected ≡ next) × (s.slot ≡ target)
  unfolding select_copies
  select_copies_next copies a old next selected slot h v w g =
      ground (arith, compare_generations_next (generation old) h)
  select_copies_next copies b old next selected slot h v w g =
      ground (arith, compare_generations_previous (generation old) h)

  -- A record that is chosen is what the copy in the chosen slot decodes to.
  pub select_copies-chosen :
      (copies : Copies) (selected : Record) (slot : CopySlot)
      → let s = select_copies format (copies a) (copies b) selected slot in
        is_chosen s.result ≡ true → valid format (copies s.slot) ≡ some s.selected
  unfolding select_copies
  select_copies-chosen copies selected slot h = elim (Option-cases (valid format (copies a))) [
    | inl u ↦ elim (Option-cases (valid format (copies b))) [
      | inl v ↦ ground (arith, h, u, v)
      | inr (y, v) ↦ ground (arith, h, u, v)
    ]
    | inr (x, u) ↦ elim (Option-cases (valid format (copies b))) [
      | inl v ↦ ground (arith, h, u, v)
      | inr (y, v) ↦ ground (arith, h, u, v)
    ]
  ]
