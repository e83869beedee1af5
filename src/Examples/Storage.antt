-- ===== src/Examples/Storage.antt =====
-- The choice between two copies, of lib/event_storage/src/event_store.h, at concrete values.
use argus_redline.Base.{
  ℕ, ◌≡◌, refl, arith, true, Option, none, some, List, [], ◌∷◌, if◌then◌else◌, ◌==◌,
}
use argus_redline.EventStore.{a, b, FixedCopy, FixedReadStatus, Format, valid, select_copies}
use argus_redline.EventStore.Recovery.{Copies, is_chosen, select_copies_next, select_copies-chosen}

-- Records of one byte, their own generation; 0 is none.
abbrev decode_byte : List ℕ → Option ℕ
decode_byte [] = none
decode_byte (x ∷ xs) = if x == 0 then none else some x

abbrev byte_format : Format ℕ
byte_format = record { size = 1; decode = decode_byte; generation = λ n. n }

abbrev copy_of : ℕ → FixedCopy
copy_of n = record { status = FixedReadStatus.ok; bytes = n ∷ [] }

abbrev two_copies : ℕ → ℕ → Copies
two_copies m n a = copy_of m
two_copies m n b = copy_of n

select_copies_next_example :
    let s = select_copies byte_format (copy_of 7) (copy_of 8) 0 a in (s.selected ≡ 8) × (s.slot ≡ b)
select_copies_next_example =
    select_copies_next byte_format (two_copies 7 8) b 7 8 0 a (omega arith) refl refl refl

chosen_test : is_chosen (select_copies byte_format (copy_of 7) (copy_of 0) 0 b).result ≡ true
unfolding select_copies
chosen_test = refl

select_copies-chosen_example :
    let s = select_copies byte_format (copy_of 7) (copy_of 0) 0 b in
    valid byte_format (two_copies 7 0 s.slot) ≡ some s.selected
select_copies-chosen_example = select_copies-chosen byte_format (two_copies 7 0) 0 b chosen_test
