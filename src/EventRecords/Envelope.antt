-- ===== src/EventRecords/Envelope.antt =====
-- lib/event_storage/src/event_records.h: what the four record formats share. An output buffer is
-- `none` where it is null and its length otherwise; the bytes written are the result.
pub mod Integrity
pub mod Seal
use argus_redline.Base.{
  ℕ, ◌+◌, ◌-◌, ◌*◌, ◌/◌, ◌^◌, Bool, not, ◌&&◌, Option, none, some, List, [], ◌==◌, if◌then◌else◌,
  length, get_or, set, take, replicate, ◌≡◌, refl, ◌⊎◌, inl, inr,
}
use argus_redline.Base.Words.{join_u16, join_u32, u8, u16}
use argus_redline.EventRecords.Crc32.{crc32}

abbrev pub schema_version : ℕ
schema_version = 1

-- `CodecResult` but for `OK`, which is a result's `ok`.
pub data CodecError : Type 0 where
  null_pointer wrong_length bad_magic bad_schema bad_record_length bad_crc nonzero_reserved :
      CodecError
  invalid_state invalid_metadata invalid_event invalid_attempts invalid_lifetime : CodecError
  nonzero_body_tail : CodecError

pub data Result {ℓ} (A : Type ℓ) : Type ℓ where
  ok : A → Result A
  err : CodecError → Result A

infixl 5 ◌>>=◌ ◌>>◌
abbrev pub ◌>>=◌ {ℓ κ} : {A : Type ℓ} {B : Type κ} → Result A → (next : A → Result B) → Result B
ok value >>= next = next value
err code >>= next = err code

abbrev pub ◌>>◌ {ℓ} : {B : Type ℓ} → Result (Unit {0}) → Result B → Result B
test >> next = test >>= λ u. next

-- `if (!test) return error;`
abbrev pub check : Bool → CodecError → Result (Unit {0})
check test e = if test then ok tt else err e

abbrev pub is_ok {ℓ} : {A : Type ℓ} → Result A → Option A
is_ok (ok a) = some a
is_ok (err e) = none

-- The array behind a pointer that has passed the test for null.
abbrev pub pointee : Option (List ℕ) → List ℕ
pointee none = []
pointee (some bytes) = bytes

unfoldable pub write_u16_le : List ℕ → ℕ → ℕ → List ℕ
write_u16_le output offset value =
    set (set output offset (u8 value)) (offset + 1) (u8 (value / 2 ^ 8))

unfoldable pub write_u32_le : List ℕ → ℕ → ℕ → List ℕ
write_u32_le output offset value =
    set
      (set (set (set output offset (u8 value)) (offset + 1) (u8 (value / 2 ^ 8))) (offset + 2)
        (u8 (value / 2 ^ 16)))
      (offset + 3) (u8 (value / 2 ^ 24))

unfoldable pub read_u16_le : List ℕ → ℕ → ℕ
read_u16_le input offset = join_u16 (get_or input offset 0) (get_or input (offset + 1) 0)

unfoldable pub read_u32_le : List ℕ → ℕ → ℕ
read_u32_le input offset =
    join_u32 (get_or input offset 0) (get_or input (offset + 1) 0) (get_or input (offset + 2) 0)
      (get_or input (offset + 3) 0)

unfoldable pub same_magic : List ℕ → List ℕ → Bool
same_magic input magic =
    (get_or input 0 0 == get_or magic 0 0)
    && ((get_or input 1 0 == get_or magic 1 0)
        && ((get_or input 2 0 == get_or magic 2 0) && (get_or input 3 0 == get_or magic 3 0)))

unfoldable pub validate_envelope : Option (List ℕ) → ℕ → List ℕ → Result (Unit {0})
validate_envelope none expected_length magic = err null_pointer
validate_envelope (some input) expected_length magic = do
  check (length input == expected_length) wrong_length
  check (same_magic input magic) bad_magic
  check (read_u16_le input 6 == expected_length) bad_record_length
  check (read_u32_le input (expected_length - 4) == crc32 (take (expected_length - 4) input))
      bad_crc
  check (read_u16_le input 4 == schema_version) bad_schema

-- The buffer after `clearBytes` and the writes of the header.
unfoldable pub encode_envelope : ℕ → List ℕ → ℕ → List ℕ
unfolding write_u16_le write_u32_le
encode_envelope length magic generation =
    write_u32_le
      (write_u16_le
        (write_u16_le
          (set
            (set (set (set (replicate length 0) 0 (get_or magic 0 0)) 1 (get_or magic 1 0)) 2
              (get_or magic 2 0))
            3 (get_or magic 3 0))
          4 schema_version)
        6 (u16 length))
      8 generation

unfoldable pub finish_crc : List ℕ → ℕ → List ℕ
unfolding write_u32_le
finish_crc output length = write_u32_le output (length - 4) (crc32 (take (length - 4) output))

pub Result-cases {ℓ} :
    {A : Type ℓ} (r : Result A) → ((x : A) × (r ≡ ok x)) ⊎ ((e : CodecError) × (r ≡ err e))
Result-cases (ok x) = inl (x, refl)
Result-cases (err e) = inr (e, refl)
