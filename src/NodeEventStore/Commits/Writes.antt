-- ===== src/NodeEventStore/Commits/Writes.antt =====
-- The slots after a commit of lib/node_event_store/src/node_event_store.h: with the record in its place,
-- or as before.
use argus_redline.Base.{
  ℕ, ◌≡◌, refl, inl, inr, ap, Bool, true, false, some, List, ◌==◌, if◌then◌else◌, bytes_equal, set,
  Option-cases,
}
use argus_redline.Base.Methods.{Method, ◌>>=◌, return, After, After-bind}
use argus_redline.EventIdentity.Interface.{StorageResult, Read}
use argus_redline.EventRecords.Envelope.{is_ok}
use argus_redline.EventRecords.NodeRecord.{NodeRecord, encode_node_record}
use argus_redline.EventStore.{CopySlot, opposite, Selection}
use argus_redline.NodeEventStore.Index.{index}
use argus_redline.NodeEventStore.Interface.{Storage}
use argus_redline.NodeEventStore.{SlotState, Status}
use argus_redline.NodeEventStore.Commits.{
  Machine, fail, active_copy, selection_of, require_ok, write_target, commit_storage, require_whole,
  read_back, check_bytes, write_verify, encode_record, classify_read, read_record_copy,
  require_selected, reselect, commit_mutation, rebuild_index, after_index,
}

abbrev pub slot_state : NodeRecord → CopySlot → SlotState
slot_state r copy = record { present = true; value = r; active_copy = copy }

-- The slots with a record written to one of them.
abbrev pub IsWritten : ℕ → NodeRecord → List SlotState → List SlotState → Type 0
IsWritten slot r slots slots' = (copy : CopySlot) × (slots' ≡ set slots slot (slot_state r copy))

module _ (storage : Storage) (slots : List SlotState) where
  abbrev pub Unchanged : {A : Type 0} → A → Machine storage → Type 0
  Unchanged x t = t.store.slots ≡ slots

  abbrev Same : Machine storage → Type 0
  Same t = t.store.slots ≡ slots

  -- A method that writes no slot.
  record IsReading {A : Type 0} (m : Method (Machine storage) A) : Type 0 where
    keeps : (s : Machine storage) → s.store.slots ≡ slots → After Unchanged Same (m s)

  IsReading-bind :
      {A B : Type 0} (m : Method (Machine storage) A) (f : A → Method (Machine storage) B)
      → IsReading m
      → ((x : A) → IsReading (f x))
      → IsReading (m >>= f)
  IsReading-bind m f h k = record {
    keeps = λ s same.
        After-bind Unchanged Unchanged Same m f s (h.keeps s same) (λ x t p. (k x).keeps t p);
  }

  IsReading-if :
      {A : Type 0} (test : Bool) (x y : Method (Machine storage) A)
      → IsReading x
      → IsReading y
      → IsReading (if test then x else y)
  IsReading-if true x y h k = h
  IsReading-if false x y h k = k

  IsReading-return : {A : Type 0} (x : A) → IsReading (return x)
  IsReading-return x = record { keeps = λ s h. h }

  IsReading-fail : {A : Type 0} (e : Status) → IsReading (fail storage {A = A} e)
  IsReading-fail e = record { keeps = λ s h. h }

  IsReading-require_ok : (r : StorageResult) → IsReading (require_ok storage r)
  unfolding require_ok
  IsReading-require_ok StorageResult.ok = IsReading-return _
  IsReading-require_ok StorageResult.missing = IsReading-fail _
  IsReading-require_ok StorageResult.unavailable = IsReading-fail _
  IsReading-require_ok StorageResult.error = IsReading-fail _

  IsReading-require_whole : (q : StorageResult) (r : Read) → IsReading (require_whole storage q r)
  unfolding require_whole
  IsReading-require_whole StorageResult.ok r =
      IsReading-if (r.length == 56) _ _ (IsReading-return _) (IsReading-fail _)
  IsReading-require_whole StorageResult.missing r = IsReading-fail _
  IsReading-require_whole StorageResult.unavailable r = IsReading-fail _
  IsReading-require_whole StorageResult.error r = IsReading-fail _

  IsReading-classify_read : (q : StorageResult) (r : Read) → IsReading (classify_read storage q r)
  unfolding classify_read
  IsReading-classify_read StorageResult.ok r = IsReading-return _
  IsReading-classify_read StorageResult.missing r = IsReading-return _
  IsReading-classify_read StorageResult.unavailable r = IsReading-fail _
  IsReading-classify_read StorageResult.error r = IsReading-return _

  IsReading-check_bytes : (encoded bytes : List ℕ) → IsReading (check_bytes storage encoded bytes)
  unfolding check_bytes
  IsReading-check_bytes encoded bytes =
      IsReading-if _ _ _
        (IsReading-if (bytes_equal 56 encoded bytes) _ _ (IsReading-return _) (IsReading-fail _))
        (IsReading-fail _)

  IsReading-write_verify :
      (slot : ℕ) (target : CopySlot) (encoded : List ℕ)
      → IsReading (write_verify storage slot target encoded)
  unfolding write_verify write_target commit_storage read_back
  IsReading-write_verify slot target encoded =
      IsReading-bind (write_target storage slot target encoded) _
        (record {
          keeps = λ s h.
              (IsReading-require_ok (storage.write_copy slot target encoded s.world).0).keeps _ h;
        })
        λ _.
          IsReading-bind (commit_storage storage) _
            (record {
              keeps = λ s h. (IsReading-require_ok (storage.device.commit s.world).0).keeps _ h;
            })
            λ _.
              IsReading-bind (read_back storage slot target) (check_bytes storage encoded)
                (record {
                  keeps = λ s h.
                      (IsReading-require_whole (storage.read_copy slot target s.world).0.result
                          _).keeps
                        _ h;
                })
                λ bytes. IsReading-check_bytes encoded bytes

  IsReading-encode_record : (r : NodeRecord) → IsReading (encode_record storage r)
  unfolding encode_record
  IsReading-encode_record r = elim (Option-cases (is_ok (encode_node_record r (some 56)))) [
    | inl e ↦ rw (e, encode_record) (IsReading-fail _)
    | inr (x, e) ↦ rw (e, encode_record) (IsReading-return x)
  ]

  IsReading-read_record_copy :
      (slot : ℕ) (copy : CopySlot) → IsReading (read_record_copy storage slot copy)
  unfolding read_record_copy
  IsReading-read_record_copy slot copy = record {
    keeps =
        λ s h. (IsReading-classify_read (storage.read_copy slot copy s.world).0.result _).keeps _ h;
  }

  IsReading-require_selected :
      (r : NodeRecord) (target : CopySlot) (selection : Selection NodeRecord)
      → IsReading (require_selected storage r target selection)
  unfolding require_selected
  IsReading-require_selected r target selection =
      IsReading-if _ _ _ (IsReading-return _) (IsReading-fail _)

  -- A method that writes the record to the slot as its last step, if it returns at all.
  abbrev Writes : ℕ → NodeRecord → Method (Machine storage) (Unit {0}) → Type 0
  Writes slot r m =
      (s : Machine storage)
      → s.store.slots ≡ slots
      → After (λ u t. IsWritten slot r slots t.store.slots) Same (m s)

  Writes-bind :
      {A : Type 0} (slot : ℕ) (r : NodeRecord) (m : Method (Machine storage) A)
      (f : A → Method (Machine storage) (Unit {0}))
      → IsReading m
      → ((x : A) → Writes slot r (f x))
      → Writes slot r (m >>= f)
  Writes-bind slot r m f h k s same =
      After-bind Unchanged (λ u t. IsWritten slot r slots t.store.slots) Same m f s (h.keeps s same)
        (λ x t p. k x t p)

  reselect-Writes :
      (slot : ℕ) (r : NodeRecord) (active : CopySlot)
      → Writes slot r (reselect storage slot r active)
  unfolding reselect
  reselect-Writes slot r active =
      Writes-bind slot r (read_record_copy storage slot active) _
        (IsReading-read_record_copy slot active)
        λ old_copy.
          Writes-bind slot r (read_record_copy storage slot (opposite active)) _
            (IsReading-read_record_copy slot (opposite active))
            λ new_copy.
              Writes-bind slot r
                (require_selected storage r (opposite active)
                  (selection_of storage active old_copy new_copy))
                _
                (IsReading-require_selected r (opposite active)
                  (selection_of storage active old_copy new_copy))
                λ _ s same. (
                  opposite active,
                  ap (λ (x : List SlotState). set x slot (slot_state r (opposite active))) same,
                )

  pub commit_mutation-Writes :
      (slot : ℕ) (r : NodeRecord) → Writes slot r (commit_mutation storage slot r)
  unfolding commit_mutation
  commit_mutation-Writes slot r s same =
      let active = active_copy storage slot s in
      Writes-bind slot r (encode_record storage r) _ (IsReading-encode_record r)
        (λ encoded.
          Writes-bind slot r (write_verify storage slot (opposite active) encoded)
            (λ _. reselect storage slot r active)
            (IsReading-write_verify slot (opposite active) encoded)
            λ _. reselect-Writes slot r active)
        s same

module _ (storage : Storage) where
  pub rebuild_index-slots :
      (s : Machine storage) → (rebuild_index storage s).1.store.slots ≡ s.store.slots
  unfolding rebuild_index
  rebuild_index-slots s = go (index s.store.slots)
    where
      go : (r : Bool × List ℕ) → (after_index storage r s).1.store.slots ≡ s.store.slots
      go (true, queue) = refl
      go (false, queue) = refl
