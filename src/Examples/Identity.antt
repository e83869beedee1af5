-- ===== src/Examples/Identity.antt =====
-- The allocator of lib/event_identity/src/event_identity.h on a storage in memory.
use argus_redline.Base.{
  ℕ, zero, suc, ap, copy, replicate, ◌+◌, ◌*◌, ◌^◌, ◌≡◌, ◌⊎◌, refl, arith, true, some, List, [],
  ◌∷◌, length, ◌==◌, if◌then◌else◌, All, IsByte,
}
use argus_redline.Base.Words.{u8}
use argus_redline.EventRecords.NodeMetadata.{NodeMetadata, IsMetadata, decode-encode_node_metadata}
use argus_redline.EventStore.{CopySlot, a, b}
use argus_redline.EventIdentity.Interface.{Device, Read, StorageResult, IsTyped}
use argus_redline.EventIdentity.{
  Allocator, Machine, ready, allocate, commit_metadata, recover, empty, adopt, target_slot,
  is_failure,
}
use argus_redline.EventIdentity.Durable.{IsHonest, IsCommitted, allocate-IsCommitted}
use argus_redline.EventIdentity.Commit.{After, failed_with, commit_metadata-After}
use argus_redline.EventIdentity.Allocate.{
  IsReady, Allocated, Refused, Increasing, handed_out, handed_out-Increasing,
}
use argus_redline.EventIdentity.Recover.{Recovered, Stopped, recover-After}

-- Cells hold bytes.
abbrev as_bytes : List ℕ → List ℕ
as_bytes [] = []
as_bytes (x ∷ xs) = u8 x ∷ as_bytes xs

as_bytes-IsByte : (xs : List ℕ) → All IsByte (as_bytes xs)
as_bytes-IsByte [] = tt
as_bytes-IsByte (x ∷ xs) = (omega arith, as_bytes-IsByte xs)

abbrev read_cells : List ℕ → Read
read_cells xs = record {
  result = if length xs == 0 then StorageResult.missing else StorageResult.ok;
  bytes = as_bytes xs;
  length = length xs;
}

-- Two slots, which are missing while they are empty, and entropy that is always 7.
abbrev memory_read : CopySlot → List ℕ × List ℕ → Read × (List ℕ × List ℕ)
memory_read a w = (read_cells w.0, w)
memory_read b w = (read_cells w.1, w)

abbrev memory_write : CopySlot → List ℕ → List ℕ × List ℕ → StorageResult × (List ℕ × List ℕ)
memory_write a bytes w = (StorageResult.ok, (bytes, w.1))
memory_write b bytes w = (StorageResult.ok, (w.0, bytes))

abbrev memory : Device
memory = record {
  World = List ℕ × List ℕ;
  read = memory_read;
  write = memory_write;
  commit = λ w. (StorageResult.ok, w);
  next_uint32 = λ w. (some 7, w);
}

memory-IsTyped : IsTyped memory
memory-IsTyped = record { read_bytes = read_bytes; entropy_word = λ w n e. ground (arith, e) }
  where
    read_bytes : (slot : CopySlot) (w : List ℕ × List ℕ) → All IsByte (memory_read slot w).0.bytes
    read_bytes a w = as_bytes-IsByte w.0
    read_bytes b w = as_bytes-IsByte w.1

abbrev metadata : NodeMetadata
metadata = record {
  generation = 3;
  custody_source_device_id = 2;
  event_epoch = 7;
  next_unreserved_event_id = 65;
}

-- Two identities are left of the block that ends at 65.
abbrev allocator : Allocator
allocator = record {
  metadata = metadata;
  active_slot = a;
  source_device_id = 2;
  next_volatile_id = 63;
  volatile_end_exclusive = 65;
  has_authoritative_metadata = true;
  is_ready = true;
  status = ready;
}

abbrev machine : Machine memory
machine = record { allocator = allocator; world = ([], []) }

metadata-IsMetadata : IsMetadata metadata
metadata-IsMetadata = omega arith

allocator-IsReady : IsReady allocator
allocator-IsReady = record {
  metadata = metadata-IsMetadata;
  front = omega arith;
  block = omega arith;
  reserved = omega arith;
  flag = refl;
}

-- The same with cells that are read as they are.
abbrev raw_cells : List ℕ → Read
raw_cells xs = record {
  result = if length xs == 0 then StorageResult.missing else StorageResult.ok;
  bytes = xs;
  length = length xs;
}

abbrev cell : CopySlot → List ℕ × List ℕ → List ℕ
cell a w = w.0
cell b w = w.1

abbrev raw_memory : Device
raw_memory = record {
  World = List ℕ × List ℕ;
  read = λ slot w. (raw_cells (cell slot w), w);
  write = memory_write;
  commit = λ w. (StorageResult.ok, w);
  next_uint32 = λ w. (some 7, w);
}

copy-whole : (n : ℕ) (ds xs : List ℕ) → length ds ≡ n → length xs ≡ n → copy n ds xs ≡ xs
copy-whole zero ds [] h k = copy-nothing ds h
  where
    copy-nothing : (ds : List ℕ) → length ds ≡ 0 → copy 0 ds [] ≡ []
    copy-nothing [] h = refl
    copy-nothing (d ∷ ds) h = absurd (omega (arith, h))
copy-whole zero ds (x ∷ xs) h k = absurd (omega (arith, k))
copy-whole (suc n) [] xs h k = absurd (omega (arith, h))
copy-whole (suc n) (d ∷ ds) [] h k = absurd (omega (arith, k))
copy-whole (suc n) (d ∷ ds) (x ∷ xs) h k =
    ap (λ t. x ∷ t) (copy-whole n ds xs (omega (arith, h)) (omega (arith, k)))

eq_of_test : (m n : ℕ) → (m == n) ≡ true → m ≡ n
eq_of_test m n h = ground (arith, h)

-- It keeps what its slots hold.
abbrev raw_memory_keeps : IsHonest raw_memory
raw_memory_keeps = record {
  held = cell;
  kept = cell;
  read_held = λ slot w e l. copy-whole 28 (replicate 28 0) (cell slot w) refl (eq_of_test _ 28 l);
  read_keeps = λ slot other w. refl;
  commit_keeps = λ slot w e. refl;
}

-- Slot A has the metadata, and its block is used up.
abbrev stored_bytes : List ℕ
stored_bytes = (decode-encode_node_metadata metadata metadata-IsMetadata).0

abbrev stored : Machine raw_memory
stored = record {
  allocator = record allocator { next_volatile_id = 65 };
  world = (stored_bytes, []);
}

stored-IsReady : IsReady stored.allocator
stored-IsReady = record {
  metadata = metadata-IsMetadata;
  front = omega arith;
  block = omega arith;
  reserved = omega arith;
  flag = refl;
}

stored-IsCommitted : IsCommitted raw_memory raw_memory_keeps stored
stored-IsCommitted =
    let (bytes, e, l, d) = decode-encode_node_metadata metadata metadata-IsMetadata in d

allocate-IsCommitted_example :
    let (r, t) = allocate raw_memory stored in
    (Allocated stored.allocator r t.allocator × IsCommitted raw_memory raw_memory_keeps t)
    ⊎ Refused stored.allocator r t.allocator
allocate-IsCommitted_example =
    allocate-IsCommitted raw_memory raw_memory_keeps stored stored-IsReady stored-IsCommitted

handed_out-Increasing_example : Increasing (7 * 2 ^ 32 + 63) (handed_out memory 3 machine)
handed_out-Increasing_example = handed_out-Increasing memory 3 machine allocator-IsReady

commit_metadata-After_example :
    After memory
      (λ u t. t.allocator ≡ adopt memory metadata (target_slot memory allocator) allocator)
      (λ e t. (t.allocator ≡ failed_with e allocator) × (is_failure e ≡ true))
      (commit_metadata memory metadata machine)
commit_metadata-After_example = commit_metadata-After memory metadata machine metadata-IsMetadata

recover-After_example :
    After memory
      (λ u t. Recovered 2 t.allocator)
      (λ e t. Stopped e t.allocator)
      (recover memory 2 empty ([], []))
recover-After_example = recover-After memory 2 empty ([], []) memory-IsTyped (omega arith)
