-- ===== src/EventIdentity/Interface.antt =====
-- What the allocator takes from outside: `MetadataStorage` and `EntropySource` of
-- lib/event_identity/src/event_identity.h, which are interfaces there.
use argus_redline.Base.{ℕ, List, Option, some, All, IsByte, ◌≡◌}
use argus_redline.Base.Words.{IsU32}
use argus_redline.EventStore.{CopySlot}

pub data StorageResult : Type 0 where
  ok missing unavailable error : StorageResult

-- A read's result, the bytes that it puts at the front of the buffer, and the length it reports.
pub record Read : Type 0 where
  pub result : StorageResult
  pub bytes : List ℕ
  pub length : ℕ

pub record Device : Type 1 where
  pub World : Type 0
  pub read : CopySlot → World → Read × World
  pub write : CopySlot → List ℕ → World → StorageResult × World
  pub commit : World → StorageResult × World
  pub next_uint32 : World → Option ℕ × World

-- The types of the interface: bytes are bytes, and entropy is a 32-bit word.
pub record IsTyped (device : Device) : Type 0 where
  pub read_bytes : (slot : CopySlot) (w : device.World) → All IsByte (device.read slot w).0.bytes
  pub entropy_word : (w : device.World) (n : ℕ) → (device.next_uint32 w).0 ≡ some n → IsU32 n
