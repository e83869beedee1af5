-- ===== src/HubEventLedger/Interface.antt =====
-- What the ledger takes from outside: `Storage` of lib/hub_event_ledger/src/hub_event_ledger.h, which
-- is an interface there.
use argus_redline.Base.{ℕ, List, [], ◌≡◌, ◌⊎◌}
use argus_redline.EventIdentity.Interface.{StorageResult, Read}
use argus_redline.EventStore.{CopySlot}

pub record Storage : Type 1 where
  pub World : Type 0
  pub read_metadata : CopySlot → World → Read × World
  pub write_metadata : CopySlot → List ℕ → World → StorageResult × World
  pub read_copy : ℕ → CopySlot → World → Read × World
  pub write_copy : ℕ → CopySlot → List ℕ → World → StorageResult × World
  pub commit : World → StorageResult × World

-- A read changes nothing that is stored, and whatever result it has, it puts the bytes that are stored
-- into the buffer, or none.
pub record IsHonest (storage : Storage) : Type 0 where
  pub stored : ℕ → CopySlot → storage.World → List ℕ
  pub read_gives :
      (slot : ℕ) (copy : CopySlot) (w : storage.World)
      → ((storage.read_copy slot copy w).0.bytes ≡ stored slot copy w)
        ⊎ ((storage.read_copy slot copy w).0.bytes ≡ [])
  pub read_keeps :
      (slot i : ℕ) (copy c : CopySlot) (w : storage.World)
      → stored i c (storage.read_copy slot copy w).1 ≡ stored i c w
  pub stored_metadata : CopySlot → storage.World → List ℕ
  pub read_metadata_gives :
      (copy : CopySlot) (w : storage.World)
      → ((storage.read_metadata copy w).0.bytes ≡ stored_metadata copy w)
        ⊎ ((storage.read_metadata copy w).0.bytes ≡ [])
  pub read_metadata_keeps :
      (copy c : CopySlot) (w : storage.World)
      → stored_metadata c (storage.read_metadata copy w).1 ≡ stored_metadata c w
