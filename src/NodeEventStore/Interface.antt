-- ===== src/NodeEventStore/Interface.antt =====
-- What the Node's store takes from outside: `Storage` of lib/node_event_store/src/node_event_store.h, an
-- interface there, which extends the metadata storage of the allocator, with its source of entropy.
use argus_redline.Base.{ℕ, List}
use argus_redline.EventIdentity.Interface.{Device, StorageResult, Read}
use argus_redline.EventStore.{CopySlot}

pub record Storage : Type 1 where
  pub device : Device
  pub read_copy : ℕ → CopySlot → device.World → Read × device.World
  pub write_copy : ℕ → CopySlot → List ℕ → device.World → StorageResult × device.World
