-- ===== src/EventRecords.antt =====
-- lib/event_storage/src/event_records.h: the records that the Node and the Hub keep in their storage.
pub mod Crc32
pub mod Envelope
pub mod Canonical
pub mod NodeMetadata
pub mod HubMetadata
pub mod NodeRecord
pub mod HubRecord
