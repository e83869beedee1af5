-- ===== src/HostProtocol.antt =====
-- lib/host_protocol: the framing of the serial link between the Hub and its host.
pub mod Cobs
pub mod Crc16
pub mod Frame
pub mod Stream
