-- ===== src/EventProtocol/Family.antt =====
-- `enum class Family` of lib/event_protocol/src/event_protocol.h. A family is a plain byte in every
-- record, so the enumerators are constants.
use argus_redline.Base.{ℕ}

abbrev pub button : ℕ
button = 0x40

abbrev pub sensor_threshold : ℕ
sensor_threshold = 0x41

abbrev pub manual_check_in : ℕ
manual_check_in = 0x44
