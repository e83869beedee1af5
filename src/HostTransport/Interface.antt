-- ===== src/HostTransport/Interface.antt =====
-- The `ByteStream` that lib/host_transport/src/host_transport.h takes as a template parameter.
use argus_redline.Base.{ℕ, ◌≤◌, ◌≡◌, List, ◌++◌, Option, length, take}

-- A count that is not positive is 0, and a read that is negative is `none`.
pub record ByteStream : Type 1 where
  pub World : Type 0
  pub available : World → ℕ × World
  pub read : World → Option ℕ × World
  pub available_for_write : World → ℕ × World
  pub write : List ℕ → World → ℕ × World

-- A stream that takes no more than it is given, and keeps what it has taken in order.
pub record IsHonest (stream : ByteStream) : Type 0 where
  pub sent : stream.World → List ℕ
  pub write_bounded : (bytes : List ℕ) (w : stream.World) → (stream.write bytes w).0 ≤ length bytes
  pub write_sends :
      (bytes : List ℕ) (w : stream.World)
      → sent (stream.write bytes w).1 ≡ sent w ++ take (stream.write bytes w).0 bytes
  pub query_keeps : (w : stream.World) → sent (stream.available_for_write w).1 ≡ sent w
