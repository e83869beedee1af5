-- ===== src/HostProtocol/Crc16.antt =====
-- `crc16CcittFalse` of lib/host_protocol/src/host_protocol.h, on the bytes that it reads. Its callers give it
-- arrays, so its test for a null input is left out.
use argus_redline.Base.{
  ℕ, zero, suc, ◌*◌, ◌^◌, bit_and, bit_xor, arith, not, List, [], ◌∷◌, ◌==◌, if◌then◌else◌,
}
use argus_redline.Base.Words.{IsU16, u16}

crc_bit : ℕ → ℕ
crc_bit crc =
    if not (bit_and crc 0x8000 == 0) then u16 (bit_xor (crc * 2) 0x1021) else u16 (crc * 2)

crc_bits : ℕ → ℕ → ℕ
unfolding crc_bit
crc_bits zero crc = crc
crc_bits (suc n) crc = crc_bits n (crc_bit crc)

crc_byte : ℕ → ℕ → ℕ
unfolding crc_bits
crc_byte crc b = crc_bits 8 (u16 (bit_xor crc (b * 2 ^ 8)))

crc_bytes : ℕ → List ℕ → ℕ
unfolding crc_byte
crc_bytes crc [] = crc
crc_bytes crc (b ∷ input) = crc_bytes (crc_byte crc b) input

pub crc16_ccitt_false : List ℕ → ℕ
unfolding crc_bytes
crc16_ccitt_false input = crc_bytes 0xffff input

crc_bit-IsU16 : (crc : ℕ) → IsU16 (crc_bit crc)
unfolding crc_bit
crc_bit-IsU16 crc = ground arith

crc_bits-IsU16 : (n crc : ℕ) → IsU16 crc → IsU16 (crc_bits n crc)
unfolding crc_bits
crc_bits-IsU16 zero crc h = h
crc_bits-IsU16 (suc n) crc h = crc_bits-IsU16 n (crc_bit crc) (crc_bit-IsU16 crc)

crc_byte-IsU16 : (crc b : ℕ) → IsU16 (crc_byte crc b)
unfolding crc_byte
crc_byte-IsU16 crc b = crc_bits-IsU16 8 (u16 (bit_xor crc (b * 2 ^ 8))) (omega arith)

crc_bytes-IsU16 : (input : List ℕ) (crc : ℕ) → IsU16 crc → IsU16 (crc_bytes crc input)
unfolding crc_bytes
crc_bytes-IsU16 [] crc h = h
crc_bytes-IsU16 (b ∷ input) crc h = crc_bytes-IsU16 input (crc_byte crc b) (crc_byte-IsU16 crc b)

pub crc16_ccitt_false-IsU16 : (input : List ℕ) → IsU16 (crc16_ccitt_false input)
unfolding crc16_ccitt_false
crc16_ccitt_false-IsU16 input = crc_bytes-IsU16 input 0xffff (omega arith)
