-- ===== src/Wire/Laws.antt =====
-- Round trips between words and their bytes.
use go_software_router.Prelude.{ℕ, ◌^◌, ◌<◌, ◌≡◌, List, ◌++◌, ok, arith}
use go_software_router.Wire.{byte_to_uint16, byte_to_uint32, uint16_to_byte, uint32_to_byte}

pub byte_to_uint16-uint16_to_byte :
    (i : ℕ) (rest : List ℕ) → i < 2 ^ 16 → byte_to_uint16 (uint16_to_byte i ++ rest) ≡ ok i
unfolding byte_to_uint16 uint16_to_byte
byte_to_uint16-uint16_to_byte i rest h = ground arith

-- A 32-bit number written by `uint32ToByte`, whatever follows it, is read back by `byteToUint32`.
pub byte_to_uint32-uint32_to_byte :
    (i : ℕ) (rest : List ℕ) → i < 2 ^ 32 → byte_to_uint32 (uint32_to_byte i ++ rest) ≡ ok i
unfolding byte_to_uint32 uint32_to_byte
byte_to_uint32-uint32_to_byte i rest h = ground arith
