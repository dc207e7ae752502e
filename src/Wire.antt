-- ===== src/Wire.antt =====
-- utils.go and net.go: words and bytes in network order. The slices of encoding/binary are lists.
pub mod Laws
pub mod Total
use go_software_router.Prelude.{
  ℕ, ◌+◌, ◌*◌, ◌/◌, ◌%◌, ◌^◌, List, [], ◌∷◌, Result, ok, crash, panic, u8, u16, bit_and, bit_or,
}

-- `binary.BigEndian.Uint16` reads two bytes, and panics on fewer.
unfoldable pub byte_to_uint16 : List ℕ → Result ℕ
byte_to_uint16 [] = crash panic
byte_to_uint16 (x ∷ []) = crash panic
byte_to_uint16 (x ∷ y ∷ rest) = ok (x * 2 ^ 8 + y)

-- `binary.BigEndian.Uint32` reads four.
unfoldable pub byte_to_uint32 : List ℕ → Result ℕ
byte_to_uint32 [] = crash panic
byte_to_uint32 (x ∷ []) = crash panic
byte_to_uint32 (x ∷ y ∷ []) = crash panic
byte_to_uint32 (x ∷ y ∷ z ∷ []) = crash panic
byte_to_uint32 (x ∷ y ∷ z ∷ w ∷ rest) = ok (x * 2 ^ 24 + y * 2 ^ 16 + z * 2 ^ 8 + w)

unfoldable pub uint16_to_byte : ℕ → List ℕ
uint16_to_byte i = u8 (i / 2 ^ 8) ∷ u8 i ∷ []

unfoldable pub uint32_to_byte : ℕ → List ℕ
uint32_to_byte i = u8 (i / 2 ^ 24) ∷ u8 (i / 2 ^ 16) ∷ u8 (i / 2 ^ 8) ∷ u8 i ∷ []

-- `(i<<8)&0xff00 | i>>8`, on a uint16.
unfoldable pub htons : ℕ → ℕ
htons i = bit_or (bit_and (u16 (i * 2 ^ 8)) 0xff00) (i / 2 ^ 8)
