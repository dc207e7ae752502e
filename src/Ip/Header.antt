-- ===== src/Ip/Header.antt =====
-- The IPv4 header: round trip and checksum.
use go_software_router.Prelude.{
  ℕ, ◌+◌, ◌*◌, ◌/◌, ◌<◌, ◌^◌, ◌≡◌, refl, ap, ◌∙◌, List, [], ◌∷◌, ◌++◌, true, ok, arith, length,
  IsBytes, copy_at, u8, bit_and, ==_iff, ◌==◌, check_below_sound,
}
use go_software_router.Prelude.Bits.{bit_and_mask}
use go_software_router.Wire.{uint16_to_byte}
use go_software_router.Checksum.{fold_checksum, sum_byte_arr}
use go_software_router.Checksum.Fold.{fold_checksum-lt, fold_checksum_fill}
use go_software_router.Checksum.Sum.{word_sum, sum_byte_arr_short}
use go_software_router.Ip.{IpHeader, header_bytes, to_packet, parse_header}

-- Every field fits its width.
pub record IsIp (h : IpHeader) : Type 0 where
  pub version_fits : h.version < 2 ^ 4
  pub len_fits : h.header_len < 2 ^ 4
  pub tos_fits : h.tos < 2 ^ 8
  pub total_fits : h.total_len < 2 ^ 16
  pub id_fits : h.identity < 2 ^ 16
  pub flags_fit : h.flag_offset < 2 ^ 16
  pub ttl_fits : h.ttl < 2 ^ 8
  pub protocol_fits : h.protocol < 2 ^ 8
  pub sum_fits : h.header_checksum < 2 ^ 16
  pub src_fits : h.src_addr < 2 ^ 32
  pub dest_fits : h.dest_addr < 2 ^ 32

-- `packet[0] & 0xf0 >> 4` groups to the left, so it is the high half.
high_half : (x : ℕ) → x < 2 ^ 8 → bit_and x 0xf0 / 2 ^ 4 ≡ x / 16
high_half x h =
    (==_iff _ _).0 (check_below_sound (λ y. bit_and y 0xf0 / 2 ^ 4 == y / 16) 256 x refl h)

-- What `ipInput` reads from the bytes of a header, whatever follows them, is the header.
pub parse_header-header_bytes :
    (h : IpHeader) (rest : List ℕ) → IsIp h → parse_header (header_bytes h ++ rest) ≡ ok h
unfolding parse_header header_bytes
parse_header-header_bytes h rest v = ground (
  arith,
  high_half (u8 (u8 (h.version * 2 ^ 4) + h.header_len)),
  bit_and_mask 4 (u8 (u8 (h.version * 2 ^ 4) + h.header_len)),
)

header_bytes-IsBytes : (h : IpHeader) → IsIp h → IsBytes (header_bytes h)
unfolding header_bytes
header_bytes-IsBytes h v = omega arith

-- The sum of the header's words without the checksum, and with one.
abbrev cleared : IpHeader → IpHeader
cleared h = record h { header_checksum = 0 }

word_sum_filled :
    (h : IpHeader) (c : ℕ)
    → c < 2 ^ 16
    → word_sum (header_bytes (record h { header_checksum = c }))
      ≡ word_sum (header_bytes (cleared h)) + c
unfolding header_bytes
word_sum_filled h c hc = omega arith

pub length-header_bytes : (h : IpHeader) → length (header_bytes h) ≡ 20
unfolding header_bytes
length-header_bytes h = refl

with_checksum-IsIp :
    (h : IpHeader) (c : ℕ) → IsIp h → c < 2 ^ 16 → IsIp (record h { header_checksum = c })
with_checksum-IsIp h c v hc = omega arith

sum_header :
    (h : IpHeader) → IsIp h → sum_byte_arr (header_bytes h) ≡ ok (word_sum (header_bytes h))
sum_header h v =
    let size = length-header_bytes h in
    sum_byte_arr_short (header_bytes h) (header_bytes-IsBytes h v) (omega arith) (omega arith)

copies_cleared :
    (h : IpHeader) → copy_at (header_bytes h) 10 (0 ∷ 0 ∷ []) ≡ header_bytes (cleared h)
unfolding header_bytes
copies_cleared h = refl

copies_filled :
    (h : IpHeader) (c : ℕ)
    → copy_at (header_bytes (cleared h)) 10 (uint16_to_byte c)
      ≡ header_bytes (record h { header_checksum = c })
unfolding header_bytes
copies_filled h c = refl

-- `ToPacket(true)` on a header whose fields fit writes its twenty bytes, with a checksum under which the
-- receiver's sum over them is right, and changes only the checksum field of the header.
pub to_packet_checksum :
    (h : IpHeader)
    → IsIp h
    → (c sum : ℕ) × (to_packet h true
        ≡ ok (header_bytes (record h { header_checksum = c }), record h { header_checksum = c }))
      × (c < 2 ^ 16)
      × (sum_byte_arr (header_bytes (record h { header_checksum = c })) ≡ ok sum)
      × (fold_checksum sum ≡ 0)
unfolding to_packet
to_packet_checksum h v =
    let w = word_sum (header_bytes (cleared h)) in
    let c = fold_checksum w in
    let hc : c < 2 ^ 16 = fold_checksum-lt w in
    (
      c,
      w + c,
      rw (
        copies_cleared h,
        sum_header (cleared h) (with_checksum-IsIp h 0 v (omega arith)),
        copies_filled h c,
      ),
      hc,
      sum_header (record h { header_checksum = c }) (with_checksum-IsIp h c v hc)
          ∙ ap ok (word_sum_filled h c hc),
      fold_checksum_fill w,
    )
