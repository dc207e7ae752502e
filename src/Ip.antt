-- ===== src/Ip.antt =====
-- ip.go: the IPv4 header, its bytes, and the reads of `ipInput`. The forwarding is in Router.
pub mod Header
use go_software_router.Prelude.{
  ℕ, ◌+◌, ◌*◌, ◌/◌, ◌^◌, List, [], ◌∷◌, ◌++◌, Bool, true, false, Result, ok, ◌>>=◌, at, slice,
  copy_at, u8, bit_and,
}
use go_software_router.Wire.{byte_to_uint16, byte_to_uint32, uint16_to_byte, uint32_to_byte}
use go_software_router.Checksum.{fold_checksum, sum_byte_arr}

abbrev pub ip_address_len : ℕ
ip_address_len = 4

abbrev pub ip_address_limited_broadcast : ℕ
ip_address_limited_broadcast = 0xffff_ffff

abbrev pub ip_protocol_num_icmp : ℕ
ip_protocol_num_icmp = 0x01

abbrev pub ip_protocol_num_tcp : ℕ
ip_protocol_num_tcp = 0x06

abbrev pub ip_protocol_num_udp : ℕ
ip_protocol_num_udp = 0x11

pub record IpHeader : Type 0 where
  pub version : ℕ
  pub header_len : ℕ
  pub tos : ℕ
  pub total_len : ℕ
  pub identity : ℕ
  pub flag_offset : ℕ
  pub ttl : ℕ
  pub protocol : ℕ
  pub header_checksum : ℕ
  pub src_addr : ℕ
  pub dest_addr : ℕ

-- The buffer `b` of `ToPacket`; `version<<4 + headerLen` is a sum of uint8.
unfoldable pub header_bytes : IpHeader → List ℕ
unfolding uint16_to_byte uint32_to_byte
header_bytes h =
    u8 (u8 (h.version * 2 ^ 4) + h.header_len) ∷ h.tos ∷ []
    ++ (uint16_to_byte h.total_len
        ++ (uint16_to_byte h.identity
            ++ (uint16_to_byte h.flag_offset
                ++ (h.ttl ∷ h.protocol ∷ []
                    ++ (uint16_to_byte h.header_checksum
                        ++ (uint32_to_byte h.src_addr ++ uint32_to_byte h.dest_addr))))))

-- With `calc` the checksum is computed over zeroed bytes 10 and 11, and set in the header too.
unfoldable pub to_packet : IpHeader → Bool → Result (List ℕ × IpHeader)
to_packet h true = do
  sum ← sum_byte_arr (copy_at (header_bytes h) 10 (0 ∷ 0 ∷ []))
  let cksum = fold_checksum sum
  ok (
    copy_at (copy_at (header_bytes h) 10 (0 ∷ 0 ∷ [])) 10 (uint16_to_byte cksum),
    record h { header_checksum = cksum },
  )
to_packet h false = ok (header_bytes h, h)

-- The fields that `ipInput` reads from a packet of at least 20 bytes.
unfoldable pub parse_header : List ℕ → Result IpHeader
unfolding byte_to_uint16 byte_to_uint32
parse_header packet = do
  first ← at packet 0
  tos ← at packet 1
  total_len ← slice packet 2 4 >>= byte_to_uint16
  identity ← slice packet 4 6 >>= byte_to_uint16
  flag_offset ← slice packet 6 8 >>= byte_to_uint16
  ttl ← at packet 8
  protocol ← at packet 9
  header_checksum ← slice packet 10 12 >>= byte_to_uint16
  src_addr ← slice packet 12 16 >>= byte_to_uint32
  dest_addr ← slice packet 16 20 >>= byte_to_uint32
  ok (record {
    version = bit_and first 0xf0 / 2 ^ 4;
    header_len = bit_and first 0x0f;
    tos = tos;
    total_len = total_len;
    identity = identity;
    flag_offset = flag_offset;
    ttl = ttl;
    protocol = protocol;
    header_checksum = header_checksum;
    src_addr = src_addr;
    dest_addr = dest_addr;
  })
