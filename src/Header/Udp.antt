-- ===== src/Header/Udp.antt =====
-- Header.go, `udpHeader`: eight bytes, with no options.
pub mod Laws
use go_software_router.Prelude.{ℕ, List, ◌++◌, Result, ok, ◌>>=◌, ltb, if◌then◌else◌, length, slice}
use go_software_router.Wire.{byte_to_uint16, uint16_to_byte}

pub record UdpHeader : Type 0 where
  pub src_port : ℕ
  pub dest_port : ℕ
  pub segment_len : ℕ
  pub check_sum : ℕ

-- `udpHeader{}`.
abbrev pub empty : UdpHeader
empty = record { src_port = 0; dest_port = 0; segment_len = 0; check_sum = 0 }

unfoldable pub to_packet : UdpHeader → List ℕ
unfolding uint16_to_byte
to_packet udp =
    uint16_to_byte udp.src_port
    ++ (uint16_to_byte udp.dest_port
        ++ (uint16_to_byte udp.segment_len ++ uint16_to_byte udp.check_sum))

unfoldable pub parse_fields : List ℕ → Result UdpHeader
unfolding byte_to_uint16
parse_fields packet = do
  src_port ← slice packet 0 2 >>= byte_to_uint16
  dest_port ← slice packet 2 4 >>= byte_to_uint16
  segment_len ← slice packet 4 6 >>= byte_to_uint16
  check_sum ← slice packet 6 8 >>= byte_to_uint16
  ok (record {
    src_port = src_port;
    dest_port = dest_port;
    segment_len = segment_len;
    check_sum = check_sum;
  })

-- A packet shorter than the header gives the empty header, and no error.
unfoldable pub parse_packet : List ℕ → Result UdpHeader
parse_packet packet = if ltb (length packet) 8 then ok empty else parse_fields packet
