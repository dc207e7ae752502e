-- ===== src/Icmp.antt =====
-- ICMP.go: the echo message, its parser and the reply. `icmpInput` is in Router.
pub mod Reply
use go_software_router.Prelude.{
  ℕ, List, [], ◌∷◌, ◌++◌, Result, ok, ◌>>=◌, at, slice, slice_from, copy_at,
}
use go_software_router.Wire.{byte_to_uint16, uint16_to_byte}
use go_software_router.Checksum.{fold_checksum, sum_byte_arr}

abbrev pub icmp_type_echo_reply : ℕ
icmp_type_echo_reply = 0

abbrev pub icmp_type_echo_request : ℕ
icmp_type_echo_request = 8

pub record IcmpHeader : Type 0 where
  pub icmp_type : ℕ
  pub icmp_code : ℕ
  pub checksum : ℕ

pub record IcmpEcho : Type 0 where
  pub identity : ℕ
  pub sequence : ℕ
  pub timestamp : List ℕ
  pub echo_data : List ℕ

-- The parts for unreachable destinations and exceeded times stay empty in the source, and are left
-- out.
pub record IcmpMessage : Type 0 where
  pub icmp_header : IcmpHeader
  pub icmp_echo : IcmpEcho

-- `ParsePacket`, and the same reads in `icmpInput`: any packet under sixteen bytes panics.
unfoldable pub parse_packet : List ℕ → Result IcmpMessage
unfolding byte_to_uint16
parse_packet packet = do
  icmp_type ← at packet 0
  icmp_code ← at packet 1
  checksum ← slice packet 2 4 >>= byte_to_uint16
  identity ← slice packet 4 6 >>= byte_to_uint16
  sequence ← slice packet 6 8 >>= byte_to_uint16
  timestamp ← slice packet 8 16
  echo_data ← slice_from packet 16
  ok (record {
    icmp_header = record { icmp_type = icmp_type; icmp_code = icmp_code; checksum = checksum };
    icmp_echo = record {
      identity = identity;
      sequence = sequence;
      timestamp = timestamp;
      echo_data = echo_data;
    };
  })

-- The reply before its checksum is written.
unfoldable pub reply_body : IcmpMessage → List ℕ
unfolding uint16_to_byte
reply_body msg =
    icmp_type_echo_reply ∷ 0x00 ∷ 0x00 ∷ 0x00 ∷ []
    ++ (uint16_to_byte msg.icmp_echo.identity
        ++ (uint16_to_byte msg.icmp_echo.sequence
            ++ (msg.icmp_echo.timestamp ++ msg.icmp_echo.echo_data)))

unfoldable pub reply_packet : IcmpMessage → Result (List ℕ)
reply_packet msg = do
  sum ← sum_byte_arr (reply_body msg)
  ok (copy_at (reply_body msg) 2 (uint16_to_byte (fold_checksum sum)))
