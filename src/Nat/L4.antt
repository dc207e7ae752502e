-- ===== src/Nat/L4.antt =====
-- The transport part of `natExec`: parsing by protocol, the ports, and the new bytes.
use go_software_router.Prelude.{
  ℕ, ◌+◌, List, [], ◌∷◌, ◌++◌, ◌&&◌, not, Option, none, some, Result, ok, ◌>>=◌, ◌==◌, ltb,
  if◌then◌else◌, length, slice_from, copy_at, u64,
}
use go_software_router.Wire.{uint16_to_byte}
use go_software_router.Checksum.{fold_checksum, sum_byte_arr, pseudo_header_sum}
use go_software_router.Header.Udp.{UdpHeader}
use go_software_router.Header.Udp
use go_software_router.Header.Tcp.{TcpHeader}
use go_software_router.Header.Tcp
use go_software_router.Icmp.{IcmpMessage, icmp_type_echo_reply, icmp_type_echo_request}
use go_software_router.Icmp
use go_software_router.Ip.{IpHeader, ip_protocol_num_tcp, ip_protocol_num_udp}
use go_software_router.Nat.{NatProtocolType}

-- The one of `udph`, `tcph` and `icmpm` that the protocol uses.
pub data L4 : Type 0 where
  udp_part : UdpHeader → L4
  tcp_part : TcpHeader → L4
  icmp_part : IcmpMessage → L4

-- `none` is the error for an ICMP message that is no echo.
unfoldable pub parse_l4 : NatProtocolType → List ℕ → Result (Option L4)
parse_l4 NatProtocolType.udp packet = Udp.parse_packet packet >>= λ h. ok (some (udp_part h))
parse_l4 NatProtocolType.tcp packet = Tcp.parse_packet packet >>= λ h. ok (some (tcp_part h))
parse_l4 NatProtocolType.icmp packet = Icmp.parse_packet packet >>= λ m. ok (
    if not (m.icmp_header.icmp_type == icmp_type_echo_reply)
      && not (m.icmp_header.icmp_type == icmp_type_echo_request)
    then none
    else some (icmp_part m))

abbrev pub src_port : L4 → ℕ
src_port (udp_part h) = h.src_port
src_port (tcp_part h) = h.src_port
src_port (icmp_part m) = m.icmp_echo.identity

abbrev pub dest_port : L4 → ℕ
dest_port (udp_part h) = h.dest_port
dest_port (tcp_part h) = h.dest_port
dest_port (icmp_part m) = m.icmp_echo.identity

abbrev pub set_src_port : ℕ → L4 → L4
set_src_port p (udp_part h) = udp_part (record h { src_port = p })
set_src_port p (tcp_part h) = tcp_part (record h { src_port = p })
set_src_port p (icmp_part m) =
    icmp_part (record m { icmp_echo = record (m.icmp_echo) { identity = p } })

abbrev pub set_dest_port : ℕ → L4 → L4
set_dest_port p (udp_part h) = udp_part (record h { dest_port = p })
set_dest_port p (tcp_part h) = tcp_part (record h { dest_port = p })
set_dest_port p (icmp_part m) =
    icmp_part (record m { icmp_echo = record (m.icmp_echo) { identity = p } })

-- The sum of the pseudo header and a segment.
abbrev pub l4_sum : IpHeader → ℕ → List ℕ → Result ℕ
l4_sum ip proto segment = sum_byte_arr segment >>= λ sum.
    ok (u64 (pseudo_header_sum ip.src_addr ip.dest_addr proto (length segment) + sum))

-- A computed checksum of 0 is sent as 0xffff, since 0 says that there is none.
abbrev pub udp_checksum : ℕ → ℕ
udp_checksum sum = if fold_checksum sum == 0 then 0xffff else fold_checksum sum

-- A datagram whose checksum is 0 keeps it.
unfoldable pub udp_segment : IpHeader → UdpHeader → List ℕ → Result (List ℕ)
udp_segment ip h payload =
    if not (h.check_sum == 0)
    then (l4_sum ip ip_protocol_num_udp (Udp.to_packet (record h { check_sum = 0 }) ++ payload)
        >>= λ sum. ok (Udp.to_packet (record h { check_sum = udp_checksum sum }) ++ payload))
    else ok (Udp.to_packet h ++ payload)

unfoldable pub tcp_segment : IpHeader → TcpHeader → Result (List ℕ)
tcp_segment ip h =
    l4_sum ip ip_protocol_num_tcp (Tcp.to_packet (record h { check_sum = 0 })) >>= λ sum.
    ok (Tcp.to_packet (record h { check_sum = fold_checksum sum }))

-- The message with its new identifier, and a checksum over bytes 2 and 3 set to 0.
abbrev pub icmp_cleared : ℕ → List ℕ → List ℕ
icmp_cleared identity packet = copy_at (copy_at packet 4 (uint16_to_byte identity)) 2 (0 ∷ 0 ∷ [])

unfoldable pub icmp_segment : ℕ → List ℕ → Result (List ℕ)
icmp_segment identity packet = sum_byte_arr (icmp_cleared identity packet) >>= λ sum.
    ok (copy_at (icmp_cleared identity packet) 2 (uint16_to_byte (fold_checksum sum)))

-- `none` is the error for a datagram shorter than its header.
unfoldable pub serialise_l4 : IpHeader → List ℕ → L4 → Result (Option (List ℕ))
unfolding udp_segment tcp_segment icmp_segment
serialise_l4 ip packet (udp_part h) =
    if ltb (length packet) 8
    then ok none
    else (slice_from packet 8 >>= λ payload. udp_segment ip h payload >>= λ bytes. ok (some bytes))
serialise_l4 ip packet (tcp_part h) = tcp_segment ip h >>= λ bytes. ok (some bytes)
serialise_l4 ip packet (icmp_part m) =
    icmp_segment m.icmp_echo.identity packet >>= λ bytes. ok (some bytes)
