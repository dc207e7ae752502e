-- ===== src/Tests/Messages.antt =====
-- The formats and the checksums at concrete inputs.
use go_software_router.Prelude.{
  ℕ, ◌+◌, ◌-◌, ◌^◌, ◌<◌, ◌≡◌, refl, arith, List, [], ◌∷◌, ◌++◌, ok, crash, panic, ◌>>=◌, true, u64,
  slice_from, inl,
}
use go_software_router.Wire.{byte_to_uint32}
use go_software_router.Checksum.{
  fold_checksum, sum_byte_arr, pseudo_header_sum, compute_l4_checksum_zero_copy,
}
use go_software_router.Checksum.Fold.{ones, fold_checksum-ones}
use go_software_router.Checksum.Sum.{word_sum, sum_byte_arr_odd}
use go_software_router.Checksum.ZeroCopy.{
  compute_l4_checksum_zero_copy-word_sum, compute_l4_checksum_zero_copy-sum_byte_arr,
}
use go_software_router.Header.Udp.{UdpHeader}
use go_software_router.Header.Udp
use go_software_router.Header.Udp.Laws.{IsUdp, IsUdp-round_trip_back}
use go_software_router.Header.Tcp.{TcpHeader}
use go_software_router.Header.Tcp
use go_software_router.Header.Tcp.Laws.{IsTcp, tcp_round_trip}
use go_software_router.Header.Tcp.Inverse.{IsTcp-round_trip_back, parse_packet-empty}
use go_software_router.Icmp
use go_software_router.Device.{Mac, mac_to_byte}
use go_software_router.Print.{print_ip_addr, print_mac_addr}
use go_software_router.Print.Laws.{read_fields, byte_to_uint32-print_ip_addr}
use go_software_router.Print.Macs.{between, print_mac_addr_lem}
use go_software_router.Icmp.Reply.{reply_packet_odd}
use go_software_router.Ip.{IpHeader, header_bytes, parse_header}
use go_software_router.Ip
use go_software_router.Ip.Header.{to_packet_checksum}
use go_software_router.Arp
use go_software_router.Arp.Message.{parse_fields-to_packet}
use go_software_router.Tests.Data.{host_addr, server_addr, ip_header, tcp_header, arp_message, echo}

abbrev four : List ℕ
four = 1 ∷ 2 ∷ 255 ∷ 4 ∷ []

fold_checksum-ones_example : fold_checksum 70000 ≡ 65535 - ones 70000
fold_checksum-ones_example = fold_checksum-ones 70000

sum_byte_arr_odd_example : sum_byte_arr (9 ∷ four) ≡ crash panic
sum_byte_arr_odd_example = sum_byte_arr_odd (9 ∷ four) refl

compute_l4_checksum_zero_copy-word_sum_example :
    compute_l4_checksum_zero_copy host_addr server_addr 17 (9 ∷ four)
    ≡ fold_checksum (pseudo_header_sum host_addr server_addr 17 5 + word_sum (9 ∷ four))
compute_l4_checksum_zero_copy-word_sum_example =
    compute_l4_checksum_zero_copy-word_sum host_addr server_addr 17 (9 ∷ four) (omega arith)
      (omega arith) (omega arith) (omega arith) (omega arith)

compute_l4_checksum_zero_copy-sum_byte_arr_example :
    (sum_byte_arr four >>= λ s.
    ok (fold_checksum (u64 (pseudo_header_sum host_addr server_addr 17 4 + s))))
    ≡ ok (compute_l4_checksum_zero_copy host_addr server_addr 17 four)
compute_l4_checksum_zero_copy-sum_byte_arr_example =
    compute_l4_checksum_zero_copy-sum_byte_arr host_addr server_addr 17 four (omega arith)
      (omega arith) (omega arith) (omega arith) (omega arith) refl

abbrev datagram : List ℕ
datagram = 20 ∷ 233 ∷ 0 ∷ 53 ∷ 0 ∷ 10 ∷ 0 ∷ 1 ∷ four

IsUdp-round_trip_back_example :
    (h : UdpHeader) × (payload : List ℕ) × (Udp.parse_packet datagram ≡ ok h)
    × (Udp.to_packet h ++ payload ≡ datagram)
    × (slice_from datagram 8 ≡ ok payload)
    × IsUdp h
IsUdp-round_trip_back_example = IsUdp-round_trip_back datagram (omega arith) (omega arith)

tcp_round_trip_example : Tcp.parse_packet (Tcp.to_packet tcp_header) ≡ ok tcp_header
tcp_round_trip_example = tcp_round_trip tcp_header (omega arith)

-- A segment with a data offset of 5, and one byte of data.
abbrev segment : List ℕ
segment =
    15 ∷ 160 ∷ 0 ∷ 80 ∷ 0 ∷ 0 ∷ 0 ∷ 1 ∷ 0 ∷ 0 ∷ 0 ∷ 2 ∷ 80 ∷ 2 ∷ 4 ∷ 0 ∷ 0 ∷ 9 ∷ 0 ∷ 0 ∷ 104 ∷ []

IsTcp-round_trip_back_example :
    (h : TcpHeader) × (Tcp.parse_packet segment ≡ ok h) × (Tcp.to_packet h ≡ segment) × IsTcp h
IsTcp-round_trip_back_example =
    IsTcp-round_trip_back segment 80 (omega arith) (omega arith) refl (omega arith) (omega arith)

parse_packet-empty_example : Tcp.parse_packet four ≡ ok Tcp.empty
parse_packet-empty_example = parse_packet-empty four 0 (inl (omega arith))

abbrev odd_echo : Icmp.IcmpMessage
odd_echo = record echo { icmp_echo = record (echo.icmp_echo) { echo_data = 10 ∷ [] } }

reply_packet_odd_example : Icmp.reply_packet odd_echo ≡ crash panic
reply_packet_odd_example = reply_packet_odd odd_echo (omega arith) refl

to_packet_checksum_example :
    (c sum : ℕ) × (Ip.to_packet ip_header true
      ≡ ok (
        header_bytes (record ip_header { header_checksum = c }),
        record ip_header { header_checksum = c },
      ))
    × (c < 2 ^ 16)
    × (sum_byte_arr (header_bytes (record ip_header { header_checksum = c })) ≡ ok sum)
    × (fold_checksum sum ≡ 0)
to_packet_checksum_example = to_packet_checksum ip_header (omega arith)

parse_fields-to_packet_example :
    Arp.parse_fields (Arp.to_packet arp_message ++ four) ≡ ok arp_message
parse_fields-to_packet_example = parse_fields-to_packet arp_message four (omega arith)

byte_to_uint32-print_ip_addr_example :
    byte_to_uint32 (read_fields 4 10 (print_ip_addr host_addr)) ≡ ok host_addr
byte_to_uint32-print_ip_addr_example = byte_to_uint32-print_ip_addr host_addr (omega arith)

abbrev some_mac : Mac
some_mac = record { b0 = 2; b1 = 0; b2 = 171; b3 = 16; b4 = 15; b5 = 255 }

print_mac_addr_lem_example :
    (print_mac_addr some_mac
      ≡ between
          (50 ∷ [])
          ((48 ∷ []) ∷ (97 ∷ 98 ∷ []) ∷ (49 ∷ 48 ∷ []) ∷ (102 ∷ []) ∷ (102 ∷ 102 ∷ []) ∷ []))
    × (read_fields 6 16 (print_mac_addr some_mac) ≡ mac_to_byte some_mac)
unfolding mac_to_byte
print_mac_addr_lem_example = print_mac_addr_lem some_mac (omega arith)
