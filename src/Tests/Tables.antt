-- ===== src/Tests/Tables.antt =====
-- The ARP table and the translation tables at concrete inputs.
use go_software_router.Prelude.{
  ℕ, ◌≡◌, ◌≢◌, ◌^◌, ◌<◌, ◌↔◌, refl, arith, [], ◌∷◌, ◌++◌, none, some, ok, ◌==◌, ◌&&◌, if◌then◌else◌,
}
use go_software_router.Checksum.{fold_checksum, sum_byte_arr}
use go_software_router.Nat.Echo.{echo_bytes, icmp_segment_lem}
use go_software_router.Arp.{add_arp_table_entry, search_arp_table_entry}
use go_software_router.Arp.Table.{search_arp_table_entry-add_arp_table_entry}
use go_software_router.Header.Udp.{UdpHeader}
use go_software_router.Header.Udp
use go_software_router.Header.Tcp
use go_software_router.Ip.{IpHeader, ip_protocol_num_udp, ip_protocol_num_tcp}
use go_software_router.Nat.{
  NatProtocolType, outgoing, incoming, local_entry, get_nat_entry_by_global, get_nat_entry_by_local,
}
use go_software_router.Nat.Datagrams.{datagram, nat_exec_round_trip}
use go_software_router.Nat.Slots.{IsNat, IsFull}
use go_software_router.Nat.Mapping.{
  local_entry-local, by_global-local_entry, global_port_injective, local_entry-none,
}
use go_software_router.Nat.L4.{icmp_segment, L4, udp_part, udp_segment, tcp_segment, set_dest_port}
use go_software_router.Nat.Exec.{translate, nat_exec}
use go_software_router.Nat.Translate.{AreNat, translate_round_trip, Translated, nat_exec-Translated}
use go_software_router.Nat.Segments.{
  IsValidSegment, udp_segment-IsValidSegment, tcp_segment-IsValidSegment,
}
use go_software_router.Tests.Data.{
  router_addr, host_addr, server_addr, host_mac, host_entry, ip_header, udp_header, tcp_header,
  new_entry, udp_slots, udp_slots_after, tables, tables_after,
}

search_arp_table_entry-add_arp_table_entry_example :
    search_arp_table_entry host_addr
      (add_arp_table_entry (some 1) server_addr host_mac (host_entry ∷ []))
    ≡ (if server_addr == host_addr
        then (host_mac, some 1)
        else search_arp_table_entry host_addr (host_entry ∷ []))
search_arp_table_entry-add_arp_table_entry_example =
    search_arp_table_entry-add_arp_table_entry (some 1) server_addr host_mac host_addr
      (host_entry ∷ [])

pub slots-IsNat : IsNat router_addr 20000 udp_slots
unfolding get_nat_entry_by_local
slots-IsNat = record { numbered = (refl, refl, tt); distinct = (refl, tt); fits = omega arith }

slots_after-IsNat : IsNat router_addr 20000 udp_slots_after
unfolding get_nat_entry_by_local
slots_after-IsNat = record {
  numbered = (refl, refl, (refl, refl, tt));
  distinct = (refl, (refl, tt));
  fits = omega arith;
}

pub made :
    local_entry NatProtocolType.udp router_addr server_addr 5353 udp_slots
    ≡ some (udp_slots_after, new_entry)
unfolding local_entry
made = refl

local_entry-local_example : get_nat_entry_by_local 0x0a000009 1000 udp_slots_after ≡ (
    if 0x0a000009 == server_addr && 1000 == 5353
    then some new_entry
    else get_nat_entry_by_local 0x0a000009 1000 udp_slots)
local_entry-local_example =
    local_entry-local NatProtocolType.udp router_addr server_addr 5353 udp_slots udp_slots_after
      new_entry slots-IsNat made 0x0a000009 1000

by_global-local_entry_example :
    (get_nat_entry_by_global router_addr 20001 udp_slots_after ≡ some new_entry)
    × (new_entry.global_ip_addr ≡ router_addr)
    × (new_entry.local_ip_addr ≡ server_addr)
    × (new_entry.local_port ≡ 5353)
    × (local_entry NatProtocolType.udp router_addr server_addr 5353 udp_slots_after
        ≡ some (udp_slots_after, new_entry))
by_global-local_entry_example =
    by_global-local_entry NatProtocolType.udp router_addr server_addr 5353 udp_slots udp_slots_after
      new_entry slots-IsNat made

global_port_injective_example : (server_addr ≡ server_addr) × (◌≡◌ {A = ℕ} 5353 5353)
unfolding get_nat_entry_by_local
global_port_injective_example =
    global_port_injective router_addr 20000 server_addr 5353 server_addr 5353 udp_slots_after
      new_entry new_entry slots_after-IsNat refl refl refl

local_entry-none_example :
    (local_entry NatProtocolType.udp router_addr 5 6 udp_slots_after ≡ none)
    ↔ ((get_nat_entry_by_local 5 6 udp_slots_after ≡ none) × IsFull udp_slots_after)
local_entry-none_example = local_entry-none NatProtocolType.udp router_addr 5 6 udp_slots_after

abbrev gone_header : IpHeader
gone_header = record ip_header { src_addr = router_addr }

abbrev pub back_header : IpHeader
back_header = record ip_header { src_addr = host_addr; dest_addr = router_addr }

abbrev back_part : L4
back_part = udp_part (record { src_port = 53; dest_port = 20001; segment_len = 10; check_sum = 3 })

goes_out :
    translate outgoing NatProtocolType.udp router_addr ip_header (udp_part udp_header) tables
    ≡ (tables_after, some (gone_header, udp_part (record udp_header { src_port = 20001 })))
unfolding translate local_entry
goes_out = refl

translate_round_trip_example :
    (router_addr ≡ router_addr)
    × (translate incoming NatProtocolType.udp router_addr back_header back_part tables_after ≡ (
      tables_after,
      some (record back_header { dest_addr = server_addr }, set_dest_port 5353 back_part),
    ))
translate_round_trip_example =
    translate_round_trip NatProtocolType.udp router_addr ip_header gone_header back_header
      (udp_part udp_header) (udp_part (record udp_header { src_port = 20001 })) back_part tables
      tables_after slots-IsNat goes_out refl refl

tables-AreNat : AreNat router_addr tables
tables-AreNat NatProtocolType.tcp = record { numbered = tt; distinct = tt; fits = omega arith }
tables-AreNat NatProtocolType.udp = slots-IsNat
tables-AreNat NatProtocolType.icmp = record { numbered = tt; distinct = tt; fits = omega arith }

nat_exec-Translated_example : Translated router_addr (
    nat_exec ip_header
      (Udp.to_packet udp_header ++ 1 ∷ 2 ∷ [])
      router_addr
      (some tables)
      NatProtocolType.udp
      outgoing)
nat_exec-Translated_example =
    nat_exec-Translated ip_header (Udp.to_packet udp_header ++ 1 ∷ 2 ∷ []) router_addr tables
      NatProtocolType.udp outgoing tables-AreNat

udp_segment-IsValidSegment_example :
    (c : ℕ) × (let segment = Udp.to_packet (record udp_header { check_sum = c }) ++ 1 ∷ 2 ∷ [] in
      (udp_segment ip_header udp_header (1 ∷ 2 ∷ []) ≡ ok segment)
      × (c ≢ 0)
      × (c < 2 ^ 16)
      × IsValidSegment ip_header ip_protocol_num_udp segment)
udp_segment-IsValidSegment_example =
    udp_segment-IsValidSegment ip_header udp_header (1 ∷ 2 ∷ []) (omega arith) (omega arith)
      (omega arith) (omega arith) refl (omega arith)

tcp_segment-IsValidSegment_example :
    (c : ℕ) × (let segment = Tcp.to_packet (record tcp_header { check_sum = c }) in
      (tcp_segment ip_header tcp_header ≡ ok segment)
      × (c < 2 ^ 16)
      × IsValidSegment ip_header ip_protocol_num_tcp segment)
tcp_segment-IsValidSegment_example =
    tcp_segment-IsValidSegment ip_header tcp_header (omega arith) (omega arith) (omega arith)
      (omega arith) refl (omega arith)

icmp_segment_lem_example :
    (sum n : ℕ) × (icmp_segment 20001 (8 ∷ 0 ∷ 1 ∷ 2 ∷ 3 ∷ 4 ∷ 5 ∷ 6 ∷ [])
      ≡ ok (echo_bytes 8 0 sum 20001 (5 ∷ 6 ∷ [])))
    × (sum < 2 ^ 16)
    × (sum_byte_arr (echo_bytes 8 0 sum 20001 (5 ∷ 6 ∷ [])) ≡ ok n)
    × (fold_checksum n ≡ 0)
icmp_segment_lem_example =
    icmp_segment_lem 8 0 1 2 3 4 20001 (5 ∷ 6 ∷ []) (omega arith) (omega arith) refl (omega arith)

abbrev pub answer_header : UdpHeader
answer_header = record { src_port = 53; dest_port = 20001; segment_len = 12; check_sum = 3 }

nat_exec_round_trip_example :
    (c c' : ℕ) × (let gone = record ip_header { src_addr = router_addr } in
      let sent = datagram (record udp_header { src_port = 20001 }) c (1 ∷ 2 ∷ []) in
      let returned = record back_header { dest_addr = server_addr } in
      let received = datagram (record answer_header { dest_port = 5353 }) c' (3 ∷ 4 ∷ 5 ∷ 6 ∷ []) in
      (nat_exec ip_header
          (Udp.to_packet udp_header ++ 1 ∷ 2 ∷ [])
          router_addr
          (some tables)
          NatProtocolType.udp
          outgoing
        ≡ ok (some tables_after, some (gone, sent)))
      × IsValidSegment gone ip_protocol_num_udp sent
      × (nat_exec back_header
            (Udp.to_packet answer_header ++ 3 ∷ 4 ∷ 5 ∷ 6 ∷ [])
            router_addr
            (some tables_after)
            NatProtocolType.udp
            incoming
          ≡ ok (some tables_after, some (returned, received)))
      × IsValidSegment returned ip_protocol_num_udp received)
nat_exec_round_trip_example =
    nat_exec_round_trip router_addr ip_header back_header udp_header answer_header (1 ∷ 2 ∷ [])
      (3 ∷ 4 ∷ 5 ∷ 6 ∷ []) tables udp_slots_after new_entry slots-IsNat made (omega arith)
      (omega arith) (omega arith) (omega arith) (omega arith) refl refl
