-- ===== src/Tests/Sessions.antt =====
-- A UDP session through the NAT, at concrete packets.
use go_software_router.Prelude.{ℕ, ◌++◌, ◌≡◌, refl, arith, [], ◌∷◌, some, ok, crash}
use go_software_router.Checksum.{fold_checksum, sum_byte_arr}
use go_software_router.Device.{Mac, NetDevice}
use go_software_router.Arp
use go_software_router.Header.Udp.{UdpHeader}
use go_software_router.Header.Udp
use go_software_router.Ip.{header_bytes, ip_protocol_num_udp}
use go_software_router.Nat.{get_nat_entry_by_global}
use go_software_router.Nat.Segments.{IsValidSegment}
use go_software_router.Nat.Datagrams.{datagram}
use go_software_router.Radix.{connected, radix_tree_search, radix_tree_add, RadixTreeNode}
use go_software_router.Router.State.{Router}
use go_software_router.Router.Output.{ether_type_ip}
use go_software_router.Router.Input.{is_own_address}
use go_software_router.Router.Frames.{ethernet_input}
use go_software_router.Router.Run.{frame_of}
use go_software_router.Router.Through.{learned}
use go_software_router.Router.Forwarded.{frame_for}
use go_software_router.Router.Masquerade.{IsOutgoing, ethernet_input-nat}
use go_software_router.Router.Inside.{first_outside}
use go_software_router.Router.Returned.{IsIncoming, ethernet_input-returned}
use go_software_router.Tests.Tables.{slots-IsNat, made, back_header, answer_header}
use go_software_router.Tests.Data.{
  router, router_addr, server_addr, host_addr, host_mac, device, tree, takes_all, ip_header,
  udp_header, tables, tables_after, udp_slots_after, new_entry, host_entry,
}

-- The device of the inner network 10.0.0.0/8, which translates.
abbrev inside : NetDevice
inside = record device {
  macaddr = record { b0 = 2; b1 = 0; b2 = 0; b3 = 0; b4 = 0; b5 = 9 };
  socket = 5;
  ipdev = record {
    address = 0x0a000001;
    netmask = 0xff000000;
    broadcast = 0x0affffff;
    natdev = record { outside_ip_addr = router_addr; nat_entry = some 0 };
  };
}

abbrev server_mac : Mac
server_mac = record { b0 = 2; b1 = 0; b2 = 0; b3 = 0; b4 = 0; b5 = 7 }

abbrev both_networks : RadixTreeNode
both_networks =
    elim (radix_tree_add tree 0x0a000000 8
      (record { iptype = connected; netdev = some 1; nexthop = 0 })) [ ok t ↦ t | crash c ↦ tree ]

abbrev before : Router
before = record router {
  net_device_list = device ∷ inside ∷ [];
  iproute = both_networks;
  nat_tables = tables ∷ [];
}

abbrev between : Router
between = record before {
  arp_table =
      host_entry ∷ record { mac_addr = server_mac; ip_addr = server_addr; netdev = some 1 } ∷ [];
  nat_tables = tables_after ∷ [];
}

udp_header-IsOutgoing : IsOutgoing inside 0 ip_header udp_header (1 ∷ 2 ∷ []) before
unfolding is_own_address Udp.to_packet
udp_header-IsOutgoing = record {
  header = omega arith;
  no_options = refl;
  whole = refl;
  alive = omega arith;
  is_udp = refl;
  fits = omega arith;
  has_address = omega arith;
  outside_fits = omega arith;
  has_tables = refl;
  no_broadcast = omega arith;
  not_mine = omega arith;
  not_own = refl;
  other_source = omega arith;
}

ethernet_input-nat_example :
    (c u sum : ℕ) × (let gone = record ip_header { src_addr = router_addr } in
      let sent = datagram (record udp_header { src_port = 20001 }) u (1 ∷ 2 ∷ []) in
      let head = header_bytes (record gone { ttl = 63; header_checksum = c }) in
      IsValidSegment gone ip_protocol_num_udp sent
      × (sum_byte_arr head ≡ ok sum)
      × (fold_checksum sum ≡ 0)
      × (ethernet_input takes_all 1
            (frame_for inside server_mac ip_header ((Udp.to_packet udp_header ++ 1 ∷ 2 ∷ []) ++ []))
            before
          ≡ ok (
            tt,
            record before {
              net_device_list =
                  device
                  ∷ record inside {
                    ethe_header = record {
                      dest_addr = inside.macaddr;
                      src_addr = server_mac;
                      ether_type = ether_type_ip;
                    };
                  }
                  ∷ [];
              arp_table = learned 1 server_mac server_addr router.arp_table;
              nat_tables = tables_after ∷ [];
              sent = frame_of device host_mac ether_type_ip (head ++ sent) ∷ [];
            },
          )))
unfolding radix_tree_search radix_tree_add Arp.search_arp_table_entry
ethernet_input-nat_example =
    ethernet_input-nat takes_all 1 0 0 inside device server_mac host_mac (some 0) ip_header
      udp_header (1 ∷ 2 ∷ []) [] tables udp_slots_after new_entry before refl refl (omega arith)
      (λ e. ground arith) udp_header-IsOutgoing refl slots-IsNat made refl refl refl refl
      (λ e. ground arith) (λ f. refl)

answer_header-IsIncoming : IsIncoming device back_header answer_header (3 ∷ 4 ∷ [])
unfolding Udp.to_packet
answer_header-IsIncoming = record {
  header = omega arith;
  no_options = refl;
  whole = refl;
  alive = omega arith;
  is_udp = refl;
  fits = omega arith;
  has_address = omega arith;
  for_us = refl;
}

ethernet_input-returned_example :
    (c u sum : ℕ) × (let back = record back_header { dest_addr = server_addr } in
      let received = datagram (record answer_header { dest_port = 5353 }) u (3 ∷ 4 ∷ []) in
      let head = header_bytes (record back { ttl = 63; header_checksum = c }) in
      IsValidSegment back ip_protocol_num_udp received
      × (sum_byte_arr head ≡ ok sum)
      × (fold_checksum sum ≡ 0)
      × (ethernet_input takes_all 0
            (frame_for device host_mac back_header
              ((Udp.to_packet answer_header ++ 3 ∷ 4 ∷ []) ++ []))
            between
          ≡ ok (
            tt,
            record between {
              net_device_list =
                  record device {
                    ethe_header = record {
                      dest_addr = device.macaddr;
                      src_addr = host_mac;
                      ether_type = ether_type_ip;
                    };
                  }
                  ∷ inside
                  ∷ [];
              arp_table = learned 0 host_mac host_addr between.arp_table;
              sent = frame_of inside server_mac ether_type_ip (head ++ received) ∷ [];
            },
          )))
unfolding radix_tree_search radix_tree_add Arp.search_arp_table_entry first_outside
    get_nat_entry_by_global
ethernet_input-returned_example =
    ethernet_input-returned takes_all 1 0 0 inside device host_mac server_mac (some 1) back_header
      answer_header (3 ∷ 4 ∷ []) [] tables_after new_entry between refl refl (omega arith)
      (λ e. ground arith) answer_header-IsIncoming refl refl refl refl (omega arith) (omega arith)
      (omega arith) refl refl refl (λ e. ground arith) (λ f. refl)
