-- ===== src/Tests/Routing.antt =====
-- Routing and the handlers at concrete inputs.
use go_software_router.Prelude.{
  ℕ, ◌++◌, ◌≡◌, ◌≤◌, ◌↔◌, refl, arith, List, [], ◌∷◌, some, none, ok, true, slice, replicate,
  length,
}
use go_software_router.Checksum.{fold_checksum, sum_byte_arr}
use go_software_router.Device.{Mac, NetDevice}
use go_software_router.Arp.{add_arp_table_entry}
use go_software_router.Arp
use go_software_router.Arp.Table.{HasUniqueAddresses}
use go_software_router.Ip.{IpHeader, header_bytes, parse_header}
use go_software_router.Ip
use go_software_router.Radix.{RadixTreeNode, root, radix_tree_search, radix_tree_add}
use go_software_router.Radix.Table.{add_all, longest_prefix_match, radix_tree_search-add_all}
use go_software_router.Router.State.{Router, ◌>>◌}
use go_software_router.Router.Output.{ether_type_ip}
use go_software_router.Router.Arp.{arp_input}
use go_software_router.Router.Input.{forward, is_own_address}
use go_software_router.Router.Frames.{handle_event, bytes, ethernet_input}
use go_software_router.Router.Safety.{Ends, handle_event-Ends}
use go_software_router.Router.Run.{frame_of}
use go_software_router.Router.Expected.{on_wire, arp_layout, ip_layout}
use go_software_router.Router.Heard.{answer, arp_input_lem}
use go_software_router.Router.Through.{learned}
use go_software_router.Router.Forwarded.{IsTransit, frame_for, ethernet_input-forwarded}
use go_software_router.Router.Resolve.{asked, forward_resolved}
use go_software_router.Router.Lengths.{forwarded_length}
use go_software_router.Icmp
use go_software_router.Router.Own.{known_mac}
use go_software_router.Router.Ping.{IsPing, reply_header, reply_frame, ethernet_input-ping}
use go_software_router.Tests.Data.{echo, router_addr}
use go_software_router.Tests.Data.{
  router, device, routes, host_mac, host_addr, server_addr, arp_message, ip_header, takes_all,
  request_frame,
}

radix_tree_search-add_all_example :
    (t : RadixTreeNode) × (add_all root routes ≡ ok t)
    × (radix_tree_search t host_addr ≡ longest_prefix_match host_addr routes)
radix_tree_search-add_all_example =
    radix_tree_search-add_all routes host_addr
      (
        record { prefix_fits = omega arith; len_fits = omega arith; filled = refl },
        (record { prefix_fits = omega arith; len_fits = omega arith; filled = refl }, tt),
      )
      (omega arith)

one_address : HasUniqueAddresses router.arp_table
one_address ip = ground arith

handle_event-Ends_example :
    Ends router (handle_event takes_all "ch2" 3 (λ i. bytes request_frame) router)
handle_event-Ends_example =
    handle_event-Ends takes_all "ch2" 3 (λ i. bytes request_frame) router one_address

arp_input_lem_example :
    arp_input takes_all (some 0) (arp_layout arp_message ++ 0 ∷ 0 ∷ []) router
    ≡ ok (
      tt,
      record router {
        arp_table = add_arp_table_entry (some 0) host_addr host_mac router.arp_table;
        sent = answer device arp_message ∷ [];
      },
    )
arp_input_lem_example =
    arp_input_lem takes_all 0 device arp_message router refl (0 ∷ 0 ∷ []) (omega arith) refl

-- A second device, on 10.0.0.0/8, from which a packet comes.
abbrev inner : NetDevice
inner = record device {
  macaddr = record { b0 = 2; b1 = 0; b2 = 0; b3 = 0; b4 = 0; b5 = 9 };
  socket = 5;
  ipdev = record {
    address = 0x0a000001;
    netmask = 0xff000000;
    broadcast = 0x0affffff;
    natdev = record { outside_ip_addr = 0; nat_entry = none };
  };
}

abbrev two_devices : Router
two_devices = record router { net_device_list = device ∷ inner ∷ [] }

abbrev server_mac : Mac
server_mac = record { b0 = 2; b1 = 0; b2 = 0; b3 = 0; b4 = 0; b5 = 7 }

abbrev short_header : IpHeader
short_header = record ip_header { total_len = 22 }

inner-IsTransit : IsTransit inner short_header (1 ∷ 2 ∷ []) two_devices
unfolding is_own_address
inner-IsTransit = record {
  header = omega arith;
  no_options = refl;
  whole = refl;
  alive = omega arith;
  has_address = omega arith;
  no_nat = refl;
  no_broadcast = omega arith;
  not_mine = omega arith;
  not_own = refl;
  other_source = omega arith;
}

ethernet_input-forwarded_example :
    (c sum : ℕ) × (sum_byte_arr
        (header_bytes (record short_header { ttl = 63; header_checksum = c }))
      ≡ ok sum)
    × (fold_checksum sum ≡ 0)
    × (ethernet_input takes_all 1
          (frame_for inner server_mac short_header (1 ∷ 2 ∷ 0 ∷ 0 ∷ []))
          two_devices
        ≡ ok (
          tt,
          record two_devices {
            net_device_list =
                device
                ∷ record inner {
                  ethe_header = record {
                    dest_addr = inner.macaddr;
                    src_addr = server_mac;
                    ether_type = ether_type_ip;
                  };
                }
                ∷ [];
            arp_table = learned 1 server_mac server_addr router.arp_table;
            sent =
                frame_of device host_mac ether_type_ip (
                  header_bytes (record short_header { ttl = 63; header_checksum = c })
                  ++ 1 ∷ 2 ∷ [])
                ∷ [];
          },
        ))
unfolding radix_tree_search radix_tree_add Arp.search_arp_table_entry
ethernet_input-forwarded_example =
    ethernet_input-forwarded takes_all 1 0 inner device server_mac host_mac (some 0) short_header
      (1 ∷ 2 ∷ []) (0 ∷ 0 ∷ []) two_devices refl refl (omega arith) (λ e. ground arith)
      inner-IsTransit refl refl refl refl (λ e. ground arith) (λ f. refl)

abbrev unknown_host : Router
unknown_host = record router { arp_table = [] }

abbrev reply_message : Arp.ArpIpToEthernet
reply_message = record arp_message { opcode = 2 }

forward_resolved_example :
    (c sum : ℕ) × (let head = ip_layout (record ip_header { ttl = 63; header_checksum = c }) in
      (sum_byte_arr head ≡ ok sum)
      × (fold_checksum sum ≡ 0)
      × ((forward takes_all ip_header (1 ∷ [])
              >> (arp_input takes_all (some 0) (arp_layout reply_message ++ 0 ∷ [])
                  >> forward takes_all ip_header (2 ∷ [])))
            unknown_host
          ≡ ok (
            tt,
            record unknown_host {
              arp_table = add_arp_table_entry (some 0) host_addr host_mac [];
              sent = asked device host_addr ∷ on_wire device host_mac 0x0800 (head ++ 2 ∷ []) ∷ [];
            },
          )))
unfolding radix_tree_search radix_tree_add Arp.search_arp_table_entry
forward_resolved_example =
    forward_resolved takes_all 0 device none ip_header reply_message (1 ∷ []) (2 ∷ []) (0 ∷ [])
      unknown_host (omega arith) (omega arith) refl refl refl refl refl (omega arith) refl
      (omega arith) (omega arith) refl (λ e. ground arith) (λ l f. refl)

-- A header of six words: one word of options.
abbrev with_options : IpHeader
with_options = record ip_header { header_len = 6; total_len = 26 }

forwarded_length_example :
    (body out : List ℕ) × (c sum : ℕ) × (let changed : IpHeader = record with_options {
      ttl = 63;
      header_checksum = c;
    } in
      (slice (replicate 30 0) 24 26 ≡ ok body)
      × (Ip.to_packet (record with_options { ttl = 63 }) true ≡ ok (out, changed))
      × (out ≡ ip_layout changed)
      × (sum_byte_arr out ≡ ok sum)
      × (fold_checksum sum ≡ 0)
      × (parse_header (out ++ body) ≡ ok changed)
      × (length (out ++ body) ≤ 26)
      × (26 ≤ 30)
      × ((length (out ++ body) ≡ 26) ↔ (◌≡◌ {A = ℕ} 6 5)))
forwarded_length_example =
    forwarded_length takes_all with_options (replicate 30 0) (omega arith) (omega arith) refl

-- The host pings the router.
abbrev ping_header : IpHeader
ping_header = record ip_header {
  src_addr = host_addr;
  dest_addr = router_addr;
  protocol = 1;
  total_len = 38;
}

abbrev ping : List ℕ
ping = 8 ∷ 0 ∷ 0 ∷ 5 ∷ 0 ∷ 77 ∷ 0 ∷ 1 ∷ 1 ∷ 2 ∷ 3 ∷ 4 ∷ 5 ∷ 6 ∷ 7 ∷ 8 ∷ 10 ∷ 11 ∷ []

ping-IsPing : IsPing device ping_header echo ping router
unfolding Icmp.parse_packet
ping-IsPing = record {
  header = omega arith;
  no_options = refl;
  whole = refl;
  is_icmp = refl;
  for_us = refl;
  has_address = omega arith;
  not_translated = (refl, tt);
  parsed = refl;
  is_request = refl;
  echo = omega arith;
  bytes = omega arith;
  even = refl;
  short = omega arith;
}

ethernet_input-ping_example :
    (reply : List ℕ) × (c k s t : ℕ) × (Icmp.parse_packet reply
      ≡ ok (record echo { icmp_header = record { icmp_type = 0; icmp_code = 0; checksum = k } }))
    × (sum_byte_arr reply ≡ ok s)
    × (fold_checksum s ≡ 0)
    × (sum_byte_arr (ip_layout (reply_header ping_header c reply)) ≡ ok t)
    × (fold_checksum t ≡ 0)
    × (ethernet_input takes_all 0 (frame_for device host_mac ping_header (ping ++ 0 ∷ [])) router
        ≡ ok (
          tt,
          record router {
            net_device_list =
                record device {
                  ethe_header = record {
                    dest_addr = device.macaddr;
                    src_addr = host_mac;
                    ether_type = ether_type_ip;
                  };
                }
                ∷ [];
            arp_table = learned 0 host_mac host_addr router.arp_table;
            sent =
                reply_frame device
                  (known_mac host_mac host_addr router.arp_table)
                  ping_header
                  c
                  reply
                ∷ [];
          },
        ))
unfolding radix_tree_search radix_tree_add
ethernet_input-ping_example =
    ethernet_input-ping takes_all 0 device host_mac ping_header echo ping (0 ∷ []) router refl
      (λ e. ground arith) ping-IsPing refl refl refl (λ f. refl)
