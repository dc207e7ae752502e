-- ===== src/Router/Resolve.antt =====
-- arp.go and ip.go: a hardware address is asked for, learned from the reply, and used.
use go_software_router.Prelude.{
  ℕ, ◌-◌, ◌<◌, ◌≡◌, ◌≢◌, refl, sym, ap, ◌∙◌, arith, List, [], ◌∷◌, ◌++◌, Option, some, true, false,
  ok, get_elem?, ◌==◌, if◌then◌else◌,
}
use go_software_router.Device.{
  Mac, mac_to_byte, mac_eq, zero_mac, ethernet_address_broadcast, NetDevice,
}
use go_software_router.Device.Laws.{mac_eq_refl}
use go_software_router.Arp.{ArpTableEntry, add_arp_table_entry, search_arp_table_entry}
use go_software_router.Arp.Table.{search_arp_table_entry-add_arp_table_entry}
use go_software_router.Ip.{IpHeader}
use go_software_router.Ip.Header.{IsIp}
use go_software_router.Radix.{is_empty_entry, radix_tree_search, connected}
use go_software_router.Router.State.{Router, Frame, Sendto, M, ◌>>◌, deref, search_arp}
use go_software_router.Router.Output.{ether_type_ip, ether_type_arp, header_to_packet}
use go_software_router.Router.Input.{forward}
use go_software_router.Router.Run.{run, run_if, deref-some}
use go_software_router.Router.Onward.{forward_connected, forward_to_host}
use go_software_router.Router.Run.{ethernet_output_lem}
use go_software_router.Router.Output.{
  arp_request, send_arp_request, ethernet_output, ip_packet_output_to_host,
}
use go_software_router.Router.Arp.{arp_input}
use go_software_router.Arp
use go_software_router.Arp.{ArpIpToEthernet, arp_operation_code_request}
use go_software_router.Arp.Message.{IsArp}
use go_software_router.Checksum.{fold_checksum, sum_byte_arr}
use go_software_router.Wire.{uint16_to_byte, uint32_to_byte}
use go_software_router.Router.Expected.{
  on_wire, everyone, arp_ipv4, arp_layout, ip_layout, header_bytes-ip_layout,
}
use go_software_router.Router.Heard.{answer, arp_input_lem}

-- The frame that asks every station for an address: a request with the device's own addresses, whose target hardware
-- address is the one of every station.
abbrev pub asked : NetDevice → ℕ → Frame
asked d addr = on_wire d everyone 0x0806 (arp_ipv4 1 d.macaddr d.ipdev.address everyone addr)

send_arp_request_lem :
    (sendto : Sendto) (j : ℕ) (d : NetDevice) (addr : ℕ) (r : Router)
    → get_elem? r.net_device_list j ≡ some d
    → sendto r.sent (asked d addr) ≡ true
    → send_arp_request sendto (some j) addr r
      ≡ ok (tt, record r { sent = r.sent ++ asked d addr ∷ [] })
unfolding send_arp_request Arp.to_packet header_to_packet mac_to_byte uint16_to_byte uint32_to_byte
send_arp_request_lem sendto j d addr r at_j taken =
    run (deref (some j))
      (λ dev.
        ethernet_output sendto (some j) ethernet_address_broadcast
          (Arp.to_packet (arp_request dev addr)) ether_type_arp)
      {r = r} (deref-some j d r at_j)
    ∙ ethernet_output_lem sendto j d ethernet_address_broadcast (Arp.to_packet (arp_request d addr))
        ether_type_arp r at_j taken

unknown_host_lem :
    (sendto : Sendto) (j : ℕ) (d : NetDevice) (known : Option ℕ) (addr : ℕ) (bs : List ℕ)
    (r : Router)
    → get_elem? r.net_device_list j ≡ some d
    → search_arp_table_entry addr r.arp_table ≡ (zero_mac, known)
    → sendto r.sent (asked d addr) ≡ true
    → ip_packet_output_to_host sendto (some j) addr bs r
      ≡ ok (tt, record r { sent = r.sent ++ asked d addr ∷ [] })
unfolding ip_packet_output_to_host search_arp
unknown_host_lem sendto j d known addr bs r at_j found taken =
    ap
      (λ (f : Mac × Option ℕ).
        (if mac_eq f.0 zero_mac
            then send_arp_request sendto (some j) addr
            else ethernet_output sendto (some j) f.0 bs ether_type_ip)
          r)
      found
    ∙ (run_if (send_arp_request sendto (some j) addr)
          (ethernet_output sendto (some j) zero_mac bs ether_type_ip) r (mac_eq_refl zero_mac)
        ∙ send_arp_request_lem sendto j d addr r at_j taken)

-- A packet whose fields fit, with a TTL above 1 and a route to a connected network, whose host has no known hardware
-- address, is dropped: exactly one frame goes out, if the kernel takes it, the ARP request for the host to every station
-- at the route's device. Nothing else changes.
forward_unknown :
    (sendto : Sendto) (j : ℕ) (d : NetDevice) (known : Option ℕ) (ip : IpHeader) (body : List ℕ)
    (r : Router)
    → IsIp ip
    → 1 < ip.ttl
    → is_empty_entry (radix_tree_search r.iproute ip.dest_addr) ≡ false
    → (radix_tree_search r.iproute ip.dest_addr).iptype ≡ connected
    → (radix_tree_search r.iproute ip.dest_addr).netdev ≡ some j
    → get_elem? r.net_device_list j ≡ some d
    → search_arp_table_entry ip.dest_addr r.arp_table ≡ (zero_mac, known)
    → sendto r.sent (asked d ip.dest_addr) ≡ true
    → forward sendto ip body r ≡ ok (tt, record r { sent = r.sent ++ asked d ip.dest_addr ∷ [] })
forward_unknown sendto j d known ip body r v alive routed is_conn at_dev at_j found taken =
    let (c, sum, total, zero_sum, goes) =
      forward_to_host sendto j ip body r v alive routed is_conn at_dev in
    goes ∙ unknown_host_lem sendto j d known ip.dest_addr _ r at_j found taken

-- A reply, with any padding behind it, is recorded where the device has an address.
arp_input_reply :
    (sendto : Sendto) (j : ℕ) (d : NetDevice) (m : ArpIpToEthernet) (rest : List ℕ) (r : Router)
    → IsArp m
    → m.protocol_type ≡ ether_type_ip
    → m.opcode ≢ arp_operation_code_request
    → get_elem? r.net_device_list j ≡ some d
    → d.ipdev.address ≢ 0
    → sendto r.sent (answer d m) ≡ true
    → arp_input sendto (some j) (arp_layout m ++ rest) r
      ≡ ok (
        tt,
        record r {
          arp_table =
              add_arp_table_entry (some j) m.sender_ip_addr m.sender_hardware_addr r.arp_table;
        },
      )
arp_input_reply sendto j d m rest r v is_ip is_reply at_j has_address taken =
    let guard_ip : (m.protocol_type == 0x0800) ≡ true = ground arith in
    let guard_code : (m.opcode == 1) ≡ false = ground arith in
    let guard_address : (d.ipdev.address == 0) ≡ false = ground arith in
    arp_input_lem sendto j d m r at_j rest v taken
    ∙ rw guard_ip (rw guard_code (rw guard_address refl))

resolved_entry :
    (j : ℕ) (addr : ℕ) (m : ArpIpToEthernet) (table : List ArpTableEntry)
    → m.sender_ip_addr ≡ addr
    → search_arp_table_entry addr
        (add_arp_table_entry (some j) m.sender_ip_addr m.sender_hardware_addr table)
      ≡ (m.sender_hardware_addr, some j)
resolved_entry j addr m table same =
    let hit : (m.sender_ip_addr == addr) ≡ true = ground arith in
    search_arp_table_entry-add_arp_table_entry (some j) m.sender_ip_addr m.sender_hardware_addr addr
      table
    ∙ rw hit refl

-- A packet whose fields fit, with a TTL above 1, to a host of a connected network whose hardware address is not known;
-- then an ARP message about IPv4 from that host, which is not a request, whose words fit and which names a hardware address
-- that is not zero, arrives with any padding at that network's device, which has an address; then a second packet of the
-- same header. The kernel takes every frame. Then exactly two frames go out at that device. The first, laid out byte by
-- byte, is an ARP request to every station for the host, from the device's own addresses, with the broadcast address as its
-- target hardware address. The second, to the replied address, is the second packet, its header laid out
-- byte by byte, with a TTL one lower and a checksum under which the receiver's sum over the header is right. The
-- ARP table holds the replied address for the host, and nothing else changes.
pub forward_resolved :
    (sendto : Sendto) (j : ℕ) (d : NetDevice) (known : Option ℕ) (ip : IpHeader)
    (m : ArpIpToEthernet) (first body rest : List ℕ) (r : Router)
    → IsIp ip
    → 1 < ip.ttl
    → is_empty_entry (radix_tree_search r.iproute ip.dest_addr) ≡ false
    → (radix_tree_search r.iproute ip.dest_addr).iptype ≡ connected
    → (radix_tree_search r.iproute ip.dest_addr).netdev ≡ some j
    → get_elem? r.net_device_list j ≡ some d
    → search_arp_table_entry ip.dest_addr r.arp_table ≡ (zero_mac, known)
    → IsArp m
    → m.protocol_type ≡ ether_type_ip
    → m.opcode ≢ arp_operation_code_request
    → d.ipdev.address ≢ 0
    → m.sender_ip_addr ≡ ip.dest_addr
    → m.sender_hardware_addr ≢ zero_mac
    → ((l : List Frame) (f : Frame) → sendto l f ≡ true)
    → (c sum : ℕ) × (let head = ip_layout (record ip { ttl = ip.ttl - 1; header_checksum = c }) in
        (sum_byte_arr head ≡ ok sum)
        × (fold_checksum sum ≡ 0)
        × ((forward sendto ip first
                >> (arp_input sendto (some j) (arp_layout m ++ rest) >> forward sendto ip body))
              r
            ≡ ok (
              tt,
              record r {
                arp_table =
                    add_arp_table_entry
                      (some j)
                      m.sender_ip_addr
                      m.sender_hardware_addr
                      r.arp_table;
                sent =
                    (r.sent ++ asked d ip.dest_addr ∷ [])
                    ++ on_wire d m.sender_hardware_addr 0x0800 (head ++ body) ∷ [];
              },
            )))
unfolding header_to_packet mac_to_byte uint16_to_byte
forward_resolved sendto j d known ip m first body rest r v alive routed is_conn at_dev at_j found w
      is_ip is_reply has_address same real taken =
    let s : Router = record r { sent = r.sent ++ asked d ip.dest_addr ∷ [] } in
    let t : Router = record s {
      arp_table = add_arp_table_entry (some j) m.sender_ip_addr m.sender_hardware_addr s.arp_table;
    } in
    let reply : M (Unit {0}) = arp_input sendto (some j) (arp_layout m ++ rest) in
    let (c, sum, total, zero_sum, sends) =
      forward_connected sendto j d m.sender_hardware_addr (some j) ip body t v alive routed is_conn
        at_dev at_j (resolved_entry j ip.dest_addr m r.arp_table same) real (taken t.sent) in
    let layout =
      header_bytes-ip_layout (record ip { ttl = ip.ttl - 1; header_checksum = c }) v.version_fits
        v.len_fits in
    let second : List ℕ → Frame = λ head. on_wire d m.sender_hardware_addr 0x0800 (head ++ body) in
    (
      c,
      sum,
      (
        sym (ap sum_byte_arr layout) ∙ total,
        zero_sum,
        run (forward sendto ip first) (λ _. reply >> forward sendto ip body) {r = r}
              (forward_unknown sendto j d known ip first r v alive routed is_conn at_dev at_j found
                (taken r.sent (asked d ip.dest_addr)))
            ∙ (run reply (λ _. forward sendto ip body) {r = s}
                  (arp_input_reply sendto j d m rest s w is_ip is_reply at_j has_address
                    (taken s.sent (answer d m)))
                ∙ (sends
                    ∙ ap (λ head. ok (tt, record t { sent = t.sent ++ second head ∷ [] })) layout)),
      ),
    )
