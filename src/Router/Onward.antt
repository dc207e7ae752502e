-- ===== src/Router/Onward.antt =====
-- ip.go: the frame in which a packet is forwarded.
use go_software_router.Prelude.{
  ℕ, ◌-◌, ◌<◌, ◌≡◌, ◌≢◌, refl, ap, ◌∙◌, arith, List, [], ◌∷◌, ◌++◌, Option, some, true, false, ok,
  ◌||◌, get_elem?, leb, if◌then◌else◌,
}
use go_software_router.Device.{Mac, mac_eq, zero_mac, NetDevice}
use go_software_router.Device.Laws.{mac_eq_iff}
use go_software_router.Arp.{search_arp_table_entry}
use go_software_router.Ip.{IpHeader, header_bytes}
use go_software_router.Ip
use go_software_router.Ip.Header.{IsIp, to_packet_checksum}
use go_software_router.Checksum.{fold_checksum, sum_byte_arr}
use go_software_router.Radix.{is_empty_entry, radix_tree_search, connected}
use go_software_router.Router.State.{Router, Frame, Sendto, M, lift, ◌>>=◌, search_arp, stop}
use go_software_router.Router.Output.{
  ether_type_ip, send_arp_request, is_connected, ethernet_output, output_by_route,
  ip_packet_output_to_host, ip_packet_output_to_nexthop,
}
use go_software_router.Router.Run.{frame_of, run, run_if, run_else, run_lift, ethernet_output_lem}
use go_software_router.Router.Input.{forward}

pub mac_neq : (mac : Mac) → mac ≢ zero_mac → mac_eq mac zero_mac ≡ false
mac_neq mac h = ground (arith, mac_eq_iff mac zero_mac)

pub host_lem :
    (sendto : Sendto) (j : ℕ) (d : NetDevice) (mac : Mac) (known : Option ℕ) (addr : ℕ)
    (bs : List ℕ) (r : Router)
    → get_elem? r.net_device_list j ≡ some d
    → search_arp_table_entry addr r.arp_table ≡ (mac, known)
    → mac_eq mac zero_mac ≡ false
    → sendto r.sent (frame_of d mac ether_type_ip bs) ≡ true
    → ip_packet_output_to_host sendto (some j) addr bs r
      ≡ ok (tt, record r { sent = r.sent ++ frame_of d mac ether_type_ip bs ∷ [] })
unfolding ip_packet_output_to_host search_arp
host_lem sendto j d mac known addr bs r at_j found real taken =
    ap
      (λ (f : Mac × Option ℕ).
        (if mac_eq f.0 zero_mac
            then send_arp_request sendto (some j) addr
            else ethernet_output sendto (some j) f.0 bs ether_type_ip)
          r)
      found
    ∙ (run_else (send_arp_request sendto (some j) addr)
          (ethernet_output sendto (some j) mac bs ether_type_ip) r real
        ∙ ethernet_output_lem sendto j d mac bs ether_type_ip r at_j taken)

-- Up to the host of a connected network, with the bytes that go there.
pub forward_to_host :
    (sendto : Sendto) (j : ℕ) (ip : IpHeader) (body : List ℕ) (r : Router)
    → IsIp ip
    → 1 < ip.ttl
    → is_empty_entry (radix_tree_search r.iproute ip.dest_addr) ≡ false
    → (radix_tree_search r.iproute ip.dest_addr).iptype ≡ connected
    → (radix_tree_search r.iproute ip.dest_addr).netdev ≡ some j
    → (c sum : ℕ) × (sum_byte_arr
          (header_bytes (record ip { ttl = ip.ttl - 1; header_checksum = c }))
        ≡ ok sum)
      × (fold_checksum sum ≡ 0)
      × (forward sendto ip body r
          ≡ ip_packet_output_to_host sendto
              (some j)
              ip.dest_addr
              (header_bytes (record ip { ttl = ip.ttl - 1; header_checksum = c }) ++ body)
              r)
unfolding forward output_by_route
forward_to_host sendto j ip body r v alive routed is_conn at_dev =
    let lowered : IpHeader = record ip { ttl = ip.ttl - 1 } in
    let (c, sum, built, fits, total, zero_sum) = to_packet_checksum lowered (omega (arith, v)) in
    let route = radix_tree_search r.iproute ip.dest_addr in
    let bs = header_bytes (record lowered { header_checksum = c }) ++ body in
    let send : List ℕ × IpHeader → M (Unit {0}) =
      λ b. output_by_route sendto route route.netdev ip.dest_addr (b.0 ++ body) in
    let goes_on : (is_empty_entry route || leb ip.ttl 1) ≡ false = ground arith in
    let direct : is_connected route ≡ true = rw is_conn refl in
    (
      c,
      sum,
      total,
      zero_sum,
      run_else stop (lift (Ip.to_packet lowered true) >>= send) r goes_on
          ∙ (run (lift (Ip.to_packet lowered true)) send (run_lift r built)
              ∙ (run_if (ip_packet_output_to_host sendto route.netdev ip.dest_addr bs)
                    (ip_packet_output_to_nexthop sendto route.nexthop bs) r direct
                  ∙ ap (λ dv. ip_packet_output_to_host sendto dv ip.dest_addr bs r) at_dev)),
    )

-- Forwarding a packet whose fields fit, with a TTL above 1, along a route to a network that a device is connected
-- to, to a host whose hardware address is known and not zero, while the kernel takes whatever frame comes next:
-- for some checksum, exactly one frame goes out at the route's device, to the host, with the packet's
-- header but for a TTL one lower and that checksum, and the given body; under the checksum the
-- receiver's sum over the header is right, and nothing else changes.
pub forward_connected :
    (sendto : Sendto) (j : ℕ) (d : NetDevice) (mac : Mac) (known : Option ℕ) (ip : IpHeader)
    (body : List ℕ) (r : Router)
    → IsIp ip
    → 1 < ip.ttl
    → is_empty_entry (radix_tree_search r.iproute ip.dest_addr) ≡ false
    → (radix_tree_search r.iproute ip.dest_addr).iptype ≡ connected
    → (radix_tree_search r.iproute ip.dest_addr).netdev ≡ some j
    → get_elem? r.net_device_list j ≡ some d
    → search_arp_table_entry ip.dest_addr r.arp_table ≡ (mac, known)
    → mac ≢ zero_mac
    → ((f : Frame) → sendto r.sent f ≡ true)
    → (c sum : ℕ) × (sum_byte_arr
          (header_bytes (record ip { ttl = ip.ttl - 1; header_checksum = c }))
        ≡ ok sum)
      × (fold_checksum sum ≡ 0)
      × (forward sendto ip body r
          ≡ ok (
            tt,
            record r {
              sent =
                  r.sent
                  ++ frame_of d mac ether_type_ip
                      (header_bytes (record ip { ttl = ip.ttl - 1; header_checksum = c }) ++ body)
                    ∷ [];
            },
          ))
forward_connected sendto j d mac known ip body r v alive routed is_conn at_dev at_j found real
      taken =
    let (c, sum, total, zero_sum, goes) =
      forward_to_host sendto j ip body r v alive routed is_conn at_dev in
    let bs = header_bytes (record ip { ttl = ip.ttl - 1; header_checksum = c }) ++ body in
    (
      c,
      sum,
      total,
      zero_sum,
      goes
          ∙ host_lem sendto j d mac known ip.dest_addr bs r at_j found (mac_neq mac real)
              (taken (frame_of d mac ether_type_ip bs)),
    )
