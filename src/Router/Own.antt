-- ===== src/Router/Own.antt =====
-- ip.go: packets that the router itself sends, to a sender whose hardware address is known.
use go_software_router.Prelude.{
  ℕ, ◌+◌, ◌^◌, ◌<◌, ◌≡◌, ◌≢◌, refl, ap, ◌∙◌, arith, List, [], ◌∷◌, ◌++◌, Option, none, some, true,
  false, Bool-cases, inl, inr, ◌||◌, ok, length, get_elem?, ◌==◌, if◌then◌else◌, All,
}
use go_software_router.Device.{Mac, mac_eq, zero_mac, NetDevice}
use go_software_router.Arp.{ArpTableEntry, search_arp_table_entry}
use go_software_router.Arp.Table.{search_arp_table_entry-add_arp_table_entry}
use go_software_router.Ip.{
  IpHeader, header_bytes, ip_address_limited_broadcast, ip_protocol_num_icmp,
}
use go_software_router.Ip
use go_software_router.Ip.Header.{IsIp, to_packet_checksum}
use go_software_router.Checksum.{fold_checksum, sum_byte_arr}
use go_software_router.Radix.{is_empty_entry, radix_tree_search, connected}
use go_software_router.Router.State.{Router, Frame, Sendto, M, lift, ◌>>=◌, get, stop}
use go_software_router.Router.Output.{
  ether_type_ip, own_header, is_connected, output_by_route, ip_packet_encapsulate_output,
  ip_packet_output_to_host, ip_packet_output_to_nexthop,
}
use go_software_router.Router.Ours.{is_outside_of, translate_inside, ip_input_to_ours}
use go_software_router.Router.Input.{
  learn_neighbour, is_own_address, nat_outgoing, forward, deliver,
}
use go_software_router.Router.Run.{frame_of, run, run_if, run_else, run_lift}
use go_software_router.Router.Onward.{host_lem, mac_neq}
use go_software_router.Router.Through.{learned, learn_neighbour_lem}

-- The hardware address under which a sender is known after its packet: the old one, or that of the frame.
abbrev pub known_mac : Mac → ℕ → List ArpTableEntry → Mac
known_mac mac src table =
    if mac_eq (search_arp_table_entry src table).0 zero_mac
    then mac
    else (search_arp_table_entry src table).0

pub search-learned_self :
    (i : ℕ) (mac : Mac) (src : ℕ) (table : List ArpTableEntry)
    → (known : Option ℕ) × (search_arp_table_entry src (learned i mac src table)
        ≡ (known_mac mac src table, known))
search-learned_self i mac src table =
    elim (Bool-cases (mac_eq (search_arp_table_entry src table).0 zero_mac)) [
      | inl unknown ↦
          rw unknown
            (some i, search_arp_table_entry-add_arp_table_entry (some i) src mac src table ∙ itself)
      | inr known ↦ rw known ((search_arp_table_entry src table).1, refl)
    ]
  where
    itself :
        (if src == src then (mac, some i) else search_arp_table_entry src table) ≡ (mac, some i)
    itself = let same : (src == src) ≡ true = ground arith in rw same refl

pub known_mac_real :
    (mac : Mac) (src : ℕ) (table : List ArpTableEntry)
    → mac ≢ zero_mac
    → mac_eq (known_mac mac src table) zero_mac ≡ false
known_mac_real mac src table real =
    elim (Bool-cases (mac_eq (search_arp_table_entry src table).0 zero_mac)) [
      | inl unknown ↦ rw unknown (mac_neq mac real)
      | inr known ↦
          ap (λ b. mac_eq (if b then mac else (search_arp_table_entry src table).0) zero_mac) known
          ∙ known
    ]

-- No device translates for the address, so nothing is translated.
pub translate_inside_skip :
    (sendto : Sendto) (i : ℕ) (l : List NetDevice) (ip : IpHeader) (bs : List ℕ) (r : Router)
    → All (λ (d : NetDevice). is_outside_of d ip.dest_addr ≡ false) l
    → translate_inside sendto i l ip bs r ≡ ok (false, r)
unfolding translate_inside
translate_inside_skip sendto i [] ip bs r h = refl
translate_inside_skip sendto i (d ∷ l) ip bs r h =
    run_else _ (translate_inside sendto (i + 1) l ip bs) r h.0
    ∙ translate_inside_skip sendto (i + 1) l ip bs r h.1

own_header-IsIp :
    (sendto : Sendto) (dest src n proto : ℕ)
    → dest < 2 ^ 32
    → src < 2 ^ 32
    → proto < 2 ^ 8
    → IsIp (own_header sendto dest src n proto)
own_header-IsIp sendto dest src n proto hd hs hp = omega arith

-- A payload of the router itself goes out at the device that the route leads to.
pub encapsulate_lem :
    (sendto : Sendto) (i : ℕ) (d : NetDevice) (mac : Mac) (known : Option ℕ) (dest src proto : ℕ)
    (payload : List ℕ) (r : Router)
    → dest < 2 ^ 32
    → src < 2 ^ 32
    → proto < 2 ^ 8
    → get_elem? r.net_device_list i ≡ some d
    → is_empty_entry (radix_tree_search r.iproute dest) ≡ false
    → (radix_tree_search r.iproute dest).iptype ≡ connected
    → (radix_tree_search r.iproute dest).netdev ≡ some i
    → search_arp_table_entry dest r.arp_table ≡ (mac, known)
    → mac_eq mac zero_mac ≡ false
    → ((f : Frame) → sendto r.sent f ≡ true)
    → (c sum : ℕ) × (sum_byte_arr (
          header_bytes
            (record (own_header sendto dest src (length payload) proto) { header_checksum = c }))
        ≡ ok sum)
      × (fold_checksum sum ≡ 0)
      × (ip_packet_encapsulate_output sendto dest src payload proto r
          ≡ ok (
            tt,
            record r {
              sent =
                  r.sent
                  ++ frame_of d mac ether_type_ip (
                      header_bytes (record (own_header sendto dest src (length payload) proto) {
                        header_checksum = c;
                      })
                      ++ payload)
                    ∷ [];
            },
          ))
unfolding ip_packet_encapsulate_output output_by_route
encapsulate_lem sendto i d mac known dest src proto payload r hd hs hp at_i routed is_conn at_dev
      found real taken =
    let h : IpHeader = own_header sendto dest src (length payload) proto in
    let (c, sum, built, fits, total, zero_sum) =
      to_packet_checksum h (own_header-IsIp sendto dest src (length payload) proto hd hs hp) in
    let route = radix_tree_search r.iproute dest in
    let bs = header_bytes (record h { header_checksum = c }) ++ payload in
    let by_route : List ℕ × IpHeader → M (Unit {0}) =
      λ b. output_by_route sendto route route.netdev dest (b.0 ++ payload) in
    let send : List ℕ × IpHeader → M (Unit {0}) = λ b. get >>= λ q.
    if is_empty_entry (radix_tree_search q.iproute dest)
    then stop
    else output_by_route sendto (radix_tree_search q.iproute dest)
        (radix_tree_search q.iproute dest).netdev dest (b.0 ++ payload) in
    let direct : is_connected route ≡ true = rw is_conn refl in
    (
      c,
      sum,
      total,
      zero_sum,
      run (lift (Ip.to_packet h true)) send (run_lift r built)
          ∙ (run_else stop
                (by_route (
                  header_bytes (record h { header_checksum = c }),
                  record h { header_checksum = c },
                ))
                r routed
              ∙ (run_if (ip_packet_output_to_host sendto route.netdev dest bs)
                    (ip_packet_output_to_nexthop sendto route.nexthop bs) r direct
                  ∙ (ap (λ dv. ip_packet_output_to_host sendto dv dest bs r) at_dev
                      ∙ host_lem sendto i d mac known dest bs r at_i found real
                          (taken (frame_of d mac ether_type_ip bs))))),
    )

-- A packet to the address of the device that it arrives at is for the router, and its sender is learned.
pub deliver-ours :
    (sendto : Sendto) (i : ℕ) (d : NetDevice) (ip : IpHeader) (body : List ℕ) (r : Router)
    → ip.dest_addr ≡ d.ipdev.address
    → deliver sendto i d ip body r
      ≡ ip_input_to_ours sendto ip body
          (record r { arp_table = learned i d.ethe_header.src_addr ip.src_addr r.arp_table })
unfolding deliver
deliver-ours sendto i d ip body r mine =
    let s : Router = record r {
      arp_table = learned i d.ethe_header.src_addr ip.src_addr r.arp_table;
    } in
    let onward : Option (IpHeader × List ℕ) → M (Unit {0}) =
      λ out. elim out [ none ↦ stop | some (ip', b) ↦ forward sendto ip' b ] in
    let chosen : Router → M (Unit {0}) = λ q.
      if ip.dest_addr == ip_address_limited_broadcast
        || (d.ipdev.address == ip.dest_addr || is_own_address ip.dest_addr q.net_device_list)
      then ip_input_to_ours sendto ip body
      else (nat_outgoing d ip body >>= onward) in
    let ours : (ip.dest_addr == ip_address_limited_broadcast
          || (d.ipdev.address == ip.dest_addr || is_own_address ip.dest_addr r.net_device_list))
        ≡ true =
      ground arith in
    run (learn_neighbour i d ip) (λ _. get >>= chosen) {r = r} (learn_neighbour_lem i d ip r)
    ∙ run_if (ip_input_to_ours sendto ip body) (nat_outgoing d ip body >>= onward) s ours
