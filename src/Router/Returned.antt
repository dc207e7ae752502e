-- ===== src/Router/Returned.antt =====
-- ip.go and nat.go: a UDP datagram that comes back to a NAT, from the frame received to the frame sent.
use go_software_router.Prelude.{
  ℕ, ◌+◌, ◌-◌, ◌^◌, ◌<◌, ◌≡◌, ◌≢◌, refl, ap, ◌∙◌, arith, List, [], ◌∷◌, ◌++◌, Option, some, true,
  false, ok, length, get_elem?, get_elem?_found, get_elem?-set_self, get_elem?-set_ne, set, ◌==◌,
  if◌then◌else◌,
}
use go_software_router.Device.{Mac, zero_mac, NetDevice, EthernetHeader}
use go_software_router.Arp.{search_arp_table_entry}
use go_software_router.Ip.{IpHeader, header_bytes}
use go_software_router.Ip.Header.{IsIp}
use go_software_router.Checksum.{fold_checksum, sum_byte_arr}
use go_software_router.Radix.{is_empty_entry, radix_tree_search, connected}
use go_software_router.Router.State.{Router, Frame, Sendto, M, pure, stop}
use go_software_router.Router.Output.{ether_type_ip}
use go_software_router.Router.Ours.{ip_input_to_ours}
use go_software_router.Router.Frames.{dispatch, ethernet_input}
use go_software_router.Router.Run.{frame_of, run}
use go_software_router.Router.Through.{
  seen, learned, ethernet_input_lem, ip_input_lem, search-learned,
}
use go_software_router.Header.Udp.{UdpHeader}
use go_software_router.Header.Udp
use go_software_router.Ip.{ip_protocol_num_udp}
use go_software_router.Nat.{NatEntry, NatEntryList, NatProtocolType, slots_of}
use go_software_router.Nat.Segments.{IsValidSegment}
use go_software_router.Nat.Datagrams.{IsDatagram, datagram}
use go_software_router.Router.Forwarded.{frame_for}
use go_software_router.Prelude.{Bool}
use go_software_router.Nat.{get_nat_entry_by_global}
use go_software_router.Nat.Datagrams.{nat_exec_in}
use go_software_router.Router.State.{◌>>◌}
use go_software_router.Router.Ours.{translate_inside, forward_inside, icmp_input}
use go_software_router.Router.Own.{deliver-ours}
use go_software_router.Ip.{ip_protocol_num_icmp}
use go_software_router.Router.Inside.{
  first_outside, first_outside-set, translate_inside_hit, forward_inside_lem,
}
use go_software_router.Prelude.{set_same}

-- What comes back to a NAT: in a packet without options whose fields fit and whose total length is that of its bytes, with a
-- TTL above 1, to the address of the device that it arrives at, which has one, a UDP datagram whose fields fit, with a
-- checksum that is not 0 and an even number of payload bytes below 2^16 - 8.
pub record IsIncoming (e : NetDevice) (ip : IpHeader) (h : UdpHeader) (payload : List ℕ)
    : Type 0 where
  pub header : IsIp ip
  pub no_options : ip.header_len ≡ 5
  pub whole : ip.total_len ≡ 20 + length (Udp.to_packet h ++ payload)
  pub alive : 1 < ip.ttl
  pub is_udp : ip.protocol ≡ ip_protocol_num_udp
  pub fits : IsDatagram h payload
  pub has_address : e.ipdev.address ≢ 0
  pub for_us : ip.dest_addr ≡ e.ipdev.address

-- A frame from a station with a hardware address arrives at a device that has an IPv4 address. It holds a UDP datagram to
-- that address in a packet without options, and any padding behind it: all fields fit, the total length is that of
-- the packet's bytes, the TTL is above 1, the UDP checksum is not 0, and the payload has an even number of bytes, fewer
-- than 2^16 - 8. The first device that translates for the destination is another one, with tables; its UDP table has an entry
-- whose global endpoint is the destination, and whose local endpoint fits; the route to the local address is to a
-- connected network; the hardware address of the local host is known and not zero, and the sender is another address; the
-- kernel takes whatever frame comes next. Then exactly one frame goes out at the device that translates, to the local host:
-- the packet to the entry's local address with a TTL one lower, and the datagram to the entry's local port with the same
-- payload, both with right checksums. The sender is learned if it was unknown, the device keeps the frame's header, and
-- nothing else changes.
pub ethernet_input-returned :
    (sendto : Sendto) (i j k : ℕ) (d e : NetDevice) (src_mac mac : Mac) (known : Option ℕ)
    (ip : IpHeader) (h : UdpHeader) (payload padding : List ℕ) (tables : NatEntryList)
    (x : NatEntry) (r : Router)
    → get_elem? r.net_device_list i ≡ some d
    → get_elem? r.net_device_list j ≡ some e
    → j ≢ i
    → src_mac ≢ zero_mac
    → IsIncoming e ip h payload
    → first_outside ip.dest_addr r.net_device_list ≡ some i
    → d.ipdev.natdev.nat_entry ≡ some k
    → get_elem? r.nat_tables k ≡ some tables
    → get_nat_entry_by_global ip.dest_addr h.dest_port (slots_of NatProtocolType.udp tables)
      ≡ some x
    → x.local_ip_addr < 2 ^ 32
    → x.local_port < 2 ^ 16
    → ip.src_addr ≢ x.local_ip_addr
    → is_empty_entry (radix_tree_search r.iproute x.local_ip_addr) ≡ false
    → (radix_tree_search r.iproute x.local_ip_addr).iptype ≡ connected
    → search_arp_table_entry x.local_ip_addr r.arp_table ≡ (mac, known)
    → mac ≢ zero_mac
    → ((f : Frame) → sendto r.sent f ≡ true)
    → (c u sum : ℕ) × (let back = record ip { dest_addr = x.local_ip_addr } in
        let received = datagram (record h { dest_port = x.local_port }) u payload in
        let head = header_bytes (record back { ttl = ip.ttl - 1; header_checksum = c }) in
        IsValidSegment back ip_protocol_num_udp received
        × (sum_byte_arr head ≡ ok sum)
        × (fold_checksum sum ≡ 0)
        × (ethernet_input sendto j
              (frame_for e src_mac ip ((Udp.to_packet h ++ payload) ++ padding))
              r
            ≡ ok (
              tt,
              record r {
                net_device_list = set r.net_device_list j (record e {
                  ethe_header = record {
                    dest_addr = e.macaddr;
                    src_addr = src_mac;
                    ether_type = ether_type_ip;
                  };
                });
                arp_table = learned j src_mac ip.src_addr r.arp_table;
                sent = r.sent ++ frame_of d mac ether_type_ip (head ++ received) ∷ [];
              },
            )))
unfolding dispatch ip_input_to_ours
ethernet_input-returned sendto i j k d e src_mac mac known ip h payload padding tables x r at_i at_j
      apart real w first entry at_k found_entry ip_fits port_fits other routed is_conn found
      real_mac taken =
    let g : EthernetHeader = record {
      dest_addr = e.macaddr;
      src_addr = src_mac;
      ether_type = ether_type_ip;
    } in
    let e' : NetDevice = record e { ethe_header = g } in
    let devices = set r.net_device_list j e' in
    let body = Udp.to_packet h ++ payload in
    let back : IpHeader = record ip { dest_addr = x.local_ip_addr } in
    let s : Router = record r {
      net_device_list = devices;
      arp_table = learned j src_mac ip.src_addr r.arp_table;
    } in
    let same = set_same r.nat_tables k tables at_k in
    let at_seen : get_elem? devices j ≡ some e' =
      get_elem?-set_self r.net_device_list j e' (get_elem?_found r.net_device_list j at_j) in
    let at_inside : get_elem? devices i ≡ some d =
      get_elem?-set_ne r.net_device_list j i e' apart ∙ at_i in
    let (u, translated, valid) =
      nat_exec_in d.ipdev.natdev.outside_ip_addr ip h payload tables x found_entry ip_fits port_fits
        w.header w.fits in
    let received = datagram (record h { dest_port = x.local_port }) u payload in
    let (c, sum, (total, zero_sum, sends)) =
      forward_inside_lem sendto i d mac known back received s (omega (arith, w.header, ip_fits))
        w.alive routed is_conn at_inside
        (search-learned j src_mac ip.src_addr x.local_ip_addr r.arp_table other ∙ found) real_mac
        taken in
    let after : Bool → M (Unit {0}) = λ returned.
      if returned
      then stop
      else (if ip.protocol == ip_protocol_num_icmp
          then icmp_input sendto ip.src_addr ip.dest_addr body
          else stop) in
    let zeroth : 0 + i ≡ i = omega arith in
    let returned =
      translate_inside_hit sendto 0 i k devices d ip back body received tables tables s
        (first_outside-set ip.dest_addr r.net_device_list j e g at_j ∙ first) at_inside entry at_k
        w.is_udp translated
      ∙ (ap
            (λ l.
              (forward_inside sendto (0 + i) back received >> pure true)
                (record s { nat_tables = l }))
            same
          ∙ (ap (λ p. (forward_inside sendto p back received >> pure true) s) zeroth
              ∙ run (forward_inside sendto i back received) (λ _. pure true) sends)) in
    (
      c,
      u,
      sum,
      (
        valid,
        total,
        zero_sum,
        ethernet_input_lem sendto j e g (header_bytes ip ++ (body ++ padding)) r at_j (omega arith)
              refl real
            ∙ (ip_input_lem sendto j e' ip body padding (seen j e g r) at_seen w.has_address
                  w.header w.no_options w.whole
                ∙ (deliver-ours sendto j e' ip body (seen j e g r) w.for_us
                    ∙ run (translate_inside sendto 0 devices ip body) after {a = true} {r = s}
                        returned)),
      ),
    )
