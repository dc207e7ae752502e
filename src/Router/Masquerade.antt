-- ===== src/Router/Masquerade.antt =====
-- ip.go and nat.go: a UDP datagram from behind a NAT, from the frame received to the frame sent.
use go_software_router.Prelude.{
  ℕ, ◌+◌, ◌-◌, ◌^◌, ◌<◌, ◌≡◌, ◌≢◌, refl, ap, ◌∙◌, arith, List, [], ◌∷◌, ◌++◌, Option, none, some,
  true, false, ◌||◌, Result, ok, crash, length, get_elem?, get_elem?_found, get_elem?-set_self,
  get_elem?-set_ne, set, ◌==◌, if◌then◌else◌,
}
use go_software_router.Device.{Mac, zero_mac, NetDevice, EthernetHeader, is_empty_nat}
use go_software_router.Arp.{search_arp_table_entry}
use go_software_router.Ip.{IpHeader, header_bytes, ip_address_limited_broadcast}
use go_software_router.Ip.Header.{IsIp}
use go_software_router.Checksum.{fold_checksum, sum_byte_arr}
use go_software_router.Radix.{is_empty_entry, radix_tree_search, connected}
use go_software_router.Router.State.{Router, Frame, Sendto, M, ◌>>=◌, get, pure, stop}
use go_software_router.Router.Output.{ether_type_ip}
use go_software_router.Router.Ours.{ip_input_to_ours}
use go_software_router.Router.Input.{
  learn_neighbour, is_own_address, nat_outgoing, forward, deliver,
}
use go_software_router.Router.Frames.{dispatch, ethernet_input}
use go_software_router.Router.Run.{frame_of, run, run_else}
use go_software_router.Router.Onward.{forward_connected}
use go_software_router.Router.Through.{
  seen, learned, ethernet_input_lem, ip_input_lem, search-learned, is_own_address-set,
}
use go_software_router.Device.{NatDevice}
use go_software_router.Header.Udp.{UdpHeader}
use go_software_router.Header.Udp
use go_software_router.Ip.{ip_protocol_num_udp}
use go_software_router.Nat.{
  NatEntry, NatEntryList, Slots, NatProtocolType, NatDirectionType, outgoing, first_port, slots_of,
  with_slots, local_entry,
}
use go_software_router.Nat.Slots.{IsNat}
use go_software_router.Nat.Exec.{Executed, nat_exec}
use go_software_router.Nat.Segments.{IsValidSegment}
use go_software_router.Nat.Datagrams.{IsDatagram, datagram, nat_exec_out}
use go_software_router.Router.Nat.{proto_of, run_nat, tables_at, put_tables}
use go_software_router.Router.Through.{learn_neighbour_lem}
use go_software_router.Router.Forwarded.{frame_for}

-- A translation with the tables behind a device's pointer.
pub run_nat_lem :
    (n : NatDevice) (k : ℕ) (ip ip' : IpHeader) (body body' : List ℕ) (t t' : NatEntryList)
    (proto : NatProtocolType) (direction : NatDirectionType) (r : Router)
    → n.nat_entry ≡ some k
    → get_elem? r.nat_tables k ≡ some t
    → nat_exec ip body n.outside_ip_addr (some t) proto direction ≡ ok (some t', some (ip', body'))
    → run_nat n ip body proto direction r
      ≡ ok (some (ip', body'), record r { nat_tables = set r.nat_tables k t' })
unfolding run_nat
run_nat_lem n k ip ip' body body' t t' proto direction r entry at_k done =
    ap
      (λ p. elim (nat_exec ip body n.outside_ip_addr (tables_at p r) proto direction) [
        | crash c ↦ crash c
        | ok (tables, out) ↦ ok (out, put_tables p tables r)
      ])
      entry
    ∙ (ap
          (λ x. elim (nat_exec ip body n.outside_ip_addr x proto direction) [
            | crash c ↦ crash c
            | ok (tables, out) ↦ ok (out, put_tables (some k) tables r)
          ])
          at_k
        ∙ ap
            (λ (y : Result Executed). elim y [
              | crash c ↦ crash c
              | ok (tables, out) ↦ ok (out, put_tables (some k) tables r)
            ])
            done)

-- A packet for another station, at a device with a NAT, is translated and forwarded, and its sender is learned.
deliver-nat :
    (sendto : Sendto) (i k : ℕ) (d : NetDevice) (ip ip' : IpHeader) (body body' : List ℕ)
    (t t' : NatEntryList) (r : Router)
    → d.ipdev.natdev.nat_entry ≡ some k
    → get_elem? r.nat_tables k ≡ some t
    → ip.protocol ≡ ip_protocol_num_udp
    → nat_exec ip body d.ipdev.natdev.outside_ip_addr (some t) NatProtocolType.udp outgoing
      ≡ ok (some t', some (ip', body'))
    → ip.dest_addr ≢ ip_address_limited_broadcast
    → d.ipdev.address ≢ ip.dest_addr
    → is_own_address ip.dest_addr r.net_device_list ≡ false
    → deliver sendto i d ip body r
      ≡ forward sendto ip' body' (record r {
        arp_table = learned i d.ethe_header.src_addr ip.src_addr r.arp_table;
        nat_tables = set r.nat_tables k t';
      })
unfolding deliver nat_outgoing
deliver-nat sendto i k d ip ip' body body' t t' r entry at_k is_udp done no_broadcast not_mine
      not_own =
    let s : Router = record r {
      arp_table = learned i d.ethe_header.src_addr ip.src_addr r.arp_table;
    } in
    let onward : Option (IpHeader × List ℕ) → M (Unit {0}) =
      λ out. elim out [ none ↦ stop | some (h, b) ↦ forward sendto h b ] in
    let chosen : Router → M (Unit {0}) = λ q.
      if ip.dest_addr == ip_address_limited_broadcast
        || (d.ipdev.address == ip.dest_addr || is_own_address ip.dest_addr q.net_device_list)
      then ip_input_to_ours sendto ip body
      else (nat_outgoing d ip body >>= onward) in
    let elsewhere : (ip.dest_addr == ip_address_limited_broadcast
          || (d.ipdev.address == ip.dest_addr || is_own_address ip.dest_addr r.net_device_list))
        ≡ false =
      rw not_own (ground arith) in
    let has_nat : is_empty_nat d.ipdev.natdev ≡ false = rw entry refl in
    let by_udp : proto_of ip.protocol ≡ some NatProtocolType.udp = rw is_udp refl in
    let by_proto : Option NatProtocolType → M (Option (IpHeader × List ℕ)) = λ p. elim p [
      | none ↦ pure (some (ip, []))
      | some proto ↦ run_nat d.ipdev.natdev ip body proto outgoing
    ] in
    let translated : nat_outgoing d ip body s
        ≡ ok (some (ip', body'), record s { nat_tables = set r.nat_tables k t' }) =
      run_else (pure (some (ip, body))) (by_proto (proto_of ip.protocol)) s has_nat
      ∙ (ap (λ p. by_proto p s) by_udp
          ∙ run_nat_lem d.ipdev.natdev k ip ip' body body' t t' NatProtocolType.udp outgoing s entry
              at_k done) in
    run (learn_neighbour i d ip) (λ _. get >>= chosen) {r = r} (learn_neighbour_lem i d ip r)
    ∙ (run_else (ip_input_to_ours sendto ip body) (nat_outgoing d ip body >>= onward) s elsewhere
        ∙ run (nat_outgoing d ip body) onward {a = some (ip', body')} translated)

-- What goes out through the NAT of a device that has an IPv4 address, tables and an outside address of 32 bits: in a packet
-- without options whose fields fit and whose total length is that of its bytes, with a TTL above 1, a UDP datagram whose fields
-- fit, with a checksum that is not 0 and an even number of payload bytes below 2^16 - 8. The packet goes to neither the
-- limited broadcast address nor an address or broadcast address of a device of the router, and comes from another address.
pub record IsOutgoing (d : NetDevice) (k : ℕ) (ip : IpHeader) (h : UdpHeader) (payload : List ℕ)
    (r : Router) : Type 0 where
  pub header : IsIp ip
  pub no_options : ip.header_len ≡ 5
  pub whole : ip.total_len ≡ 20 + length (Udp.to_packet h ++ payload)
  pub alive : 1 < ip.ttl
  pub is_udp : ip.protocol ≡ ip_protocol_num_udp
  pub fits : IsDatagram h payload
  pub has_address : d.ipdev.address ≢ 0
  pub outside_fits : d.ipdev.natdev.outside_ip_addr < 2 ^ 32
  pub has_tables : d.ipdev.natdev.nat_entry ≡ some k
  pub no_broadcast : ip.dest_addr ≢ ip_address_limited_broadcast
  pub not_mine : d.ipdev.address ≢ ip.dest_addr
  pub not_own : is_own_address ip.dest_addr r.net_device_list ≡ false
  pub other_source : ip.src_addr ≢ ip.dest_addr

-- A frame from a station with a hardware address arrives at a device that has an IPv4 address and a NAT with an outside
-- address of 32 bits. It holds a UDP datagram in a packet without options, and any padding behind it: all fields fit,
-- the total length is that of the packet's bytes, the TTL is above 1, the UDP checksum is not 0, and the payload has an
-- even number of bytes, fewer than 2^16 - 8; the packet goes to neither the limited broadcast address nor an address or
-- broadcast address of a device of the router, and comes from another address than it goes to. The NAT's UDP table is
-- well-formed and has or makes an entry for the sender's endpoint; the route leads to a network that another device is
-- connected to, where the destination's hardware address is known and not zero; the kernel takes whatever frame comes
-- next. Then exactly one frame goes out at that other device, to the destination: the packet from the outside address with
-- a TTL one lower, and the datagram from the entry's port with the same payload, both with right checksums. The tables are
-- those with the entry, the sender is learned if it was unknown, the device keeps the frame's header, and nothing else
-- changes.
pub ethernet_input-nat :
    (sendto : Sendto) (i j k : ℕ) (d e : NetDevice) (src_mac mac : Mac) (known : Option ℕ)
    (ip : IpHeader) (h : UdpHeader) (payload padding : List ℕ) (tables : NatEntryList)
    (slots : Slots) (x : NatEntry) (r : Router)
    → get_elem? r.net_device_list i ≡ some d
    → get_elem? r.net_device_list j ≡ some e
    → i ≢ j
    → src_mac ≢ zero_mac
    → IsOutgoing d k ip h payload r
    → get_elem? r.nat_tables k ≡ some tables
    → IsNat d.ipdev.natdev.outside_ip_addr
        (first_port NatProtocolType.udp)
        (slots_of NatProtocolType.udp tables)
    → local_entry NatProtocolType.udp d.ipdev.natdev.outside_ip_addr ip.src_addr h.src_port
        (slots_of NatProtocolType.udp tables)
      ≡ some (slots, x)
    → is_empty_entry (radix_tree_search r.iproute ip.dest_addr) ≡ false
    → (radix_tree_search r.iproute ip.dest_addr).iptype ≡ connected
    → (radix_tree_search r.iproute ip.dest_addr).netdev ≡ some j
    → search_arp_table_entry ip.dest_addr r.arp_table ≡ (mac, known)
    → mac ≢ zero_mac
    → ((f : Frame) → sendto r.sent f ≡ true)
    → (c u sum : ℕ) × (let gone = record ip { src_addr = d.ipdev.natdev.outside_ip_addr } in
        let sent = datagram (record h { src_port = x.global_port }) u payload in
        let head = header_bytes (record gone { ttl = ip.ttl - 1; header_checksum = c }) in
        IsValidSegment gone ip_protocol_num_udp sent
        × (sum_byte_arr head ≡ ok sum)
        × (fold_checksum sum ≡ 0)
        × (ethernet_input sendto i
              (frame_for d src_mac ip ((Udp.to_packet h ++ payload) ++ padding))
              r
            ≡ ok (
              tt,
              record r {
                net_device_list = set r.net_device_list i (record d {
                  ethe_header = record {
                    dest_addr = d.macaddr;
                    src_addr = src_mac;
                    ether_type = ether_type_ip;
                  };
                });
                arp_table = learned i src_mac ip.src_addr r.arp_table;
                nat_tables = set r.nat_tables k (with_slots NatProtocolType.udp tables slots);
                sent = r.sent ++ frame_of e mac ether_type_ip (head ++ sent) ∷ [];
              },
            )))
unfolding dispatch
ethernet_input-nat sendto i j k d e src_mac mac known ip h payload padding tables slots x r at_i
      at_j apart real w at_k v done routed is_conn at_dev found real_mac taken =
    let g : EthernetHeader = record {
      dest_addr = d.macaddr;
      src_addr = src_mac;
      ether_type = ether_type_ip;
    } in
    let d' : NetDevice = record d { ethe_header = g } in
    let devices = set r.net_device_list i d' in
    let body = Udp.to_packet h ++ payload in
    let outside = d.ipdev.natdev.outside_ip_addr in
    let gone : IpHeader = record ip { src_addr = outside } in
    let tables' = with_slots NatProtocolType.udp tables slots in
    let s : Router = record r {
      net_device_list = devices;
      arp_table = learned i src_mac ip.src_addr r.arp_table;
      nat_tables = set r.nat_tables k tables';
    } in
    let at_seen : get_elem? devices i ≡ some d' =
      get_elem?-set_self r.net_device_list i d' (get_elem?_found r.net_device_list i at_i) in
    let (u, translated, valid) =
      nat_exec_out outside ip h payload tables slots x v done w.outside_fits w.header w.fits in
    let sent = datagram (record h { src_port = x.global_port }) u payload in
    let (c, sum, total, zero_sum, sends) =
      forward_connected sendto j e mac known gone sent s (omega (arith, w.header, w.outside_fits))
        w.alive routed is_conn at_dev (get_elem?-set_ne r.net_device_list i j d' apart ∙ at_j)
        (search-learned i src_mac ip.src_addr ip.dest_addr r.arp_table w.other_source ∙ found)
        real_mac taken in
    (
      c,
      u,
      sum,
      (
        valid,
        total,
        zero_sum,
        ethernet_input_lem sendto i d g (header_bytes ip ++ (body ++ padding)) r at_i (omega arith)
              refl real
            ∙ (ip_input_lem sendto i d' ip body padding (seen i d g r) at_seen w.has_address
                  w.header w.no_options w.whole
                ∙ (deliver-nat sendto i k d' ip gone body sent tables tables' (seen i d g r)
                      w.has_tables at_k w.is_udp translated w.no_broadcast w.not_mine
                      (is_own_address-set ip.dest_addr r.net_device_list i d g at_i ∙ w.not_own)
                    ∙ sends)),
      ),
    )
