-- ===== src/Router/Through.antt =====
-- ethernet.go and ip.go: the way of a packet through the router, from the frame received to the frame sent.
use go_software_router.Prelude.{
  ℕ, zero, suc, ◌+◌, ◌*◌, ◌^◌, ◌<◌, ◌≡◌, ◌≢◌, refl, sym, ap, ◌∙◌, arith, List, [], ◌∷◌, ◌++◌,
  Option, none, some, true, false, Bool-cases, inl, inr, ◌||◌, Result, ok, crash, length,
  length-append, get_elem?, get_elem?_found, set, ltb, ltb-false, lt→ltb, ◌==◌, if◌then◌else◌,
  slice, slice_from, slice_middle, slice_from-append,
}
use go_software_router.Device.{Mac, mac_eq, zero_mac, NetDevice, EthernetHeader, is_empty_nat}
use go_software_router.Device.Laws.{mac_eq_refl}
use go_software_router.Wire.Laws.{byte_to_uint16-uint16_to_byte}
use go_software_router.Arp.{ArpTableEntry, add_arp_table_entry, search_arp_table_entry}
use go_software_router.Arp.Table.{search_arp_table_entry-add_arp_table_entry}
use go_software_router.Ip.{IpHeader, header_bytes, parse_header, ip_address_limited_broadcast}
use go_software_router.Ip.Header.{IsIp, parse_header-header_bytes, length-header_bytes}
use go_software_router.Router.State.{
  Router, Sendto, M, lift, ◌>>=◌, ◌>>◌, get, deref, store, add_arp, search_arp, stop,
}
use go_software_router.Router.Output.{header_to_packet}
use go_software_router.Router.Ours.{ip_input_to_ours}
use go_software_router.Router.Input.{
  learn_neighbour, is_own_address, nat_outgoing, forward, deliver, bad_lengths, ip_input,
}
use go_software_router.Router.Frames.{dispatch, ethernet_input, read_header, is_foreign}
use go_software_router.Router.Run.{run, run_else, run_lift, deref-some}
use go_software_router.Router.Onward.{mac_neq}

-- What `ethernetInput` reads from a header that was written, whatever follows it, is the header.
read_header-header_to_packet :
    (h : EthernetHeader) (rest : List ℕ)
    → h.ether_type < 2 ^ 16
    → read_header (header_to_packet h ++ rest) ≡ ok h
unfolding read_header header_to_packet
read_header-header_to_packet h rest fits =
    ap
      (λ (t : Result ℕ). elim t [
        | crash c ↦ crash c
        | ok n ↦ ok (record { dest_addr = h.dest_addr; src_addr = h.src_addr; ether_type = n })
      ])
      (byte_to_uint16-uint16_to_byte h.ether_type [] fits)

length-header_to_packet : (h : EthernetHeader) → length (header_to_packet h) ≡ 14
unfolding header_to_packet
length-header_to_packet h = refl

-- The state after a device has seen a header.
abbrev pub seen : ℕ → NetDevice → EthernetHeader → Router → Router
seen i d h r = record r { net_device_list = set r.net_device_list i (record d { ethe_header = h }) }

store-seen :
    (i : ℕ) (d d' : NetDevice) (r : Router)
    → get_elem? r.net_device_list i ≡ some d
    → store i d' r ≡ ok (tt, record r { net_device_list = set r.net_device_list i d' })
unfolding store
store-seen i d d' r at_i =
    rw (lt→ltb i (length r.net_device_list) (get_elem?_found r.net_device_list i at_i)) refl

not_foreign :
    (d : NetDevice) (h : EthernetHeader)
    → h.dest_addr ≡ d.macaddr
    → h.src_addr ≢ zero_mac
    → is_foreign d h ≡ false
not_foreign d h ours real = rw (ours, mac_eq_refl d.macaddr, mac_neq h.src_addr real) refl

-- A frame for the device, from a station that has an address, is handed on by its type.
pub ethernet_input_lem :
    (sendto : Sendto) (i : ℕ) (d : NetDevice) (h : EthernetHeader) (packet : List ℕ) (r : Router)
    → get_elem? r.net_device_list i ≡ some d
    → h.ether_type < 2 ^ 16
    → h.dest_addr ≡ d.macaddr
    → h.src_addr ≢ zero_mac
    → ethernet_input sendto i (header_to_packet h ++ packet) r
      ≡ dispatch sendto i h.ether_type packet (seen i d h r)
unfolding ethernet_input
ethernet_input_lem sendto i d h packet r at_i fits ours real =
    let bs = header_to_packet h ++ packet in
    let long : ltb (length bs) 14 ≡ false =
      ltb-false (length bs) 14
        (omega (arith, length-append (header_to_packet h) packet, length-header_to_packet h)) in
    let cut : slice_from bs 14 ≡ ok packet =
      ap (slice_from bs) (sym (length-header_to_packet h))
      ∙ slice_from-append (header_to_packet h) packet in
    let d' : NetDevice = record d { ethe_header = h } in
    let inside : EthernetHeader → M (Unit {0}) =
      λ g. lift (slice_from bs 14) >>= dispatch sendto i g.ether_type in
    let kept : NetDevice → EthernetHeader → M (Unit {0}) = λ dev g.
      store i (record dev { ethe_header = g }) >> (if is_foreign dev g then stop else inside g) in
    run_else stop (deref (some i) >>= λ dev. lift (read_header bs) >>= kept dev) r long
    ∙ (run (deref (some i)) (λ dev. lift (read_header bs) >>= kept dev) {r = r}
          (deref-some i d r at_i)
        ∙ (run (lift (read_header bs)) (kept d) {a = h}
              (run_lift r (read_header-header_to_packet h packet fits))
            ∙ (run (store i d') (λ _. if is_foreign d h then stop else inside h) {r = r}
                  (store-seen i d d' r at_i)
                ∙ (run_else stop (inside h) (seen i d h r) (not_foreign d h ours real)
                    ∙ run (lift (slice_from bs 14)) (dispatch sendto i h.ether_type) {a = packet}
                        (run_lift (seen i d h r) cut)))))

-- A packet without options, with any padding behind it, passes the checks with its body.
pub ip_input_lem :
    (sendto : Sendto) (i : ℕ) (d : NetDevice) (ip : IpHeader) (body padding : List ℕ) (r : Router)
    → get_elem? r.net_device_list i ≡ some d
    → d.ipdev.address ≢ 0
    → IsIp ip
    → ip.header_len ≡ 5
    → ip.total_len ≡ 20 + length body
    → ip_input sendto i (header_bytes ip ++ (body ++ padding)) r ≡ deliver sendto i d ip body r
unfolding ip_input
ip_input_lem sendto i d ip body padding r at_i has_address v five total =
    let bs = header_bytes ip ++ (body ++ padding) in
    let long : length bs ≡ 20 + (length body + length padding) =
      length-append (header_bytes ip) (body ++ padding)
      ∙ omega (arith, length-header_bytes ip, length-append body padding) in
    let inside : NetDevice → IpHeader → M (Unit {0}) = λ dev g.
      if bad_lengths sendto g bs
      then stop
      else (lift (slice bs (g.header_len * 4) g.total_len) >>= deliver sendto i dev g) in
    let checked : NetDevice → M (Unit {0}) = λ dev.
      if dev.ipdev.address == 0 || ltb (length bs) 20
      then stop
      else (lift (parse_header bs) >>= inside dev) in
    let passes : (d.ipdev.address == 0 || ltb (length bs) 20) ≡ false = ground (arith, long) in
    let good : bad_lengths sendto ip bs ≡ false = ground (arith, long) in
    let cut : slice bs (ip.header_len * 4) ip.total_len ≡ ok body =
      slice_middle (header_bytes ip) body padding (ip.header_len * 4) ip.total_len
        (omega (arith, length-header_bytes ip)) (omega (arith, length-header_bytes ip)) in
    run (deref (some i)) checked {r = r} (deref-some i d r at_i)
    ∙ (run_else stop (lift (parse_header bs) >>= inside d) r passes
        ∙ (run (lift (parse_header bs)) (inside d) {a = ip}
              (run_lift r (parse_header-header_bytes ip (body ++ padding) v))
            ∙ (run_else stop
                  (lift (slice bs (ip.header_len * 4) ip.total_len) >>= deliver sendto i d ip) r
                  good
                ∙ run (lift (slice bs (ip.header_len * 4) ip.total_len)) (deliver sendto i d ip)
                    {a = body} (run_lift r cut))))

-- The ARP table after a packet: its sender is added unless it has an address.
abbrev pub learned : ℕ → Mac → ℕ → List ArpTableEntry → List ArpTableEntry
learned i mac src table =
    if mac_eq (search_arp_table_entry src table).0 zero_mac
    then add_arp_table_entry (some i) src mac table
    else table

pub learn_neighbour_lem :
    (i : ℕ) (d : NetDevice) (ip : IpHeader) (r : Router)
    → learn_neighbour i d ip r
      ≡ ok (tt, record r { arp_table = learned i d.ethe_header.src_addr ip.src_addr r.arp_table })
unfolding learn_neighbour search_arp add_arp
learn_neighbour_lem i d ip r =
    elim (Bool-cases (mac_eq (search_arp_table_entry ip.src_addr r.arp_table).0 zero_mac)) [
      | inl unknown ↦ rw unknown refl
      | inr known ↦ rw known refl
    ]

-- What is learned of another address changes nothing.
pub search-learned :
    (i : ℕ) (mac : Mac) (src other : ℕ) (table : List ArpTableEntry)
    → src ≢ other
    → search_arp_table_entry other (learned i mac src table) ≡ search_arp_table_entry other table
search-learned i mac src other table ne =
    elim (Bool-cases (mac_eq (search_arp_table_entry src table).0 zero_mac)) [
      | inl unknown ↦
          rw unknown
            (search_arp_table_entry-add_arp_table_entry (some i) src mac other table ∙ apart)
      | inr known ↦ rw known refl
    ]
  where
    apart :
        (if src == other then (mac, some i) else search_arp_table_entry other table)
        ≡ search_arp_table_entry other table
    apart = let differ : (src == other) ≡ false = ground arith in rw differ refl

pub is_own_address-set :
    (addr : ℕ) (l : List NetDevice) (i : ℕ) (d : NetDevice) (h : EthernetHeader)
    → get_elem? l i ≡ some d
    → is_own_address addr (set l i (record d { ethe_header = h })) ≡ is_own_address addr l
unfolding is_own_address
is_own_address-set addr [] i d h e = refl
is_own_address-set addr (x ∷ l) zero d h e =
    let same : x ≡ d = cc in
    ap
      (λ (y : NetDevice).
        y.ipdev.address == addr || (y.ipdev.broadcast == addr || is_own_address addr l))
      (sym same)
is_own_address-set addr (x ∷ l) (suc i) d h e =
    ap (λ b. x.ipdev.address == addr || (x.ipdev.broadcast == addr || b))
      (is_own_address-set addr l i d h e)

-- A packet for another station, at a device without NAT, is forwarded, and its sender is learned.
pub deliver-forward :
    (sendto : Sendto) (i : ℕ) (d : NetDevice) (ip : IpHeader) (body : List ℕ) (r : Router)
    → is_empty_nat d.ipdev.natdev ≡ true
    → ip.dest_addr ≢ ip_address_limited_broadcast
    → d.ipdev.address ≢ ip.dest_addr
    → is_own_address ip.dest_addr r.net_device_list ≡ false
    → deliver sendto i d ip body r
      ≡ forward sendto ip body
          (record r { arp_table = learned i d.ethe_header.src_addr ip.src_addr r.arp_table })
unfolding deliver nat_outgoing
deliver-forward sendto i d ip body r no_nat no_broadcast not_mine not_own =
    let s : Router = record r {
      arp_table = learned i d.ethe_header.src_addr ip.src_addr r.arp_table;
    } in
    let onward : Option (IpHeader × List ℕ) → M (Unit {0}) =
      λ out. elim out [ none ↦ stop | some (ip', b) ↦ forward sendto ip' b ] in
    let chosen : Router → M (Unit {0}) = λ q.
      if ip.dest_addr == ip_address_limited_broadcast
        || (d.ipdev.address == ip.dest_addr || is_own_address ip.dest_addr q.net_device_list)
      then ip_input_to_ours sendto ip body
      else (nat_outgoing d ip body >>= onward) in
    let elsewhere : (ip.dest_addr == ip_address_limited_broadcast
          || (d.ipdev.address == ip.dest_addr || is_own_address ip.dest_addr r.net_device_list))
        ≡ false =
      rw not_own (ground arith) in
    let untouched : nat_outgoing d ip body s ≡ ok (some (ip, body), s) = rw no_nat refl in
    run (learn_neighbour i d ip) (λ _. get >>= chosen) {r = r} (learn_neighbour_lem i d ip r)
    ∙ (run_else (ip_input_to_ours sendto ip body) (nat_outgoing d ip body >>= onward) s elsewhere
        ∙ run (nat_outgoing d ip body) onward {a = some (ip, body)} untouched)
