-- ===== src/Router/Forwarded.antt =====
-- ethernet.go, ip.go and arp.go: a packet that is forwarded, from the frame received to the frame sent.
use go_software_router.Prelude.{
  ℕ, ◌+◌, ◌-◌, ◌<◌, ◌≡◌, ◌≢◌, refl, ◌∙◌, arith, List, [], ◌∷◌, ◌++◌, Option, some, true, false, ok,
  length, get_elem?, get_elem?_found, get_elem?-set_self, get_elem?-set_ne, set,
}
use go_software_router.Device.{Mac, zero_mac, NetDevice, EthernetHeader, is_empty_nat}
use go_software_router.Arp.{search_arp_table_entry}
use go_software_router.Ip.{IpHeader, header_bytes, ip_address_limited_broadcast}
use go_software_router.Ip.Header.{IsIp}
use go_software_router.Checksum.{fold_checksum, sum_byte_arr}
use go_software_router.Radix.{is_empty_entry, radix_tree_search, connected}
use go_software_router.Router.State.{Router, Frame, Sendto}
use go_software_router.Router.Output.{ether_type_ip, header_to_packet}
use go_software_router.Router.Input.{is_own_address, forward}
use go_software_router.Router.Frames.{dispatch, ethernet_input}
use go_software_router.Router.Run.{frame_of}
use go_software_router.Router.Onward.{forward_connected}
use go_software_router.Router.Through.{
  seen, learned, ethernet_input_lem, ip_input_lem, deliver-forward, search-learned,
  is_own_address-set,
}

-- The frame in which a station hands a packet to a device.
abbrev pub frame_for : NetDevice → Mac → IpHeader → List ℕ → List ℕ
frame_for d src_mac ip payload =
    header_to_packet
      (record { dest_addr = d.macaddr; src_addr = src_mac; ether_type = ether_type_ip })
    ++ (header_bytes ip ++ payload)

-- What a device with an IPv4 address and without NAT forwards: a packet without options whose fields fit and whose total
-- length is that of its header and body, with a TTL above 1, to neither the limited broadcast address nor an address or
-- broadcast address of a device of the router, and from another address than it goes to.
pub record IsTransit (d : NetDevice) (ip : IpHeader) (body : List ℕ) (r : Router) : Type 0 where
  pub header : IsIp ip
  pub no_options : ip.header_len ≡ 5
  pub whole : ip.total_len ≡ 20 + length body
  pub alive : 1 < ip.ttl
  pub has_address : d.ipdev.address ≢ 0
  pub no_nat : is_empty_nat d.ipdev.natdev ≡ true
  pub no_broadcast : ip.dest_addr ≢ ip_address_limited_broadcast
  pub not_mine : d.ipdev.address ≢ ip.dest_addr
  pub not_own : is_own_address ip.dest_addr r.net_device_list ≡ false
  pub other_source : ip.src_addr ≢ ip.dest_addr

-- The way in: the device keeps the frame's header, the sender is learned, and the packet is forwarded without the padding.
ethernet_input-forward :
    (sendto : Sendto) (i : ℕ) (d : NetDevice) (src_mac : Mac) (ip : IpHeader)
    (body padding : List ℕ) (r : Router)
    → get_elem? r.net_device_list i ≡ some d
    → src_mac ≢ zero_mac
    → IsTransit d ip body r
    → ethernet_input sendto i (frame_for d src_mac ip (body ++ padding)) r
      ≡ forward sendto ip body (record r {
        net_device_list = set r.net_device_list i (record d {
          ethe_header = record {
            dest_addr = d.macaddr;
            src_addr = src_mac;
            ether_type = ether_type_ip;
          };
        });
        arp_table = learned i src_mac ip.src_addr r.arp_table;
      })
unfolding dispatch
ethernet_input-forward sendto i d src_mac ip body padding r at_i real w =
    let h : EthernetHeader = record {
      dest_addr = d.macaddr;
      src_addr = src_mac;
      ether_type = ether_type_ip;
    } in
    let d' : NetDevice = record d { ethe_header = h } in
    let at_seen : get_elem? (set r.net_device_list i d') i ≡ some d' =
      get_elem?-set_self r.net_device_list i d' (get_elem?_found r.net_device_list i at_i) in
    ethernet_input_lem sendto i d h (header_bytes ip ++ (body ++ padding)) r at_i (omega arith) refl
      real
    ∙ (ip_input_lem sendto i d' ip body padding (seen i d h r) at_seen w.has_address w.header
          w.no_options w.whole
        ∙ deliver-forward sendto i d' ip body (seen i d h r) w.no_nat w.no_broadcast w.not_mine
            (is_own_address-set ip.dest_addr r.net_device_list i d h at_i ∙ w.not_own))

-- A frame from a station with a hardware address arrives at a device that has an IPv4 address and no NAT. It holds a packet
-- without options, and any padding behind it: the header fields fit, the total length is that of header and body, and
-- the TTL is above 1; the packet goes to neither the limited broadcast address nor an address or broadcast address of a
-- device of the router, and comes from another address than it goes to. Its route leads to a network that another device is
-- connected to, where the destination's hardware address is known and not zero, and the kernel takes whatever frame
-- comes next. Then, for some checksum, exactly one frame goes out at that other device, to the destination: the packet with
-- a TTL one lower and that checksum, under which the receiver's sum over the header is right, and with the same body. The
-- sender's address is learned if it was unknown, the device keeps the frame's header, and nothing else changes.
pub ethernet_input-forwarded :
    (sendto : Sendto) (i j : ℕ) (d e : NetDevice) (src_mac mac : Mac) (known : Option ℕ)
    (ip : IpHeader) (body padding : List ℕ) (r : Router)
    → get_elem? r.net_device_list i ≡ some d
    → get_elem? r.net_device_list j ≡ some e
    → i ≢ j
    → src_mac ≢ zero_mac
    → IsTransit d ip body r
    → is_empty_entry (radix_tree_search r.iproute ip.dest_addr) ≡ false
    → (radix_tree_search r.iproute ip.dest_addr).iptype ≡ connected
    → (radix_tree_search r.iproute ip.dest_addr).netdev ≡ some j
    → search_arp_table_entry ip.dest_addr r.arp_table ≡ (mac, known)
    → mac ≢ zero_mac
    → ((f : Frame) → sendto r.sent f ≡ true)
    → (c sum : ℕ) × (sum_byte_arr
          (header_bytes (record ip { ttl = ip.ttl - 1; header_checksum = c }))
        ≡ ok sum)
      × (fold_checksum sum ≡ 0)
      × (ethernet_input sendto i (frame_for d src_mac ip (body ++ padding)) r
          ≡ ok (
            tt,
            record r {
              net_device_list = set r.net_device_list i (record d {
                ethe_header = record {
                  dest_addr = d.macaddr;
                  src_addr = src_mac;
                  ether_type = ether_type_ip;
                };
              });
              arp_table = learned i src_mac ip.src_addr r.arp_table;
              sent =
                  r.sent
                  ++ frame_of e mac ether_type_ip
                      (header_bytes (record ip { ttl = ip.ttl - 1; header_checksum = c }) ++ body)
                    ∷ [];
            },
          ))
ethernet_input-forwarded sendto i j d e src_mac mac known ip body padding r at_i at_j apart real w
      routed is_conn at_dev found real_mac taken =
    let h : EthernetHeader = record {
      dest_addr = d.macaddr;
      src_addr = src_mac;
      ether_type = ether_type_ip;
    } in
    let d' : NetDevice = record d { ethe_header = h } in
    let s : Router = record r {
      net_device_list = set r.net_device_list i d';
      arp_table = learned i src_mac ip.src_addr r.arp_table;
    } in
    let (c, sum, total, zero_sum, sends) =
      forward_connected sendto j e mac known ip body s w.header w.alive routed is_conn at_dev
        (get_elem?-set_ne r.net_device_list i j d' apart ∙ at_j)
        (search-learned i src_mac ip.src_addr ip.dest_addr r.arp_table w.other_source ∙ found)
        real_mac taken in
    (
      c,
      sum,
      total,
      zero_sum,
      ethernet_input-forward sendto i d src_mac ip body padding r at_i real w ∙ sends,
    )
