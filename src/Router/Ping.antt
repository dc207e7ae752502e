-- ===== src/Router/Ping.antt =====
-- ethernet.go, ip.go and ICMP.go: an echo request for the router, from the frame received to the reply sent.
use go_software_router.Prelude.{
  ℕ, ◌+◌, ◌^◌, ◌%◌, ◌<◌, ◌≡◌, ◌≢◌, refl, sym, ap, ◌∙◌, arith, List, [], ◌∷◌, ◌++◌, some, Bool, true,
  false, ok, length, get_elem?, get_elem?_found, get_elem?-set_self, set, ◌==◌, if◌then◌else◌, All,
  All-set, All-get_elem?, IsBytes,
}
use go_software_router.Device.{Mac, mac_to_byte, zero_mac, NetDevice, EthernetHeader}
use go_software_router.Icmp.{IcmpMessage, icmp_type_echo_request}
use go_software_router.Icmp
use go_software_router.Icmp.Reply.{IsEcho, reply_packet_lem}
use go_software_router.Ip.{IpHeader, header_bytes, ip_protocol_num_icmp}
use go_software_router.Ip.Header.{IsIp}
use go_software_router.Checksum.{fold_checksum, sum_byte_arr}
use go_software_router.Radix.{is_empty_entry, radix_tree_search, connected}
use go_software_router.Router.State.{Router, Frame, Sendto, M, lift, ◌>>=◌, stop}
use go_software_router.Router.Output.{ether_type_ip, header_to_packet, ip_packet_encapsulate_output}
use go_software_router.Router.Ours.{is_outside_of, translate_inside, icmp_input, ip_input_to_ours}
use go_software_router.Router.Frames.{dispatch, ethernet_input}
use go_software_router.Wire.{uint16_to_byte}
use go_software_router.Router.Expected.{on_wire, ip_layout, header_bytes-ip_layout}
use go_software_router.Router.Run.{run, run_if, run_lift}
use go_software_router.Router.Through.{seen, learned, ethernet_input_lem, ip_input_lem}
use go_software_router.Router.Forwarded.{frame_for}
use go_software_router.Router.Own.{
  known_mac, search-learned_self, known_mac_real, translate_inside_skip, encapsulate_lem,
  deliver-ours,
}

-- An echo request for the device: a packet without options, its fields fitting and its lengths right, to the address
-- of the device, which has one, for which no device translates; its message has an even number of data bytes below 2^16.
pub record IsPing (d : NetDevice) (ip : IpHeader) (m : IcmpMessage) (bs : List ℕ) (r : Router)
    : Type 0 where
  pub header : IsIp ip
  pub no_options : ip.header_len ≡ 5
  pub whole : ip.total_len ≡ 20 + length bs
  pub is_icmp : ip.protocol ≡ ip_protocol_num_icmp
  pub for_us : ip.dest_addr ≡ d.ipdev.address
  pub has_address : d.ipdev.address ≢ 0
  pub not_translated :
      All (λ (e : NetDevice). is_outside_of e ip.dest_addr ≡ false) r.net_device_list
  pub parsed : Icmp.parse_packet bs ≡ ok m
  pub is_request : m.icmp_header.icmp_type ≡ icmp_type_echo_request
  pub echo : IsEcho m
  pub bytes : IsBytes (m.icmp_echo.timestamp ++ m.icmp_echo.echo_data)
  pub even : length m.icmp_echo.echo_data % 2 ≡ 0
  pub short : length m.icmp_echo.echo_data < 2 ^ 16

-- The header of the reply: from the address that was asked to the sender, with a TTL of 64 and the flag against fragments.
abbrev pub reply_header : IpHeader → ℕ → List ℕ → IpHeader
reply_header ip c reply = record {
  version = 4;
  header_len = 5;
  tos = 0;
  total_len = (20 + length reply) % 2 ^ 16;
  identity = 0xf80c;
  flag_offset = 0x4000;
  ttl = 64;
  protocol = 1;
  header_checksum = c;
  src_addr = ip.dest_addr;
  dest_addr = ip.src_addr;
}

-- The reply, in the frame that goes back.
abbrev pub reply_frame : NetDevice → Mac → IpHeader → ℕ → List ℕ → Frame
reply_frame d mac ip c reply = on_wire d mac 0x0800 (ip_layout (reply_header ip c reply) ++ reply)

-- What is not translated and is ICMP goes to `icmpInput`, with an echo request to the reply.
icmp_request_lem :
    (sendto : Sendto) (ip : IpHeader) (m : IcmpMessage) (bs reply : List ℕ) (r : Router)
    → All (λ (e : NetDevice). is_outside_of e ip.dest_addr ≡ false) r.net_device_list
    → ip.protocol ≡ ip_protocol_num_icmp
    → Icmp.parse_packet bs ≡ ok m
    → m.icmp_header.icmp_type ≡ icmp_type_echo_request
    → Icmp.reply_packet m ≡ ok reply
    → ip_input_to_ours sendto ip bs r
      ≡ ip_packet_encapsulate_output sendto ip.src_addr ip.dest_addr reply ip_protocol_num_icmp r
unfolding ip_input_to_ours icmp_input
icmp_request_lem sendto ip m bs reply r skip is_icmp parsed is_request replied =
    let guard_icmp : (ip.protocol == ip_protocol_num_icmp) ≡ true = ground arith in
    let guard_type : (m.icmp_header.icmp_type == icmp_type_echo_request) ≡ true = ground arith in
    let to_icmp : M (Unit {0}) = icmp_input sendto ip.src_addr ip.dest_addr bs in
    let output : List ℕ → M (Unit {0}) =
      λ p. ip_packet_encapsulate_output sendto ip.src_addr ip.dest_addr p ip_protocol_num_icmp in
    let by_type : IcmpMessage → M (Unit {0}) = λ g.
      if g.icmp_header.icmp_type == icmp_type_echo_request
      then (lift (Icmp.reply_packet g) >>= output)
      else stop in
    let after : Bool → M (Unit {0}) = λ returned.
      if returned then stop else (if ip.protocol == ip_protocol_num_icmp then to_icmp else stop) in
    run (translate_inside sendto 0 r.net_device_list ip bs) after {a = false} {r = r}
      (translate_inside_skip sendto 0 r.net_device_list ip bs r skip)
    ∙ (run_if to_icmp stop r guard_icmp
        ∙ (run (lift (Icmp.parse_packet bs)) by_type {a = m} (run_lift r parsed)
            ∙ (run_if (lift (Icmp.reply_packet m) >>= output) stop r guard_type
                ∙ run (lift (Icmp.reply_packet m)) output {a = reply} (run_lift r replied))))

-- A frame with an echo request for the address of the device that it arrives at, which has one, in a packet without options
-- whose fields fit and whose total length is that of its bytes, with fewer than 2^16 data bytes, an even number of them, and
-- any padding behind it, from a station with a hardware address; no device translates for that address, the route to
-- the sender leads to the network of that device, and the kernel takes whatever frame comes next. Then exactly one frame
-- goes out at the device, to the hardware address under which the sender is known, learned from the frame if there was none:
-- under a header laid out byte by byte, from the address that was asked to the sender, a message that parses as the
-- echo reply with the same identity, sequence number, timestamp and data. The receiver's sums over the header
-- and over the message are right. The device keeps the frame's header, and nothing else changes.
pub ethernet_input-ping :
    (sendto : Sendto) (i : ℕ) (d : NetDevice) (src_mac : Mac) (ip : IpHeader) (m : IcmpMessage)
    (bs padding : List ℕ) (r : Router)
    → get_elem? r.net_device_list i ≡ some d
    → src_mac ≢ zero_mac
    → IsPing d ip m bs r
    → is_empty_entry (radix_tree_search r.iproute ip.src_addr) ≡ false
    → (radix_tree_search r.iproute ip.src_addr).iptype ≡ connected
    → (radix_tree_search r.iproute ip.src_addr).netdev ≡ some i
    → ((f : Frame) → sendto r.sent f ≡ true)
    → (reply : List ℕ) × (c k s t : ℕ) × (Icmp.parse_packet reply
        ≡ ok (record m { icmp_header = record { icmp_type = 0; icmp_code = 0; checksum = k } }))
      × (sum_byte_arr reply ≡ ok s)
      × (fold_checksum s ≡ 0)
      × (sum_byte_arr (ip_layout (reply_header ip c reply)) ≡ ok t)
      × (fold_checksum t ≡ 0)
      × (ethernet_input sendto i (frame_for d src_mac ip (bs ++ padding)) r
          ≡ ok (
            tt,
            record r {
              net_device_list = set r.net_device_list i (record d {
                ethe_header = record {
                  dest_addr = d.macaddr;
                  src_addr = src_mac;
                  ether_type = ether_type_ip;
                };
              });
              arp_table = learned i src_mac ip.src_addr r.arp_table;
              sent =
                  r.sent
                  ++ reply_frame d (known_mac src_mac ip.src_addr r.arp_table) ip c reply ∷ [];
            },
          ))
unfolding dispatch header_to_packet mac_to_byte uint16_to_byte
ethernet_input-ping sendto i d src_mac ip m bs padding r at_i real w routed is_conn at_dev taken =
    let h : EthernetHeader = record {
      dest_addr = d.macaddr;
      src_addr = src_mac;
      ether_type = ether_type_ip;
    } in
    let d' : NetDevice = record d { ethe_header = h } in
    let devices = set r.net_device_list i d' in
    let q : Router = record r {
      net_device_list = devices;
      arp_table = learned i src_mac ip.src_addr r.arp_table;
    } in
    let at_seen : get_elem? devices i ≡ some d' =
      get_elem?-set_self r.net_device_list i d' (get_elem?_found r.net_device_list i at_i) in
    let quiet : NetDevice → Type 0 = λ e. is_outside_of e ip.dest_addr ≡ false in
    let skip : All quiet devices =
      All-set quiet r.net_device_list i d' w.not_translated
        (All-get_elem? quiet r.net_device_list i d w.not_translated at_i) in
    let (reply, k, s, replied, parses, total, zero_sum) =
      reply_packet_lem m w.echo w.bytes w.even w.short in
    let (known, found) = search-learned_self i src_mac ip.src_addr r.arp_table in
    let (c, t, header_total, header_zero, sends) =
      encapsulate_lem sendto i d' (known_mac src_mac ip.src_addr r.arp_table) known ip.src_addr
        ip.dest_addr ip_protocol_num_icmp reply q w.header.src_fits w.header.dest_fits (omega arith)
        at_seen routed is_conn at_dev found (known_mac_real src_mac ip.src_addr r.arp_table real)
        taken in
    let layout = header_bytes-ip_layout (reply_header ip c reply) (omega arith) (omega arith) in
    let wire : List ℕ → Frame =
      λ head. on_wire d (known_mac src_mac ip.src_addr r.arp_table) 0x0800 (head ++ reply) in
    (
      reply,
      c,
      k,
      s,
      t,
      parses,
      total,
      zero_sum,
      sym (ap sum_byte_arr layout) ∙ header_total,
      header_zero,
      ethernet_input_lem sendto i d h (header_bytes ip ++ (bs ++ padding)) r at_i (omega arith) refl
            real
          ∙ (ip_input_lem sendto i d' ip bs padding (seen i d h r) at_seen w.has_address w.header
                w.no_options w.whole
              ∙ (deliver-ours sendto i d' ip bs (seen i d h r) w.for_us
                  ∙ (icmp_request_lem sendto ip m bs reply q skip w.is_icmp w.parsed w.is_request
                        replied
                      ∙ (sends
                          ∙ ap (λ head. ok (tt, record q { sent = q.sent ++ wire head ∷ [] }))
                              layout)))),
    )
