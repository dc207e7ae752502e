-- ===== src/Router/Output.antt =====
-- ethernet.go, arp.go and ip.go: from a packet to a frame at the kernel.
use go_software_router.Prelude.{
  ℕ, ◌+◌, List, [], ◌∷◌, ◌++◌, Bool, true, false, ◌||◌, not, Option, if◌then◌else◌, length, u16,
}
use go_software_router.Wire.{uint16_to_byte}
use go_software_router.Device.{
  Mac, mac_eq, zero_mac, ethernet_address_broadcast, mac_to_byte, EthernetHeader, NetDevice,
}
use go_software_router.Arp.{arp_htype_ethernet, arp_operation_code_request}
use go_software_router.Arp
use go_software_router.Ip.{IpHeader, ip_address_len}
use go_software_router.Ip
use go_software_router.Radix.{
  IpRouteEntry, connected, network, RadixTreeNode, is_empty_entry, radix_tree_search,
}
use go_software_router.Router.State.{
  Frame, Sendto, M, pure, ◌>>=◌, lift, log_fatal, get, stop, deref, search_arp,
}

abbrev pub ether_type_ip : ℕ
ether_type_ip = 0x0800

abbrev pub ether_type_arp : ℕ
ether_type_arp = 0x0806

abbrev pub ethernet_addres_len : ℕ
ethernet_addres_len = 6

unfoldable pub header_to_packet : EthernetHeader → List ℕ
unfolding mac_to_byte uint16_to_byte
header_to_packet h =
    mac_to_byte h.dest_addr ++ (mac_to_byte h.src_addr ++ uint16_to_byte h.ether_type)

-- The ARP request of a device for an address.
abbrev pub arp_request : NetDevice → ℕ → Arp.ArpIpToEthernet
arp_request dev targetip = record {
  hardware_type = arp_htype_ethernet;
  protocol_type = ether_type_ip;
  hardware_len = ethernet_addres_len;
  protocol_len = ip_address_len;
  opcode = arp_operation_code_request;
  sender_hardware_addr = dev.macaddr;
  sender_ip_addr = dev.ipdev.address;
  target_hardware_addr = ethernet_address_broadcast;
  target_ip_addr = targetip;
}

-- `connected` against any other route type.
abbrev pub is_connected : IpRouteEntry → Bool
is_connected e = elim e.iptype [ connected ↦ true | network ↦ false ]

module _ (sendto : Sendto) where
  -- `netDeviceTransmit`: true where `Sendto` gives no error.
  unfoldable pub net_device_transmit : NetDevice → List ℕ → M Bool
  net_device_transmit dev bytes r =
      let frame : Frame = record { socket = dev.socket; sockaddr = dev.sockaddr; bytes = bytes } in
      if sendto r.sent frame
      then pure true (record r { sent = r.sent ++ frame ∷ [] })
      else pure false r

  unfoldable pub ethernet_output : Option ℕ → Mac → List ℕ → ℕ → M (Unit {0})
  unfolding net_device_transmit header_to_packet
  ethernet_output netdev destaddr packet eth_type = do
    dev ← deref netdev
    let header : EthernetHeader = record {
      dest_addr = destaddr;
      src_addr = dev.macaddr;
      ether_type = eth_type;
    }
    sent ← net_device_transmit dev (header_to_packet header ++ packet)
    if sent then stop else log_fatal

  unfoldable pub send_arp_request : Option ℕ → ℕ → M (Unit {0})
  unfolding ethernet_output Arp.to_packet
  send_arp_request netdev targetip = do
    dev ← deref netdev
    ethernet_output netdev ethernet_address_broadcast (Arp.to_packet (arp_request dev targetip))
        ether_type_arp

  unfoldable pub ip_packet_output_to_nexthop : ℕ → List ℕ → M (Unit {0})
  unfolding ethernet_output send_arp_request
  ip_packet_output_to_nexthop next_hop packet = do
    found ← search_arp next_hop
    r ← get
    let route = radix_tree_search r.iproute next_hop
    if mac_eq found.0 zero_mac
        then (if is_empty_entry route || not (is_connected route)
            then stop
            else send_arp_request route.netdev next_hop)
        else ethernet_output found.1 found.0 packet ether_type_ip

  unfoldable pub ip_packet_output_to_host : Option ℕ → ℕ → List ℕ → M (Unit {0})
  unfolding ethernet_output send_arp_request
  ip_packet_output_to_host dev dest_addr packet = do
    found ← search_arp dest_addr
    if mac_eq found.0 zero_mac
        then send_arp_request dev dest_addr
        else ethernet_output dev found.0 packet ether_type_ip

  -- Along a route that was found: to the host, or to the next hop.
  unfoldable pub output_by_route : IpRouteEntry → Option ℕ → ℕ → List ℕ → M (Unit {0})
  unfolding ip_packet_output_to_host ip_packet_output_to_nexthop
  output_by_route route dev dest_addr packet =
      if is_connected route
      then ip_packet_output_to_host dev dest_addr packet
      else ip_packet_output_to_nexthop route.nexthop packet

  unfoldable pub ip_packet_output : Option ℕ → RadixTreeNode → ℕ → List ℕ → M (Unit {0})
  unfolding output_by_route
  ip_packet_output outputdev tree dest_addr packet =
      let route = radix_tree_search tree dest_addr in
      if is_empty_entry route then stop else output_by_route route outputdev dest_addr packet

  -- The header of a packet that the router itself sends; `2 << 13` is the flag against fragments.
  abbrev pub own_header : ℕ → ℕ → ℕ → ℕ → IpHeader
  own_header dest_addr src_addr payload_len protocol = record {
    version = 4;
    header_len = 5;
    tos = 0;
    total_len = u16 (20 + payload_len);
    identity = 0xf80c;
    flag_offset = 16384;
    ttl = 0x40;
    protocol = protocol;
    header_checksum = 0;
    src_addr = src_addr;
    dest_addr = dest_addr;
  }

  unfoldable pub ip_packet_encapsulate_output : ℕ → ℕ → List ℕ → ℕ → M (Unit {0})
  unfolding output_by_route
  ip_packet_encapsulate_output dest_addr src_addr payload protocol = do
    built ← lift (Ip.to_packet (own_header dest_addr src_addr (length payload) protocol) true)
    r ← get
    let route = radix_tree_search r.iproute dest_addr
    if is_empty_entry route
        then stop
        else output_by_route route route.netdev dest_addr (built.0 ++ payload)
