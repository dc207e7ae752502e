-- ===== src/Router/Arp.antt =====
-- arp.go: the handlers of received ARP messages.
use go_software_router.Prelude.{ℕ, List, Option, not, ◌&&◌, ◌==◌, ltb, if◌then◌else◌, length}
use go_software_router.Device.{NetDevice}
use go_software_router.Arp.{
  ArpIpToEthernet, arp_htype_ethernet, arp_operation_code_request, arp_operation_code_reply,
}
use go_software_router.Arp
use go_software_router.Ip.{ip_address_len}
use go_software_router.Router.State.{Sendto, M, ◌>>=◌, ◌>>◌, lift, stop, deref, add_arp}
use go_software_router.Router.Output.{
  ether_type_ip, ether_type_arp, ethernet_addres_len, ethernet_output,
}

-- A reply is recorded where the device has an address.
unfoldable pub arp_reply_arrives : Option ℕ → ArpIpToEthernet → M (Unit {0})
unfolding deref add_arp
arp_reply_arrives netdev arp = do
  dev ← deref netdev
  if not (dev.ipdev.address == 0)
      then add_arp netdev arp.sender_ip_addr arp.sender_hardware_addr
      else stop

-- The answer to a request for the device's address.
abbrev pub arp_reply : NetDevice → ArpIpToEthernet → ArpIpToEthernet
arp_reply dev arp = record {
  hardware_type = arp_htype_ethernet;
  protocol_type = ether_type_ip;
  hardware_len = ethernet_addres_len;
  protocol_len = ip_address_len;
  opcode = arp_operation_code_reply;
  sender_hardware_addr = dev.macaddr;
  sender_ip_addr = dev.ipdev.address;
  target_hardware_addr = arp.sender_hardware_addr;
  target_ip_addr = arp.target_ip_addr;
}

module _ (sendto : Sendto) where
  unfoldable pub arp_request_arrives : Option ℕ → ArpIpToEthernet → M (Unit {0})
  unfolding deref add_arp ethernet_output Arp.to_packet
  arp_request_arrives netdev arp = do
    dev ← deref netdev
    if not (dev.ipdev.address == 0) && dev.ipdev.address == arp.target_ip_addr
        then (add_arp netdev arp.sender_ip_addr arp.sender_hardware_addr
            >> ethernet_output sendto netdev arp.sender_hardware_addr
                (Arp.to_packet (arp_reply dev arp)) ether_type_arp)
        else stop

  -- A wrong address length is printed and changes nothing; any opcode but a request is a reply.
  unfoldable pub arp_input : Option ℕ → List ℕ → M (Unit {0})
  unfolding arp_request_arrives arp_reply_arrives Arp.parse_fields
  arp_input netdev packet =
      if ltb (length packet) 28
      then stop
      else (lift (Arp.parse_fields packet) >>= λ msg.
          if msg.protocol_type == ether_type_ip
          then (if msg.opcode == arp_operation_code_request
              then arp_request_arrives netdev msg
              else arp_reply_arrives netdev msg)
          else stop)
