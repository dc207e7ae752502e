-- ===== src/Arp.antt =====
-- arp.go: the ARP table and the ARP message. What the router does with a message is in Router.
pub mod Table
pub mod Message
use go_software_router.Prelude.{
  ℕ, List, [], ◌∷◌, ◌++◌, Option, none, some, Result, ok, ◌>>=◌, ◌==◌, if◌then◌else◌, at, slice,
}
use go_software_router.Device.{Mac, zero_mac, set_mac_addr, mac_to_byte}
use go_software_router.Wire.{byte_to_uint16, byte_to_uint32, uint16_to_byte, uint32_to_byte}

abbrev pub arp_operation_code_request : ℕ
arp_operation_code_request = 1

abbrev pub arp_operation_code_reply : ℕ
arp_operation_code_reply = 2

abbrev pub arp_htype_ethernet : ℕ
arp_htype_ethernet = 0o0001

pub record ArpTableEntry : Type 0 where
  pub mac_addr : Mac
  pub ip_addr : ℕ
  pub netdev : Option ℕ

-- The first entry of the address is overwritten; without one, a new entry goes to the end.
unfoldable pub add_arp_table_entry : Option ℕ → ℕ → Mac → List ArpTableEntry → List ArpTableEntry
add_arp_table_entry netdev ipaddr macaddr [] =
    record { mac_addr = macaddr; ip_addr = ipaddr; netdev = netdev } ∷ []
add_arp_table_entry netdev ipaddr macaddr (e ∷ rest) =
    if e.ip_addr == ipaddr
    then record e { mac_addr = macaddr; netdev = netdev } ∷ rest
    else e ∷ add_arp_table_entry netdev ipaddr macaddr rest

-- The first entry of the address; without one, the zero address and nil.
unfoldable pub search_arp_table_entry : ℕ → List ArpTableEntry → Mac × Option ℕ
search_arp_table_entry ipaddr [] = (zero_mac, none)
search_arp_table_entry ipaddr (e ∷ rest) =
    if e.ip_addr == ipaddr then (e.mac_addr, e.netdev) else search_arp_table_entry ipaddr rest

pub record ArpIpToEthernet : Type 0 where
  pub hardware_type : ℕ
  pub protocol_type : ℕ
  pub hardware_len : ℕ
  pub protocol_len : ℕ
  pub opcode : ℕ
  pub sender_hardware_addr : Mac
  pub sender_ip_addr : ℕ
  pub target_hardware_addr : Mac
  pub target_ip_addr : ℕ

unfoldable pub to_packet : ArpIpToEthernet → List ℕ
unfolding uint16_to_byte uint32_to_byte mac_to_byte
to_packet arpmsg =
    uint16_to_byte arpmsg.hardware_type
    ++ (uint16_to_byte arpmsg.protocol_type
        ++ (arpmsg.hardware_len ∷ arpmsg.protocol_len ∷ []
            ++ (uint16_to_byte arpmsg.opcode
                ++ (mac_to_byte arpmsg.sender_hardware_addr
                    ++ (uint32_to_byte arpmsg.sender_ip_addr
                        ++ (mac_to_byte arpmsg.target_hardware_addr
                            ++ uint32_to_byte arpmsg.target_ip_addr))))))

-- The fields that `arpInput` reads from a message of at least 28 bytes.
unfoldable pub parse_fields : List ℕ → Result ArpIpToEthernet
unfolding byte_to_uint16 byte_to_uint32 set_mac_addr
parse_fields packet = do
  hardware_type ← slice packet 0 2 >>= byte_to_uint16
  protocol_type ← slice packet 2 4 >>= byte_to_uint16
  hardware_len ← at packet 4
  protocol_len ← at packet 5
  opcode ← slice packet 6 8 >>= byte_to_uint16
  sender_hardware ← slice packet 8 14
  sender_ip_addr ← slice packet 14 18 >>= byte_to_uint32
  target_hardware ← slice packet 18 24
  target_ip_addr ← slice packet 24 28 >>= byte_to_uint32
  ok (record {
    hardware_type = hardware_type;
    protocol_type = protocol_type;
    hardware_len = hardware_len;
    protocol_len = protocol_len;
    opcode = opcode;
    sender_hardware_addr = set_mac_addr sender_hardware;
    sender_ip_addr = sender_ip_addr;
    target_hardware_addr = set_mac_addr target_hardware;
    target_ip_addr = target_ip_addr;
  })
