-- ===== src/Tests/Data.antt =====
-- A router with one device, its routes, and the packets that the examples use.
use go_software_router.Prelude.{ℕ, List, [], ◌∷◌, none, some, ok, crash, true}
use go_software_router.Device.{Mac, NetDevice, zero_mac}
use go_software_router.Arp.{ArpIpToEthernet, ArpTableEntry}
use go_software_router.Arp
use go_software_router.Header.Udp.{UdpHeader}
use go_software_router.Header.Tcp.{TcpHeader}
use go_software_router.Icmp.{IcmpMessage}
use go_software_router.Ip.{IpHeader}
use go_software_router.Nat.{NatEntry, NatEntryList, Slots}
use go_software_router.Radix.{IpRouteEntry, connected, network, RadixTreeNode, root, radix_tree_add}
use go_software_router.Radix.Table.{Route}
use go_software_router.Router.State.{Router, Sendto}

-- 192.168.1.1, 192.168.1.2 and 10.0.0.7.
abbrev pub router_addr : ℕ
router_addr = 0xc0a80101

abbrev pub host_addr : ℕ
host_addr = 0xc0a80102

abbrev pub server_addr : ℕ
server_addr = 0x0a000007

abbrev pub router_mac : Mac
router_mac = record { b0 = 2; b1 = 0; b2 = 0; b3 = 0; b4 = 0; b5 = 1 }

abbrev pub host_mac : Mac
host_mac = record { b0 = 2; b1 = 0; b2 = 0; b3 = 0; b4 = 0; b5 = 2 }

abbrev pub device : NetDevice
device = record {
  name = "router1-host1";
  macaddr = router_mac;
  socket = 3;
  sockaddr = record { protocol = 768; ifindex = 2 };
  ethe_header = record { dest_addr = zero_mac; src_addr = zero_mac; ether_type = 0 };
  ipdev = record {
    address = router_addr;
    netmask = 0xffffff00;
    broadcast = 0xc0a801ff;
    natdev = record { outside_ip_addr = 0; nat_entry = none };
  };
}

abbrev pub host_route : IpRouteEntry
host_route = record { iptype = connected; netdev = some 0; nexthop = 0 }

abbrev pub far_route : IpRouteEntry
far_route = record { iptype = network; netdev = none; nexthop = host_addr }

-- The network of the host, and a default route.
abbrev pub routes : List Route
routes =
    record { prefix = 0xc0a80100; len = 24; entry = host_route }
    ∷ record { prefix = 0; len = 0; entry = far_route }
    ∷ []

abbrev pub tree : RadixTreeNode
tree = elim (radix_tree_add root 0xc0a80100 24 host_route) [ ok t ↦ t | crash c ↦ root ]

abbrev pub host_entry : ArpTableEntry
host_entry = record { mac_addr = host_mac; ip_addr = host_addr; netdev = some 0 }

abbrev pub router : Router
router = record {
  net_device_list = device ∷ [];
  copies = [];
  arp_table = host_entry ∷ [];
  iproute = tree;
  nat_tables = [];
  sent = [];
}

-- A kernel that takes every frame.
abbrev pub takes_all : Sendto
takes_all sent frame = true

abbrev pub ip_header : IpHeader
ip_header = record {
  version = 4;
  header_len = 5;
  tos = 0;
  total_len = 30;
  identity = 7;
  flag_offset = 0;
  ttl = 64;
  protocol = 17;
  header_checksum = 0;
  src_addr = server_addr;
  dest_addr = host_addr;
}

abbrev pub udp_header : UdpHeader
udp_header = record { src_port = 5353; dest_port = 53; segment_len = 10; check_sum = 1 }

abbrev pub tcp_header : TcpHeader
tcp_header = record {
  src_port = 4000;
  dest_port = 80;
  sequence_num = 70000;
  response_check_num = 1;
  data_offset = 6;
  reserve = 0;
  flag = 2;
  window_size = 1024;
  check_sum = 9;
  urg_pointer = 0;
  options = 2 ∷ 4 ∷ 5 ∷ 180 ∷ [];
  tcpdata = 104 ∷ 105 ∷ [];
}

abbrev pub arp_message : ArpIpToEthernet
arp_message = record {
  hardware_type = 1;
  protocol_type = 0x0800;
  hardware_len = 6;
  protocol_len = 4;
  opcode = 1;
  sender_hardware_addr = host_mac;
  sender_ip_addr = host_addr;
  target_hardware_addr = zero_mac;
  target_ip_addr = router_addr;
}

abbrev pub echo : IcmpMessage
echo = record {
  icmp_header = record { icmp_type = 8; icmp_code = 0; checksum = 5 };
  icmp_echo = record {
    identity = 77;
    sequence = 1;
    timestamp = 1 ∷ 2 ∷ 3 ∷ 4 ∷ 5 ∷ 6 ∷ 7 ∷ 8 ∷ [];
    echo_data = 10 ∷ 11 ∷ [];
  };
}

-- Tables of two slots; the first UDP slot is taken by 10.0.0.9:1000.
abbrev pub taken_entry : NatEntry
taken_entry = record {
  global_ip_addr = router_addr;
  local_ip_addr = 0x0a000009;
  global_port = 20000;
  local_port = 1000;
}

abbrev pub new_entry : NatEntry
new_entry = record {
  global_ip_addr = router_addr;
  local_ip_addr = server_addr;
  global_port = 20001;
  local_port = 5353;
}

abbrev pub udp_slots : Slots
udp_slots = some taken_entry ∷ none ∷ []

abbrev pub udp_slots_after : Slots
udp_slots_after = some taken_entry ∷ some new_entry ∷ []

abbrev pub tables : NatEntryList
tables = record { tcp = none ∷ []; udp = udp_slots; icmp = none ∷ [] }

abbrev pub tables_after : NatEntryList
tables_after = record { tcp = none ∷ []; udp = udp_slots_after; icmp = none ∷ [] }

-- The Ethernet frame of the ARP message, addressed to the router.
abbrev pub request_frame : List ℕ
request_frame = 2 ∷ 0 ∷ 0 ∷ 0 ∷ 0 ∷ 1 ∷ 2 ∷ 0 ∷ 0 ∷ 0 ∷ 0 ∷ 2 ∷ 8 ∷ 6 ∷ Arp.to_packet arp_message
