-- ===== src/Device.antt =====
-- net.go, ethernet.go and ip.go: the data of a device. `[6]uint8` is a record of six bytes, and a
-- `*netDevice` is a position in `netDeviceList`.
pub mod Laws
use text.Mathlib.Text.{◌==◌ as str_eq}
use Prim.Native.String.{String}
use go_software_router.Prelude.{
  ℕ, List, [], ◌∷◌, Bool, true, false, not, ◌&&◌, ◌||◌, Option, none, some, ◌==◌, if◌then◌else◌,
  get_or,
}

pub record Mac : Type 0 where
  pub b0 : ℕ
  pub b1 : ℕ
  pub b2 : ℕ
  pub b3 : ℕ
  pub b4 : ℕ
  pub b5 : ℕ

unfoldable pub mac_eq : Mac → Mac → Bool
mac_eq m n =
    m.b0 == n.b0
    && (m.b1 == n.b1 && (m.b2 == n.b2 && (m.b3 == n.b3 && (m.b4 == n.b4 && m.b5 == n.b5))))

-- `[6]uint8{}`.
abbrev pub zero_mac : Mac
zero_mac = record { b0 = 0; b1 = 0; b2 = 0; b3 = 0; b4 = 0; b5 = 0 }

abbrev pub ethernet_address_broadcast : Mac
ethernet_address_broadcast = record {
  b0 = 0xff;
  b1 = 0xff;
  b2 = 0xff;
  b3 = 0xff;
  b4 = 0xff;
  b5 = 0xff;
}

-- `copy` into six zero bytes.
unfoldable pub set_mac_addr : List ℕ → Mac
set_mac_addr bs = record {
  b0 = get_or bs 0 0;
  b1 = get_or bs 1 0;
  b2 = get_or bs 2 0;
  b3 = get_or bs 3 0;
  b4 = get_or bs 4 0;
  b5 = get_or bs 5 0;
}

unfoldable pub mac_to_byte : Mac → List ℕ
mac_to_byte m = m.b0 ∷ m.b1 ∷ m.b2 ∷ m.b3 ∷ m.b4 ∷ m.b5 ∷ []

pub record EthernetHeader : Type 0 where
  pub dest_addr : Mac
  pub src_addr : Mac
  pub ether_type : ℕ

-- The NAT tables are shared by pointer: a position in the router's list of them.
pub record NatDevice : Type 0 where
  pub outside_ip_addr : ℕ
  pub nat_entry : Option ℕ

-- `natdev == (natDevice{})`.
abbrev pub is_empty_nat : NatDevice → Bool
is_empty_nat n = elim n.nat_entry [ none ↦ n.outside_ip_addr == 0 | some _ ↦ false ]

pub record IpDevice : Type 0 where
  pub address : ℕ
  pub netmask : ℕ
  pub broadcast : ℕ
  pub natdev : NatDevice

-- `ipdev == (ipDevice{})`.
abbrev pub is_empty_ip : IpDevice → Bool
is_empty_ip d = d.address == 0 && (d.netmask == 0 && (d.broadcast == 0 && is_empty_nat d.natdev))

-- The fields of `syscall.SockaddrLinklayer` that the program sets.
pub record Sockaddr : Type 0 where
  pub protocol : ℕ
  pub ifindex : ℕ

pub record NetDevice : Type 0 where
  pub name : String
  pub macaddr : Mac
  pub socket : ℕ
  pub sockaddr : Sockaddr
  pub ethe_header : EthernetHeader
  pub ipdev : IpDevice

-- `netDevice{}`.
abbrev pub empty_device : NetDevice
empty_device = record {
  name = "";
  macaddr = zero_mac;
  socket = 0;
  sockaddr = record { protocol = 0; ifindex = 0 };
  ethe_header = record { dest_addr = zero_mac; src_addr = zero_mac; ether_type = 0 };
  ipdev = record {
    address = 0;
    netmask = 0;
    broadcast = 0;
    natdev = record { outside_ip_addr = 0; nat_entry = none };
  };
}

abbrev pub ignore_interfaces : List String
ignore_interfaces = "lo" ∷ "bond0" ∷ "dummy0" ∷ []

unfoldable pub is_listed : String → List String → Bool
is_listed name [] = false
is_listed name (ignore ∷ rest) = if str_eq name ignore then true else is_listed name rest

unfoldable pub is_ignore_interfaces : String → Bool
unfolding is_listed
is_ignore_interfaces name = is_listed name ignore_interfaces

-- The first device of the name, or an empty one.
unfoldable pub get_net_device_by_name : String → List NetDevice → NetDevice
get_net_device_by_name name [] = empty_device
get_net_device_by_name name (dev ∷ rest) =
    if str_eq name dev.name then dev else get_net_device_by_name name rest
