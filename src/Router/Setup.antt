-- ===== src/Router/Setup.antt =====
-- Chapter2.go, nat.go and ip.go: how the state is built before the event loop.
use Prim.Native.String.{String}
use text.Mathlib.Text.{◌==◌ as str_eq}
use go_software_router.Prelude.{
  ℕ, List, [], ◌∷◌, ◌++◌, none, some, ok, if◌then◌else◌, length, bit_and, bit_or, bit_xor,
}
use go_software_router.Wire.{byte_to_uint32, htons}
use go_software_router.Device.{
  NetDevice, IpDevice, set_mac_addr, empty_device, get_net_device_by_name, is_ignore_interfaces,
}
use go_software_router.Nat.{new_tables, NatEntryList}
use go_software_router.Radix.{
  IpRouteEntry, connected, network, radix_tree_add, subnet_to_prefix_len, root,
}
use go_software_router.Router.State.{Router, M, pure, ◌>>=◌, ◌>>◌, lift, get, stop}

-- `getIPdevice` on one IPv4 address with its mask, as `net.ParseCIDR` and `To4` give their bytes.
unfoldable pub set_address : IpDevice → List ℕ → List ℕ → M IpDevice
unfolding byte_to_uint32
set_address dev ip mask = do
  address ← lift (byte_to_uint32 ip)
  netmask ← lift (byte_to_uint32 mask)
  pure (record dev {
    address = address;
    netmask = netmask;
    broadcast = bit_or address (bit_xor netmask 0xffff_ffff);
  })

-- The loop over the addresses that are IPv4: the last one stays.
unfoldable pub get_ip_device : IpDevice → List (List ℕ × List ℕ) → M IpDevice
unfolding set_address
get_ip_device dev [] = pure dev
get_ip_device dev ((ip, mask) ∷ rest) = set_address dev ip mask >>= λ dev'. get_ip_device dev' rest

-- What the kernel and `net.Interfaces` say of an interface.
pub record Interface : Type 0 where
  pub name : String
  pub index : ℕ
  pub hardware_addr : List ℕ
  pub socket : ℕ
  pub addrs : List (List ℕ × List ℕ)

abbrev pub eth_p_all : ℕ
eth_p_all = 0x0003

-- The body of the loop over the interfaces: the device, the route of its own network, and its place in the list.
unfoldable pub add_interface : Interface → M (Unit {0})
unfolding get_ip_device radix_tree_add subnet_to_prefix_len htons set_mac_addr is_ignore_interfaces
add_interface netif =
    if is_ignore_interfaces netif.name
    then stop
    else (get_ip_device empty_device.ipdev netif.addrs >>= λ ipdev. get >>= λ r.
        let dev : NetDevice = record empty_device {
          name = netif.name;
          macaddr = set_mac_addr netif.hardware_addr;
          socket = netif.socket;
          sockaddr = record { protocol = htons eth_p_all; ifindex = netif.index };
          ipdev = ipdev;
        } in
        let entry : IpRouteEntry = record {
          iptype = connected;
          netdev = some (length r.net_device_list);
          nexthop = 0;
        } in
        lift (
          radix_tree_add r.iproute (bit_and ipdev.address ipdev.netmask)
            (subnet_to_prefix_len ipdev.netmask) entry)
        >>= λ tree. λ s.
          ok (tt, record s { iproute = tree; net_device_list = s.net_device_list ++ dev ∷ [] }))

-- The loop of `configureIPNat`: every device of the name gets new tables, behind a new pointer.
unfoldable pub configure_devices :
    String → ℕ → List NetDevice → List NatEntryList → List NetDevice × List NatEntryList
configure_devices inside outside [] tables = ([], tables)
configure_devices inside outside (dev ∷ rest) tables =
    let hit = str_eq inside dev.name in
    let dev' : NetDevice =
      if hit
      then record dev {
        ipdev = record (dev.ipdev) {
          natdev = record { outside_ip_addr = outside; nat_entry = some (length tables) };
        };
      }
      else dev in
    let (rest', tables') =
      configure_devices inside outside rest (if hit then tables ++ new_tables ∷ [] else tables) in
    (dev' ∷ rest', tables')

unfoldable pub configure_ip_nat : String → ℕ → M (Unit {0})
unfolding configure_devices
configure_ip_nat inside outside r =
    let (devices, tables) = configure_devices inside outside r.net_device_list r.nat_tables in
    ok (tt, record r { net_device_list = devices; nat_tables = tables })

-- `routeEntryTohost2`, and its prefix 192.168.2.0.
abbrev pub host2_entry : IpRouteEntry
host2_entry = record { iptype = network; netdev = none; nexthop = 0xc0a8_0002 }

unfoldable pub add_interfaces : List Interface → M (Unit {0})
unfolding add_interface
add_interfaces [] = stop
add_interfaces (netif ∷ rest) = add_interface netif >> add_interfaces rest

-- `runChapter2` up to its event loop.
unfoldable pub start : String → List Interface → M (Unit {0})
unfolding add_interfaces configure_ip_nat get_net_device_by_name radix_tree_add
start mode netifs = do
  r ← get
  tree ← lift (radix_tree_add r.iproute (bit_and 0xc0a8_0202 0xffff_ff00) 24 host2_entry)
  (λ s. ok (tt, record s { iproute = tree }))
  add_interfaces netifs
  s ← get
  if str_eq mode "ch5"
      then configure_ip_nat "router1-br0"
          (get_net_device_by_name "router1-router2" s.net_device_list).ipdev.address
      else stop

-- The globals before `main`.
abbrev pub initial : Router
initial = record {
  net_device_list = [];
  copies = [];
  arp_table = [];
  iproute = root;
  nat_tables = [];
  sent = [];
}
