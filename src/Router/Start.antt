-- ===== src/Router/Start.antt =====
-- Chapter2.go, the start: what holds of the state when the interfaces have been added.
pub mod Configure
pub mod Running
use mathlib.Core.List.{append_assoc}
use go_software_router.Prelude.{
  ℕ, zero, suc, ◌+◌, ◌*◌, ◌^◌, ◌≤◌, ◌<◌, ◌≡◌, refl, sym, ap, ◌∙◌, ◌⊎◌, inl, inr, List, [], ◌∷◌,
  ◌++◌, Option, none, some, Bool, true, false, Bool-cases, Result, ok, crash, Crash, panic,
  ◌>>=◌ as ◌>>?◌, length, All, All-append, arith, bit_and, bit_or, bit_xor, IsBytes, map,
  if◌then◌else◌,
}
use go_software_router.Prelude.Bits.{bit_and_le}
use go_software_router.Wire.{byte_to_uint32}
use go_software_router.Wire.{htons}
use go_software_router.Device.{
  NetDevice, IpDevice, empty_device, is_ignore_interfaces, set_mac_addr,
}
use go_software_router.Radix.{
  IpRouteEntry, RadixTreeNode, connected, root, radix_tree_add, subnet_to_prefix_len,
}
use go_software_router.Radix.Mask.{subnet_to_prefix_len-LeadingOnes}
use go_software_router.Radix.Table.{Route, IsRoute, add_all}
use go_software_router.Router.State.{Router, M, lift, ◌>>=◌}
use go_software_router.Router.Setup.{
  Interface, set_address, get_ip_device, add_interface, add_interfaces, host2_entry, eth_p_all,
}
use go_software_router.Router.Routes.{
  host2_route, connected_route, connected_routes, routes_of, HasAddress32, connected_routes-append,
  add_all-append,
}

-- No packet was handled yet, and the routes are those of the devices.
pub record IsFresh (r : Router) : Type 0 where
  pub no_arp : r.arp_table ≡ []
  pub no_tables : r.nat_tables ≡ []
  pub no_copies : r.copies ≡ []
  pub no_sent : r.sent ≡ []
  pub unused : All (λ (d : NetDevice). d.ipdev.natdev ≡ empty_device.ipdev.natdev) r.net_device_list
  pub fits : All HasAddress32 r.net_device_list
  pub routed : add_all root (routes_of r.net_device_list) ≡ ok r.iproute

-- A step of the start that ends in a fresh state, or ends the program.
pub data Starts : Result (Unit {0} × Router) → Type 0 where
  begun : (r : Router) → IsFresh r → Starts (ok (tt, r))
  crashed : (c : Crash) → Starts (crash c)

-- What the addresses of an interface give: an address that fits, behind no NAT.
data Addressed (dev : IpDevice) (r : Router) : Result (IpDevice × Router) → Type 0 where
  addressed :
      (d : IpDevice) → d.address < 2 ^ 32 → d.natdev ≡ dev.natdev → Addressed dev r (ok (d, r))
  refused : (c : Crash) → Addressed dev r (crash c)

-- The bytes of an IPv4 address are bytes.
abbrev pub HasByteAddresses : Interface → Type 0
HasByteAddresses netif = All (λ (a : List ℕ × List ℕ). IsBytes a.0) netif.addrs

byte_to_uint32_cases :
    (bs : List ℕ)
    → IsBytes bs
    → (byte_to_uint32 bs ≡ crash panic) ⊎ ((n : ℕ) × (byte_to_uint32 bs ≡ ok n) × (n < 2 ^ 32))
unfolding byte_to_uint32
byte_to_uint32_cases [] h = inl refl
byte_to_uint32_cases (x ∷ []) h = inl refl
byte_to_uint32_cases (x ∷ y ∷ []) h = inl refl
byte_to_uint32_cases (x ∷ y ∷ z ∷ []) h = inl refl
byte_to_uint32_cases (x ∷ y ∷ z ∷ w ∷ rest) h = inr (_, refl, omega arith)

set_address-Addressed :
    (dev : IpDevice) (ip mask : List ℕ) (r : Router)
    → IsBytes ip
    → Addressed dev r (set_address dev ip mask r)
unfolding set_address
set_address-Addressed dev ip mask r h = elim (byte_to_uint32_cases ip h) [
  | inl e ↦ rw e (refused panic)
  | inr (n, e, fits) ↦ rw e (go n fits (byte_to_uint32 mask))
]
  where
    go :
        (n : ℕ)
        → n < 2 ^ 32
        → (x : Result ℕ)
        → Addressed dev r (elim (lift x r) [
          | crash c ↦ crash c
          | ok (m, s) ↦ ok (
            record dev { address = n; netmask = m; broadcast = bit_or n (bit_xor m 0xffff_ffff) },
            s,
          )
        ])
    go n fits (ok m) = addressed _ fits refl
    go n fits (crash c) = refused c

get_ip_device-Addressed :
    (dev : IpDevice) (addrs : List (List ℕ × List ℕ)) (r : Router)
    → dev.address < 2 ^ 32
    → All (λ (a : List ℕ × List ℕ). IsBytes a.0) addrs
    → Addressed dev r (get_ip_device dev addrs r)
unfolding get_ip_device
get_ip_device-Addressed dev [] r fits h = addressed dev fits refl
get_ip_device-Addressed dev ((ip, mask) ∷ rest) r fits h =
    go (λ d f. get_ip_device-Addressed d rest r f h.1) (set_address dev ip mask r)
      (set_address-Addressed dev ip mask r h.0)
  where
    follow :
        (d : IpDevice) (x : Result (IpDevice × Router))
        → d.natdev ≡ dev.natdev
        → Addressed d r x
        → Addressed dev r x
    follow d x same (addressed d' f e) = addressed d' f (e ∙ same)
    follow d x same (refused c) = refused c

    go :
        ((d : IpDevice) → d.address < 2 ^ 32 → Addressed d r (get_ip_device d rest r))
        → (x : Result (IpDevice × Router)) → Addressed dev r x
        → Addressed dev r (elim x [ crash c ↦ crash c | ok (d, s) ↦ get_ip_device d rest s ])
    go later x (addressed d f e) = follow d (get_ip_device d rest r) e (later d f)
    go later x (refused c) = refused c

-- One more device with its route.
joined-IsFresh :
    (r : Router) (d : NetDevice) {tree : RadixTreeNode}
    → IsFresh r
    → HasAddress32 d
    → d.ipdev.natdev ≡ empty_device.ipdev.natdev
    → radix_tree_add r.iproute
        (connected_route (length r.net_device_list) d).prefix
        (connected_route (length r.net_device_list) d).len
        (connected_route (length r.net_device_list) d).entry
      ≡ ok tree
    → IsFresh (record r { iproute = tree; net_device_list = r.net_device_list ++ d ∷ [] })
joined-IsFresh r d {tree} w fits unused added = record {
  no_arp = w.no_arp;
  no_tables = w.no_tables;
  no_copies = w.no_copies;
  no_sent = w.no_sent;
  unused = All-append _ r.net_device_list (d ∷ []) w.unused (unused, tt);
  fits = All-append HasAddress32 r.net_device_list (d ∷ []) w.fits (fits, tt);
  routed =
      ap (λ l. add_all root (host2_route ∷ l))
        (connected_routes-append 0 r.net_device_list d
          ∙ ap (λ n. connected_routes 0 r.net_device_list ++ connected_route n d ∷ [])
              (omega arith))
      ∙ (add_all-append root (routes_of r.net_device_list)
            (connected_route (length r.net_device_list) d) w.routed
          ∙ added);
}

add_interface-Starts :
    (netif : Interface) (r : Router)
    → HasByteAddresses netif
    → IsFresh r
    → Starts (add_interface netif r)
unfolding add_interface
add_interface-Starts netif r h w = elim (Bool-cases (is_ignore_interfaces netif.name)) [
  | inl skipped ↦ rw skipped (begun r w)
  | inr taken ↦ rw taken (
      read (get_ip_device empty_device.ipdev netif.addrs r)
        (get_ip_device-Addressed empty_device.ipdev netif.addrs r (omega arith) h))
]
  where
    device : IpDevice → NetDevice
    device ipdev = record empty_device {
      name = netif.name;
      macaddr = set_mac_addr netif.hardware_addr;
      socket = netif.socket;
      sockaddr = record { protocol = htons eth_p_all; ifindex = netif.index };
      ipdev = ipdev;
    }

    insert : IpDevice → Router → Result RadixTreeNode
    insert ipdev s =
        radix_tree_add s.iproute (bit_and ipdev.address ipdev.netmask)
          (subnet_to_prefix_len ipdev.netmask)
          (record { iptype = connected; netdev = some (length s.net_device_list); nexthop = 0 })

    join : (d : IpDevice) → Result RadixTreeNode → Result (Unit {0} × Router)
    join d x =
        ◌>>=◌ (lift x)
          (λ tree s.
            ok (
              tt,
              record s { iproute = tree; net_device_list = s.net_device_list ++ device d ∷ [] },
            ))
          r

    put :
        (d : IpDevice)
        → d.address < 2 ^ 32
        → d.natdev ≡ empty_device.ipdev.natdev
        → (x : Result RadixTreeNode) → insert d r ≡ x
        → Starts (join d x)
    put d f e (ok tree) added = begun _ (joined-IsFresh r (device d) w f e added)
    put d f e (crash c) added = crashed c

    read :
        (x : Result (IpDevice × Router))
        → Addressed empty_device.ipdev r x
        → Starts (elim x [
          | crash c ↦ crash c
          | ok (d, s) ↦ elim (lift (insert d s) s) [
            | crash c ↦ crash c
            | ok (tree, t) ↦ ok (
              tt,
              record t { iproute = tree; net_device_list = t.net_device_list ++ device d ∷ [] },
            )
          ]
        ])
    read x (addressed d f e) = put d f e (insert d r) refl
    read x (refused c) = crashed c

pub add_interfaces-Starts :
    (netifs : List Interface) (r : Router)
    → All HasByteAddresses netifs
    → IsFresh r
    → Starts (add_interfaces netifs r)
unfolding add_interfaces
add_interfaces-Starts [] r h w = begun r w
add_interfaces-Starts (netif ∷ rest) r h w =
    go (λ s v. add_interfaces-Starts rest s h.1 v) (add_interface netif r)
      (add_interface-Starts netif r h.0 w)
  where
    go :
        ((s : Router) → IsFresh s → Starts (add_interfaces rest s))
        → (x : Result (Unit {0} × Router)) → Starts x
        → Starts (elim x [ crash c ↦ crash c | ok (u, s) ↦ add_interfaces rest s ])
    go later x (begun s v) = later s v
    go later x (crashed c) = crashed c
