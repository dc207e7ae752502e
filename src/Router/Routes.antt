-- ===== src/Router/Routes.antt =====
-- The routes of a router with given devices: what the start adds to the routing table.
use go_software_router.Prelude.{
  ℕ, suc, ◌+◌, ◌^◌, ◌<◌, ◌≡◌, refl, ap, ◌∙◌, List, [], ◌∷◌, ◌++◌, some, Result, ok, crash,
  ◌>>=◌ as ◌>>?◌, length, All, arith, bit_and,
}
use go_software_router.Prelude.Bits.{bit_and_le}
use go_software_router.Device.{NetDevice}
use go_software_router.Radix.{RadixTreeNode, connected, radix_tree_add, subnet_to_prefix_len}
use go_software_router.Radix.Mask.{subnet_to_prefix_len-LeadingOnes}
use go_software_router.Radix.Table.{Route, IsRoute, add_all}
use go_software_router.Router.Setup.{host2_entry}

-- The route to host2, and the network of the device at a position.
abbrev pub host2_route : Route
host2_route = record { prefix = 0xc0a8_0200; len = 24; entry = host2_entry }

abbrev pub connected_route : ℕ → NetDevice → Route
connected_route i d = record {
  prefix = bit_and d.ipdev.address d.ipdev.netmask;
  len = subnet_to_prefix_len d.ipdev.netmask;
  entry = record { iptype = connected; netdev = some i; nexthop = 0 };
}

abbrev pub connected_routes : ℕ → List NetDevice → List Route
connected_routes i [] = []
connected_routes i (d ∷ rest) = connected_route i d ∷ connected_routes (suc i) rest

-- All routes of a router with the given devices.
abbrev pub routes_of : List NetDevice → List Route
routes_of devices = host2_route ∷ connected_routes 0 devices

abbrev pub HasAddress32 : NetDevice → Type 0
HasAddress32 d = d.ipdev.address < 2 ^ 32

pub connected_routes-IsRoute :
    (i : ℕ) (l : List NetDevice) → All HasAddress32 l → All IsRoute (connected_routes i l)
connected_routes-IsRoute i [] h = tt
connected_routes-IsRoute i (d ∷ l) h = (
  record {
    prefix_fits = omega (arith, bit_and_le d.ipdev.address d.ipdev.netmask, h.0);
    len_fits = (subnet_to_prefix_len-LeadingOnes d.ipdev.netmask).1;
    filled = refl;
  },
  connected_routes-IsRoute (suc i) l h.1,
)

pub connected_routes-append :
    (i : ℕ) (l : List NetDevice) (d : NetDevice)
    → connected_routes i (l ++ d ∷ [])
      ≡ connected_routes i l ++ connected_route (i + length l) d ∷ []
connected_routes-append i [] d = ap (λ n. connected_route n d ∷ []) (omega arith)
connected_routes-append i (x ∷ l) d = ap (◌∷◌ (connected_route i x)) (
    connected_routes-append (suc i) l d
    ∙ ap (λ n. connected_routes (suc i) l ++ connected_route n d ∷ []) (omega arith))

-- One route after the others.
pub add_all-append :
    (t : RadixTreeNode) (rs : List Route) (q : Route) {u : RadixTreeNode}
    → add_all t rs ≡ ok u
    → add_all t (rs ++ q ∷ []) ≡ radix_tree_add u q.prefix q.len q.entry
add_all-append t [] q {u} h = last_one (radix_tree_add t q.prefix q.len q.entry) ∙ cc
  where
    last_one : (x : Result RadixTreeNode) → (x >>? λ v. ok v) ≡ x
    last_one (ok v) = refl
    last_one (crash c) = refl
add_all-append t (r ∷ rs) q {u} h =
    go (λ v e. add_all-append v rs q e) (radix_tree_add t r.prefix r.len r.entry) h
  where
    go :
        ((v : RadixTreeNode)
          → add_all v rs ≡ ok u
          → add_all v (rs ++ q ∷ []) ≡ radix_tree_add u q.prefix q.len q.entry)
        → (x : Result RadixTreeNode) → (x >>? λ v. add_all v rs) ≡ ok u
        → (x >>? λ v. add_all v (rs ++ q ∷ [])) ≡ radix_tree_add u q.prefix q.len q.entry
    go later (ok v) e = later v e
    go later (crash c) e = cc
