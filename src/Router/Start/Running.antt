-- ===== src/Router/Start/Running.antt =====
-- Chapter2.go: the state in which the start ends.
use Prim.Native.String.{String}
use text.Mathlib.Text.{◌==◌ as str_eq}
use go_software_router.Prelude.{
  ℕ, ◌≡◌, refl, ap, ◌∙◌, inl, inr, List, [], ◌∷◌, Bool-cases, Result, ok, crash, Crash, All, arith,
  if◌then◌else◌,
}
use go_software_router.Device.{NetDevice, NatDevice, get_net_device_by_name, empty_device}
use go_software_router.Radix.{RadixTreeNode, root, radix_tree_add}
use go_software_router.Radix.Table.{add_all}
use go_software_router.Router.State.{Router, lift, stop}
use go_software_router.Router.Sound.{IsSound, DeviceUses}
use go_software_router.Router.Setup.{
  Interface, initial, start, add_interfaces, configure_ip_nat, host2_entry,
}
use go_software_router.Router.Start.Configure.{
  nat_rule, configure-connected_routes, configure-UsesOutside, configure-AreNat,
  configure-HasAddress32,
}
use go_software_router.Router.Start.{
  HasByteAddresses, IsFresh, Starts, begun, crashed, add_interfaces-Starts,
}
use go_software_router.Router.Routes.{routes_of, host2_route, HasAddress32}

-- What holds while the router runs: its state is sound for the tables behind the outside address, no device stands
-- outside of the list, and the routing table is that of the devices.
pub record IsRunning (outside : ℕ) (r : Router) : Type 0 where
  pub sound : IsSound (nat_rule outside) r
  pub no_copies : r.copies ≡ []
  pub fits : All HasAddress32 r.net_device_list
  pub routed : add_all root (routes_of r.net_device_list) ≡ ok r.iproute

no_tables-IsRunning : (outside : ℕ) (r : Router) → IsFresh r → IsRunning outside r
no_tables-IsRunning outside r w = record {
  sound = record {
    unique = rw w.no_arp (λ ip. omega arith);
    tables = rw w.no_tables tt;
    listed = unused_uses r.net_device_list w.unused;
    copied = rw w.no_copies tt;
  };
  no_copies = w.no_copies;
  fits = w.fits;
  routed = w.routed;
}
  where
    unused_uses :
        (l : List NetDevice)
        → All (λ (d : NetDevice). d.ipdev.natdev ≡ empty_device.ipdev.natdev) l
        → All (DeviceUses (nat_rule outside)) l
    unused_uses [] h = tt
    unused_uses (d ∷ l) h = (inl (ap (λ (n : NatDevice). n.nat_entry) h.0), unused_uses l h.1)

-- The start ends the program, or ends in a running state, behind some outside address.
pub data Begins : Result (Unit {0} × Router) → Type 0 where
  running : (outside : ℕ) (r : Router) → IsRunning outside r → Begins (ok (tt, r))
  stopped : (c : Crash) → Begins (crash c)

configure-IsRunning :
    (inside : String) (outside : ℕ) (r : Router)
    → IsFresh r
    → Begins (configure_ip_nat inside outside r)
unfolding configure_ip_nat
configure-IsRunning inside outside r w = running outside _ (record {
  sound = record {
    unique = rw w.no_arp (λ ip. omega arith);
    tables = configure-AreNat inside outside r.net_device_list r.nat_tables (rw w.no_tables tt);
    listed = configure-UsesOutside inside outside r.net_device_list r.nat_tables w.unused;
    copied = rw w.no_copies tt;
  };
  no_copies = w.no_copies;
  fits = configure-HasAddress32 inside outside r.net_device_list r.nat_tables w.fits;
  routed =
      ap (λ l. add_all root (host2_route ∷ l))
        (configure-connected_routes inside outside 0 r.net_device_list r.nat_tables)
      ∙ w.routed;
})

pub start-Begins :
    (mode : String) (netifs : List Interface)
    → All HasByteAddresses netifs
    → Begins (start mode netifs initial)
unfolding start
start-Begins mode netifs h = first (radix_tree_add root 0xc0a8_0200 24 host2_entry) refl
  where
    last :
        (s : Router)
        → IsFresh s
        → Begins (
            (if str_eq mode "ch5"
                then configure_ip_nat "router1-br0"
                    (get_net_device_by_name "router1-router2" s.net_device_list).ipdev.address
                else stop)
              s)
    last s w = elim (Bool-cases (str_eq mode "ch5")) [
      | inl on ↦ rw on (
          configure-IsRunning "router1-br0"
            (get_net_device_by_name "router1-router2" s.net_device_list).ipdev.address s w)
      | inr off ↦ rw off (running 0 s (no_tables-IsRunning 0 s w))
    ]

    rest : Result (Unit {0} × Router) → Result (Unit {0} × Router)
    rest x = elim x [
      | crash c ↦ crash c
      | ok (u, s) ↦
          (if str_eq mode "ch5"
              then configure_ip_nat "router1-br0"
                  (get_net_device_by_name "router1-router2" s.net_device_list).ipdev.address
              else stop)
            s
    ]

    second : (x : Result (Unit {0} × Router)) → Starts x → Begins (rest x)
    second x (begun s w) = last s w
    second x (crashed c) = stopped c

    with_host2 : RadixTreeNode → Router
    with_host2 tree = record initial { iproute = tree }

    first :
        (x : Result RadixTreeNode)
        → radix_tree_add root 0xc0a8_0200 24 host2_entry ≡ x
        → Begins (elim (lift x initial) [
          | crash c ↦ crash c
          | ok (tree, s) ↦ rest (add_interfaces netifs (record s { iproute = tree }))
        ])
    first (crash c) e = stopped c
    first (ok tree) e = second (add_interfaces netifs (with_host2 tree)) (
        add_interfaces-Starts netifs (with_host2 tree) h (record {
          no_arp = refl;
          no_tables = refl;
          no_copies = refl;
          no_sent = refl;
          unused = tt;
          fits = tt;
          routed = added;
        }))
      where
        added : add_all root (host2_route ∷ []) ≡ ok tree
        added = rw e refl
