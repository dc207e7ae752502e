-- ===== src/Router/Reachable.antt =====
-- Chapter2.go: what holds of the router in every state in which its loop waits.
use Prim.Native.String.{String}
use go_software_router.Prelude.{
  ℕ, suc, ◌^◌, ◌<◌, ◌≡◌, refl, sym, ap, ◌∙◌, List, [], ◌∷◌, Result, ok, All, arith, map,
}
use go_software_router.Device.{NetDevice}
use go_software_router.Radix.{root, radix_tree_search}
use go_software_router.Radix.Table.{
  IsRoute, add_all, longest_prefix_match, radix_tree_search-add_all,
}
use go_software_router.Router.State.{Router, Sendto}
use go_software_router.Router.Sound.{NatRule, IsSound}
use go_software_router.Router.Setup.{Interface, initial, start}
use go_software_router.Router.Start.Running.{IsRunning, Begins, running, stopped, start-Begins}
use go_software_router.Router.Start.Configure.{nat_rule}
use go_software_router.Router.Start.{HasByteAddresses}
use go_software_router.Router.Routes.{
  routes_of, host2_route, connected_route, connected_routes, connected_routes-IsRoute, HasAddress32,
}
use go_software_router.Router.Evolve.{
  configuration, Evolves, Evolves-refl, Evolves-trans, After, done, Keeps, Keeps-pure,
  Keeps-log_fatal, Keeps-bind,
}
use go_software_router.Router.Safety.Input.{event-Keeps}
use go_software_router.Router.Loop.{
  Event, Wait, interrupted, wait_failed, ready, handle_events, wait_round, Reach, started, waited,
}

-- A running state that a handler has changed is a running state.
configuration-connected_routes :
    (i : ℕ) (l : List NetDevice) → connected_routes i (map configuration l) ≡ connected_routes i l
configuration-connected_routes i [] = refl
configuration-connected_routes i (d ∷ l) =
    ap (◌∷◌ (connected_route i d)) (configuration-connected_routes (suc i) l)

configuration-HasAddress32 :
    (l : List NetDevice) → All HasAddress32 l → All HasAddress32 (map configuration l)
configuration-HasAddress32 [] h = tt
configuration-HasAddress32 (d ∷ l) h = (h.0, configuration-HasAddress32 l h.1)

HasAddress32-configuration :
    (l : List NetDevice) → All HasAddress32 (map configuration l) → All HasAddress32 l
HasAddress32-configuration [] h = tt
HasAddress32-configuration (d ∷ l) h = (h.0, HasAddress32-configuration l h.1)

no_configuration : (l : List NetDevice) → map configuration l ≡ [] → l ≡ []
no_configuration [] e = refl
no_configuration (d ∷ l) e = cc

evolved-IsRunning :
    (outside : ℕ) (r r' : Router)
    → IsRunning outside r
    → Evolves r r'
    → IsSound (nat_rule outside) r'
    → IsRunning outside r'
evolved-IsRunning outside r r' w e sound = record {
  sound = sound;
  no_copies = no_configuration r'.copies (e.same_copies ∙ ap (map configuration) w.no_copies);
  fits =
      HasAddress32-configuration r'.net_device_list
        (rw e.same_devices (configuration-HasAddress32 r.net_device_list w.fits));
  routed =
      ap (λ l. add_all root (host2_route ∷ l))
        (sym (configuration-connected_routes 0 r'.net_device_list)
          ∙ (ap (connected_routes 0) e.same_devices
              ∙ configuration-connected_routes 0 r.net_device_list))
      ∙ (w.routed ∙ ap ok (sym e.same_routes));
}

module _ (rule : NatRule) (sendto : Sendto) (mode : String) where
  handle_events-Keeps : (events : List Event) → Keeps rule (handle_events sendto mode events)
  unfolding handle_events
  handle_events-Keeps [] = Keeps-pure tt
  handle_events-Keeps (e ∷ rest) =
      Keeps-bind (event-Keeps rule sendto mode e.fd e.received) (λ _. handle_events-Keeps rest)

  -- A round of the loop keeps to the rule, whatever `EpollWait` gives.
  wait_round-Keeps : (w : Wait) → Keeps rule (wait_round sendto mode w)
  unfolding wait_round
  wait_round-Keeps interrupted = Keeps-pure tt
  wait_round-Keeps wait_failed = Keeps-log_fatal
  wait_round-Keeps (ready events) = handle_events-Keeps events

-- A state since the start: it evolved from the first one, and it is a running state.
pub record IsReached (mode : String) (netifs : List Interface) (r : Router) : Type 0 where
  pub outside : ℕ
  pub first : Router
  pub begins : start mode netifs initial ≡ ok (tt, first)
  pub evolves : Evolves first r
  pub runs : IsRunning outside r

Begins-IsReached :
    (mode : String) (netifs : List Interface) (r : Router) (x : Result (Unit {0} × Router))
    → start mode netifs initial ≡ x
    → Begins x
    → x ≡ ok (tt, r)
    → IsReached mode netifs r
Begins-IsReached mode netifs r x at_x (running outside s w) e =
    let same : s ≡ r = cc in
    record {
      outside = outside;
      first = r;
      begins = at_x ∙ e;
      evolves = Evolves-refl r;
      runs = rw (← same) w;
    }
Begins-IsReached mode netifs r x at_x (stopped c) e = cc

round-IsReached :
    (mode : String) (netifs : List Interface) (r s : Router) (x : Result (Unit {0} × Router))
    → (w : IsReached mode netifs r) → After (nat_rule w.outside) r x
    → x ≡ ok (tt, s)
    → IsReached mode netifs s
round-IsReached mode netifs r s x w (done u t evolved sound) e =
    let same : t ≡ s = cc in
    rw (← same) (record {
      outside = w.outside;
      first = w.first;
      begins = w.begins;
      evolves = Evolves-trans w.evolves evolved;
      runs = evolved-IsRunning w.outside r t w.runs evolved sound;
    })
round-IsReached mode netifs r s x w (After.crashed c) e = cc

-- Every state in which the loop waits, after a start on interfaces whose IPv4 addresses are bytes and any rounds
-- with any data received and any answers of `sendto`, evolved from the state after the start: it has its
-- routes, its devices but for their last headers, and a history that extends its own. And it is a running state:
-- no address has two ARP entries, the NAT tables are well-formed for one outside address, that of every device
-- that translates, and the routing table is the one built from the routes of its devices.
pub Reach-IsReached :
    (sendto : Sendto) (mode : String) (netifs : List Interface) (r : Router)
    → All HasByteAddresses netifs
    → Reach sendto mode netifs r
    → IsReached mode netifs r
Reach-IsReached sendto mode netifs r h (started r' e) =
    Begins-IsReached mode netifs r (start mode netifs initial) refl (start-Begins mode netifs h) e
Reach-IsReached sendto mode netifs r h (waited {r = s} w t before e) =
    let reached = Reach-IsReached sendto mode netifs s h before in
    round-IsReached mode netifs s r (wait_round sendto mode w s) reached
      ((wait_round-Keeps (nat_rule reached.outside) sendto mode w).after s reached.runs.sound) e

-- In every state in which the loop waits, after a start on interfaces whose IPv4 addresses are bytes, the search
-- of the routing table for a 32-bit address gives the entry of the longest prefix that matches among the route
-- to host2 and the networks of the devices, and of equally long ones that of the later device.
pub Reach-longest_prefix_match :
    (sendto : Sendto) (mode : String) (netifs : List Interface) (r : Router) (addr : ℕ)
    → All HasByteAddresses netifs
    → Reach sendto mode netifs r
    → addr < 2 ^ 32
    → radix_tree_search r.iproute addr ≡ longest_prefix_match addr (routes_of r.net_device_list)
Reach-longest_prefix_match sendto mode netifs r addr h reach fits =
    let w = (Reach-IsReached sendto mode netifs r h reach).runs in
    let routes : All IsRoute (routes_of r.net_device_list) = (
      record { prefix_fits = omega arith; len_fits = omega arith; filled = refl },
      connected_routes-IsRoute 0 r.net_device_list w.fits,
    ) in
    let (t, built, found) =
      radix_tree_search-add_all (routes_of r.net_device_list) addr routes fits in
    let same : t ≡ r.iproute = cc in rw (← same) found
