-- ===== src/Tests/Runs.antt =====
-- The program at concrete inputs, from the start through rounds of its loops.
use go_software_router.Prelude.{◌≡◌, refl, arith, List, [], ◌∷◌, ok, crash, Result, All}
use go_software_router.Device.{NetDevice, mac_eq}
use go_software_router.Radix.{radix_tree_search, radix_tree_add}
use go_software_router.Radix.Table.{longest_prefix_match}
use go_software_router.Router.State.{Router}
use go_software_router.Router.Setup.{Interface, initial, start}
use go_software_router.Router.Frames.{bytes}
use go_software_router.Router.Loop.{Wait, ready, Reach, started, waited, wait_round}
use go_software_router.Router.Start.{HasByteAddresses}
use go_software_router.Router.Routes.{routes_of}
use go_software_router.Router.Reachable.{IsReached, Reach-IsReached, Reach-longest_prefix_match}
use go_software_router.Router.Chapter1.{
  Waits, began, went_on, main_round, main_start, copies_round, open_devices,
}
use go_software_router.Router.Chapter1.Quiet.{EndsQuiet}
use go_software_router.Router.Chapter1.Rounds.{copies_round-EndsQuiet, Waits-ch1}
use go_software_router.Tests.Data.{host_addr, takes_all, request_frame}

-- 192.168.1.1/24 and the loopback interface.
abbrev interfaces : List Interface
interfaces =
    record {
      name = "router1-host1";
      index = 2;
      hardware_addr = 2 ∷ 0 ∷ 0 ∷ 0 ∷ 0 ∷ 1 ∷ [];
      socket = 3;
      addrs = (192 ∷ 168 ∷ 1 ∷ 1 ∷ [], 255 ∷ 255 ∷ 255 ∷ 0 ∷ []) ∷ [];
    }
    ∷ record { name = "lo"; index = 1; hardware_addr = []; socket = 4; addrs = [] }
    ∷ []

interfaces-All : All HasByteAddresses interfaces
interfaces-All = (((omega arith), tt), (tt, tt))

abbrev state_of : Result (Unit {0} × Router) → Router
state_of (ok (u, r)) = r
state_of (crash c) = initial

abbrev first_state : Router
unfolding start
first_state = state_of (start "ch2" interfaces initial)

abbrev round : Wait
round = ready (record { fd = 3; received = λ i. bytes request_frame } ∷ [])

abbrev next_state : Router
unfolding wait_round start
next_state = state_of (wait_round takes_all "ch2" round first_state)

answered : Reach takes_all "ch2" interfaces next_state
unfolding wait_round start radix_tree_add mac_eq
answered = waited round next_state (started first_state refl) refl

Reach-IsReached_example : IsReached "ch2" interfaces next_state
Reach-IsReached_example =
    Reach-IsReached takes_all "ch2" interfaces next_state interfaces-All answered

Reach-longest_prefix_match_example :
    radix_tree_search next_state.iproute host_addr
    ≡ longest_prefix_match host_addr (routes_of next_state.net_device_list)
Reach-longest_prefix_match_example =
    Reach-longest_prefix_match takes_all "ch2" interfaces next_state host_addr interfaces-All
      answered (omega arith)

copies_round-EndsQuiet_example :
    EndsQuiet initial (copies_round takes_all (open_devices interfaces) round initial)
copies_round-EndsQuiet_example = copies_round-EndsQuiet takes_all interfaces round initial

abbrev ch1_state : Router
unfolding main_round
ch1_state = state_of (main_round takes_all "ch1" interfaces round initial)

received : Waits takes_all "ch1" interfaces ch1_state
unfolding main_round main_start mac_eq
received = went_on round ch1_state (began initial refl) refl

Waits-ch1_example : (copies : List NetDevice) × (ch1_state ≡ record initial { copies = copies })
Waits-ch1_example = Waits-ch1 takes_all interfaces ch1_state received
