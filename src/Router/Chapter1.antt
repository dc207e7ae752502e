-- ===== src/Router/Chapter1.antt =====
-- Chapter1.go and main.go: the program that only receives, on copies of its devices, and the choice between the
-- two programs.
pub mod Quiet
pub mod Rounds
use Prim.Native.String.{String}
use text.Mathlib.Text.{◌==◌ as str_eq}
use go_software_router.Prelude.{
  ℕ, ◌+◌, ◌≡◌, List, [], ◌∷◌, ◌++◌, ok, ◌==◌, if◌then◌else◌, length, u32,
}
use go_software_router.Wire.{htons}
use go_software_router.Device.{NetDevice, empty_device, set_mac_addr, is_ignore_interfaces}
use go_software_router.Router.State.{Router, Sendto, M, ◌>>=◌, ◌>>◌, stop, log_fatal}
use go_software_router.Router.Frames.{Received, net_device_poll}
use go_software_router.Router.Setup.{Interface, initial, start, eth_p_all}
use go_software_router.Router.Loop.{Event, Wait, interrupted, wait_failed, ready, wait_round}

-- The local list of Chapter 1: devices without an address, in no global list.
unfoldable pub open_devices : List Interface → List NetDevice
unfolding is_ignore_interfaces set_mac_addr htons
open_devices [] = []
open_devices (netif ∷ rest) =
    if is_ignore_interfaces netif.name
    then open_devices rest
    else record empty_device {
      name = netif.name;
      macaddr = set_mac_addr netif.hardware_addr;
      socket = netif.socket;
      sockaddr = record { protocol = htons eth_p_all; ifindex = netif.index };
    }
      ∷ open_devices rest

module _ (sendto : Sendto) where
  -- The loop variable is a new copy of the device, and its address is what is polled.
  unfoldable pub poll_copy : NetDevice → Received → M (Unit {0})
  unfolding net_device_poll
  poll_copy dev received r =
      net_device_poll sendto "recv" (length r.net_device_list + length r.copies) received
        (record r { copies = r.copies ++ dev ∷ [] })

  -- The inner loop for one ready descriptor.
  unfoldable pub poll_copies : ℕ → (ℕ → Received) → ℕ → List NetDevice → M (Unit {0})
  unfolding poll_copy
  poll_copies fd received i [] = stop
  poll_copies fd received i (dev ∷ rest) =
      let next = poll_copies fd received (i + 1) rest in
      if fd == u32 dev.socket then (poll_copy dev (received i) >> next) else next

  unfoldable pub copies_events : List NetDevice → List Event → M (Unit {0})
  unfolding poll_copies
  copies_events devices [] = stop
  copies_events devices (e ∷ rest) =
      poll_copies e.fd e.received 0 devices >> copies_events devices rest

  -- One round of the loop of Chapter 1, where an interrupted wait ends the program too.
  unfoldable pub copies_round : List NetDevice → Wait → M (Unit {0})
  unfolding copies_events
  copies_round devices interrupted = log_fatal
  copies_round devices wait_failed = log_fatal
  copies_round devices (ready events) = copies_events devices events

  -- `main` in a mode: what is done before its loop, and in a round of it.
  unfoldable pub main_start : String → List Interface → M (Unit {0})
  unfolding start
  main_start mode netifs = if str_eq mode "ch1" then stop else start mode netifs

  unfoldable pub main_round : String → List Interface → Wait → M (Unit {0})
  unfolding copies_round wait_round open_devices
  main_round mode netifs w =
      if str_eq mode "ch1" then copies_round (open_devices netifs) w else wait_round sendto mode w

  -- The states in which `main` waits.
  pub data Waits (mode : String) (netifs : List Interface) : Router → Type 0 where
    began : (r : Router) → main_start mode netifs initial ≡ ok (tt, r) → Waits mode netifs r
    went_on :
        {r : Router} (w : Wait) (s : Router)
        → Waits mode netifs r
        → main_round mode netifs w r ≡ ok (tt, s)
        → Waits mode netifs s
