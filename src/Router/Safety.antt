-- ===== src/Router/Safety.antt =====
-- Chapter2.go: one event, as a step of the router.
pub mod Output
pub mod Input
use mathlib.Core.List.{append-nil}
use Prim.Native.String.{String}
use text.Mathlib.Text.{◌==◌ as str_eq}
use go_software_router.Prelude.Int.{pos, negsuc}
use go_software_router.Prelude.{
  ℕ, ◌+◌, All, ◌==◌, ltb, length, u32, List, [], ◌∷◌, ◌++◌, Option, none, some, Bool, true, false,
  ◌≡◌, Result, ok, Crash, map, crash, refl, sym, if◌then◌else◌,
}
use go_software_router.Device.{Mac, NetDevice, is_empty_nat}
use go_software_router.Arp.{ArpIpToEthernet}
use go_software_router.Arp.Table.{HasUniqueAddresses}
use go_software_router.Radix.{IpRouteEntry, RadixTreeNode}
use go_software_router.Ip.{IpHeader}
use go_software_router.Nat.{NatProtocolType, NatDirectionType, NatEntryList, incoming, outgoing}
use go_software_router.Nat.Exec.{Executed, nat_exec}
use go_software_router.Device.{NatDevice}
use go_software_router.Router.State.{Router, Frame, Sendto, pure, ◌>>◌, stop}
use go_software_router.Router.Sound.{NatRule, IsSound, DeviceUses}
use go_software_router.Router.Evolve.{
  configuration, Evolves, Evolves-refl, After, done, crashed, Keeps, Keeps-pure, Keeps-get,
  Keeps-log_fatal, Keeps-lift, Keeps-bind, Keeps-if, Keeps-option, Keeps-search_arp, Keeps-add_arp,
  Keeps-after_get,
}
use go_software_router.Router.Safety.Input.{event-Keeps}
use go_software_router.Router.Evolve.Devices.{Keeps-deref, Keeps-after_deref, Keeps-store}
use go_software_router.Router.Output.{
  net_device_transmit, ethernet_output, send_arp_request, ip_packet_output_to_nexthop,
  ip_packet_output_to_host, output_by_route, ip_packet_output, ip_packet_encapsulate_output,
}
use go_software_router.Router.Arp.{arp_reply_arrives, arp_request_arrives, arp_input}
use go_software_router.Router.Nat.{run_nat, tables_at, put_tables, proto_of}
use go_software_router.Router.Ours.{
  is_outside_of, icmp_input, forward_inside, translate_inside, ip_input_to_ours,
}
use go_software_router.Router.Input.{learn_neighbour, nat_outgoing, forward, deliver, ip_input}
use go_software_router.Router.Frames.{
  dispatch, ethernet_input, read_header, is_foreign, Received, bytes, failed, net_device_poll,
  poll_devices, handle_event,
}

-- What an event leaves of the router.
pub record Safe (r r' : Router) : Type 0 where
  pub same_routes : r'.iproute ≡ r.iproute
  pub same_devices : map configuration r'.net_device_list ≡ map configuration r.net_device_list
  pub unique : HasUniqueAddresses r'.arp_table
  pub new_frames : List Frame
  pub history : r'.sent ≡ r.sent ++ new_frames

-- The event ends the program, or leaves a safe state.
pub data Ends (r : Router) : Result (Unit {0} × Router) → Type 0 where
  handled : (r' : Router) → Safe r r' → Ends r (ok (tt, r'))
  stopped : (c : Crash) → Ends r (crash c)

-- A rule that asks nothing.
abbrev any_rule : NatRule
any_rule = record {
  Tables = λ t. Unit {0};
  Uses = λ n. Unit {0};
  keeps_tables = λ n k ip b t t' p d out u e h x. tt;
}

All-any : {A : Type 0} (xs : List A) → All (λ (x : A). Unit {0}) xs
All-any [] = tt
All-any (x ∷ xs) = (tt, All-any xs)

After-Ends : (r : Router) (x : Result (Unit {0} × Router)) → After any_rule r x → Ends r x
After-Ends r x (done tt r' e w) = handled r' (record {
  same_routes = e.same_routes;
  same_devices = e.same_devices;
  unique = w.unique;
  new_frames = e.new_frames;
  history = e.history;
})
After-Ends r x (crashed c) = stopped c

-- Whatever the sockets of a ready descriptor give, and whatever `sendto` answers, from an ARP table without two
-- entries for one address: either the event ends the program, or the router has the routes that it
-- had, devices that differ at most in the header of their last frame, again an ARP table without
-- two entries for one address, and a history of frames that extends the old one.
pub handle_event-Ends :
    (sendto : Sendto) (mode : String) (fd : ℕ) (received : ℕ → Received) (r : Router)
    → HasUniqueAddresses r.arp_table
    → Ends r (handle_event sendto mode fd received r)
handle_event-Ends sendto mode fd received r h = After-Ends r _ (
    (event-Keeps any_rule sendto mode fd received).after r (record {
      unique = h;
      tables = All-any r.nat_tables;
      listed = All-any r.net_device_list;
      copied = All-any r.copies;
    }))
