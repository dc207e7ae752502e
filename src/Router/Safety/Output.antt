-- ===== src/Router/Safety/Output.antt =====
-- ethernet.go, arp.go and ip.go: every handler that sends, or that receives ARP, as a step of the router.
use go_software_router.Prelude.{
  ℕ, List, [], ◌∷◌, ◌++◌, Option, Bool, true, false, refl, if◌then◌else◌,
}
use go_software_router.Device.{Mac, NetDevice}
use go_software_router.Arp.{ArpIpToEthernet}
use go_software_router.Radix.{IpRouteEntry, RadixTreeNode}
use go_software_router.Router.State.{Router, Frame, Sendto, pure}
use go_software_router.Router.Sound.{NatRule, IsSound}
use go_software_router.Router.Evolve.{
  configuration, Evolves, Evolves-refl, After, done, crashed, Keeps, Keeps-pure, Keeps-get,
  Keeps-log_fatal, Keeps-lift, Keeps-bind, Keeps-if, Keeps-option, Keeps-search_arp, Keeps-add_arp,
  Keeps-after_get,
}
use go_software_router.Router.Evolve.Devices.{Keeps-deref, Keeps-after_deref, Keeps-store}
use go_software_router.Router.Output.{
  net_device_transmit, ethernet_output, send_arp_request, ip_packet_output_to_nexthop,
  ip_packet_output_to_host, output_by_route, ip_packet_output, ip_packet_encapsulate_output,
}
use go_software_router.Router.Arp.{arp_reply_arrives, arp_request_arrives, arp_input}

pub ruleset keeping = (
  Keeps-pure, Keeps-get, Keeps-log_fatal, Keeps-lift, Keeps-bind, Keeps-if, Keeps-search_arp,
  Keeps-deref, Keeps-add_arp,
)

module _ (rule : NatRule) (sendto : Sendto) where
  pub transmit-Keeps :
      (dev : NetDevice) (bs : List ℕ) → Keeps rule (net_device_transmit sendto dev bs)
  unfolding net_device_transmit
  transmit-Keeps dev bs = record {
    after = λ r w.
        go r w
          (sendto r.sent (record { socket = dev.socket; sockaddr = dev.sockaddr; bytes = bs }));
  }
    where
      frame : Frame
      frame = record { socket = dev.socket; sockaddr = dev.sockaddr; bytes = bs }

      go :
          (r : Router)
          → IsSound rule r
          → (b : Bool)
          → After rule r
              (if b then pure true (record r { sent = r.sent ++ frame ∷ [] }) else pure false r)
      go r w true =
          done true _
            (record {
              same_routes = refl;
              same_devices = refl;
              same_copies = refl;
              new_frames = frame ∷ [];
              history = refl;
            })
            (record { unique = w.unique; tables = w.tables; listed = w.listed; copied = w.copied })
      go r w false = done false r (Evolves-refl r) w

  pub ethernet_output-Keeps :
      (p : Option ℕ) (m : Mac) (bs : List ℕ) (t : ℕ) → Keeps rule (ethernet_output sendto p m bs t)
  unfolding ethernet_output
  ethernet_output-Keeps p m bs t = search (keeping, transmit-Keeps)

  send_arp_request-Keeps : (p : Option ℕ) (ip : ℕ) → Keeps rule (send_arp_request sendto p ip)
  unfolding send_arp_request
  send_arp_request-Keeps p ip = search (keeping, ethernet_output-Keeps)

  nexthop-Keeps : (ip : ℕ) (bs : List ℕ) → Keeps rule (ip_packet_output_to_nexthop sendto ip bs)
  unfolding ip_packet_output_to_nexthop
  nexthop-Keeps ip bs = search (keeping, ethernet_output-Keeps, send_arp_request-Keeps) depth 8

  host-Keeps :
      (p : Option ℕ) (ip : ℕ) (bs : List ℕ) → Keeps rule (ip_packet_output_to_host sendto p ip bs)
  unfolding ip_packet_output_to_host
  host-Keeps p ip bs = search (keeping, ethernet_output-Keeps, send_arp_request-Keeps) depth 8

  pub output_by_route-Keeps :
      (e : IpRouteEntry) (p : Option ℕ) (ip : ℕ) (bs : List ℕ)
      → Keeps rule (output_by_route sendto e p ip bs)
  unfolding output_by_route
  output_by_route-Keeps e p ip bs = search (keeping, host-Keeps, nexthop-Keeps)

  pub ip_packet_output-Keeps :
      (p : Option ℕ) (t : RadixTreeNode) (ip : ℕ) (bs : List ℕ)
      → Keeps rule (ip_packet_output sendto p t ip bs)
  unfolding ip_packet_output
  ip_packet_output-Keeps p t ip bs = search (keeping, output_by_route-Keeps)

  pub encapsulate-Keeps :
      (d s : ℕ) (bs : List ℕ) (t : ℕ) → Keeps rule (ip_packet_encapsulate_output sendto d s bs t)
  unfolding ip_packet_encapsulate_output
  encapsulate-Keeps d s bs t = search (keeping, output_by_route-Keeps) depth 8

  arp_reply_arrives-Keeps :
      (p : Option ℕ) (m : ArpIpToEthernet) → Keeps rule (arp_reply_arrives p m)
  unfolding arp_reply_arrives
  arp_reply_arrives-Keeps p m = search keeping

  arp_request_arrives-Keeps :
      (p : Option ℕ) (m : ArpIpToEthernet) → Keeps rule (arp_request_arrives sendto p m)
  unfolding arp_request_arrives
  arp_request_arrives-Keeps p m = search (keeping, ethernet_output-Keeps) depth 8

  pub arp_input-Keeps : (p : Option ℕ) (bs : List ℕ) → Keeps rule (arp_input sendto p bs)
  unfolding arp_input
  arp_input-Keeps p bs =
      search (keeping, arp_reply_arrives-Keeps, arp_request_arrives-Keeps) depth 8
