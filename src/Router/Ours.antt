-- ===== src/Router/Ours.antt =====
-- ip.go, `ipInputToOurs`, and ICMP.go, `icmpInput`: packets for the router itself.
use go_software_router.Prelude.{
  ℕ, ◌+◌, ◌-◌, List, [], ◌∷◌, ◌++◌, none, some, Bool, true, false, not, ◌&&◌, ◌==◌, leb,
  if◌then◌else◌,
}
use go_software_router.Device.{NetDevice, is_empty_nat, is_empty_ip}
use go_software_router.Icmp.{icmp_type_echo_request}
use go_software_router.Icmp
use go_software_router.Ip.{IpHeader, ip_protocol_num_icmp}
use go_software_router.Ip
use go_software_router.Nat.{incoming}
use go_software_router.Router.State.{Sendto, M, pure, ◌>>=◌, ◌>>◌, lift, get, stop}
use go_software_router.Router.Output.{ip_packet_output, ip_packet_encapsulate_output}
use go_software_router.Router.Nat.{proto_of, run_nat}

-- The device translates for the address: it has a NAT whose outside address this is.
abbrev pub is_outside_of : NetDevice → ℕ → Bool
is_outside_of dev addr =
    not (is_empty_ip dev.ipdev)
    && (not (is_empty_nat dev.ipdev.natdev) && dev.ipdev.natdev.outside_ip_addr == addr)

module _ (sendto : Sendto) where
  -- An echo request is answered from the address that it was sent to; a short packet panics.
  unfoldable pub icmp_input : ℕ → ℕ → List ℕ → M (Unit {0})
  unfolding ip_packet_encapsulate_output Icmp.reply_packet
  icmp_input source_addr dest_addr packet = do
    msg ← lift (Icmp.parse_packet packet)
    if msg.icmp_header.icmp_type == icmp_type_echo_request
        then (lift (Icmp.reply_packet msg) >>= λ reply.
            ip_packet_encapsulate_output sendto source_addr dest_addr reply ip_protocol_num_icmp)
        else stop

  -- A translated packet goes on with its TTL lowered, through the device of the NAT.
  unfoldable pub forward_inside : ℕ → IpHeader → List ℕ → M (Unit {0})
  unfolding ip_packet_output
  forward_inside dev ip dest_packet =
      if leb ip.ttl 1
      then stop
      else (lift (Ip.to_packet (record ip { ttl = ip.ttl - 1 }) true) >>= λ built. get >>= λ r.
          ip_packet_output sendto (some dev) r.iproute ip.dest_addr (built.0 ++ dest_packet))

  -- The loop over the devices, from position `i` on. The result is whether the handler returned in it.
  unfoldable pub translate_inside : ℕ → List NetDevice → IpHeader → List ℕ → M Bool
  unfolding run_nat forward_inside
  translate_inside i [] ip packet = pure false
  translate_inside i (dev ∷ rest) ip packet =
      let next = translate_inside (i + 1) rest ip packet in
      if is_outside_of dev ip.dest_addr
      then elim (proto_of ip.protocol) [
        | none ↦ next
        | some proto ↦ run_nat dev.ipdev.natdev ip packet proto incoming >>= λ out. elim out [
          | none ↦ pure true
          | some (ip', bytes) ↦ forward_inside i ip' bytes >> pure true
        ]
      ]
      else next

  -- What is not translated goes to ICMP; UDP, TCP and other protocols are printed only.
  unfoldable pub ip_input_to_ours : IpHeader → List ℕ → M (Unit {0})
  unfolding translate_inside icmp_input
  ip_input_to_ours ip packet = do
    r ← get
    returned ← translate_inside 0 r.net_device_list ip packet
    if returned
        then stop
        else (if ip.protocol == ip_protocol_num_icmp
            then icmp_input ip.src_addr ip.dest_addr packet
            else stop)
