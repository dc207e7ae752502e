-- ===== src/Router/Input.antt =====
-- ip.go, `ipInput`: checks, the learned neighbour, delivery to the router, NAT, and forwarding.
use go_software_router.Prelude.{
  ℕ, ◌-◌, ◌*◌, List, [], ◌∷◌, ◌++◌, Option, none, some, Bool, true, false, ◌||◌, ◌==◌, ltb, leb,
  if◌then◌else◌, length, slice,
}
use go_software_router.Device.{NetDevice, mac_eq, zero_mac, is_empty_nat}
use go_software_router.Ip.{IpHeader, ip_address_limited_broadcast}
use go_software_router.Ip
use go_software_router.Nat.{outgoing}
use go_software_router.Radix.{is_empty_entry, radix_tree_search}
use go_software_router.Router.State.{
  Sendto, M, pure, ◌>>=◌, ◌>>◌, lift, get, stop, deref, add_arp, search_arp,
}
use go_software_router.Router.Output.{output_by_route}
use go_software_router.Router.Nat.{proto_of, run_nat}
use go_software_router.Router.Ours.{ip_input_to_ours}

-- The sender of a packet is added to the ARP table, unless it has an entry.
unfoldable pub learn_neighbour : ℕ → NetDevice → IpHeader → M (Unit {0})
unfolding search_arp add_arp
learn_neighbour i dev ip = do
  found ← search_arp ip.src_addr
  if mac_eq found.0 zero_mac then add_arp (some i) ip.src_addr dev.ethe_header.src_addr else stop

-- Some device has the address, or it is the broadcast address of one.
unfoldable pub is_own_address : ℕ → List NetDevice → Bool
is_own_address addr [] = false
is_own_address addr (dev ∷ rest) =
    dev.ipdev.address == addr || (dev.ipdev.broadcast == addr || is_own_address addr rest)

-- The outgoing translation of a device with a NAT: `none` drops the packet. A protocol that is not translated keeps
-- its header, and its translated packet is empty.
unfoldable pub nat_outgoing : NetDevice → IpHeader → List ℕ → M (Option (IpHeader × List ℕ))
unfolding run_nat
nat_outgoing dev ip payload =
    if is_empty_nat dev.ipdev.natdev
    then pure (some (ip, payload))
    else elim (proto_of ip.protocol) [
      | none ↦ pure (some (ip, []))
      | some proto ↦ run_nat dev.ipdev.natdev ip payload proto outgoing
    ]

module _ (sendto : Sendto) where
  -- From the route on: without one, or with a TTL of 1 or 0, the packet is dropped.
  unfoldable pub forward : IpHeader → List ℕ → M (Unit {0})
  unfolding output_by_route
  forward ip body = do
    r ← get
    let route = radix_tree_search r.iproute ip.dest_addr
    if is_empty_entry route || leb ip.ttl 1
        then stop
        else (lift (Ip.to_packet (record ip { ttl = ip.ttl - 1 }) true) >>= λ built.
            output_by_route sendto route route.netdev ip.dest_addr (built.0 ++ body))

  -- A packet that passed the checks.
  unfoldable pub deliver : ℕ → NetDevice → IpHeader → List ℕ → M (Unit {0})
  unfolding learn_neighbour is_own_address nat_outgoing forward ip_input_to_ours
  deliver i dev ip payload = do
    learn_neighbour i dev ip
    r ← get
    if ip.dest_addr == ip_address_limited_broadcast
          || (dev.ipdev.address == ip.dest_addr || is_own_address ip.dest_addr r.net_device_list)
        then ip_input_to_ours sendto ip payload
        else (nat_outgoing dev ip payload >>= λ out. elim out [
          | none ↦ stop
          | some (ip', body) ↦ forward ip' body
        ])

  -- The header's own lengths: at least five words, within the packet, and a total length between.
  abbrev pub bad_lengths : IpHeader → List ℕ → Bool
  bad_lengths ip packet =
      ltb ip.header_len 5
      || (ltb (length packet) (ip.header_len * 4)
          || (ltb ip.total_len (ip.header_len * 4) || ltb (length packet) ip.total_len))

  unfoldable pub ip_input : ℕ → List ℕ → M (Unit {0})
  unfolding deref deliver
  ip_input i packet = do
    dev ← deref (some i)
    if dev.ipdev.address == 0 || ltb (length packet) 20
        then stop
        else (lift (Ip.parse_header packet) >>= λ ip.
            if bad_lengths ip packet
            then stop
            else (lift (slice packet (ip.header_len * 4) ip.total_len) >>= λ payload.
                deliver i dev ip payload))
