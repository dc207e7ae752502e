-- ===== src/Router/Inside.antt =====
-- ip.go, `ipInputToOurs`: the device that translates an incoming packet, and the way on from there.
use go_software_router.Prelude.{
  ℕ, ◌+◌, ◌-◌, ◌<◌, ◌≡◌, ◌≢◌, refl, sym, ap, ◌∙◌, arith, List, [], ◌∷◌, ◌++◌, Option, none, some,
  true, false, ok, get_elem?, set, if◌then◌else◌,
}
use go_software_router.Device.{Mac, zero_mac, NetDevice, EthernetHeader}
use go_software_router.Arp.{search_arp_table_entry}
use go_software_router.Ip.{IpHeader, header_bytes, ip_address_limited_broadcast}
use go_software_router.Ip.Header.{IsIp}
use go_software_router.Checksum.{fold_checksum, sum_byte_arr}
use go_software_router.Radix.{is_empty_entry, radix_tree_search, connected}
use go_software_router.Router.State.{Router, Frame, Sendto, M, ◌>>=◌, get, pure, stop}
use go_software_router.Router.Output.{ether_type_ip}
use go_software_router.Router.Run.{frame_of, run, run_else}
use go_software_router.Ip.{ip_protocol_num_udp}
use go_software_router.Nat.{NatEntryList, NatProtocolType, incoming}
use go_software_router.Nat.Exec.{nat_exec}
use go_software_router.Router.Nat.{proto_of, run_nat}
use go_software_router.Prelude.{zero, suc, Bool, Bool-cases, inl, inr, leb}
use go_software_router.Ip
use go_software_router.Ip.Header.{to_packet_checksum}
use go_software_router.Router.State.{lift, ◌>>◌}
use go_software_router.Router.Output.{
  is_connected, output_by_route, ip_packet_output, ip_packet_output_to_host,
  ip_packet_output_to_nexthop,
}
use go_software_router.Router.Ours.{is_outside_of, translate_inside, forward_inside}
use go_software_router.Router.Run.{run_if, run_lift}
use go_software_router.Router.Onward.{host_lem, mac_neq}
use go_software_router.Router.Masquerade.{run_nat_lem}
use go_software_router.Ip.{ip_protocol_num_icmp}

-- The position of the first device that translates for an address.
abbrev later : Option ℕ → Option ℕ
later none = none
later (some n) = some (suc n)

unfoldable pub first_outside : ℕ → List NetDevice → Option ℕ
first_outside addr [] = none
first_outside addr (d ∷ l) = if is_outside_of d addr then some 0 else later (first_outside addr l)

pub first_outside-set :
    (addr : ℕ) (l : List NetDevice) (i : ℕ) (d : NetDevice) (h : EthernetHeader)
    → get_elem? l i ≡ some d
    → first_outside addr (set l i (record d { ethe_header = h })) ≡ first_outside addr l
unfolding first_outside
first_outside-set addr [] i d h e = refl
first_outside-set addr (x ∷ l) zero d h e =
    let same : x ≡ d = cc in
    ap (λ (y : NetDevice). if is_outside_of y addr then some 0 else later (first_outside addr l))
      (sym same)
first_outside-set addr (x ∷ l) (suc i) d h e =
    ap (λ p. if is_outside_of x addr then some 0 else later p) (first_outside-set addr l i d h e)

later_cases : (p : Option ℕ) (i : ℕ) → later p ≡ some i → (n : ℕ) × (p ≡ some n) × (i ≡ suc n)
later_cases none i e = cc
later_cases (some n) i e = (n, refl, cc)

first_if : (b : Bool) (p : Option ℕ) (i : ℕ) → b ≡ true → (if b then some 0 else p) ≡ some i → i ≡ 0
first_if true p i e h = cc
first_if false p i e h = cc

first_else :
    (b : Bool) (p : Option ℕ) (i : ℕ) → b ≡ false → (if b then some 0 else p) ≡ some i → p ≡ some i
first_else true p i e h = cc
first_else false p i e h = h

-- The loop of `ipInputToOurs` finds the first such device, and what its translation gives is forwarded from there.
pub translate_inside_hit :
    (sendto : Sendto) (n i k : ℕ) (l : List NetDevice) (d : NetDevice) (ip ip' : IpHeader)
    (body body' : List ℕ) (t t' : NatEntryList) (r : Router)
    → first_outside ip.dest_addr l ≡ some i
    → get_elem? l i ≡ some d
    → d.ipdev.natdev.nat_entry ≡ some k
    → get_elem? r.nat_tables k ≡ some t
    → ip.protocol ≡ ip_protocol_num_udp
    → nat_exec ip body d.ipdev.natdev.outside_ip_addr (some t) NatProtocolType.udp incoming
      ≡ ok (some t', some (ip', body'))
    → translate_inside sendto n l ip body r
      ≡ (forward_inside sendto (n + i) ip' body' >> pure true)
          (record r { nat_tables = set r.nat_tables k t' })
unfolding translate_inside first_outside
translate_inside_hit sendto n i k [] d ip ip' body body' t t' r first at_i entry at_k is_udp done =
    cc
translate_inside_hit sendto n i k (c ∷ l) d ip ip' body body' t t' r first at_i entry at_k is_udp
      done =
    elim (Bool-cases (is_outside_of c ip.dest_addr)) [
      | inl hit ↦ found_here hit (first_if _ (later (first_outside ip.dest_addr l)) i hit first)
      | inr miss ↦
          let (m, rest, next) =
            later_cases (first_outside ip.dest_addr l) i
              (first_else _ (later (first_outside ip.dest_addr l)) i miss first) in
          run_else _ (translate_inside sendto (n + 1) l ip body) r miss
          ∙ (translate_inside_hit sendto (n + 1) m k l d ip ip' body body' t t' r rest
                (ap (get_elem? (c ∷ l)) (sym next) ∙ at_i) entry at_k is_udp done
              ∙ ap
                  (λ p.
                    (forward_inside sendto p ip' body' >> pure true)
                      (record r { nat_tables = set r.nat_tables k t' }))
                  (omega (arith, next)))
    ]
  where
    by_udp : proto_of ip.protocol ≡ some NatProtocolType.udp
    by_udp = rw is_udp refl

    onward : Option (IpHeader × List ℕ) → M Bool
    onward out = elim out [
      | none ↦ pure true
      | some (h, b) ↦ forward_inside sendto n h b >> pure true
    ]

    by_proto : Option NatProtocolType → M Bool
    by_proto p = elim p [
      | none ↦ translate_inside sendto (n + 1) l ip body
      | some proto ↦ run_nat c.ipdev.natdev ip body proto incoming >>= onward
    ]

    found_here :
        is_outside_of c ip.dest_addr ≡ true
        → i ≡ 0
        → translate_inside sendto n (c ∷ l) ip body r
          ≡ (forward_inside sendto (n + i) ip' body' >> pure true)
              (record r { nat_tables = set r.nat_tables k t' })
    found_here hit zeroth =
        let same : c ≡ d = cc (ap (get_elem? (c ∷ l)) zeroth, at_i) in
        let translated =
          run_nat_lem d.ipdev.natdev k ip ip' body body' t t' NatProtocolType.udp incoming r entry
            at_k done in
        run_if (by_proto (proto_of ip.protocol)) (translate_inside sendto (n + 1) l ip body) r hit
        ∙ (ap (λ p. by_proto p r) by_udp
            ∙ (ap
                  (λ (y : NetDevice).
                    (run_nat y.ipdev.natdev ip body NatProtocolType.udp incoming >>= onward) r)
                  same
                ∙ (run (run_nat d.ipdev.natdev ip body NatProtocolType.udp incoming) onward
                      {a = some (ip', body')} {r = r} translated
                    ∙ ap
                        (λ p.
                          (forward_inside sendto p ip' body' >> pure true)
                            (record r { nat_tables = set r.nat_tables k t' }))
                        (omega (arith, zeroth)))))

-- A translated packet goes to its host through the device of the NAT.
pub forward_inside_lem :
    (sendto : Sendto) (i : ℕ) (d : NetDevice) (mac : Mac) (known : Option ℕ) (ip : IpHeader)
    (body : List ℕ) (r : Router)
    → IsIp ip
    → 1 < ip.ttl
    → is_empty_entry (radix_tree_search r.iproute ip.dest_addr) ≡ false
    → (radix_tree_search r.iproute ip.dest_addr).iptype ≡ connected
    → get_elem? r.net_device_list i ≡ some d
    → search_arp_table_entry ip.dest_addr r.arp_table ≡ (mac, known)
    → mac ≢ zero_mac
    → ((f : Frame) → sendto r.sent f ≡ true)
    → (c sum : ℕ) × (let head =
          header_bytes (record ip { ttl = ip.ttl - 1; header_checksum = c }) in
        (sum_byte_arr head ≡ ok sum)
        × (fold_checksum sum ≡ 0)
        × (forward_inside sendto i ip body r
            ≡ ok (
              tt,
              record r { sent = r.sent ++ frame_of d mac ether_type_ip (head ++ body) ∷ [] },
            )))
unfolding forward_inside ip_packet_output output_by_route
forward_inside_lem sendto i d mac known ip body r v alive routed is_conn at_i found real taken =
    let lowered : IpHeader = record ip { ttl = ip.ttl - 1 } in
    let (c, sum, built, fits, total, zero_sum) = to_packet_checksum lowered (omega (arith, v)) in
    let route = radix_tree_search r.iproute ip.dest_addr in
    let bs = header_bytes (record lowered { header_checksum = c }) ++ body in
    let send : List ℕ × IpHeader → M (Unit {0}) =
      λ b. get >>= λ q. ip_packet_output sendto (some i) q.iproute ip.dest_addr (b.0 ++ body) in
    let goes_on : leb ip.ttl 1 ≡ false = ground arith in
    let direct : is_connected route ≡ true = rw is_conn refl in
    (
      c,
      sum,
      (
        total,
        zero_sum,
        run_else stop (lift (Ip.to_packet lowered true) >>= send) r goes_on
            ∙ (run (lift (Ip.to_packet lowered true)) send (run_lift r built)
                ∙ (run_else stop (output_by_route sendto route (some i) ip.dest_addr bs) r routed
                    ∙ (run_if (ip_packet_output_to_host sendto (some i) ip.dest_addr bs)
                          (ip_packet_output_to_nexthop sendto route.nexthop bs) r direct
                        ∙ host_lem sendto i d mac known ip.dest_addr bs r at_i found
                            (mac_neq mac real) (taken (frame_of d mac ether_type_ip bs))))),
      ),
    )
