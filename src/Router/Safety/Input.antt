-- ===== src/Router/Safety/Input.antt =====
-- ip.go, ICMP.go, nat.go, ethernet.go and net.go: the handlers of IP packets and of frames, as steps of the router.
use mathlib.Core.List.{append-nil}
use Prim.Native.String.{String}
use text.Mathlib.Text.{◌==◌ as str_eq}
use go_software_router.Prelude.Int.{pos, negsuc}
use go_software_router.Prelude.{
  ℕ, ◌+◌, ◌*◌, slice, ◌==◌, ltb, length, u32, set, get_elem?, set_missing, All, All-set,
  All-get_elem?, List, [], ◌∷◌, Option, none, some, true, false, ◌||◌, ◌≡◌, Result, ok, crash, refl,
  sym,
}
use go_software_router.Device.{NetDevice, is_empty_nat}
use go_software_router.Ip.{IpHeader, ip_protocol_num_icmp, parse_header}
use go_software_router.Nat.{NatProtocolType, NatDirectionType, NatEntryList, incoming, outgoing}
use go_software_router.Nat.Exec.{Executed, nat_exec}
use go_software_router.Device.{NatDevice}
use go_software_router.Router.State.{Router, Sendto, pure, ◌>>◌, stop}
use go_software_router.Router.Sound.{NatRule, IsSound, DeviceUses}
use go_software_router.Router.Evolve.{
  Evolves-refl, After, done, crashed, Keeps, Keeps-pure, Keeps-get, Keeps-log_fatal, Keeps-lift,
  Keeps-bind, Keeps-if, Keeps-option, Keeps-after_get,
}
use go_software_router.Router.Evolve.Devices.{Keeps-after_deref, Keeps-store}
use go_software_router.Router.Nat.{run_nat, tables_at, put_tables, proto_of}
use go_software_router.Router.Ours.{
  is_outside_of, icmp_input, forward_inside, translate_inside, ip_input_to_ours,
}
use go_software_router.Router.Input.{
  learn_neighbour, nat_outgoing, forward, deliver, bad_lengths, ip_input,
}
use go_software_router.Router.Frames.{
  dispatch, ethernet_input, read_header, is_foreign, Received, bytes, failed, net_device_poll,
  poll_devices, handle_event,
}
use go_software_router.Router.Safety.Output.{
  keeping, ip_packet_output-Keeps, output_by_route-Keeps, encapsulate-Keeps, arp_input-Keeps,
}

module _ (rule : NatRule) (sendto : Sendto) where
  -- With the tables of a device that the rule allows.
  exec-After :
      (d : NatDevice) (k : ℕ) (ip : IpHeader) (bs : List ℕ) (p : NatProtocolType)
      (t : NatDirectionType) (r : Router)
      → IsSound rule r
      → rule.Uses d
      → d.nat_entry ≡ some k
      → (x : Option NatEntryList) → get_elem? r.nat_tables k ≡ x
      → (y : Result Executed) → nat_exec ip bs d.outside_ip_addr x p t ≡ y
      → After rule r
          (elim y [ crash c ↦ crash c | ok (tables, out) ↦ ok (out, put_tables (some k) tables r) ])
  exec-After d k ip bs p t r w u e x at_k (crash c) y = crashed c
  exec-After d k ip bs p t r w u e x at_k (ok (none, out)) y = done out r (Evolves-refl r) w
  exec-After d k ip bs p t r w u e none at_k (ok (some t', out)) y =
      rw (set_missing r.nat_tables k t' at_k) (done out r (Evolves-refl r) w)
  exec-After d k ip bs p t r w u e (some t0) at_k (ok (some t', out)) y =
      let before = All-get_elem? rule.Tables r.nat_tables k t0 w.tables at_k in
      done out (record r { nat_tables = set r.nat_tables k t' })
        (record {
          same_routes = refl;
          same_devices = refl;
          same_copies = refl;
          new_frames = [];
          history = sym (append-nil r.sent);
        })
        (record {
          unique = w.unique;
          tables =
              All-set rule.Tables r.nat_tables k t' w.tables
                (rule.keeps_tables d k ip bs t0 t' p t out u e before y);
          listed = w.listed;
          copied = w.copied;
        })

  run_nat-Keeps :
      (d : NatDevice) (ip : IpHeader) (bs : List ℕ) (p : NatProtocolType) (t : NatDirectionType)
      → rule.Uses d
      → Keeps rule (run_nat d ip bs p t)
  unfolding run_nat
  run_nat-Keeps d ip bs p t u = record { after = λ r w. go r w d.nat_entry refl }
    where
      go :
          (r : Router)
          → IsSound rule r
          → (k : Option ℕ) → d.nat_entry ≡ k
          → After rule r (elim (nat_exec ip bs d.outside_ip_addr (tables_at k r) p t) [
            | crash c ↦ crash c
            | ok (tables, out) ↦ ok (out, put_tables k tables r)
          ])
      go r w none e = no_tables (nat_exec ip bs d.outside_ip_addr none p t)
        where
          no_tables :
              (x : Result Executed)
              → After rule r (elim x [
                | crash c ↦ crash c
                | ok (tables, out) ↦ ok (out, put_tables none tables r)
              ])
          no_tables (crash c) = crashed c
          no_tables (ok (tables, out)) = done out r (Evolves-refl r) w
      go r w (some k) e =
          exec-After d k ip bs p t r w u e (get_elem? r.nat_tables k) refl
            (nat_exec ip bs d.outside_ip_addr (get_elem? r.nat_tables k) p t) refl

  icmp_input-Keeps : (s d : ℕ) (bs : List ℕ) → Keeps rule (icmp_input sendto s d bs)
  unfolding icmp_input
  icmp_input-Keeps s d bs = search (keeping, encapsulate-Keeps) depth 8

  forward_inside-Keeps :
      (i : ℕ) (ip : IpHeader) (bs : List ℕ) → Keeps rule (forward_inside sendto i ip bs)
  unfolding forward_inside
  forward_inside-Keeps i ip bs = search (keeping, ip_packet_output-Keeps) depth 8

  forwarded-Keeps :
      (i : ℕ) (out : Option (IpHeader × List ℕ))
      → Keeps rule (elim out [
        | none ↦ pure true
        | some (ip', body) ↦ forward_inside sendto i ip' body >> pure true
      ])
  forwarded-Keeps i none = Keeps-pure true
  forwarded-Keeps i (some (ip', body)) =
      Keeps-bind (forward_inside-Keeps i ip' body) (λ _. Keeps-pure true)

  translate_inside-Keeps :
      (i : ℕ) (l : List NetDevice) (ip : IpHeader) (bs : List ℕ)
      → All (DeviceUses rule) l
      → Keeps rule (translate_inside sendto i l ip bs)
  unfolding translate_inside
  translate_inside-Keeps i [] ip bs u = Keeps-pure false
  translate_inside-Keeps i (d ∷ l) ip bs u =
      let next = translate_inside-Keeps (i + 1) l ip bs u.1 in
      Keeps-if (is_outside_of d ip.dest_addr)
        (Keeps-option (proto_of ip.protocol) next
          (λ p. Keeps-bind (run_nat-Keeps d.ipdev.natdev ip bs p incoming u.0) (forwarded-Keeps i)))
        next

  ours-Keeps : (ip : IpHeader) (bs : List ℕ) → Keeps rule (ip_input_to_ours sendto ip bs)
  unfolding ip_input_to_ours
  ours-Keeps ip bs = Keeps-after_get (λ r w.
      Keeps-bind (translate_inside-Keeps 0 r.net_device_list ip bs w.listed) (λ returned.
        Keeps-if returned (Keeps-pure tt) (
          Keeps-if (ip.protocol == ip_protocol_num_icmp)
            (icmp_input-Keeps ip.src_addr ip.dest_addr bs) (Keeps-pure tt))))

  learn_neighbour-Keeps :
      (i : ℕ) (d : NetDevice) (ip : IpHeader) → Keeps rule (learn_neighbour i d ip)
  unfolding learn_neighbour
  learn_neighbour-Keeps i d ip = search keeping

  nat_outgoing-Keeps :
      (d : NetDevice) (ip : IpHeader) (bs : List ℕ)
      → DeviceUses rule d
      → Keeps rule (nat_outgoing d ip bs)
  unfolding nat_outgoing
  nat_outgoing-Keeps d ip bs u = Keeps-if (is_empty_nat d.ipdev.natdev) (Keeps-pure _) (
      Keeps-option (proto_of ip.protocol) (Keeps-pure _)
        (λ p. run_nat-Keeps d.ipdev.natdev ip bs p outgoing u))

  forward-Keeps : (ip : IpHeader) (bs : List ℕ) → Keeps rule (forward sendto ip bs)
  unfolding forward
  forward-Keeps ip bs = search (keeping, output_by_route-Keeps) depth 8

  sent_on-Keeps :
      (out : Option (IpHeader × List ℕ))
      → Keeps rule (elim out [ none ↦ stop | some (ip', body) ↦ forward sendto ip' body ])
  sent_on-Keeps none = Keeps-pure tt
  sent_on-Keeps (some (ip', body)) = forward-Keeps ip' body

  deliver-Keeps :
      (i : ℕ) (d : NetDevice) (ip : IpHeader) (bs : List ℕ)
      → DeviceUses rule d
      → Keeps rule (deliver sendto i d ip bs)
  unfolding deliver
  deliver-Keeps i d ip bs u =
      search (keeping, learn_neighbour-Keeps, ours-Keeps, nat_outgoing-Keeps, sent_on-Keeps) depth 8

  ip_input-Keeps : (i : ℕ) (bs : List ℕ) → Keeps rule (ip_input sendto i bs)
  unfolding ip_input
  ip_input-Keeps i bs = Keeps-after_deref (some i) (λ d u.
      Keeps-if (d.ipdev.address == 0 || ltb (length bs) 20) (Keeps-pure tt) (
        Keeps-bind (Keeps-lift (parse_header bs)) (λ ip.
          Keeps-if (bad_lengths sendto ip bs) (Keeps-pure tt) (
            Keeps-bind (Keeps-lift (slice bs (ip.header_len * 4) ip.total_len))
              (λ body. deliver-Keeps i d ip body u)))))

  dispatch-Keeps : (i t : ℕ) (bs : List ℕ) → Keeps rule (dispatch sendto i t bs)
  unfolding dispatch
  dispatch-Keeps i t bs = search (keeping, arp_input-Keeps, ip_input-Keeps)

  ethernet_input-Keeps : (i : ℕ) (bs : List ℕ) → Keeps rule (ethernet_input sendto i bs)
  unfolding ethernet_input
  ethernet_input-Keeps i bs = Keeps-if (ltb (length bs) 14) (Keeps-pure tt) (
      Keeps-store i (read_header bs) _ (λ d h.
        Keeps-if (is_foreign d h) (Keeps-pure tt)
          (Keeps-bind (Keeps-lift _) (λ body. dispatch-Keeps i h.ether_type body))))

  poll-Keeps : (mode : String) (i : ℕ) (x : Received) → Keeps rule (net_device_poll sendto mode i x)
  unfolding net_device_poll
  poll-Keeps mode i (bytes b) =
      Keeps-if (str_eq mode "ch1") (Keeps-pure tt) (ethernet_input-Keeps i b)
  poll-Keeps mode i (failed (negsuc n)) = Keeps-if (n == 0) (Keeps-pure tt) Keeps-log_fatal
  poll-Keeps mode i (failed (pos n)) = Keeps-log_fatal

  poll_devices-Keeps :
      (mode : String) (fd : ℕ) (received : ℕ → Received) (i : ℕ) (l : List NetDevice)
      → Keeps rule (poll_devices sendto mode fd received i l)
  unfolding poll_devices
  poll_devices-Keeps mode fd received i [] = Keeps-pure tt
  poll_devices-Keeps mode fd received i (d ∷ l) =
      let next = poll_devices-Keeps mode fd received (i + 1) l in
      Keeps-if (fd == u32 d.socket) (Keeps-bind (poll-Keeps mode i (received i)) (λ _. next)) next

  pub event-Keeps :
      (mode : String) (fd : ℕ) (received : ℕ → Received)
      → Keeps rule (handle_event sendto mode fd received)
  unfolding handle_event
  event-Keeps mode fd received =
      Keeps-bind Keeps-get (λ r. poll_devices-Keeps mode fd received 0 r.net_device_list)
