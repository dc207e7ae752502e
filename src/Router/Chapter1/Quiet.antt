-- ===== src/Router/Chapter1/Quiet.antt =====
-- Chapter1.go: a device without an address answers nothing.
use go_software_router.Prelude.{
  ℕ, ◌-◌, ◌≤◌, ◌≡◌, refl, sym, ap, ◌∙◌, List, ◌++◌, some, Bool, true, false, not, ◌&&◌, ◌||◌, ◌⊎◌,
  Bool-cases, inl, inr, Result, ok, crash, fatal, ◌==◌, if◌then◌else◌, ltb, ltb-false, length, set,
  get_elem?, get_elem?-append_back, get_elem?-set_self, get_elem?_found, arith, slice_from, slice,
  ◌*◌,
}
use go_software_router.Wire.Total.{slice_from_total}
use go_software_router.Device.{NetDevice, EthernetHeader}
use go_software_router.Arp
use go_software_router.Arp.{ArpIpToEthernet, arp_operation_code_request}
use go_software_router.Router.State.{
  Router, Sendto, M, ◌>>=◌, ◌>>◌, lift, stop, deref, fetched, store, add_arp,
}
use go_software_router.Router.Output.{ether_type_ip, ether_type_arp, ethernet_output}
use go_software_router.Router.Arp.{arp_reply, arp_input, arp_request_arrives, arp_reply_arrives}
use go_software_router.Router.Input.{ip_input, bad_lengths, deliver}
use go_software_router.Ip.{parse_header}
use go_software_router.Router.Frames.{dispatch, ethernet_input, read_header, is_foreign}
use go_software_router.Router.Parsed.{read_header_total, parse_fields_total}
use go_software_router.Router.Run.{run, run_else, run_lift}

-- The program ends, not by a panic, or it goes on with a state that differs in the copies only.
pub data EndsQuiet (r : Router) : Result (Unit {0} × Router) → Type 0 where
  quiet : (copies : List NetDevice) → EndsQuiet r (ok (tt, record r { copies = copies }))
  gave_up : EndsQuiet r (crash fatal)

-- A step that leaves the state as it is.
abbrev Idle : M (Unit {0}) → Router → Type 0
Idle m r = m r ≡ ok (tt, r)

module _ (sendto : Sendto) (i : ℕ) (d : NetDevice) (no_address : d.ipdev.address ≡ 0) where
  deref_at :
      (r : Router)
      → get_elem? (r.net_device_list ++ r.copies) i ≡ some d
      → deref (some i) r ≡ ok (d, r)
  unfolding deref
  deref_at r at_i = ap (fetched r) at_i

  arp_request-Idle :
      (m : ArpIpToEthernet) (r : Router)
      → get_elem? (r.net_device_list ++ r.copies) i ≡ some d
      → Idle (arp_request_arrives sendto (some i) m) r
  unfolding arp_request_arrives
  arp_request-Idle m r at_i =
      let on : NetDevice → M (Unit {0}) = λ dev.
        if not (dev.ipdev.address == 0) && dev.ipdev.address == m.target_ip_addr
        then (add_arp (some i) m.sender_ip_addr m.sender_hardware_addr
            >> ethernet_output sendto (some i) m.sender_hardware_addr
                (Arp.to_packet (arp_reply dev m)) ether_type_arp)
        else stop in
      let skipped : Idle (on d) r = rw no_address refl in
      run (deref (some i)) on {r = r} (deref_at r at_i) ∙ skipped

  arp_reply-Idle :
      (m : ArpIpToEthernet) (r : Router)
      → get_elem? (r.net_device_list ++ r.copies) i ≡ some d
      → Idle (arp_reply_arrives (some i) m) r
  unfolding arp_reply_arrives
  arp_reply-Idle m r at_i =
      let on : NetDevice → M (Unit {0}) = λ dev.
        if not (dev.ipdev.address == 0)
        then add_arp (some i) m.sender_ip_addr m.sender_hardware_addr
        else stop in
      let skipped : Idle (on d) r = rw no_address refl in
      run (deref (some i)) on {r = r} (deref_at r at_i) ∙ skipped

  arp_input-Idle :
      (bs : List ℕ) (r : Router)
      → get_elem? (r.net_device_list ++ r.copies) i ≡ some d
      → Idle (arp_input sendto (some i) bs) r
  unfolding arp_input
  arp_input-Idle bs r at_i = elim (Bool-cases (ltb (length bs) 28)) [
    | inl short ↦ rw short refl
    | inr long ↦
        let (m, parsed) = parse_fields_total bs (ground arith) in
        rw long (run (lift (Arp.parse_fields bs)) _ (run_lift r parsed) ∙ by_type m)
  ]
    where
      by_code :
          (m : ArpIpToEthernet)
          → Idle
              (if m.opcode == arp_operation_code_request
                then arp_request_arrives sendto (some i) m
                else arp_reply_arrives (some i) m)
              r
      by_code m = elim (Bool-cases (m.opcode == arp_operation_code_request)) [
        | inl request ↦ rw request (arp_request-Idle m r at_i)
        | inr reply ↦ rw reply (arp_reply-Idle m r at_i)
      ]

      by_type :
          (m : ArpIpToEthernet)
          → Idle
              (if m.protocol_type == ether_type_ip
                then (if m.opcode == arp_operation_code_request
                    then arp_request_arrives sendto (some i) m
                    else arp_reply_arrives (some i) m)
                else stop)
              r
      by_type m = elim (Bool-cases (m.protocol_type == ether_type_ip)) [
        | inl over_ip ↦ rw over_ip (by_code m)
        | inr other ↦ rw other refl
      ]

  ip_input-Idle :
      (bs : List ℕ) (r : Router)
      → get_elem? (r.net_device_list ++ r.copies) i ≡ some d
      → Idle (ip_input sendto i bs) r
  unfolding ip_input
  ip_input-Idle bs r at_i =
      let on : NetDevice → M (Unit {0}) = λ dev.
        if dev.ipdev.address == 0 || ltb (length bs) 20
        then stop
        else (lift (parse_header bs) >>= λ ip.
            if bad_lengths sendto ip bs
            then stop
            else (lift (slice bs (ip.header_len * 4) ip.total_len) >>= λ payload.
                deliver sendto i dev ip payload)) in
      let skipped : Idle (on d) r = rw no_address refl in
      run (deref (some i)) on {r = r} (deref_at r at_i) ∙ skipped

  dispatch-Idle :
      (t : ℕ) (bs : List ℕ) (r : Router)
      → get_elem? (r.net_device_list ++ r.copies) i ≡ some d
      → Idle (dispatch sendto i t bs) r
  unfolding dispatch
  dispatch-Idle t bs r at_i = elim (Bool-cases (t == ether_type_arp)) [
    | inl arp ↦ rw arp (arp_input-Idle bs r at_i)
    | inr other ↦ rw other (elim (Bool-cases (t == ether_type_ip)) [
      | inl ip ↦ rw ip (ip_input-Idle bs r at_i)
      | inr unknown ↦ rw unknown refl
    ])
  ]

  -- The header of a frame goes to the copy.
  store_copy :
      (d' : NetDevice) (r : Router)
      → length r.net_device_list ≤ i
      → store i d' r ≡ ok (tt, record r { copies = set r.copies (i - length r.net_device_list) d' })
  unfolding store
  store_copy d' r behind = rw (ltb-false i (length r.net_device_list) behind) refl

  stored_copy :
      (d' : NetDevice) (r : Router)
      → get_elem? (r.net_device_list ++ r.copies) i ≡ some d
      → length r.net_device_list ≤ i
      → get_elem? (r.net_device_list ++ set r.copies (i - length r.net_device_list) d') i ≡ some d'
  stored_copy d' r at_i behind =
      let at_copy = sym (get_elem?-append_back r.net_device_list r.copies i behind) ∙ at_i in
      get_elem?-append_back r.net_device_list (set r.copies (i - length r.net_device_list) d') i
        behind
      ∙ get_elem?-set_self r.copies (i - length r.net_device_list) d'
          (get_elem?_found r.copies (i - length r.net_device_list) at_copy)

Idle-if : (b : Bool) (m : M (Unit {0})) (r : Router) → Idle m r → Idle (if b then stop else m) r
Idle-if true m r e = refl
Idle-if false m r e = e

-- A frame with its header and its body arrives at a device without an address, behind the list.
long_frame_lem :
    (sendto : Sendto) (i : ℕ) (d : NetDevice) (bs body : List ℕ) (h : EthernetHeader) (r : Router)
    → d.ipdev.address ≡ 0
    → get_elem? (r.net_device_list ++ r.copies) i ≡ some d
    → length r.net_device_list ≤ i
    → ltb (length bs) 14 ≡ false
    → read_header bs ≡ ok h
    → slice_from bs 14 ≡ ok body
    → ethernet_input sendto i bs r
      ≡ ok (
        tt,
        record r {
          copies = set r.copies (i - length r.net_device_list) (record d { ethe_header = h });
        },
      )
unfolding ethernet_input
long_frame_lem sendto i d bs body h r no_address at_i behind long read cut =
    let d' : NetDevice = record d { ethe_header = h } in
    let s : Router = record r { copies = set r.copies (i - length r.net_device_list) d' } in
    let deliver_body : EthernetHeader → M (Unit {0}) =
      λ g. lift (slice_from bs 14) >>= dispatch sendto i g.ether_type in
    let kept : NetDevice → EthernetHeader → M (Unit {0}) = λ dev g.
      store i (record dev { ethe_header = g })
      >> (if is_foreign dev g then stop else deliver_body g) in
    let handled : Idle (dispatch sendto i h.ether_type body) s =
      dispatch-Idle sendto i d' no_address h.ether_type body s
        (stored_copy sendto i d no_address d' r at_i behind) in
    let opened : Idle (deliver_body h) s =
      run (lift (slice_from bs 14)) (dispatch sendto i h.ether_type) {a = body} (run_lift s cut)
      ∙ handled in
    run_else stop (deref (some i) >>= λ dev. lift (read_header bs) >>= kept dev) r long
    ∙ (run (deref (some i)) (λ dev. lift (read_header bs) >>= kept dev) {r = r}
          (deref_at sendto i d no_address r at_i)
        ∙ (run (lift (read_header bs)) (kept d) {a = h} (run_lift r read)
            ∙ (run (store i d') (λ _. if is_foreign d h then stop else deliver_body h) {r = r}
                  (store_copy sendto i d no_address d' r behind)
                ∙ Idle-if (is_foreign d h) (deliver_body h) s opened)))

short_frame_lem :
    (sendto : Sendto) (i : ℕ) (bs : List ℕ) (r : Router)
    → ltb (length bs) 14 ≡ true
    → EndsQuiet r (ethernet_input sendto i bs r)
unfolding ethernet_input
short_frame_lem sendto i bs r short = rw short (quiet r.copies)

-- Any bytes that arrive there change at most its copy.
pub ethernet_input-EndsQuiet :
    (sendto : Sendto) (i : ℕ) (d : NetDevice) (bs : List ℕ) (r : Router)
    → d.ipdev.address ≡ 0
    → get_elem? (r.net_device_list ++ r.copies) i ≡ some d
    → length r.net_device_list ≤ i
    → EndsQuiet r (ethernet_input sendto i bs r)
ethernet_input-EndsQuiet sendto i d bs r no_address at_i behind =
    go (Bool-cases (ltb (length bs) 14))
  where
    go :
        (ltb (length bs) 14 ≡ true) ⊎ (ltb (length bs) 14 ≡ false)
        → EndsQuiet r (ethernet_input sendto i bs r)
    go (inl short) = short_frame_lem sendto i bs r short
    go (inr long) =
        let (h, read) = read_header_total bs (ground arith) in
        let (body, cut) = slice_from_total bs 14 (ground arith) in
        rw (long_frame_lem sendto i d bs body h r no_address at_i behind long read cut) (quiet _)
