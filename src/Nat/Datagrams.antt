-- ===== src/Nat/Datagrams.antt =====
-- nat.go, `natExec`: UDP datagrams byte for byte, out and back.
use go_software_router.Prelude.{
  ℕ, ◌-◌, ◌%◌, ◌^◌, ◌<◌, ◌≡◌, ◌≢◌, refl, sym, ap, ◌∙◌, arith, List, ◌++◌, Option, some, Result, ok,
  none, length, length-append, IsBytes, slice_from, slice_from-append, false, ltb, ltb-false, ◌>>=◌,
  if◌then◌else◌,
}
use go_software_router.Header.Udp.{UdpHeader}
use go_software_router.Header.Udp
use go_software_router.Header.Udp.Laws.{IsUdp, udp_round_trip}
use go_software_router.Ip.{IpHeader, ip_protocol_num_udp}
use go_software_router.Ip.Header.{IsIp}
use go_software_router.Nat.{
  NatEntry, NatEntryList, Slots, NatProtocolType, NatDirectionType, incoming, outgoing, first_port,
  slots_of, with_slots, local_entry, get_nat_entry_by_global,
}
use go_software_router.Nat.Slots.{IsNat, get_by_local_fields}
use go_software_router.Nat.Mapping.{by_global-local_entry, local_entry-IsNat, local_entry_self}
use go_software_router.Nat.L4.{L4, udp_part, parse_l4, serialise_l4, udp_segment}
use go_software_router.Nat.Exec.{Executed, translate, finish, nat_exec, with_tables}
use go_software_router.Nat.Segments.{IsValidSegment, udp_segment-IsValidSegment}
use go_software_router.Nat.Translate.{translate_in, translate_out, translate_round_trip}

-- A datagram with a checksum, whose fields fit, and an even number of bytes that fit behind it.
pub record IsDatagram (h : UdpHeader) (payload : List ℕ) : Type 0 where
  pub header : IsUdp h
  pub summed : h.check_sum ≢ 0
  pub bytes : IsBytes payload
  pub even : length payload % 2 ≡ 0
  pub short : length payload < 2 ^ 16 - 8

abbrev pub datagram : UdpHeader → ℕ → List ℕ → List ℕ
datagram h c payload = Udp.to_packet (record h { check_sum = c }) ++ payload

length-to_packet : (h : UdpHeader) → length (Udp.to_packet h) ≡ 8
unfolding Udp.to_packet
length-to_packet h = refl

serialise_udp :
    (ip : IpHeader) (h h' : UdpHeader) (payload segment : List ℕ)
    → udp_segment ip h' payload ≡ ok segment
    → serialise_l4 ip (Udp.to_packet h ++ payload) (udp_part h') ≡ ok (some segment)
unfolding serialise_l4
serialise_udp ip h h' payload segment built =
    let bs = Udp.to_packet h ++ payload in
    let long : ltb (length bs) 8 ≡ false =
      ltb-false (length bs) 8
        (omega (arith, length-append (Udp.to_packet h) payload, length-to_packet h)) in
    let cut : slice_from bs 8 ≡ ok payload =
      ap (slice_from bs) (sym (length-to_packet h)) ∙ slice_from-append (Udp.to_packet h) payload in
    ap
      (λ b.
        if b
        then ok none
        else (slice_from bs 8 >>= λ p. udp_segment ip h' p >>= λ bytes. ok (some bytes)))
      long
    ∙ (ap (λ (x : Result (List ℕ)). x >>= λ p. udp_segment ip h' p >>= λ bytes. ok (some bytes)) cut
        ∙ ap (λ (x : Result (List ℕ)). x >>= λ bytes. ok (some bytes)) built)

-- A datagram whose translation is known.
nat_exec_udp :
    (direction : NatDirectionType) (outside : ℕ) (ip ip' : IpHeader) (h h' : UdpHeader)
    (payload : List ℕ) (tables tables' : NatEntryList)
    → IsUdp h
    → IsIp ip'
    → IsDatagram h' payload
    → translate direction NatProtocolType.udp outside ip (udp_part h) tables
      ≡ (tables', some (ip', udp_part h'))
    → (c : ℕ) × (nat_exec ip
          (Udp.to_packet h ++ payload)
          outside
          (some tables)
          NatProtocolType.udp
          direction
        ≡ ok (some tables', some (ip', datagram h' c payload)))
      × IsValidSegment ip' ip_protocol_num_udp (datagram h' c payload)
unfolding nat_exec parse_l4 finish
nat_exec_udp direction outside ip ip' h h' payload tables tables' v v' w done =
    let (c, (built, filled, fits, valid)) =
      udp_segment-IsValidSegment ip' h' payload v' w.header w.summed w.bytes w.even w.short in
    let bs = Udp.to_packet h ++ payload in
    let through : Option L4 → Result Executed = λ parsed. elim parsed [
      | none ↦ ok (some tables, none)
      | some l4 ↦
          with_tables (some tables)
            (λ t. finish bs (translate direction NatProtocolType.udp outside ip l4 t))
    ] in
    let read : parse_l4 NatProtocolType.udp bs ≡ ok (some (udp_part h)) =
      ap (λ (x : Result UdpHeader). x >>= λ g. ok (some (udp_part g)))
        (udp_round_trip h payload v) in
    let written : finish bs (tables', some (ip', udp_part h'))
        ≡ ok (some tables', some (ip', datagram h' c payload)) =
      ap
        (λ (x : Result (Option (List ℕ))). x >>= λ bytes.
          ok (elim bytes [ none ↦ (some tables', none) | some b ↦ (some tables', some (ip', b)) ]))
        (serialise_udp ip' h h' payload (datagram h' c payload) built) in
    (
      c,
      ap (λ (x : Result (Option L4)). x >>= through) read ∙ (ap (finish bs) done ∙ written),
      valid,
    )

-- The outside address and the entry's port are what an outgoing datagram gets.
translated_out :
    (outside : ℕ) (ip : IpHeader) (h : UdpHeader) (tables : NatEntryList) (slots : Slots)
    (x : NatEntry)
    → IsNat outside (first_port NatProtocolType.udp) (slots_of NatProtocolType.udp tables)
    → local_entry NatProtocolType.udp outside ip.src_addr h.src_port
        (slots_of NatProtocolType.udp tables)
      ≡ some (slots, x)
    → translate outgoing NatProtocolType.udp outside ip (udp_part h) tables ≡ (
      with_slots NatProtocolType.udp tables slots,
      some (record ip { src_addr = outside }, udp_part (record h { src_port = x.global_port })),
    )
translated_out outside ip h tables slots x v done =
    let (found, global, from_ip, from_port, again) =
      by_global-local_entry NatProtocolType.udp outside ip.src_addr h.src_port
        (slots_of NatProtocolType.udp tables) slots x v done in
    let tables' = with_slots NatProtocolType.udp tables slots in
    let h' : UdpHeader = record h { src_port = x.global_port } in
    translate_out NatProtocolType.udp outside ip (udp_part h) tables slots x done
    ∙ ap (λ a. (tables', some (record ip { src_addr = a }, udp_part h'))) global

-- A datagram that goes out, with an entry for its endpoint.
pub nat_exec_out :
    (outside : ℕ) (ip : IpHeader) (h : UdpHeader) (payload : List ℕ) (tables : NatEntryList)
    (slots : Slots) (x : NatEntry)
    → IsNat outside (first_port NatProtocolType.udp) (slots_of NatProtocolType.udp tables)
    → local_entry NatProtocolType.udp outside ip.src_addr h.src_port
        (slots_of NatProtocolType.udp tables)
      ≡ some (slots, x)
    → outside < 2 ^ 32
    → IsIp ip
    → IsDatagram h payload
    → (c : ℕ) × (nat_exec ip
          (Udp.to_packet h ++ payload)
          outside
          (some tables)
          NatProtocolType.udp
          outgoing
        ≡ ok (
          some (with_slots NatProtocolType.udp tables slots),
          some (
            record ip { src_addr = outside },
            datagram (record h { src_port = x.global_port }) c payload,
          ),
        ))
      × IsValidSegment
          (record ip { src_addr = outside })
          ip_protocol_num_udp
          (datagram (record h { src_port = x.global_port }) c payload)
nat_exec_out outside ip h payload tables slots x v done fits vi w =
    let v' =
      local_entry-IsNat NatProtocolType.udp outside ip.src_addr h.src_port
        (slots_of NatProtocolType.udp tables) slots x v done in
    let self =
      local_entry_self NatProtocolType.udp outside ip.src_addr h.src_port
        (slots_of NatProtocolType.udp tables) slots x v done in
    let fields =
      get_by_local_fields outside (first_port NatProtocolType.udp) ip.src_addr h.src_port slots x
        v'.numbered self in
    let h' : UdpHeader = record h { src_port = x.global_port } in
    let sent_fits : IsDatagram h' payload = record {
      header = omega (arith, w.header, fields, v'.fits);
      summed = w.summed;
      bytes = w.bytes;
      even = w.even;
      short = w.short;
    } in
    nat_exec_udp outgoing outside ip (record ip { src_addr = outside }) h h' payload tables
      (with_slots NatProtocolType.udp tables slots) w.header (omega (arith, vi, fits)) sent_fits
      (translated_out outside ip h tables slots x v done)

-- A datagram that comes in, to the global endpoint of an entry.
pub nat_exec_in :
    (outside : ℕ) (back : IpHeader) (answer : UdpHeader) (content : List ℕ) (tables : NatEntryList)
    (x : NatEntry)
    → get_nat_entry_by_global back.dest_addr answer.dest_port (slots_of NatProtocolType.udp tables)
      ≡ some x
    → x.local_ip_addr < 2 ^ 32
    → x.local_port < 2 ^ 16
    → IsIp back
    → IsDatagram answer content
    → (c : ℕ) × (nat_exec back
          (Udp.to_packet answer ++ content)
          outside
          (some tables)
          NatProtocolType.udp
          incoming
        ≡ ok (
          some tables,
          some (
            record back { dest_addr = x.local_ip_addr },
            datagram (record answer { dest_port = x.local_port }) c content,
          ),
        ))
      × IsValidSegment
          (record back { dest_addr = x.local_ip_addr })
          ip_protocol_num_udp
          (datagram (record answer { dest_port = x.local_port }) c content)
nat_exec_in outside back answer content tables x found ip_fits port_fits vb u =
    let received_fits : IsDatagram (record answer { dest_port = x.local_port }) content = record {
      header = omega (arith, u.header, port_fits);
      summed = u.summed;
      bytes = u.bytes;
      even = u.even;
      short = u.short;
    } in
    nat_exec_udp incoming outside back (record back { dest_addr = x.local_ip_addr }) answer
      (record answer { dest_port = x.local_port }) content tables tables u.header
      (omega (arith, vb, ip_fits)) received_fits
      (translate_in NatProtocolType.udp outside back (udp_part answer) tables x found)

-- A datagram that goes out over well-formed tables, with an entry for its endpoint, leaves with the
-- outside address, the entry's port and some valid checksum; and a datagram that comes back to that address and port leaves
-- with the address and the port from which the first one came, and some valid checksum. Their payloads and other fields stay
-- as they are, and the tables after the first are those after the second. Both datagrams have a checksum, fields
-- that fit, and an even number of bytes that fit.
pub nat_exec_round_trip :
    (outside : ℕ) (ip back : IpHeader) (h answer : UdpHeader) (payload content : List ℕ)
    (tables : NatEntryList) (slots : Slots) (x : NatEntry)
    → IsNat outside (first_port NatProtocolType.udp) (slots_of NatProtocolType.udp tables)
    → local_entry NatProtocolType.udp outside ip.src_addr h.src_port
        (slots_of NatProtocolType.udp tables)
      ≡ some (slots, x)
    → outside < 2 ^ 32
    → IsIp ip
    → IsDatagram h payload
    → IsIp back
    → IsDatagram answer content
    → back.dest_addr ≡ outside
    → answer.dest_port ≡ x.global_port
    → (c c' : ℕ) × (let tables' = with_slots NatProtocolType.udp tables slots in
        let gone = record ip { src_addr = outside } in
        let sent = datagram (record h { src_port = x.global_port }) c payload in
        let returned = record back { dest_addr = ip.src_addr } in
        let received = datagram (record answer { dest_port = h.src_port }) c' content in
        (nat_exec ip (Udp.to_packet h ++ payload) outside (some tables) NatProtocolType.udp outgoing
          ≡ ok (some tables', some (gone, sent)))
        × IsValidSegment gone ip_protocol_num_udp sent
        × (nat_exec back
              (Udp.to_packet answer ++ content)
              outside
              (some tables')
              NatProtocolType.udp
              incoming
            ≡ ok (some tables', some (returned, received)))
        × IsValidSegment returned ip_protocol_num_udp received)
nat_exec_round_trip outside ip back h answer payload content tables slots x v done fits vi w vb u
      to_us at_port =
    let h' : UdpHeader = record h { src_port = x.global_port } in
    let tables' = with_slots NatProtocolType.udp tables slots in
    let back_in =
      (translate_round_trip NatProtocolType.udp outside ip (record ip { src_addr = outside }) back
        (udp_part h) (udp_part h') (udp_part answer) tables tables' v
        (translated_out outside ip h tables slots x v done) to_us at_port).1 in
    let received_fits : IsDatagram (record answer { dest_port = h.src_port }) content = record {
      header = omega (arith, w.header, u.header);
      summed = u.summed;
      bytes = u.bytes;
      even = u.even;
      short = u.short;
    } in
    let (c, first, valid) = nat_exec_out outside ip h payload tables slots x v done fits vi w in
    let (c', second, valid') =
      nat_exec_udp incoming outside back (record back { dest_addr = ip.src_addr }) answer
        (record answer { dest_port = h.src_port }) content tables' tables' u.header
        (omega (arith, vi, vb)) received_fits back_in in
    (c, c', (first, valid, second, valid'))
