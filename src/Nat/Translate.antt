-- ===== src/Nat/Translate.antt =====
-- nat.go, `natExec`: what the translation of a packet does to the tables, and how a reply undoes it.
use go_software_router.Prelude.{
  ℕ, ◌≡◌, refl, sym, ap, ◌∙◌, List, Option, none, some, Option-cases, inl, inr, ok, Result, crash,
  Crash, ◌>>=◌,
}
use go_software_router.Ip.{IpHeader}
use go_software_router.Nat.{
  NatEntry, NatEntryList, NatProtocolType, NatDirectionType, incoming, outgoing, first_port,
  slots_of, with_slots, get_nat_entry_by_global, local_entry, Slots,
}
use go_software_router.Nat.Slots.{IsNat}
use go_software_router.Nat.Mapping.{local_entry-IsNat, by_global-local_entry}
use go_software_router.Nat.L4.{
  L4, udp_part, tcp_part, icmp_part, parse_l4, src_port, dest_port, set_src_port, set_dest_port,
  serialise_l4,
}
use go_software_router.Nat.Exec.{translate, finish, nat_exec, Executed}

-- Each of the three tables is well-formed.
abbrev pub AreNat : ℕ → NatEntryList → Type 0
AreNat outside tables = (p : NatProtocolType) → IsNat outside (first_port p) (slots_of p tables)

with_slots-AreNat :
    (outside : ℕ) (proto : NatProtocolType) (tables : NatEntryList) (slots : Slots)
    → AreNat outside tables
    → IsNat outside (first_port proto) slots
    → AreNat outside (with_slots proto tables slots)
with_slots-AreNat outside NatProtocolType.tcp tables slots v w NatProtocolType.tcp = w
with_slots-AreNat outside NatProtocolType.tcp tables slots v w NatProtocolType.udp =
    v NatProtocolType.udp
with_slots-AreNat outside NatProtocolType.tcp tables slots v w NatProtocolType.icmp =
    v NatProtocolType.icmp
with_slots-AreNat outside NatProtocolType.udp tables slots v w NatProtocolType.tcp =
    v NatProtocolType.tcp
with_slots-AreNat outside NatProtocolType.udp tables slots v w NatProtocolType.udp = w
with_slots-AreNat outside NatProtocolType.udp tables slots v w NatProtocolType.icmp =
    v NatProtocolType.icmp
with_slots-AreNat outside NatProtocolType.icmp tables slots v w NatProtocolType.tcp =
    v NatProtocolType.tcp
with_slots-AreNat outside NatProtocolType.icmp tables slots v w NatProtocolType.udp =
    v NatProtocolType.udp
with_slots-AreNat outside NatProtocolType.icmp tables slots v w NatProtocolType.icmp = w

src_port-set_src_port : (p : ℕ) (l4 : L4) → src_port (set_src_port p l4) ≡ p
src_port-set_src_port p (udp_part h) = refl
src_port-set_src_port p (tcp_part h) = refl
src_port-set_src_port p (icmp_part m) = refl

slots_of-with_slots :
    (proto : NatProtocolType) (t : NatEntryList) (s : Slots)
    → slots_of proto (with_slots proto t s) ≡ s
slots_of-with_slots NatProtocolType.tcp t s = refl
slots_of-with_slots NatProtocolType.udp t s = refl
slots_of-with_slots NatProtocolType.icmp t s = refl

translate-AreNat :
    (direction : NatDirectionType) (proto : NatProtocolType) (outside : ℕ) (ip : IpHeader) (l4 : L4)
    (tables : NatEntryList)
    → AreNat outside tables
    → AreNat outside (translate direction proto outside ip l4 tables).0
unfolding translate
translate-AreNat incoming proto outside ip l4 tables v =
    elim (Option-cases
      (get_nat_entry_by_global ip.dest_addr (dest_port l4) (slots_of proto tables))) [
        | inl e ↦ rw (e, translate) v
        | inr (x, e) ↦ rw (e, translate) v
      ]
translate-AreNat outgoing proto outside ip l4 tables v =
    elim (Option-cases
      (local_entry proto outside ip.src_addr (src_port l4) (slots_of proto tables))) [
        | inl e ↦ rw (e, translate) v
        | inr ((slots, x), e) ↦
            rw (e, translate)
              (with_slots-AreNat outside proto tables slots v (
                local_entry-IsNat proto outside ip.src_addr (src_port l4) (slots_of proto tables)
                  slots x (v proto) e))
      ]

pub translate_out :
    (proto : NatProtocolType) (outside : ℕ) (ip : IpHeader) (l4 : L4) (tables : NatEntryList)
    (slots : Slots) (x : NatEntry)
    → local_entry proto outside ip.src_addr (src_port l4) (slots_of proto tables) ≡ some (slots, x)
    → translate outgoing proto outside ip l4 tables ≡ (
      with_slots proto tables slots,
      some (record ip { src_addr = x.global_ip_addr }, set_src_port x.global_port l4),
    )
unfolding translate
translate_out proto outside ip l4 tables slots x e = rw (e, translate)

translate_refused :
    (proto : NatProtocolType) (outside : ℕ) (ip : IpHeader) (l4 : L4) (tables : NatEntryList)
    → local_entry proto outside ip.src_addr (src_port l4) (slots_of proto tables) ≡ none
    → translate outgoing proto outside ip l4 tables ≡ (tables, none)
unfolding translate
translate_refused proto outside ip l4 tables e = rw (e, translate)

pub translate_in :
    (proto : NatProtocolType) (outside : ℕ) (ip : IpHeader) (l4 : L4) (tables : NatEntryList)
    (x : NatEntry)
    → get_nat_entry_by_global ip.dest_addr (dest_port l4) (slots_of proto tables) ≡ some x
    → translate incoming proto outside ip l4 tables
      ≡ (tables, some (record ip { dest_addr = x.local_ip_addr }, set_dest_port x.local_port l4))
unfolding translate
translate_in proto outside ip l4 tables x e = rw (e, translate)

-- When a packet that goes out from well-formed tables is translated, it leaves with the outside address; and a
-- packet that comes back to that address, at the port (for ICMP the identifier) with which the
-- first one left, is sent on to the address and the port from which the first one came,
-- changed in nothing else, and leaves the tables as they are.
pub translate_round_trip :
    (proto : NatProtocolType) (outside : ℕ) (ip ip' back : IpHeader) (l4 l4' answer : L4)
    (tables tables' : NatEntryList)
    → IsNat outside (first_port proto) (slots_of proto tables)
    → translate outgoing proto outside ip l4 tables ≡ (tables', some (ip', l4'))
    → back.dest_addr ≡ ip'.src_addr
    → dest_port answer ≡ src_port l4'
    → (ip'.src_addr ≡ outside)
      × (translate incoming proto outside back answer tables' ≡ (
        tables',
        some (record back { dest_addr = ip.src_addr }, set_dest_port (src_port l4) answer),
      ))
translate_round_trip proto outside ip ip' back l4 l4' answer tables tables' v out to at_port =
    elim (Option-cases
      (local_entry proto outside ip.src_addr (src_port l4) (slots_of proto tables))) [
        | inl e ↦ absurd (cc (translate_refused proto outside ip l4 tables e, out))
        | inr ((slots, x), e) ↦
            let gone = translate_out proto outside ip l4 tables slots x e in
            let facts =
              by_global-local_entry proto outside ip.src_addr (src_port l4) (slots_of proto tables)
                slots x v e in
            let at_tables : with_slots proto tables slots ≡ tables' = cc in
            let at_header : record ip { src_addr = x.global_ip_addr } ≡ ip' = cc in
            let at_l4 : set_src_port x.global_port l4 ≡ l4' = cc in
            let source : ip'.src_addr ≡ outside =
              sym (ap (λ (h : IpHeader). h.src_addr) at_header) ∙ facts.1 in
            let port : dest_port answer ≡ x.global_port =
              at_port ∙ (sym (ap src_port at_l4) ∙ src_port-set_src_port x.global_port l4) in
            let slots_now : slots_of proto tables' ≡ slots =
              sym (ap (slots_of proto) at_tables) ∙ slots_of-with_slots proto tables slots in
            let known : get_nat_entry_by_global back.dest_addr (dest_port answer)
                  (slots_of proto tables')
                ≡ some x =
              rw (to, source, port, slots_now) facts.0 in
            (
              source,
              rw (sym facts.2, sym facts.3)
                  (translate_in proto outside back answer tables' x known),
            )
      ]

-- A panic, or tables that are all well-formed.
pub data Translated (outside : ℕ) : Result Executed → Type 0 where
  panicked : (c : Crash) → Translated outside (crash c)
  kept :
      (tables : NatEntryList) (out : Option (IpHeader × List ℕ))
      → AreNat outside tables
      → Translated outside (ok (some tables, out))

finish-Translated :
    (outside : ℕ) (packet : List ℕ) (t : NatEntryList) (out : Option (IpHeader × L4))
    → AreNat outside t
    → Translated outside (finish packet (t, out))
unfolding finish
finish-Translated outside packet t none v = kept t none v
finish-Translated outside packet t (some (ip, l4)) v = go (serialise_l4 ip packet l4)
  where
    go :
        (x : Result (Option (List ℕ)))
        → Translated outside (
            x >>= λ bytes.
            ok (elim bytes [ none ↦ (some t, none) | some b ↦ (some t, some (ip, b)) ]))
    go (crash c) = panicked c
    go (ok none) = kept t none v
    go (ok (some b)) = kept t (some (ip, b)) v

-- Whatever the packet, in either direction and for each protocol, `natExec` on three well-formed tables panics, or
-- returns, with a translated packet or an error, and leaves the three tables well-formed.
pub nat_exec-Translated :
    (ip : IpHeader) (packet : List ℕ) (outside : ℕ) (tables : NatEntryList)
    (proto : NatProtocolType) (direction : NatDirectionType)
    → AreNat outside tables
    → Translated outside (nat_exec ip packet outside (some tables) proto direction)
unfolding nat_exec
nat_exec-Translated ip packet outside tables proto direction v = go (parse_l4 proto packet)
  where
    go :
        (x : Result (Option L4))
        → Translated outside (
            x >>= λ parsed. elim parsed [
              | none ↦ ok (some tables, none)
              | some l4 ↦ finish packet (translate direction proto outside ip l4 tables)
            ])
    go (crash c) = panicked c
    go (ok none) = kept tables none v
    go (ok (some l4)) =
        let next = translate direction proto outside ip l4 tables in
        finish-Translated outside packet next.0 next.1
          (translate-AreNat direction proto outside ip l4 tables v)
