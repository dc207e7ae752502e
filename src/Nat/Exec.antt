-- ===== src/Nat/Exec.antt =====
-- nat.go, `natExec`: the translation of one packet. The tables behind the device's pointer are an argument,
-- `none` where it is nil, and come back changed also with an error.
use go_software_router.Prelude.{ℕ, List, Option, none, some, Result, ok, crash, panic, ◌>>=◌}
use go_software_router.Ip.{IpHeader}
use go_software_router.Nat.{
  NatEntryList, NatProtocolType, NatDirectionType, incoming, outgoing, slots_of, with_slots,
  get_nat_entry_by_global, local_entry,
}
use go_software_router.Nat.L4.{
  L4, parse_l4, src_port, dest_port, set_src_port, set_dest_port, serialise_l4,
}

-- The tables, and the new header with the new transport part; without the latter, an error.
abbrev pub Translation : Type 0
Translation = NatEntryList × Option (IpHeader × L4)

-- The lookup and the rewriting of addresses and ports.
unfoldable pub translate :
    NatDirectionType → NatProtocolType → ℕ → IpHeader → L4 → NatEntryList → Translation
translate incoming proto outside ip l4 tables =
    elim (get_nat_entry_by_global ip.dest_addr (dest_port l4) (slots_of proto tables)) [
      | none ↦ (tables, none)
      | some e ↦
          (tables, some (record ip { dest_addr = e.local_ip_addr }, set_dest_port e.local_port l4))
    ]
translate outgoing proto outside ip l4 tables =
    elim (local_entry proto outside ip.src_addr (src_port l4) (slots_of proto tables)) [
      | none ↦ (tables, none)
      | some (slots, e) ↦ (
        with_slots proto tables slots,
        some (record ip { src_addr = e.global_ip_addr }, set_src_port e.global_port l4),
      )
    ]

abbrev pub Executed : Type 0
Executed = Option NatEntryList × Option (IpHeader × List ℕ)

-- The bytes of a translation.
unfoldable pub finish : List ℕ → Translation → Result Executed
finish packet (tables, none) = ok (some tables, none)
finish packet (tables, some (ip, l4)) = serialise_l4 ip packet l4 >>= λ bytes.
    ok (elim bytes [ none ↦ (some tables, none) | some b ↦ (some tables, some (ip, b)) ])

abbrev pub with_tables {ℓ} :
    {A : Type ℓ} → Option NatEntryList → (NatEntryList → Result A) → Result A
with_tables none f = crash panic
with_tables (some t) f = f t

unfoldable pub nat_exec :
    IpHeader
    → List ℕ
    → ℕ
    → Option NatEntryList
    → NatProtocolType
    → NatDirectionType
    → Result Executed
unfolding parse_l4 translate finish
nat_exec ip packet outside tables proto direction = parse_l4 proto packet >>= λ parsed.
    elim parsed [
      | none ↦ ok (tables, none)
      | some l4 ↦
          with_tables tables (λ t. finish packet (translate direction proto outside ip l4 t))
    ]
