-- ===== src/Router/Nat.antt =====
-- nat.go and ip.go: a call of `natExec` with the tables behind a device's pointer, and the protocols
-- that it is called for.
use go_software_router.Prelude.{
  ℕ, List, Option, none, some, ok, crash, ◌==◌, if◌then◌else◌, get_elem?, set,
}
use go_software_router.Device.{NatDevice}
use go_software_router.Ip.{IpHeader, ip_protocol_num_icmp, ip_protocol_num_tcp, ip_protocol_num_udp}
use go_software_router.Nat.{NatEntryList, NatProtocolType, NatDirectionType}
use go_software_router.Nat.Exec.{nat_exec}
use go_software_router.Router.State.{Router, M}

-- The cases of `switch ipheader.protocol`.
abbrev pub proto_of : ℕ → Option NatProtocolType
proto_of p =
    if p == ip_protocol_num_udp
    then some NatProtocolType.udp
    else if p == ip_protocol_num_tcp
    then some NatProtocolType.tcp
    else if p == ip_protocol_num_icmp
    then some NatProtocolType.icmp
    else none

abbrev pub tables_at : Option ℕ → Router → Option NatEntryList
tables_at none r = none
tables_at (some k) r = get_elem? r.nat_tables k

abbrev pub put_tables : Option ℕ → Option NatEntryList → Router → Router
put_tables (some k) (some t) r = record r { nat_tables = set r.nat_tables k t }
put_tables _ _ r = r

-- `none` is an error of `natExec`.
unfoldable pub run_nat :
    NatDevice
    → IpHeader
    → List ℕ
    → NatProtocolType
    → NatDirectionType
    → M (Option (IpHeader × List ℕ))
unfolding nat_exec
run_nat natdev ip packet proto direction r =
    elim (nat_exec ip packet natdev.outside_ip_addr (tables_at natdev.nat_entry r) proto
      direction) [
        | crash c ↦ crash c
        | ok (tables, out) ↦ ok (out, put_tables natdev.nat_entry tables r)
      ]
