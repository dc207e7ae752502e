-- ===== src/Nat.antt =====
-- nat.go: the NAT tables. Each table is a slice of `*natEntry`, where a nil slot is free; an entry is
-- reached through its slot alone, so a pointer to one is a position. `natExec` is in Nat.Exec.
pub mod Slots
pub mod Mapping
pub mod L4
pub mod Exec
pub mod Translate
pub mod Datagrams
pub mod Segments
pub mod Echo
use go_software_router.Prelude.{
  ℕ, zero, suc, ◌+◌, ◌-◌, List, [], ◌∷◌, Bool, ◌&&◌, Option, none, some, ◌==◌, if◌then◌else◌, u16,
  replicate,
}

pub record NatEntry : Type 0 where
  pub global_ip_addr : ℕ
  pub local_ip_addr : ℕ
  pub global_port : ℕ
  pub local_port : ℕ

abbrev pub Slots : Type 0
Slots = List (Option NatEntry)

pub record NatEntryList : Type 0 where
  pub tcp : Slots
  pub udp : Slots
  pub icmp : Slots

pub data NatProtocolType : Type 0 where
  tcp udp icmp : NatProtocolType

pub data NatDirectionType : Type 0 where
  outgoing incoming : NatDirectionType

abbrev pub nat_global_port_min : ℕ
nat_global_port_min = 20000

abbrev pub nat_global_port_max : ℕ
nat_global_port_max = 59999

abbrev pub nat_global_port_size : ℕ
nat_global_port_size = nat_global_port_max - nat_global_port_min + 1

abbrev pub nat_icmp_id_size : ℕ
nat_icmp_id_size = 0xffff

-- The tables that `configureIPNat` makes.
unfoldable pub new_tables : NatEntryList
new_tables = record {
  tcp = replicate nat_global_port_size none;
  udp = replicate nat_global_port_size none;
  icmp = replicate nat_icmp_id_size none;
}

-- `entry.udp`, `entry.tcp` or `entry.icmp`, by the protocol.
abbrev pub slots_of : NatProtocolType → NatEntryList → Slots
slots_of NatProtocolType.tcp t = t.tcp
slots_of NatProtocolType.udp t = t.udp
slots_of NatProtocolType.icmp t = t.icmp

abbrev pub with_slots : NatProtocolType → NatEntryList → Slots → NatEntryList
with_slots NatProtocolType.tcp t s = record t { tcp = s }
with_slots NatProtocolType.udp t s = record t { udp = s }
with_slots NatProtocolType.icmp t s = record t { icmp = s }

-- The port of slot 0: an ICMP identifier is the bare position.
abbrev pub first_port : NatProtocolType → ℕ
first_port NatProtocolType.tcp = nat_global_port_min
first_port NatProtocolType.udp = nat_global_port_min
first_port NatProtocolType.icmp = 0

-- `&natEntry{globalPort: uint16(port)}`.
abbrev pub fresh_entry : ℕ → NatEntry
fresh_entry port = record {
  global_ip_addr = 0;
  local_ip_addr = 0;
  global_port = u16 port;
  local_port = 0;
}

-- The loop of `createNatEntry`, at the slot of `port`: the first free slot gets an entry. The result
-- has the new slots, and the pointer with what it points to.
unfoldable pub create_from : ℕ → Slots → Option (Slots × ℕ × NatEntry)
create_from port [] = none
create_from port (none ∷ rest) = some (some (fresh_entry port) ∷ rest, 0, fresh_entry port)
create_from port (some e ∷ rest) = elim (create_from (port + 1) rest) [
  | none ↦ none
  | some (slots, at_slot, entry) ↦ some (some e ∷ slots, suc at_slot, entry)
]

unfoldable pub create_nat_entry : NatProtocolType → Slots → Option (Slots × ℕ × NatEntry)
unfolding create_from
create_nat_entry proto slots = create_from (first_port proto) slots

-- The first entry with the global address and port.
unfoldable pub get_nat_entry_by_global : ℕ → ℕ → Slots → Option NatEntry
get_nat_entry_by_global ipaddr port [] = none
get_nat_entry_by_global ipaddr port (none ∷ rest) = get_nat_entry_by_global ipaddr port rest
get_nat_entry_by_global ipaddr port (some v ∷ rest) =
    if ipaddr == v.global_ip_addr && port == v.global_port
    then some v
    else get_nat_entry_by_global ipaddr port rest

-- The first entry with the local address and port.
unfoldable pub get_nat_entry_by_local : ℕ → ℕ → Slots → Option NatEntry
get_nat_entry_by_local ipaddr port [] = none
get_nat_entry_by_local ipaddr port (none ∷ rest) = get_nat_entry_by_local ipaddr port rest
get_nat_entry_by_local ipaddr port (some v ∷ rest) =
    if ipaddr == v.local_ip_addr && port == v.local_port
    then some v
    else get_nat_entry_by_local ipaddr port rest

-- An assignment through the pointer to a slot's entry.
abbrev pub assign : ℕ → NatEntry → Slots → Slots
assign i e [] = []
assign zero e (s ∷ rest) = some e ∷ rest
assign (suc i) e (s ∷ rest) = s ∷ assign i e rest

-- The lookup of `natExec` for an outgoing packet: the entry of the local endpoint, or a new one, which
-- gets the outside address and the endpoint. `none` is a full table.
unfoldable pub local_entry : NatProtocolType → ℕ → ℕ → ℕ → Slots → Option (Slots × NatEntry)
unfolding get_nat_entry_by_local create_nat_entry
local_entry proto outside src_addr src_port slots =
    elim (get_nat_entry_by_local src_addr src_port slots) [
      | some e ↦ some (slots, e)
      | none ↦ elim (create_nat_entry proto slots) [
        | none ↦ none
        | some (slots', at_slot, created) ↦
            let entry : NatEntry = record created {
              global_ip_addr = outside;
              local_ip_addr = src_addr;
              local_port = src_port;
            } in
            some (assign at_slot entry slots', entry)
      ]
    ]
