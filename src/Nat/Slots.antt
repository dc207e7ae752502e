-- ===== src/Nat/Slots.antt =====
-- The invariant of a NAT table, and what one new entry does to it.
use go_software_router.Prelude.{
  ℕ, zero, suc, ◌+◌, ◌≤◌, ◌<◌, ◌^◌, ◌≡◌, refl, ap, ◌⊎◌, inl, inr, [], ◌∷◌, Option, none, some,
  arith, length, ◌==◌, ◌&&◌, if◌then◌else◌, u16, replicate, length-replicate,
}
use go_software_router.Nat.{
  NatEntry, Slots, NatProtocolType, first_port, slots_of, new_tables, nat_global_port_min,
  nat_global_port_size, nat_icmp_id_size, create_from, get_nat_entry_by_global,
  get_nat_entry_by_local, assign,
}

-- From the slot of `port` on, an entry has the port of its slot and the outside address.
abbrev pub IsNumbered : ℕ → ℕ → Slots → Type 0
IsNumbered outside port [] = Unit
IsNumbered outside port (none ∷ rest) = IsNumbered outside (port + 1) rest
IsNumbered outside port (some e ∷ rest) =
    (e.global_port ≡ port) × (e.global_ip_addr ≡ outside) × IsNumbered outside (port + 1) rest

-- No local endpoint has two entries.
abbrev pub HasDistinctLocals : Slots → Type 0
HasDistinctLocals [] = Unit
HasDistinctLocals (none ∷ rest) = HasDistinctLocals rest
HasDistinctLocals (some e ∷ rest) =
    (get_nat_entry_by_local e.local_ip_addr e.local_port rest ≡ none) × HasDistinctLocals rest

pub record IsNat (outside port : ℕ) (slots : Slots) : Type 0 where
  pub numbered : IsNumbered outside port slots
  pub distinct : HasDistinctLocals slots
  pub fits : port + length slots ≤ 2 ^ 16

-- The entry that the first free slot from `port` on gets.
abbrev pub entry_for : ℕ → ℕ → ℕ → ℕ → NatEntry
entry_for outside ip lport port = record {
  global_ip_addr = outside;
  local_ip_addr = ip;
  global_port = u16 port;
  local_port = lport;
}

-- `createNatEntry` and the assignments behind it, in one step.
pub fill_first : (outside ip lport port : ℕ) → Slots → Option (Slots × NatEntry)
fill_first outside ip lport port [] = none
fill_first outside ip lport port (none ∷ rest) =
    some (some (entry_for outside ip lport port) ∷ rest, entry_for outside ip lport port)
fill_first outside ip lport port (some e ∷ rest) =
    elim (fill_first outside ip lport (port + 1) rest) [
      | none ↦ none
      | some (slots, entry) ↦ some (some e ∷ slots, entry)
    ]

abbrev pub assigned : ℕ → ℕ → ℕ → Option (Slots × ℕ × NatEntry) → Option (Slots × NatEntry)
assigned outside ip lport none = none
assigned outside ip lport (some (slots, i, e)) =
    let entry : NatEntry = record e {
      global_ip_addr = outside;
      local_ip_addr = ip;
      local_port = lport;
    } in
    some (assign i entry slots, entry)

pub create_from-fill_first :
    (outside ip lport port : ℕ) (slots : Slots)
    → assigned outside ip lport (create_from port slots) ≡ fill_first outside ip lport port slots
unfolding create_from fill_first
create_from-fill_first outside ip lport port [] = refl
create_from-fill_first outside ip lport port (none ∷ rest) = refl
create_from-fill_first outside ip lport port (some e ∷ rest) =
    ground (arith, create_from-fill_first outside ip lport (port + 1) rest)

-- The same as a relation: all slots before the first free one are taken.
pub data Fill (outside ip lport : ℕ) : ℕ → Slots → Slots → NatEntry → Type 0 where
  here :
      {port : ℕ} {rest : Slots} {e : NatEntry}
      → e ≡ entry_for outside ip lport port
      → Fill outside ip lport port (none ∷ rest) (some e ∷ rest) e
  there :
      {port : ℕ} {rest slots : Slots} {e v : NatEntry}
      → Fill outside ip lport (port + 1) rest slots e
      → Fill outside ip lport port (some v ∷ rest) (some v ∷ slots) e

pub IsFull : Slots → Type 0
IsFull [] = Unit
IsFull (none ∷ rest) = ⊥
IsFull (some e ∷ rest) = IsFull rest

-- Either the table is full, or a slot is filled.
pub fill_first-Fill :
    (outside ip lport port : ℕ) (slots : Slots)
    → (IsFull slots × (fill_first outside ip lport port slots ≡ none))
      ⊎ ((slots' : Slots) × (e : NatEntry) × (fill_first outside ip lport port slots
            ≡ some (slots', e))
          × Fill outside ip lport port slots slots' e)
unfolding fill_first IsFull
fill_first-Fill outside ip lport port [] = inl (tt, refl)
fill_first-Fill outside ip lport port (none ∷ rest) = inr (_, _, refl, here refl)
fill_first-Fill outside ip lport port (some v ∷ rest) =
    elim (fill_first-Fill outside ip lport (port + 1) rest) [
      | inl (full, e) ↦ inl (full, rw e)
      | inr (slots', x, e, f) ↦ inr (some v ∷ slots', x, rw e, there f)
    ]

module _ {outside ip lport : ℕ} where
  pub Fill-length :
      {port : ℕ} {slots slots' : Slots} {e : NatEntry}
      → Fill outside ip lport port slots slots' e
      → length slots' ≡ length slots
  Fill-length (here h) = refl
  Fill-length (there f) = ap suc (Fill-length f)

  -- The new entry has the outside address and the local endpoint.
  Fill-entry :
      {port : ℕ} {slots slots' : Slots} {e : NatEntry}
      → Fill outside ip lport port slots slots' e
      → (e.global_ip_addr ≡ outside) × (e.local_ip_addr ≡ ip) × (e.local_port ≡ lport)
  Fill-entry (here h) = ground arith
  Fill-entry (there f) = Fill-entry f

  -- It is found under its endpoint, and other endpoints find what they found before.
  pub Fill-local :
      {port : ℕ} {slots slots' : Slots} {e : NatEntry} (a b : ℕ)
      → Fill outside ip lport port slots slots' e
      → get_nat_entry_by_local ip lport slots ≡ none
      → get_nat_entry_by_local a b slots'
        ≡ (if a == ip && b == lport then some e else get_nat_entry_by_local a b slots)
  unfolding get_nat_entry_by_local
  Fill-local a b (here h) absent = ground arith
  Fill-local a b (there f) absent = ground (arith, Fill-local a b f)

  pub Fill-IsNumbered :
      {port : ℕ} {slots slots' : Slots} {e : NatEntry}
      → Fill outside ip lport port slots slots' e
      → port + length slots ≤ 2 ^ 16
      → IsNumbered outside port slots
      → IsNumbered outside port slots'
  Fill-IsNumbered (here h) fits n = (ground arith, ground arith, n)
  Fill-IsNumbered (there f) fits n = (n.0, n.1, Fill-IsNumbered f (omega arith) n.2)

  pub Fill-HasDistinctLocals :
      {port : ℕ} {slots slots' : Slots} {e : NatEntry}
      → Fill outside ip lport port slots slots' e
      → get_nat_entry_by_local ip lport slots ≡ none
      → HasDistinctLocals slots
      → HasDistinctLocals slots'
  unfolding get_nat_entry_by_local
  Fill-HasDistinctLocals (here h) absent d = (ground arith, d)
  Fill-HasDistinctLocals (there {v = v} f) absent d = (
    ground (arith, Fill-local v.local_ip_addr v.local_port f),
    Fill-HasDistinctLocals f (ground arith) d.1,
  )

-- In a numbered table the port of an entry is that of its slot, so the entry is found by its global
-- address and port.
pub get_by_global_of_local :
    (outside port a b : ℕ) (slots : Slots) (e : NatEntry)
    → IsNumbered outside port slots
    → get_nat_entry_by_local a b slots ≡ some e
    → (port ≤ e.global_port) × (get_nat_entry_by_global outside e.global_port slots ≡ some e)
unfolding get_nat_entry_by_local get_nat_entry_by_global
get_by_global_of_local outside port a b [] e n h = cc
get_by_global_of_local outside port a b (none ∷ rest) e n h =
    ground (arith, get_by_global_of_local outside (port + 1) a b rest e n h)
get_by_global_of_local outside port a b (some v ∷ rest) e n h =
    ground (arith, get_by_global_of_local outside (port + 1) a b rest e n.2)

-- An entry found by its local endpoint has that endpoint, the outside address, and a port of the table.
pub get_by_local_fields :
    (outside port a b : ℕ) (slots : Slots) (e : NatEntry)
    → IsNumbered outside port slots
    → get_nat_entry_by_local a b slots ≡ some e
    → (e.local_ip_addr ≡ a)
      × (e.local_port ≡ b)
      × (e.global_ip_addr ≡ outside)
      × (port ≤ e.global_port)
      × (e.global_port < port + length slots)
unfolding get_nat_entry_by_local
get_by_local_fields outside port a b [] e n h = cc
get_by_local_fields outside port a b (none ∷ rest) e n h =
    ground (arith, get_by_local_fields outside (port + 1) a b rest e n h)
get_by_local_fields outside port a b (some v ∷ rest) e n h =
    ground (arith, get_by_local_fields outside (port + 1) a b rest e n.2)

pub Fill-not-IsFull :
    {outside ip lport port : ℕ} {slots slots' : Slots} {e : NatEntry}
    → Fill outside ip lport port slots slots' e
    → IsFull slots
    → ⊥
unfolding IsFull
Fill-not-IsFull (here h) full = full
Fill-not-IsFull (there f) full = Fill-not-IsFull f full

-- A table with free slots only is well-formed.
replicate-IsNumbered : (outside port n : ℕ) → IsNumbered outside port (replicate n none)
replicate-IsNumbered outside port zero = tt
replicate-IsNumbered outside port (suc n) = replicate-IsNumbered outside (port + 1) n

replicate-HasDistinctLocals : (n : ℕ) → HasDistinctLocals (replicate n none)
replicate-HasDistinctLocals zero = tt
replicate-HasDistinctLocals (suc n) = replicate-HasDistinctLocals n

replicate-IsNat : (outside port n : ℕ) → port + n ≤ 2 ^ 16 → IsNat outside port (replicate n none)
replicate-IsNat outside port n h = record {
  numbered = replicate-IsNumbered outside port n;
  distinct = replicate-HasDistinctLocals n;
  fits = rw length-replicate h;
}

-- The tables that `configureIPNat` makes are well-formed, for every protocol and outside address.
pub new_tables-IsNat :
    (outside : ℕ) (proto : NatProtocolType)
    → IsNat outside (first_port proto) (slots_of proto new_tables)
unfolding new_tables
new_tables-IsNat outside NatProtocolType.tcp =
    replicate-IsNat outside nat_global_port_min nat_global_port_size (omega arith)
new_tables-IsNat outside NatProtocolType.udp =
    replicate-IsNat outside nat_global_port_min nat_global_port_size (omega arith)
new_tables-IsNat outside NatProtocolType.icmp =
    replicate-IsNat outside 0 nat_icmp_id_size (omega arith)
