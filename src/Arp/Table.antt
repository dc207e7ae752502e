-- ===== src/Arp/Table.antt =====
-- arp.go, `addArpTableEntry` and `searchArpTableEntry`: the table as a map from addresses.
use go_software_router.Prelude.{
  ℕ, ◌≤◌, ◌+◌, ◌≡◌, refl, List, [], ◌∷◌, Option, arith, ◌==◌, if◌then◌else◌,
}
use go_software_router.Device.{Mac}
use go_software_router.Arp.{ArpTableEntry, add_arp_table_entry, search_arp_table_entry}

-- After an entry is added, a search for its address gives it, and a search for any other
-- address gives what it gave before.
pub search_arp_table_entry-add_arp_table_entry :
    (dev : Option ℕ) (ip : ℕ) (mac : Mac) (other : ℕ) (table : List ArpTableEntry)
    → search_arp_table_entry other (add_arp_table_entry dev ip mac table)
      ≡ (if ip == other then (mac, dev) else search_arp_table_entry other table)
unfolding search_arp_table_entry add_arp_table_entry
search_arp_table_entry-add_arp_table_entry dev ip mac other [] = refl
search_arp_table_entry-add_arp_table_entry dev ip mac other (e ∷ rest) =
    ground (arith, search_arp_table_entry-add_arp_table_entry dev ip mac other rest)

-- The number of entries of an address.
abbrev pub entries_of : ℕ → List ArpTableEntry → ℕ
entries_of ip [] = 0
entries_of ip (e ∷ rest) = (if e.ip_addr == ip then 1 else 0) + entries_of ip rest

-- No address has two entries.
abbrev pub HasUniqueAddresses : List ArpTableEntry → Type 0
HasUniqueAddresses table = (ip : ℕ) → entries_of ip table ≤ 1

entries_of-add :
    (dev : Option ℕ) (ip : ℕ) (mac : Mac) (other : ℕ) (table : List ArpTableEntry)
    → entries_of other (add_arp_table_entry dev ip mac table) ≡ (
        if ip == other
        then (if entries_of ip table == 0 then 1 else entries_of ip table)
        else entries_of other table)
unfolding add_arp_table_entry
entries_of-add dev ip mac other [] = ground arith
entries_of-add dev ip mac other (e ∷ rest) = ground (arith, entries_of-add dev ip mac other rest)

-- Adding an entry to a table without two entries for one address gives such a table.
pub add_arp_table_entry-HasUniqueAddresses :
    (dev : Option ℕ) (ip : ℕ) (mac : Mac) (table : List ArpTableEntry)
    → HasUniqueAddresses table
    → HasUniqueAddresses (add_arp_table_entry dev ip mac table)
add_arp_table_entry-HasUniqueAddresses dev ip mac table h other =
    ground (arith, entries_of-add dev ip mac other table, h ip, h other)
