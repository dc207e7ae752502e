-- ===== src/Router/State.antt =====
-- The program's globals `netDeviceList`, `ArpTableEntryList` and `iproute`, the NAT tables that devices point
-- to, and the frames handed to the kernel; and the monad of the handlers.
use go_software_router.Prelude.{
  ℕ, ◌-◌, List, ◌++◌, Bool, Option, none, some, Result, ok, crash, panic, fatal, get_elem?, set,
  length, ltb, if◌then◌else◌,
}
use go_software_router.Device.{NetDevice, Sockaddr, Mac}
use go_software_router.Arp.{ArpTableEntry, add_arp_table_entry, search_arp_table_entry}
use go_software_router.Radix.{RadixTreeNode}
use go_software_router.Nat.{NatEntryList}

-- The arguments of one `syscall.Sendto`.
pub record Frame : Type 0 where
  pub socket : ℕ
  pub sockaddr : Sockaddr
  pub bytes : List ℕ

-- `copies` holds devices that are in no global list: the loop variables of Chapter1.go. `sent` holds the
-- frames that the kernel took, the newest last.
pub record Router : Type 0 where
  pub net_device_list : List NetDevice
  pub copies : List NetDevice
  pub arp_table : List ArpTableEntry
  pub iproute : RadixTreeNode
  pub nat_tables : List NatEntryList
  pub sent : List Frame

-- Whether the kernel takes a frame, after the frames that it took before: a parameter of the model.
abbrev pub Sendto : Type 0
Sendto = List Frame → Frame → Bool

abbrev pub M : Type 0 → Type 0
M A = Router → Result (A × Router)

abbrev pub pure : {A : Type 0} → A → M A
pure a r = ok (a, r)

infixl 5 ◌>>=◌ ◌>>◌
abbrev pub ◌>>=◌ : {A B : Type 0} → M A → (A → M B) → M B
◌>>=◌ m f r = elim (m r) [ crash c ↦ crash c | ok (a, r') ↦ f a r' ]

abbrev pub ◌>>◌ : {A : Type 0} → M (Unit {0}) → M A → M A
first >> rest = first >>= λ done. rest

abbrev pub lift : {A : Type 0} → Result A → M A
lift (ok a) r = ok (a, r)
lift (crash c) r = crash c

abbrev pub log_fatal : {A : Type 0} → M A
log_fatal r = crash fatal

abbrev pub get : M Router
get r = ok (r, r)

-- `return` with nothing.
abbrev pub stop : M (Unit {0})
stop = pure tt

-- A device behind a pointer: first come the devices of the list, then the copies. Nil panics.
abbrev pub fetched : Router → Option NetDevice → Result (NetDevice × Router)
fetched r none = crash panic
fetched r (some d) = ok (d, r)

unfoldable pub deref : Option ℕ → M NetDevice
deref none r = crash panic
deref (some i) r = fetched r (get_elem? (r.net_device_list ++ r.copies) i)

unfoldable pub store : ℕ → NetDevice → M (Unit {0})
store i d r =
    if ltb i (length r.net_device_list)
    then ok (tt, record r { net_device_list = set r.net_device_list i d })
    else ok (tt, record r { copies = set r.copies (i - length r.net_device_list) d })

unfoldable pub add_arp : Option ℕ → ℕ → Mac → M (Unit {0})
add_arp dev ip mac r = ok (tt, record r { arp_table = add_arp_table_entry dev ip mac r.arp_table })

unfoldable pub search_arp : ℕ → M (Mac × Option ℕ)
search_arp ip r = ok (search_arp_table_entry ip r.arp_table, r)
