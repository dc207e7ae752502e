-- ===== src/Router/Sound.antt =====
-- The invariant of the router's state: the ARP table, and the translation tables behind the devices.
use go_software_router.Prelude.{ℕ, ◌≡◌, List, Option, some, ok, All}
use go_software_router.Device.{NatDevice, NetDevice}
use go_software_router.Arp.Table.{HasUniqueAddresses}
use go_software_router.Ip.{IpHeader}
use go_software_router.Nat.{NatEntryList, NatProtocolType, NatDirectionType}
use go_software_router.Nat.Exec.{nat_exec}
use go_software_router.Router.State.{Router}

-- What may be asked of translation tables: a predicate of tables, one of the devices that use them, and the law
-- that `natExec` keeps the first for a device with the second.
pub record NatRule : Type 1 where
  pub Tables : NatEntryList → Type 0
  pub Uses : NatDevice → Type 0
  pub keeps_tables :
      (n : NatDevice) (k : ℕ) (ip : IpHeader) (packet : List ℕ) (t t' : NatEntryList)
      (proto : NatProtocolType) (direction : NatDirectionType) (out : Option (IpHeader × List ℕ))
      → Uses n
      → n.nat_entry ≡ some k
      → Tables t
      → nat_exec ip packet n.outside_ip_addr (some t) proto direction ≡ ok (some t', out)
      → Tables t'

abbrev pub DeviceUses : NatRule → NetDevice → Type 0
DeviceUses rule d = rule.Uses d.ipdev.natdev

-- No address has two ARP entries, and tables and devices are as the rule asks.
pub record IsSound (rule : NatRule) (r : Router) : Type 0 where
  pub unique : HasUniqueAddresses r.arp_table
  pub tables : All rule.Tables r.nat_tables
  pub listed : All (DeviceUses rule) r.net_device_list
  pub copied : All (DeviceUses rule) r.copies
