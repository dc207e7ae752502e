-- ===== src/Router/Start/Configure.antt =====
-- nat.go, `configureIPNat`: the tables that it makes, and the rule that translation keeps for them.
use Prim.Native.String.{String}
use text.Mathlib.Text.{◌==◌ as str_eq}
use go_software_router.Prelude.{
  ℕ, suc, ◌≡◌, refl, ap, ◌⊎◌, inl, inr, List, [], ◌∷◌, ◌++◌, Option, none, some, Bool-cases, Result,
  ok, All, All-append,
}
use go_software_router.Device.{NetDevice, NatDevice, empty_device}
use go_software_router.Ip.{IpHeader}
use go_software_router.Nat.{NatEntryList, new_tables, NatProtocolType, NatDirectionType}
use go_software_router.Nat.Exec.{Executed, nat_exec}
use go_software_router.Nat.Slots.{new_tables-IsNat}
use go_software_router.Nat.Translate.{AreNat, Translated, panicked, kept, nat_exec-Translated}
use go_software_router.Router.Sound.{NatRule, DeviceUses}
use go_software_router.Router.Setup.{configure_devices}
use go_software_router.Router.Routes.{connected_route, connected_routes, HasAddress32}

-- A device that translates does so behind the outside address.
abbrev pub UsesOutside : ℕ → NatDevice → Type 0
UsesOutside outside n = (n.nat_entry ≡ none) ⊎ (n.outside_ip_addr ≡ outside)

Translated-AreNat :
    (outside : ℕ) (x : Result Executed) {t : NatEntryList} {out : Option (IpHeader × List ℕ)}
    → Translated outside x
    → x ≡ ok (some t, out)
    → AreNat outside t
Translated-AreNat outside x (panicked c) e = cc
Translated-AreNat outside x {t} (kept tables out v) e = let same : tables ≡ t = cc in rw (← same) v

pub nat_exec-keeps_tables :
    (outside : ℕ) (n : NatDevice) (k : ℕ) (ip : IpHeader) (packet : List ℕ) (t t' : NatEntryList)
    (proto : NatProtocolType) (direction : NatDirectionType) (out : Option (IpHeader × List ℕ))
    → UsesOutside outside n
    → n.nat_entry ≡ some k
    → AreNat outside t
    → nat_exec ip packet n.outside_ip_addr (some t) proto direction ≡ ok (some t', out)
    → AreNat outside t'
nat_exec-keeps_tables outside n k ip packet t t' proto direction out (inl missing) at_k v e = cc
nat_exec-keeps_tables outside n k ip packet t t' proto direction out (inr same) at_k v e =
    Translated-AreNat outside (nat_exec ip packet outside (some t) proto direction) {out = out}
      (nat_exec-Translated ip packet outside t proto direction v) (rw (← same) e)

-- Tables that are well-formed for the outside address, used by the devices behind it.
abbrev pub nat_rule : ℕ → NatRule
nat_rule outside = record {
  Tables = AreNat outside;
  Uses = UsesOutside outside;
  keeps_tables = nat_exec-keeps_tables outside;
}

-- `configureIPNat` keeps the routes, and gives tables that the rule allows.
pub configure-connected_routes :
    (inside : String) (outside i : ℕ) (l : List NetDevice) (tables : List NatEntryList)
    → connected_routes i (configure_devices inside outside l tables).0 ≡ connected_routes i l
unfolding configure_devices
configure-connected_routes inside outside i [] tables = refl
configure-connected_routes inside outside i (d ∷ l) tables =
    elim (Bool-cases (str_eq inside d.name)) [
      | inl hit ↦ rw hit (
          ap (◌∷◌ (connected_route i d))
            (configure-connected_routes inside outside (suc i) l (tables ++ new_tables ∷ [])))
      | inr other ↦ rw other (
          ap (◌∷◌ (connected_route i d))
            (configure-connected_routes inside outside (suc i) l tables))
    ]

pub configure-UsesOutside :
    (inside : String) (outside : ℕ) (l : List NetDevice) (tables : List NatEntryList)
    → All (λ (d : NetDevice). d.ipdev.natdev ≡ empty_device.ipdev.natdev) l
    → All (DeviceUses (nat_rule outside)) (configure_devices inside outside l tables).0
unfolding configure_devices
configure-UsesOutside inside outside [] tables h = tt
configure-UsesOutside inside outside (d ∷ l) tables h = elim (Bool-cases (str_eq inside d.name)) [
  | inl hit ↦
      rw hit (inr refl, configure-UsesOutside inside outside l (tables ++ new_tables ∷ []) h.1)
  | inr other ↦ rw other (
    inl (ap (λ (n : NatDevice). n.nat_entry) h.0),
    configure-UsesOutside inside outside l tables h.1,
  )
]

pub configure-AreNat :
    (inside : String) (outside : ℕ) (l : List NetDevice) (tables : List NatEntryList)
    → All (AreNat outside) tables
    → All (AreNat outside) (configure_devices inside outside l tables).1
unfolding configure_devices
configure-AreNat inside outside [] tables h = h
configure-AreNat inside outside (d ∷ l) tables h = elim (Bool-cases (str_eq inside d.name)) [
  | inl hit ↦ rw hit (
      configure-AreNat inside outside l (tables ++ new_tables ∷ [])
        (All-append (AreNat outside) tables (new_tables ∷ []) h (new_tables-IsNat outside, tt)))
  | inr other ↦ rw other (configure-AreNat inside outside l tables h)
]

pub configure-HasAddress32 :
    (inside : String) (outside : ℕ) (l : List NetDevice) (tables : List NatEntryList)
    → All HasAddress32 l
    → All HasAddress32 (configure_devices inside outside l tables).0
unfolding configure_devices
configure-HasAddress32 inside outside [] tables h = tt
configure-HasAddress32 inside outside (d ∷ l) tables h = elim (Bool-cases (str_eq inside d.name)) [
  | inl hit ↦ rw hit (h.0, configure-HasAddress32 inside outside l (tables ++ new_tables ∷ []) h.1)
  | inr other ↦ rw other (h.0, configure-HasAddress32 inside outside l tables h.1)
]
