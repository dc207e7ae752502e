-- ===== src/Nat/Mapping.antt =====
-- The table as a two-way mapping between local endpoints and ports of the outside address.
use go_software_router.Prelude.{
  ℕ, ◌≡◌, sym, ap, ◌∙◌, ◌⊎◌, inl, inr, none, some, arith, ◌==◌, ◌&&◌, if◌then◌else◌, Option-cases,
  ◌↔◌,
}
use mathlib.Core.Path.{subst₂}
use go_software_router.Nat.{
  NatEntry, NatProtocolType, Slots, first_port, get_nat_entry_by_global, get_nat_entry_by_local,
  local_entry,
}
use go_software_router.Nat.Slots.{
  IsNat, IsFull, Fill, fill_first, create_from-fill_first, fill_first-Fill, Fill-length, Fill-local,
  Fill-IsNumbered, Fill-HasDistinctLocals, Fill-not-IsFull, get_by_global_of_local,
  get_by_local_fields,
}

-- The three ways in which the lookup for an outgoing packet can end.
pub data Lookup (proto : NatProtocolType) (outside ip port : ℕ) (slots : Slots) : Type 0 where
  known :
      (e : NatEntry)
      → get_nat_entry_by_local ip port slots ≡ some e
      → local_entry proto outside ip port slots ≡ some (slots, e)
      → Lookup proto outside ip port slots
  created :
      (slots' : Slots) (e : NatEntry)
      → get_nat_entry_by_local ip port slots ≡ none
      → local_entry proto outside ip port slots ≡ some (slots', e)
      → Fill outside ip port (first_port proto) slots slots' e
      → Lookup proto outside ip port slots
  full :
      get_nat_entry_by_local ip port slots ≡ none
      → local_entry proto outside ip port slots ≡ none
      → IsFull slots
      → Lookup proto outside ip port slots

lookup_new :
    (proto : NatProtocolType) (outside ip port : ℕ) (slots : Slots)
    → get_nat_entry_by_local ip port slots ≡ none
    → local_entry proto outside ip port slots ≡ fill_first outside ip port (first_port proto) slots
unfolding local_entry
lookup_new proto outside ip port slots absent =
    rw (absent, local_entry)
      (ground (arith, create_from-fill_first outside ip port (first_port proto) slots))

lookup_known :
    (proto : NatProtocolType) (outside ip port : ℕ) (slots : Slots) (e : NatEntry)
    → get_nat_entry_by_local ip port slots ≡ some e
    → local_entry proto outside ip port slots ≡ some (slots, e)
unfolding local_entry
lookup_known proto outside ip port slots e found = rw (found, local_entry)

pub lookup :
    (proto : NatProtocolType) (outside ip port : ℕ) (slots : Slots)
    → Lookup proto outside ip port slots
lookup proto outside ip port slots = elim (Option-cases (get_nat_entry_by_local ip port slots)) [
  | inl absent ↦ elim (fill_first-Fill outside ip port (first_port proto) slots) [
    | inl (f, e) ↦ full absent (lookup_new proto outside ip port slots absent ∙ e) f
    | inr (slots', x, e, f) ↦
        created slots' x absent (lookup_new proto outside ip port slots absent ∙ e) f
  ]
  | inr (x, found) ↦ known x found (lookup_known proto outside ip port slots x found)
]

-- A lookup that returns an entry found it, or filled a free slot with it.
outcome :
    (proto : NatProtocolType) (outside ip port : ℕ) (slots slots' : Slots) (e : NatEntry)
    → local_entry proto outside ip port slots ≡ some (slots', e)
    → ((slots' ≡ slots) × (get_nat_entry_by_local ip port slots ≡ some e))
      ⊎ ((get_nat_entry_by_local ip port slots ≡ none)
          × Fill outside ip port (first_port proto) slots slots' e)
outcome proto outside ip port slots slots' e done = elim (lookup proto outside ip port slots) [
  | known x found same ↦ inl (cc, cc)
  | created t x absent new f ↦
      let e1 : t ≡ slots' = cc in
      let e2 : x ≡ e = cc in
      inr (absent, subst₂ (Fill outside ip port (first_port proto) slots) e1 e2 f)
  | full absent refused f ↦ absurd (ground arith)
]

module _ (proto : NatProtocolType) (outside ip port : ℕ) (slots slots' : Slots) (e : NatEntry)
    (v : IsNat outside (first_port proto) slots)
    (done : local_entry proto outside ip port slots ≡ some (slots', e)) where
  -- After a lookup that returned an entry, in a well-formed table, the endpoint finds that entry, and any other endpoint
  -- finds what it found before.
  pub local_entry-local :
      (a b : ℕ)
      → get_nat_entry_by_local a b slots'
        ≡ (if a == ip && b == port then some e else get_nat_entry_by_local a b slots)
  local_entry-local a b = elim (outcome proto outside ip port slots slots' e done) [
    | inl (same, found) ↦ rw same (ground arith)
    | inr (absent, f) ↦ Fill-local a b f absent
  ]

  -- The lookup keeps the table well-formed.
  pub local_entry-IsNat : IsNat outside (first_port proto) slots'
  local_entry-IsNat = elim (outcome proto outside ip port slots slots' e done) [
    | inl (same, found) ↦ rw same v
    | inr (absent, f) ↦ record {
      numbered = Fill-IsNumbered f v.fits v.numbered;
      distinct = Fill-HasDistinctLocals f absent v.distinct;
      fits = rw (Fill-length f) v.fits;
    }
  ]

  pub local_entry_self : get_nat_entry_by_local ip port slots' ≡ some e
  local_entry_self = local_entry-local ip port ∙ ground arith

-- A translation for an outgoing packet can be undone: in a well-formed table, when the lookup for a
-- local endpoint returns an entry, a reply to the entry's global address and port finds that entry, it
-- holds the endpoint and the outside address, and asking again for the endpoint returns it
-- again and changes nothing.
pub by_global-local_entry :
    (proto : NatProtocolType) (outside ip port : ℕ) (slots slots' : Slots) (e : NatEntry)
    → IsNat outside (first_port proto) slots
    → local_entry proto outside ip port slots ≡ some (slots', e)
    → (get_nat_entry_by_global outside e.global_port slots' ≡ some e)
      × (e.global_ip_addr ≡ outside)
      × (e.local_ip_addr ≡ ip)
      × (e.local_port ≡ port)
      × (local_entry proto outside ip port slots' ≡ some (slots', e))
by_global-local_entry proto outside ip port slots slots' e v done =
    let v' = local_entry-IsNat proto outside ip port slots slots' e v done in
    let self = local_entry_self proto outside ip port slots slots' e v done in
    let fields = get_by_local_fields outside (first_port proto) ip port slots' e v'.numbered self in
    (
      (get_by_global_of_local outside (first_port proto) ip port slots' e v'.numbered self).1,
      fields.2,
      fields.0,
      fields.1,
      lookup_known proto outside ip port slots' e self,
    )

-- In a well-formed table two endpoints that have entries with one global port are the same.
pub global_port_injective :
    (outside first a b c d : ℕ) (slots : Slots) (x y : NatEntry)
    → IsNat outside first slots
    → get_nat_entry_by_local a b slots ≡ some x
    → get_nat_entry_by_local c d slots ≡ some y
    → x.global_port ≡ y.global_port
    → (a ≡ c) × (b ≡ d)
global_port_injective outside first a b c d slots x y v hx hy same =
    let gx = (get_by_global_of_local outside first a b slots x v.numbered hx).1 in
    let gy = (get_by_global_of_local outside first c d slots y v.numbered hy).1 in
    let fx = get_by_local_fields outside first a b slots x v.numbered hx in
    let fy = get_by_local_fields outside first c d slots y v.numbered hy in
    let one : x ≡ y = cc (ap (λ p. get_nat_entry_by_global outside p slots) same, gx, gy) in
    (
      sym fx.0 ∙ (ap (λ (n : NatEntry). n.local_ip_addr) one ∙ fy.0),
      sym fx.1 ∙ (ap (λ (n : NatEntry). n.local_port) one ∙ fy.1),
    )

-- The lookup for an outgoing packet fails exactly if the endpoint has no entry and no slot is free.
pub local_entry-none :
    (proto : NatProtocolType) (outside ip port : ℕ) (slots : Slots)
    → (local_entry proto outside ip port slots ≡ none)
      ↔ ((get_nat_entry_by_local ip port slots ≡ none) × IsFull slots)
local_entry-none proto outside ip port slots = elim (lookup proto outside ip port slots) [
  | known x found same ↦ (λ h. cc, λ h. cc)
  | created t x absent new f ↦ (λ h. cc, λ h. absurd (Fill-not-IsFull f h.1))
  | full absent refused f ↦ (λ h. (absent, f), λ h. refused)
]
