-- ===== src/Radix.antt =====
-- radix_tree.go: the routing table, a binary tree on the bits of an address from the top; and
-- the routing entries of ip.go that its nodes hold.
pub mod Paths
pub mod Longest
pub mod Prefix
pub mod Mask
pub mod Table
use go_software_router.Prelude.{
  ℕ, zero, suc, ◌+◌, ◌-◌, ◌/◌, ◌^◌, Bool, true, false, ◌&&◌, Option, none, some, Result, ok, crash,
  panic, ◌>>=◌, bit_and, leb, ◌==◌, if◌then◌else◌,
}

pub data IpRouteType : Type 0 where
  connected network : IpRouteType

-- A device pointer is the position of the device in `netDeviceList`, `none` is nil.
pub record IpRouteEntry : Type 0 where
  pub iptype : IpRouteType
  pub netdev : Option ℕ
  pub nexthop : ℕ

-- `ipRouteEntry{}`.
abbrev pub empty_entry : IpRouteEntry
empty_entry = record { iptype = connected; netdev = none; nexthop = 0 }

-- `entry == (ipRouteEntry{})`.
abbrev pub is_empty_entry : IpRouteEntry → Bool
is_empty_entry e = elim e.iptype [
  | connected ↦ elim e.netdev [ none ↦ e.nexthop == 0 | some _ ↦ false ]
  | network ↦ false
]

-- A pointer to a `radixTreeNode`, with the fields depth, value and data, and both children. The
-- parent pointer is written and never read, and is left out.
pub data RadixTreeNode : Type 0 where
  nil : RadixTreeNode
  node : ℕ → ℕ → IpRouteEntry → RadixTreeNode → RadixTreeNode → RadixTreeNode

-- `prefixIpAddr>>(32-i)&0x01 == 1`: bit `i` from the top.
abbrev pub bit : ℕ → ℕ → Bool
bit addr i = bit_and (addr / 2 ^ (32 - i)) 0x01 == 1

-- A missing child is made on the way down.
abbrev pub grow : ℕ → RadixTreeNode → RadixTreeNode
grow i nil = node i 0 empty_entry nil nil
grow i (node d v e l r) = node d v e l r

-- The loop of `radixTreeAdd` at `i`, with its rounds left. A shift by `32 - i` below 0 panics.
unfoldable pub add_from : ℕ → ℕ → ℕ → IpRouteEntry → RadixTreeNode → Result RadixTreeNode
add_from n i addr entry nil = crash panic
add_from zero i addr entry (node d v e l r) = ok (node d v entry l r)
add_from (suc n) i addr entry (node d v e l r) =
    let child = add_from n (i + 1) addr entry (grow i (if bit addr i then r else l)) in
    if leb i 32
    then (child >>= λ c. ok (if bit addr i then node d v e l c else node d v e c r))
    else crash panic

unfoldable pub radix_tree_add : RadixTreeNode → ℕ → ℕ → IpRouteEntry → Result RadixTreeNode
unfolding add_from
radix_tree_add tree prefix_ip_addr prefix_len entry =
    add_from prefix_len 1 prefix_ip_addr entry tree

-- The loop of `radixTreeSearch` at `i`: the result changes at each node with an entry.
unfoldable pub search_from : ℕ → ℕ → ℕ → RadixTreeNode → IpRouteEntry → IpRouteEntry
search_from n i addr nil result = result
search_from zero i addr (node d v e l r) result = if is_empty_entry e then result else e
search_from (suc n) i addr (node d v e l r) result =
    search_from n (i + 1) addr (if bit addr i then r else l)
      (if is_empty_entry e then result else e)

unfoldable pub radix_tree_search : RadixTreeNode → ℕ → IpRouteEntry
unfolding search_from
radix_tree_search tree addr = search_from 32 1 addr tree empty_entry

-- The loop of `subnetToPrefixLen` at `i`.
unfoldable pub prefix_len_from : ℕ → ℕ → ℕ → ℕ → ℕ
prefix_len_from zero i subnet length = length
prefix_len_from (suc n) i subnet length =
    let rest = prefix_len_from n (i + 1) subnet (length + 1) in
    if bit_and (subnet / 2 ^ (31 - i)) 0x01 == 0 then length else rest

unfoldable pub subnet_to_prefix_len : ℕ → ℕ
unfolding prefix_len_from
subnet_to_prefix_len subnet = prefix_len_from 32 0 subnet 0

-- `var iproute radixTreeNode`.
abbrev pub root : RadixTreeNode
root = node 0 0 empty_entry nil nil
