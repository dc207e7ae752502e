-- ===== src/Radix/Paths.antt =====
-- The tree as a map from paths of bits to entries.
use go_software_router.Prelude.{
  ℕ, zero, suc, ◌+◌, ◌≤◌, ◌≡◌, refl, sym, ap, ◌∙◌, Bool, true, false, List, [], ◌∷◌, ok, arith,
  if◌then◌else◌, ◌&&◌, le→leb,
}
use mathlib.Core.Path.{fun_ext}
use go_software_router.Radix.{
  IpRouteEntry, empty_entry, is_empty_entry, RadixTreeNode, nil, node, bit, grow, add_from,
  search_from,
}

-- The bits `i`, `i + 1`, … of an address, `n` of them.
abbrev pub bits_from : ℕ → ℕ → ℕ → List Bool
bits_from zero i addr = []
bits_from (suc n) i addr = bit addr i ∷ bits_from n (i + 1) addr

-- The entry at the end of a path, empty where the tree has no node.
abbrev pub entry_at : RadixTreeNode → List Bool → IpRouteEntry
entry_at nil path = empty_entry
entry_at (node d v e l r) [] = e
entry_at (node d v e l r) (b ∷ path) = entry_at (if b then r else l) path

abbrev pub same_bit : Bool → Bool → Bool
same_bit true b = b
same_bit false true = false
same_bit false false = true

abbrev pub same_path : List Bool → List Bool → Bool
same_path [] [] = true
same_path [] (b ∷ q) = false
same_path (a ∷ p) [] = false
same_path (a ∷ p) (b ∷ q) = same_bit a b && same_path p q

-- A map with one entry changed.
abbrev pub update : (List Bool → IpRouteEntry) → List Bool → IpRouteEntry → List Bool → IpRouteEntry
update f path e q = if same_path path q then e else f q

abbrev pub IsNode : RadixTreeNode → Type 0
IsNode nil = ⊥
IsNode (node d v e l r) = Unit

entry_at-grow : (i : ℕ) (t : RadixTreeNode) (q : List Bool) → entry_at (grow i t) q ≡ entry_at t q
entry_at-grow i nil [] = refl
entry_at-grow i nil (true ∷ q) = refl
entry_at-grow i nil (false ∷ q) = refl
entry_at-grow i (node d v e l r) q = refl

grow-IsNode : (i : ℕ) (t : RadixTreeNode) → IsNode (grow i t)
grow-IsNode i nil = tt
grow-IsNode i (node d v e l r) = tt

-- One level up: changing a path in one child changes the path through that child.
attach_entry :
    (b : Bool) (d v : ℕ) (x e : IpRouteEntry) (l r u : RadixTreeNode) (path : List Bool)
    → ((q : List Bool) → entry_at u q ≡ update (entry_at (if b then r else l)) path e q)
    → (q : List Bool)
    → entry_at (if b then node d v x l u else node d v x u r) q
      ≡ update (entry_at (node d v x l r)) (b ∷ path) e q
attach_entry true d v x e l r u path h [] = refl
attach_entry true d v x e l r u path h (true ∷ q) = h q
attach_entry true d v x e l r u path h (false ∷ q) = refl
attach_entry false d v x e l r u path h [] = refl
attach_entry false d v x e l r u path h (true ∷ q) = refl
attach_entry false d v x e l r u path h (false ∷ q) = h q

attach-IsNode :
    (b : Bool) (d v : ℕ) (x : IpRouteEntry) (l r u : RadixTreeNode)
    → IsNode (if b then node d v x l u else node d v x u r)
attach-IsNode true d v x l r u = tt
attach-IsNode false d v x l r u = tt

leaf_entry :
    (d v : ℕ) (x e : IpRouteEntry) (l r : RadixTreeNode) (q : List Bool)
    → entry_at (node d v e l r) q ≡ update (entry_at (node d v x l r)) [] e q
leaf_entry d v x e l r [] = refl
leaf_entry d v x e l r (b ∷ q) = refl

-- Adding along a path changes the entry at its end and no other.
pub add_from-update :
    (n i addr : ℕ) (e : IpRouteEntry) (t : RadixTreeNode)
    → IsNode t
    → i + n ≤ 33
    → (u : RadixTreeNode) × (add_from n i addr e t ≡ ok u)
      × IsNode u
      × ((q : List Bool) → entry_at u q ≡ update (entry_at t) (bits_from n i addr) e q)
unfolding add_from
add_from-update n i addr e nil h fits = absurd h
add_from-update zero i addr e (node d v x l r) h fits =
    (node d v e l r, refl, tt, leaf_entry d v x e l r)
add_from-update (suc n) i addr e (node d v x l r) h fits =
    let b = bit addr i in
    let child = if b then r else l in
    let (u, eq, _, ih) =
      add_from-update n (i + 1) addr e (grow i child) (grow-IsNode i child) (omega arith) in
    let below = λ (q : List Bool).
      ih q ∙ ap (λ f. update f (bits_from n (i + 1) addr) e q) (fun_ext (entry_at-grow i child)) in
    (
      (if b then node d v x l u else node d v x u r),
      rw (le→leb i 32 (omega arith), eq),
      attach-IsNode b d v x l r u,
      attach_entry b d v x e l r u (bits_from n (i + 1) addr) below,
    )

-- The last entry that is not empty on the way along a path.
abbrev pub last_entry : (List Bool → IpRouteEntry) → List Bool → IpRouteEntry → IpRouteEntry
last_entry f [] result = if is_empty_entry (f []) then result else f []
last_entry f (b ∷ path) result =
    last_entry (λ q. f (b ∷ q)) path (if is_empty_entry (f []) then result else f [])

last_entry_empty :
    (path : List Bool) (result : IpRouteEntry) → last_entry (λ q. empty_entry) path result ≡ result
last_entry_empty [] result = refl
last_entry_empty (b ∷ path) result = last_entry_empty path result

-- The search walks down the tree as `last_entry` walks along the address.
pub search_from-last_entry :
    (n i addr : ℕ) (t : RadixTreeNode) (result : IpRouteEntry)
    → search_from n i addr t result ≡ last_entry (entry_at t) (bits_from n i addr) result
unfolding search_from
search_from-last_entry zero i addr nil result = refl
search_from-last_entry (suc n) i addr nil result =
    sym (last_entry_empty (bits_from n (i + 1) addr) result)
search_from-last_entry zero i addr (node d v x l r) result = refl
search_from-last_entry (suc n) i addr (node d v x l r) result =
    search_from-last_entry n (i + 1) addr (if bit addr i then r else l)
      (if is_empty_entry x then result else x)
