-- ===== src/Radix/Table.antt =====
-- radix_tree.go: tables built by `radixTreeAdd`, against a specification by the longest matching prefix.
use mathlib.Core.Path.{fun_ext}
use go_software_router.Prelude.{
  ℕ, ◌+◌, ◌≤◌, ◌<◌, ◌^◌, ◌≡◌, refl, sym, ap, ◌∙◌, Bool, true, false, List, [], ◌∷◌, arith, Result,
  ok, ◌>>=◌, ◌==◌, All,
}
use go_software_router.Radix.{
  IpRouteEntry, empty_entry, is_empty_entry, RadixTreeNode, root, radix_tree_add, radix_tree_search,
}
use go_software_router.Radix.Paths.{
  bits_from, entry_at, IsNode, add_from-update, search_from-last_entry,
}
use go_software_router.Radix.Longest.{
  Match, last_match, last_match-entry, last_match-update, challenge,
}
use go_software_router.Radix.Prefix.{top, starts-prefix, length-bits_from}

-- The arguments of one call of `radixTreeAdd`.
pub record Route : Type 0 where
  pub prefix : ℕ
  pub len : ℕ
  pub entry : IpRouteEntry

abbrev pub add_all : RadixTreeNode → List Route → Result RadixTreeNode
add_all t [] = ok t
add_all t (r ∷ rs) = radix_tree_add t r.prefix r.len r.entry >>= λ u. add_all u rs

-- A 32-bit prefix of at most 32 bits, and an entry that is not the empty one.
pub record IsRoute (r : Route) : Type 0 where
  pub prefix_fits : r.prefix < 2 ^ 32
  pub len_fits : r.len ≤ 32
  pub filled : is_empty_entry r.entry ≡ false

-- The first `len` bits of the address are those of the prefix.
abbrev pub matches : ℕ → Route → Bool
matches addr r = top r.prefix r.len == top addr r.len

-- The specification: the longest matching prefix wins, and of two equally long ones the later.
abbrev pub longest : ℕ → List Route → Match → Match
longest addr [] best = best
longest addr (r ∷ rs) best = longest addr rs (challenge (matches addr r) r.len r.entry best)

abbrev pub no_match : Match
no_match = record { len = 0; entry = empty_entry }

abbrev pub longest_prefix_match : ℕ → List Route → IpRouteEntry
longest_prefix_match addr rs = (longest addr rs no_match).entry

-- What a tree finds for an address, with the length.
abbrev found : RadixTreeNode → ℕ → Match
found t addr = last_match (entry_at t) (bits_from 32 1 addr) 0 no_match

radix_tree_search-found :
    (t : RadixTreeNode) (addr : ℕ) → radix_tree_search t addr ≡ (found t addr).entry
unfolding radix_tree_search
radix_tree_search-found t addr =
    search_from-last_entry 32 1 addr t empty_entry
    ∙ sym (last_match-entry (entry_at t) (bits_from 32 1 addr) 0 no_match)

-- One more route challenges what was found before.
radix_tree_add-found :
    (t : RadixTreeNode) (r : Route)
    → IsNode t
    → IsRoute r
    → (u : RadixTreeNode) × (radix_tree_add t r.prefix r.len r.entry ≡ ok u)
      × IsNode u
      × ((addr : ℕ)
          → addr < 2 ^ 32
          → found u addr ≡ challenge (matches addr r) r.len r.entry (found t addr))
unfolding radix_tree_add
radix_tree_add-found t r isn v =
    let (u, eq, isu, at_u) =
      add_from-update r.len 1 r.prefix r.entry t isn (omega (arith, v.len_fits)) in
    (
      u,
      eq,
      isu,
      λ addr h.
          let path = bits_from 32 1 addr in
          let p = bits_from r.len 1 r.prefix in
          rw
            (
              fun_ext at_u,
              last_match-update (entry_at t) p path r.entry 0 no_match v.filled (omega arith),
              starts-prefix r.len r.prefix addr v.len_fits v.prefix_fits h,
              length-bits_from r.len 1 r.prefix,
            )
            (ap (λ (n : ℕ). challenge (matches addr r) n r.entry (found t addr)) (omega arith)),
    )

add_all-found :
    (t : RadixTreeNode) (rs : List Route)
    → IsNode t
    → All IsRoute rs
    → (u : RadixTreeNode) × (add_all t rs ≡ ok u)
      × ((addr : ℕ) → addr < 2 ^ 32 → found u addr ≡ longest addr rs (found t addr))
add_all-found t [] isn v = (t, refl, λ addr h. refl)
add_all-found t (r ∷ rs) isn v =
    let (u, eq, isu, one) = radix_tree_add-found t r isn v.0 in
    let (w, eqs, all) = add_all-found u rs isu v.1 in
    (w, rw eq eqs, λ addr h. all addr h ∙ ap (longest addr rs) (one addr h))

root-entry : (q : List Bool) → entry_at root q ≡ empty_entry
root-entry [] = refl
root-entry (true ∷ q) = refl
root-entry (false ∷ q) = refl

last_match_empty :
    (path : List Bool) (depth : ℕ) (m : Match) → last_match (λ q. empty_entry) path depth m ≡ m
last_match_empty [] depth m = refl
last_match_empty (b ∷ path) depth m = last_match_empty path (depth + 1) m

found-root : (addr : ℕ) → found root addr ≡ no_match
found-root addr =
    ap (λ f. last_match f (bits_from 32 1 addr) 0 no_match) (fun_ext root-entry)
    ∙ last_match_empty (bits_from 32 1 addr) 0 no_match

-- A table built from the empty tree by adding any routes, in order, is built without a panic, and
-- for a 32-bit address the search gives the entry of the longest matching prefix, of
-- equally long ones the one added last, and the empty entry where none matches. The routes
-- have 32-bit prefixes of at most 32 bits, and entries that are not the empty one.
pub radix_tree_search-add_all :
    (rs : List Route) (addr : ℕ)
    → All IsRoute rs
    → addr < 2 ^ 32
    → (t : RadixTreeNode) × (add_all root rs ≡ ok t)
      × (radix_tree_search t addr ≡ longest_prefix_match addr rs)
radix_tree_search-add_all rs addr v h =
    let (t, eq, all) = add_all-found root rs tt v in
    (
      t,
      eq,
      radix_tree_search-found t addr
          ∙ ap (λ (m : Match). m.entry) (all addr h ∙ ap (longest addr rs) (found-root addr)),
    )
