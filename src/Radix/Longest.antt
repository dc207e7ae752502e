-- ===== src/Radix/Longest.antt =====
-- The last entry along a path, with its depth, and what a change of the map does to it.
use go_software_router.Prelude.{
  ℕ, suc, ◌+◌, ◌≤◌, ◌≡◌, refl, sym, ap, ◌∙◌, Bool, true, false, List, [], ◌∷◌, arith, if◌then◌else◌,
  ◌&&◌, leb, le→leb, length, ◌⊎◌, inl, inr,
}
use go_software_router.Radix.{IpRouteEntry, is_empty_entry}
use go_software_router.Radix.Paths.{update, last_entry, same_bit}

-- An entry and the length of the prefix that it was found under.
pub record Match : Type 0 where
  pub len : ℕ
  pub entry : IpRouteEntry

abbrev pub pick : IpRouteEntry → ℕ → Match → Match
pick e depth m = if is_empty_entry e then m else record { len = depth; entry = e }

abbrev pub last_match : (List Bool → IpRouteEntry) → List Bool → ℕ → Match → Match
last_match f [] depth m = pick (f []) depth m
last_match f (b ∷ path) depth m = last_match (λ q. f (b ∷ q)) path (depth + 1) (pick (f []) depth m)

pick-entry :
    (e : IpRouteEntry) (depth : ℕ) (m : Match)
    → (pick e depth m).entry ≡ (if is_empty_entry e then m.entry else e)
pick-entry e depth m = ground arith

pub last_match-entry :
    (f : List Bool → IpRouteEntry) (path : List Bool) (depth : ℕ) (m : Match)
    → (last_match f path depth m).entry ≡ last_entry f path m.entry
last_match-entry f [] depth m = pick-entry (f []) depth m
last_match-entry f (b ∷ path) depth m =
    last_match-entry (λ q. f (b ∷ q)) path (depth + 1) (pick (f []) depth m)
    ∙ ap (last_entry (λ q. f (b ∷ q)) path) (pick-entry (f []) depth m)

-- `path` begins with `p`.
abbrev pub starts : List Bool → List Bool → Bool
starts [] path = true
starts (a ∷ p) [] = false
starts (a ∷ p) (b ∷ path) = same_bit a b && starts p path

-- Either nothing is found and the match so far stays, or it is lost and the new one is deeper.
abbrev Decided : (Match → Match) → ℕ → Type 0
Decided g depth =
    ((m : Match) → g m ≡ m) ⊎ ((w : Match) × (depth ≤ w.len) × ((m : Match) → g m ≡ w))

last_match-Decided :
    (f : List Bool → IpRouteEntry) (path : List Bool) (depth : ℕ)
    → Decided (last_match f path depth) depth
last_match-Decided f [] depth = go (is_empty_entry (f [])) refl
  where
    go : (b : Bool) → is_empty_entry (f []) ≡ b → Decided (last_match f [] depth) depth
    go true e = inl (λ m. rw e)
    go false e = inr (record { len = depth; entry = f [] }, omega arith, λ m. rw e)
last_match-Decided f (b ∷ path) depth =
    go (is_empty_entry (f [])) refl (last_match-Decided (λ q. f (b ∷ q)) path (depth + 1))
  where
    go :
        (c : Bool)
        → is_empty_entry (f []) ≡ c
        → Decided (last_match (λ q. f (b ∷ q)) path (depth + 1)) (depth + 1)
        → Decided (last_match f (b ∷ path) depth) depth
    go true e (inl stay) = inl (λ m. rw e (stay m))
    go false e (inl stay) =
        inr (record { len = depth; entry = f [] }, omega arith, λ m. rw e (stay _))
    go c e (inr (w, deep, lost)) = inr (w, omega arith, λ m. lost _)

-- The match that a changed map finds: the new entry, if its path is on the way and no longer one was found.
abbrev pub challenge : Bool → ℕ → IpRouteEntry → Match → Match
challenge hit len e old = if hit && leb old.len len then record { len = len; entry = e } else old

pick-len : (x : IpRouteEntry) (depth : ℕ) (m : Match) → m.len ≤ depth → (pick x depth m).len ≤ depth
pick-len x depth m h = ground arith

challenge_here :
    (x e : IpRouteEntry) (depth : ℕ) (m : Match)
    → is_empty_entry e ≡ false
    → m.len ≤ depth
    → pick e depth m ≡ challenge true (depth + 0) e (pick x depth m)
challenge_here x e depth m he hm =
    rw (he, le→leb (pick x depth m).len (depth + 0) (omega (arith, pick-len x depth m hm)))
      (ap (λ (n : ℕ). record { len = n; entry = e }) (omega arith))

challenge_deep :
    (e : IpRouteEntry) (depth : ℕ) (w : Match)
    → depth + 1 ≤ w.len
    → w ≡ challenge true (depth + 0) e w
challenge_deep e depth w h = ground arith

deeper :
    (hit : Bool) (depth n : ℕ) (e : IpRouteEntry) (w : Match)
    → challenge hit (depth + 1 + n) e w ≡ challenge hit (depth + suc n) e w
deeper hit depth n e w = ap (λ (k : ℕ). challenge hit k e w) (omega arith)

pub last_match-update :
    (f : List Bool → IpRouteEntry) (p path : List Bool) (e : IpRouteEntry) (depth : ℕ) (m : Match)
    → is_empty_entry e ≡ false
    → m.len ≤ depth
    → last_match (update f p e) path depth m
      ≡ challenge (starts p path) (depth + length p) e (last_match f path depth m)
last_match-update f [] [] e depth m he hm = challenge_here (f []) e depth m he hm
last_match-update f [] (b ∷ path) e depth m he hm =
    elim (last_match-Decided (λ q. f (b ∷ q)) path (depth + 1)) [
      | inl stay ↦
          stay (pick e depth m)
          ∙ challenge_here (f []) e depth m he hm
          ∙ ap (challenge true (depth + 0) e) (sym (stay (pick (f []) depth m)))
      | inr (w, deep, lost) ↦
          lost (pick e depth m)
          ∙ challenge_deep e depth w deep
          ∙ ap (challenge true (depth + 0) e) (sym (lost (pick (f []) depth m)))
    ]
last_match-update f (a ∷ p) [] e depth m he hm = refl
last_match-update f (true ∷ p) (true ∷ path) e depth m he hm =
    last_match-update (λ q. f (true ∷ q)) p path e (depth + 1) (pick (f []) depth m) he
      (omega (arith, pick-len (f []) depth m hm))
    ∙ deeper (starts p path) depth (length p) e _
last_match-update f (true ∷ p) (false ∷ path) e depth m he hm = refl
last_match-update f (false ∷ p) (true ∷ path) e depth m he hm = refl
last_match-update f (false ∷ p) (false ∷ path) e depth m he hm =
    last_match-update (λ q. f (false ∷ q)) p path e (depth + 1) (pick (f []) depth m) he
      (omega (arith, pick-len (f []) depth m hm))
    ∙ deeper (starts p path) depth (length p) e _
