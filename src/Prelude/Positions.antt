-- ===== src/Prelude/Positions.antt =====
-- Positions in a list: writes, lookups, and what holds of every element.
use Prim.Native.Nat.{ℕ, zero, suc, ◌-◌, ◌≤◌, ◌<◌}
use mathlib.Core.Path.{◌≡◌, refl, ap, ◌∙◌}
use mathlib.Core.Option.{none, some}
use mathlib.Core.List.{List, [], ◌∷◌, ◌++◌}
use native.Mathlib.Omega.{arith}
use go_software_router.Prelude.Lists.{length, get_elem?, set, All}

module _ {ℓ} {A : Type ℓ} where
  pub set_missing : (xs : List A) (i : ℕ) (v : A) → get_elem? xs i ≡ none → set xs i v ≡ xs
  set_missing [] i v h = refl
  set_missing (x ∷ xs) zero v h = cc
  set_missing (x ∷ xs) (suc i) v h = ap (◌∷◌ x) (set_missing xs i v h)

  pub set_same : (xs : List A) (i : ℕ) (v : A) → get_elem? xs i ≡ some v → set xs i v ≡ xs
  set_same [] i v h = refl
  set_same (x ∷ xs) zero v h = cc
  set_same (x ∷ xs) (suc i) v h = ap (◌∷◌ x) (set_same xs i v h)

  -- A position in the front part, and one behind it.
  pub get_elem?-append_front :
      (xs ys : List A) (i : ℕ) → i < length xs → get_elem? (xs ++ ys) i ≡ get_elem? xs i
  get_elem?-append_front [] ys i h = absurd (omega arith)
  get_elem?-append_front (x ∷ xs) ys zero h = refl
  get_elem?-append_front (x ∷ xs) ys (suc i) h = get_elem?-append_front xs ys i (omega arith)

  pub get_elem?-append_back :
      (xs ys : List A) (i : ℕ)
      → length xs ≤ i
      → get_elem? (xs ++ ys) i ≡ get_elem? ys (i - length xs)
  get_elem?-append_back [] ys i h = ap (get_elem? ys) (omega arith)
  get_elem?-append_back (x ∷ xs) ys zero h = absurd (omega arith)
  get_elem?-append_back (x ∷ xs) ys (suc i) h =
      get_elem?-append_back xs ys i (omega arith) ∙ ap (get_elem? ys) (omega arith)

  pub get_elem?_found : (xs : List A) (i : ℕ) {x : A} → get_elem? xs i ≡ some x → i < length xs
  get_elem?_found [] i h = cc
  get_elem?_found (x ∷ xs) zero h = omega arith
  get_elem?_found (x ∷ xs) (suc i) h = omega (arith, get_elem?_found xs i h)

  pub All-get_elem? {κ} :
      (P : A → Type κ) (xs : List A) (i : ℕ) (x : A) → All P xs → get_elem? xs i ≡ some x → P x
  All-get_elem? P [] i x h e = cc
  All-get_elem? P (y ∷ xs) zero x h e = let same : y ≡ x = cc in rw (← same) h.0
  All-get_elem? P (y ∷ xs) (suc i) x h e = All-get_elem? P xs i x h.1 e

  pub All-set {κ} :
      (P : A → Type κ) (xs : List A) (i : ℕ) (v : A) → All P xs → P v → All P (set xs i v)
  All-set P [] i v h p = tt
  All-set P (x ∷ xs) zero v h p = (p, h.1)
  All-set P (x ∷ xs) (suc i) v h p = (h.0, All-set P xs i v h.1 p)
