-- ===== src/Prelude/Lists.antt =====
-- Lists measured and cut by native numbers, and Go's slice expressions on them.
use Prim.Native.Nat.{ℕ, zero, suc, ◌+◌, ◌-◌, ◌<◌, ◌≤◌}
use mathlib.Core.Path.{◌≡◌, refl, ap}
use mathlib.Core.Logic.{◌≢◌}
use mathlib.Core.List.{List, [], ◌∷◌, ◌++◌}
use mathlib.Core.Option.{Option, none, some}
use native.Mathlib.Omega.{arith}
use native.Mathlib.Nat.{zero-add}
use mathlib.Core.Bool.{true}
use go_software_router.Prelude.Tests.{leb, le→leb, if◌then◌else◌}
use go_software_router.Prelude.Results.{Result, ok, crash, panic, ◌>>=◌}

module _ {ℓ} {A : Type ℓ} where
  abbrev pub length : List A → ℕ
  length [] = 0
  length (x ∷ xs) = suc (length xs)

  abbrev pub get_elem? : List A → ℕ → Option A
  get_elem? [] i = none
  get_elem? (x ∷ xs) zero = some x
  get_elem? (x ∷ xs) (suc i) = get_elem? xs i

  abbrev pub get_or : List A → ℕ → A → A
  get_or [] i d = d
  get_or (x ∷ xs) zero d = x
  get_or (x ∷ xs) (suc i) d = get_or xs i d

  -- A write out of bounds changes nothing.
  abbrev pub set : List A → ℕ → A → List A
  set [] i v = []
  set (x ∷ xs) zero v = v ∷ xs
  set (x ∷ xs) (suc i) v = x ∷ set xs i v

  abbrev pub replicate : ℕ → A → List A
  replicate zero a = []
  replicate (suc n) a = a ∷ replicate n a

  -- `xs[i]`, which panics out of range.
  abbrev pub at : List A → ℕ → Result A
  at [] i = crash panic
  at (x ∷ xs) zero = ok x
  at (x ∷ xs) (suc i) = at xs i

  -- `xs[n:]`, which panics beyond the end.
  abbrev pub slice_from : List A → ℕ → Result (List A)
  slice_from xs zero = ok xs
  slice_from [] (suc n) = crash panic
  slice_from (x ∷ xs) (suc n) = slice_from xs n

  -- `xs[:n]`.
  abbrev pub slice_to : List A → ℕ → Result (List A)
  slice_to xs zero = ok []
  slice_to [] (suc n) = crash panic
  slice_to (x ∷ xs) (suc n) = slice_to xs n >>= λ ys. ok (x ∷ ys)

  -- `xs[lo:hi]`.
  abbrev pub slice : List A → ℕ → ℕ → Result (List A)
  slice xs lo hi =
      if leb lo hi then slice_from xs lo >>= (λ ys. slice_to ys (hi - lo)) else crash panic

  -- `copy(xs[i:], ys)`: elements from `i` on are overwritten, as far as both go.
  abbrev pub copy_at : List A → ℕ → List A → List A
  copy_at [] i ys = []
  copy_at (x ∷ xs) zero [] = x ∷ xs
  copy_at (x ∷ xs) zero (y ∷ ys) = y ∷ copy_at xs zero ys
  copy_at (x ∷ xs) (suc i) ys = x ∷ copy_at xs i ys

  -- A predicate of every element.
  abbrev pub All {κ} : (A → Type κ) → List A → Type κ
  All P [] = Unit
  All P (x ∷ xs) = P x × All P xs

module _ {ℓ} {A : Type ℓ} where
  pub length-append : (xs ys : List A) → length (xs ++ ys) ≡ length xs + length ys
  length-append [] ys = omega arith
  length-append (x ∷ xs) ys = omega (arith, length-append xs ys)

  pub length-set : (xs : List A) (i : ℕ) (v : A) → length (set xs i v) ≡ length xs
  length-set [] i v = refl
  length-set (x ∷ xs) zero v = refl
  length-set (x ∷ xs) (suc i) v = ap suc (length-set xs i v)

  pub get_elem?-set_self :
      (xs : List A) (i : ℕ) (v : A) → i < length xs → get_elem? (set xs i v) i ≡ some v
  get_elem?-set_self [] i v h = absurd (omega arith)
  get_elem?-set_self (x ∷ xs) zero v h = refl
  get_elem?-set_self (x ∷ xs) (suc i) v h = get_elem?-set_self xs i v (omega arith)

  pub get_elem?-set_ne :
      (xs : List A) (i j : ℕ) (v : A) → i ≢ j → get_elem? (set xs i v) j ≡ get_elem? xs j
  get_elem?-set_ne [] i j v ne = refl
  get_elem?-set_ne (x ∷ xs) zero zero v ne = absurd (ne refl)
  get_elem?-set_ne (x ∷ xs) zero (suc j) v ne = refl
  get_elem?-set_ne (x ∷ xs) (suc i) zero v ne = refl
  get_elem?-set_ne (x ∷ xs) (suc i) (suc j) v ne = get_elem?-set_ne xs i j v (λ e. ne (ap suc e))

  -- A front part and what follows it can be cut apart again.
  pub slice_from-append : (xs ys : List A) → slice_from (xs ++ ys) (length xs) ≡ ok ys
  slice_from-append [] ys = refl
  slice_from-append (x ∷ xs) ys = slice_from-append xs ys

  slice_to-append : (xs ys : List A) → slice_to (xs ++ ys) (length xs) ≡ ok xs
  slice_to-append [] ys = refl
  slice_to-append (x ∷ xs) ys = rw (slice_to-append xs ys) refl

  pub All-append {κ} : (P : A → Type κ) (xs ys : List A) → All P xs → All P ys → All P (xs ++ ys)
  All-append P [] ys p q = q
  All-append P (x ∷ xs) ys p q = (p.0, All-append P xs ys p.1 q)

module _ {ℓ} {A : Type ℓ} where
  slice_from_add :
      (xs ys : List A) (n : ℕ) → slice_from (xs ++ ys) (length xs + n) ≡ slice_from ys n
  slice_from_add [] ys n = rw zero-add
  slice_from_add (x ∷ xs) ys n =
      let e : suc (length xs) + n ≡ suc (length xs + n) = omega arith in
      rw e (slice_from_add xs ys n)

  pub slice_middle :
      (xs ys zs : List A) (lo hi : ℕ)
      → lo ≡ length xs
      → hi ≡ length xs + length ys
      → slice (xs ++ (ys ++ zs)) lo hi ≡ ok ys
  slice_middle xs ys zs lo hi el eh =
      let tests : leb lo hi ≡ true = le→leb lo hi (omega arith) in
      let width : hi - lo ≡ length ys = omega arith in
      rw (tests, width, el, slice_from-append xs (ys ++ zs)) (slice_to-append ys zs)

  -- A cut within the list succeeds, and its two parts make up the list.
  pub cut :
      (xs : List A) (n : ℕ)
      → n ≤ length xs
      → (front rest : List A) × (slice_to xs n ≡ ok front)
        × (slice_from xs n ≡ ok rest)
        × (xs ≡ front ++ rest)
        × (length front ≡ n)
  cut xs zero h = ([], xs, refl, refl, refl, refl)
  cut [] (suc n) h = absurd (omega arith)
  cut (x ∷ xs) (suc n) h =
      let (front, rest, p, q, e, l) = cut xs n (omega arith) in
      (x ∷ front, rest, rw p, q, ap (◌∷◌ x) e, ap suc l)

  -- A list in two parts, the first of a given length.
  abbrev pub Split : List A → ℕ → Type ℓ
  Split xs n =
      (front rest : List A) × (xs ≡ front ++ rest)
      × (length front ≡ n)
      × (length rest ≡ length xs - n)

  pub split : (xs : List A) (n : ℕ) → n ≤ length xs → Split xs n
  split xs zero h = ([], xs, refl, refl, omega arith)
  split [] (suc n) h = absurd (omega arith)
  split (x ∷ xs) (suc n) h = go (split xs n (omega arith))
    where
      go : Split xs n → Split (x ∷ xs) (suc n)
      go (front, rest, e, l, m) = (x ∷ front, rest, ap (◌∷◌ x) e, ap suc l, omega arith)

  pub slice_to_exact : (xs ys : List A) (n : ℕ) → n ≡ length xs → slice_to (xs ++ ys) n ≡ ok xs
  slice_to_exact xs ys n h = rw h (slice_to-append xs ys)

  pub slice_from_exact : (xs ys : List A) (n : ℕ) → n ≡ length xs → slice_from (xs ++ ys) n ≡ ok ys
  slice_from_exact xs ys n h = rw h (slice_from-append xs ys)

  pub length-copy_at : (xs : List A) (i : ℕ) (ys : List A) → length (copy_at xs i ys) ≡ length xs
  length-copy_at [] i ys = refl
  length-copy_at (x ∷ xs) zero [] = refl
  length-copy_at (x ∷ xs) zero (y ∷ ys) = ap suc (length-copy_at xs zero ys)
  length-copy_at (x ∷ xs) (suc i) ys = ap suc (length-copy_at xs i ys)

  pub length-replicate : (n : ℕ) (a : A) → length (replicate n a) ≡ n
  length-replicate zero a = refl
  length-replicate (suc n) a = ap suc (length-replicate n a)
