-- ===== src/Radix/Prefix.antt =====
-- The bits that a path compares are the high parts of two addresses.
use native.Mathlib.Nat.{pow-suc, div-div-eq-div-mul}
use go_software_router.Prelude.{
  ℕ, zero, suc, ◌+◌, ◌-◌, ◌/◌, ◌%◌, ◌^◌, ◌≤◌, ◌<◌, ◌≡◌, refl, sym, ap, ◌∙◌, arith, ◌==◌, length,
  eq→==, ne→==, ℕ_discrete,
}
use go_software_router.Prelude.Bits.{bit_and_mask}
use go_software_router.Radix.{bit}
use go_software_router.Radix.Paths.{bits_from, same_bit}
use go_software_router.Radix.Longest.{starts}

-- The top `k` bits of an address.
abbrev pub top : ℕ → ℕ → ℕ
top addr k = addr / 2 ^ (32 - k)

bit-top : (addr i : ℕ) → bit addr i ≡ (top addr i % 2 == 1)
bit-top addr i = rw (bit_and_mask 1 (addr / 2 ^ (32 - i)))

top-halve : (addr i : ℕ) → i < 32 → top addr i ≡ top addr (i + 1) / 2
top-halve addr i h =
    let e : 32 - i ≡ suc (32 - (i + 1)) = omega arith in
    rw (e, pow-suc) (sym (div-div-eq-div-mul addr (2 ^ (32 - (i + 1))) 2))

pub length-bits_from : (n i addr : ℕ) → length (bits_from n i addr) ≡ n
length-bits_from zero i addr = refl
length-bits_from (suc n) i addr = ap suc (length-bits_from n (i + 1) addr)

-- If the top bits agree up to `i + n`, they agree up to `i`.
top_shorter : (n i x y : ℕ) → i + n ≤ 32 → top x (i + n) ≡ top y (i + n) → top x i ≡ top y i
top_shorter zero i x y h e = let z : i + 0 ≡ i = omega arith in rw z at e
top_shorter (suc n) i x y h e =
    let s : i + suc n ≡ i + 1 + n = omega arith in
    let next = top_shorter n (i + 1) x y (omega arith) (rw s at e) in
    top-halve x i (omega arith) ∙ (ap (λ (t : ℕ). t / 2) next ∙ sym (top-halve y i (omega arith)))

-- With the bits before them equal, two bits are equal exactly if the bits up to them are.
same_bit-top :
    (i x y : ℕ)
    → i < 32
    → top x i ≡ top y i
    → same_bit (bit x (i + 1)) (bit y (i + 1)) ≡ (top x (i + 1) == top y (i + 1))
same_bit-top i x y h e =
    rw (bit-top x (i + 1), bit-top y (i + 1))
      (decide_bits (top x (i + 1)) (top y (i + 1)) (sym (top-halve x i h) ∙ (e ∙ top-halve y i h)))
  where
    decide_bits : (a b : ℕ) → a / 2 ≡ b / 2 → same_bit (a % 2 == 1) (b % 2 == 1) ≡ (a == b)
    decide_bits a b halves = ground arith

-- Where the first `i` bits agree, the next `n` agree exactly if the first `i + n` do.
starts-top :
    (n m i x y : ℕ)
    → n ≤ m
    → i + n ≤ 32
    → top x i ≡ top y i
    → starts (bits_from n (i + 1) x) (bits_from m (i + 1) y) ≡ (top x (i + n) == top y (i + n))
starts-top zero m i x y h fits e =
    let z : i + 0 ≡ i = omega arith in rw z (sym (eq→== (top x i) (top y i) e))
starts-top (suc n) zero i x y h fits e = absurd (omega arith)
starts-top (suc n) (suc m) i x y h fits e =
    let s : i + suc n ≡ i + 1 + n = omega arith in
    let here = same_bit-top i x y (omega arith) e in
    elim (ℕ_discrete (top x (i + 1)) (top y (i + 1))) [
      | yes eq ↦
          rw (here, eq→== (top x (i + 1)) (top y (i + 1)) eq, s)
            (starts-top n m (i + 1) x y (omega arith) (omega arith) eq)
      | no ne ↦ rw (
        here,
        ne→== (top x (i + 1)) (top y (i + 1)) ne,
        s,
        ne→== (top x (i + 1 + n)) (top y (i + 1 + n))
            (λ later. ne (top_shorter n (i + 1) x y (omega arith) later)),
      )
    ]

-- On 32-bit addresses, the first `n` bits agree exactly if the high parts are equal.
pub starts-prefix :
    (n x y : ℕ)
    → n ≤ 32
    → x < 2 ^ 32
    → y < 2 ^ 32
    → starts (bits_from n 1 x) (bits_from 32 1 y) ≡ (top x n == top y n)
starts-prefix n x y h hx hy =
    let z : 0 + n ≡ n = omega arith in rw z at (starts-top n 32 0 x y h (omega arith) (omega arith))
