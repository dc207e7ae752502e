-- ===== src/Prelude/Bits.antt =====
-- `&`, `|` and `^` on fields of words as arithmetic, at every width.
use Prim.Native.Nat.{
  min, max, differ, digits, bitwise, bit_and-bitwise, bit_or-bitwise, bit_xor-bitwise,
}
use Prim.Native.Nat.{ℕ, zero, suc, ◌+◌, ◌-◌, ◌*◌, ◌/◌, ◌%◌, ◌^◌, ◌≤◌, ◌<◌, bit_and, bit_or, bit_xor}
use mathlib.Core.Path.{◌≡◌, refl, ap}
use native.Mathlib.Omega.{arith}
use native.Mathlib.Nat.{le_refl, pow-suc, one-le-pow, mul-one}

-- The native operations are a recursion on binary digits with fuel; more fuel changes nothing.
module _ (stop : ℕ → ℕ) (join : ℕ → ℕ → ℕ) where
  more_fuel : (f g x y : ℕ) → x ≤ f → x ≤ g → digits stop join f x y ≡ digits stop join g x y
  more_fuel zero zero x y p q = refl
  more_fuel zero (suc g) zero y p q = refl
  more_fuel zero (suc g) (suc x) y p q = absurd (omega arith)
  more_fuel (suc f) zero zero y p q = refl
  more_fuel (suc f) zero (suc x) y p q = absurd (omega arith)
  more_fuel (suc f) (suc g) zero y p q = refl
  more_fuel (suc f) (suc g) (suc x) y p q =
      rw (more_fuel f g (suc x / 2) (y / 2) (omega arith) (omega arith))

  last_digit :
      (x y : ℕ)
      → bitwise stop join (suc x) y
        ≡ bitwise stop join (suc x / 2) (y / 2) * 2 + join (suc x % 2) (y % 2)
  last_digit x y =
      omega (arith, more_fuel x (suc x / 2) (suc x / 2) (y / 2) (omega arith) (le_refl _))

bit_or-halves : (x y : ℕ) → bit_or x y ≡ bit_or (x / 2) (y / 2) * 2 + max (x % 2) (y % 2)
bit_or-halves zero y = simp bit_or-bitwise (omega arith)
bit_or-halves (suc x) y = simp bit_or-bitwise (last_digit (λ b. b) max x y)

bit_and-halves : (x y : ℕ) → bit_and x y ≡ bit_and (x / 2) (y / 2) * 2 + min (x % 2) (y % 2)
bit_and-halves zero y = simp bit_and-bitwise (omega arith)
bit_and-halves (suc x) y = simp bit_and-bitwise (last_digit (λ b. zero) min x y)

bit_xor-halves : (x y : ℕ) → bit_xor x y ≡ bit_xor (x / 2) (y / 2) * 2 + differ (x % 2) (y % 2)
bit_xor-halves zero y = simp bit_xor-bitwise (ground arith)
bit_xor-halves (suc x) y = simp bit_xor-bitwise (last_digit (λ b. b) differ x y)

double_shift : (q k : ℕ) → q * 2 ^ suc k ≡ 2 * (q * 2 ^ k)
double_shift q k = let twice = pow-suc 2 k in omega (arith, ap (◌*◌ q) twice)

bit_or-zero : (f x : ℕ) → x ≤ f → bit_or x 0 ≡ x
bit_or-zero f zero h = refl
bit_or-zero zero (suc x) h = absurd (omega arith)
bit_or-zero (suc f) (suc x) h =
    omega (arith, bit_or-halves (suc x) 0, bit_or-zero f (suc x / 2) (omega arith))

zero-bit_or : (x : ℕ) → bit_or 0 x ≡ x
zero-bit_or x = bit_or-bitwise 0 x

bit_and-zero : (f x : ℕ) → x ≤ f → bit_and x 0 ≡ 0
bit_and-zero f zero h = refl
bit_and-zero zero (suc x) h = absurd (omega arith)
bit_and-zero (suc f) (suc x) h =
    omega (arith, bit_and-halves (suc x) 0, bit_and-zero f (suc x / 2) (omega arith))

-- A field shifted above `k` bits, joined with a value of `k` bits.
pub bit_or_fields : (k q r : ℕ) → r < 2 ^ k → bit_or (q * 2 ^ k) r ≡ q * 2 ^ k + r
bit_or_fields zero q r h = ground (arith, bit_or-zero q q)
bit_or_fields (suc k) q r h = ground (
  arith,
  bit_or-halves (q * 2 ^ suc k) r,
  double_shift q k,
  pow-suc 2 k,
  bit_or_fields k q (r / 2),
)

low_field : (k q r : ℕ) → r < 2 ^ k → bit_and (q * 2 ^ k + r) (2 ^ k - 1) ≡ r
low_field zero q r h = omega (arith, bit_and-zero (q * 2 ^ 0 + r) (q * 2 ^ 0 + r) (le_refl _))
low_field (suc k) q r h = ground (
  arith,
  bit_and-halves (q * 2 ^ suc k + r) (2 ^ suc k - 1),
  double_shift q k,
  pow-suc 2 k,
  one-le-pow k 2,
  low_field k q (r / 2),
)

-- A mask of the `k` low bits is the remainder by `2 ^ k`.
pub bit_and_mask : (k x : ℕ) → bit_and x (2 ^ k - 1) ≡ x % 2 ^ k
bit_and_mask k x = ground (arith, one-le-pow k 2, low_field k (x / 2 ^ k) (x % 2 ^ k))

digit_flip : (d : ℕ) → d < 2 → differ d 1 ≡ 1 - d
digit_flip zero h = refl
digit_flip (suc zero) h = refl
digit_flip (suc (suc d)) h = absurd (omega arith)

mask_odd : (k : ℕ) → ((2 ^ suc k - 1) % 2 ≡ 1) × ((2 ^ suc k - 1) / 2 ≡ 2 ^ k - 1)
mask_odd k = omega (arith, pow-suc 2 k, one-le-pow k 2)

-- `^` with a mask of ones is the complement.
pub bit_xor_mask : (k x : ℕ) → x < 2 ^ k → bit_xor x (2 ^ k - 1) ≡ 2 ^ k - 1 - x
bit_xor_mask zero zero h = refl
bit_xor_mask zero (suc x) h = absurd (omega arith)
bit_xor_mask (suc k) x h =
    let ih = bit_xor_mask k (x / 2) (omega (arith, pow-suc 2 k)) in
    rw (bit_xor-halves x (2 ^ suc k - 1), (mask_odd k).0, (mask_odd k).1, ih)
      (omega (arith, pow-suc 2 k, one-le-pow k 2, digit_flip (x % 2) (omega arith)))

-- Shifting both operands shifts the result.
pub bit_and_shift : (k x y : ℕ) → bit_and (x * 2 ^ k) (y * 2 ^ k) ≡ bit_and x y * 2 ^ k
bit_and_shift zero x y = simp mul-one refl
bit_and_shift (suc k) x y = ground (
  arith,
  bit_and-halves (x * 2 ^ suc k) (y * 2 ^ suc k),
  double_shift x k,
  double_shift y k,
  double_shift (bit_and x y) k,
  bit_and_shift k x y,
)

and_le-fuel : (f x y : ℕ) → x ≤ f → bit_and x y ≤ x
and_le-fuel f zero y h = omega (arith, bit_and-bitwise 0 y)
and_le-fuel zero (suc x) y h = absurd (omega arith)
and_le-fuel (suc f) (suc x) y h =
    let ih = and_le-fuel f (suc x / 2) (y / 2) (omega arith) in
    ground (arith, bit_and-halves (suc x) y)

-- A masked number is at most the number.
pub bit_and_le : (x y : ℕ) → bit_and x y ≤ x
bit_and_le x y = and_le-fuel x x y (omega arith)
