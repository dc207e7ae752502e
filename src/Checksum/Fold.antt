-- ===== src/Checksum/Fold.antt =====
-- What folding the carries computes: the sum modulo 2 ^ 16 - 1, with 0 kept for 0 alone.
use mathlib.Core.WellFounded.{Acc}
use mathlib.Core.Logic.{dif_pos, dif_neg}
use native.Mathlib.Bridge.{le_prop}
use go_software_router.Prelude.{
  ℕ, zero, suc, ◌+◌, ◌-◌, ◌/◌, ◌%◌, ◌^◌, ◌≤◌, ◌<◌, ◌≡◌, refl, ◌∙◌, arith, dec_lt, u16,
}
use go_software_router.Prelude.Bits.{bit_and_mask, bit_xor_mask}
use go_software_router.Prelude.Order.{lt_wf}
use go_software_router.Checksum.{
  fold_step, fold_step-lt, fold_carry, fold_checksum, finalize_checksum,
}

-- The one's complement sum, in closed form.
abbrev pub ones : ℕ → ℕ
ones zero = 0
ones (suc n) = n % 65535 + 1

ones_pos : (n : ℕ) → 0 < n → ones n ≡ (n - 1) % 65535 + 1
ones_pos zero h = absurd (omega arith)
ones_pos (suc n) h = omega arith

ones-le : (n : ℕ) → ones n ≤ 65535
ones-le zero = omega arith
ones-le (suc n) = omega arith

ones-fold_step : (n : ℕ) → 0 < n / 2 ^ 16 → ones (fold_step n) ≡ ones n
ones-fold_step n h = omega (
  arith,
  bit_and_mask 16 n,
  ones_pos n (omega arith),
  ones_pos (fold_step n) (omega (arith, bit_and_mask 16 n)),
)

ones_small : (n : ℕ) → n / 2 ^ 16 ≡ 0 → ones n ≡ n
ones_small zero h = refl
ones_small (suc n) h = omega arith

fold_carry-ones : (n : ℕ) (w : Acc ◌<◌ n) → fold_carry n w ≡ ones n
unfolding fold_carry
fold_carry-ones n (Acc.intro _ smaller) = elim (dec_lt 0 (n / 2 ^ 16)) [
  | yes h ↦ rw (dif_pos (dec_lt 0 (n / 2 ^ 16)) le_prop h) (
      fold_carry-ones (fold_step n) (smaller (fold_step n) (fold_step-lt n h)) ∙ ones-fold_step n h)
  | no h ↦ rw (dif_neg (dec_lt 0 (n / 2 ^ 16)) h) (omega (arith, ones_small n (omega arith)))
]

-- On every sum `foldChecksum` ends, and gives the complement of the sum in one's complement arithmetic: for 0 all
-- ones, else 65535 less the representative in 1 to 65535 of the sum modulo 65535.
pub fold_checksum-ones : (n : ℕ) → fold_checksum n ≡ 65535 - ones n
unfolding fold_checksum
fold_checksum-ones n =
    rw (fold_carry-ones n (lt_wf.apply n), bit_xor_mask 16 (ones n) (omega (arith, ones-le n)))
      (omega (arith, ones-le n))

-- `FinalizeChecksum`, which cuts to 16 bits before the complement, gives on every sum the same value.
pub finalize_checksum-ones : (n : ℕ) → finalize_checksum n ≡ 65535 - ones n
unfolding finalize_checksum
finalize_checksum-ones n =
    let cut : u16 (ones n) ≡ ones n = omega (arith, ones-le n) in
    rw (fold_carry-ones n (lt_wf.apply n), cut, bit_xor_mask 16 (ones n) (omega (arith, ones-le n)))

-- The checksum of a sum, added to that sum, makes it fold to all ones.
pub fold_checksum_fill : (n : ℕ) → fold_checksum (n + fold_checksum n) ≡ 0
fold_checksum_fill zero =
    let c = fold_checksum-ones 0 in
    let total = ones_pos (0 + fold_checksum 0) (omega arith) in
    omega (arith, c, total, fold_checksum-ones (0 + fold_checksum 0))
fold_checksum_fill (suc n) =
    let c = fold_checksum-ones (suc n) in
    let total = ones_pos (suc n + fold_checksum (suc n)) (omega arith) in
    omega (arith, c, total, fold_checksum-ones (suc n + fold_checksum (suc n)))

pub fold_checksum-lt : (n : ℕ) → fold_checksum n < 2 ^ 16
fold_checksum-lt n = omega (arith, fold_checksum-ones n)
