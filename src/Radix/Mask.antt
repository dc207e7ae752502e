-- ===== src/Radix/Mask.antt =====
-- radix_tree.go: `subnetToPrefixLen` counts the leading ones of a mask.
use go_software_router.Prelude.{
  ℕ, zero, suc, ◌+◌, ◌-◌, ◌/◌, ◌^◌, ◌≤◌, ◌<◌, ◌≡◌, refl, arith, bit_and, ◌==◌, Bool-cases, inl, inr,
  ℕ_discrete, ◌≢◌,
}
use go_software_router.Radix.{prefix_len_from, subnet_to_prefix_len}

-- `length` counts the ones above bit `i + 1`, and ends at the first zero.
abbrev pub LeadingOnes : ℕ → ℕ → ℕ → Type 0
LeadingOnes subnet from len =
    (from ≤ len)
    × (len ≤ 32)
    × ((j : ℕ) → from ≤ j → j < len → bit_and (subnet / 2 ^ (31 - j)) 1 ≢ 0)
    × (len < 32 → bit_and (subnet / 2 ^ (31 - len)) 1 ≡ 0)

prefix_len_from-LeadingOnes :
    (n i subnet : ℕ) → i + n ≡ 32 → LeadingOnes subnet i (prefix_len_from n i subnet i)
unfolding prefix_len_from
prefix_len_from-LeadingOnes zero i subnet h =
    (omega arith, omega arith, λ j p q. absurd (omega arith), λ p. absurd (omega arith))
prefix_len_from-LeadingOnes (suc n) i subnet h =
    elim (Bool-cases (bit_and (subnet / 2 ^ (31 - i)) 1 == 0)) [
      | inl stop ↦
          rw stop (omega arith, omega arith, λ j p q. absurd (omega arith), λ p. ground arith)
      | inr on ↦
          let ih = prefix_len_from-LeadingOnes n (i + 1) subnet (omega arith) in
          rw on (
            omega (arith, ih.0),
            ih.1,
            λ j p q. elim (ℕ_discrete j i) [
              | yes e ↦ rw e (λ z. ground arith)
              | no ne ↦ ih.2 j (omega arith) q
            ],
            ih.3,
          )
    ]

-- On any mask, `subnetToPrefixLen` gives the number of its leading ones: at most 32 bits, of which
-- each is set, and the next one, if there is one, is not.
pub subnet_to_prefix_len-LeadingOnes :
    (subnet : ℕ) → LeadingOnes subnet 0 (subnet_to_prefix_len subnet)
unfolding subnet_to_prefix_len
subnet_to_prefix_len-LeadingOnes subnet = prefix_len_from-LeadingOnes 32 0 subnet refl
