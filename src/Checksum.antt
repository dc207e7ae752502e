-- ===== src/Checksum.antt =====
-- utils.go, the Internet checksum: `sumByteArr`, `foldChecksum`, `calcChecksum`,
-- `pseudoHeaderSum`; and packetPool.go: `ChecksumPartial`, `FinalizeChecksum`,
-- `ComputeL4ChecksumZeroCopy`.
pub mod Fold
pub mod Sum
pub mod ZeroCopy
use mathlib.Core.Logic.{dite}
use mathlib.Core.WellFounded.{Acc}
use go_software_router.Prelude.{
  ℕ, zero, suc, ◌+◌, ◌-◌, ◌*◌, ◌/◌, ◌%◌, ◌^◌, ◌<◌, ◌≡◌, List, [], ◌∷◌, ◌++◌, Result, ok, crash,
  ◌>>=◌, arith, u8, u16, u32, u64, bit_and, bit_xor, ◌==◌, if◌then◌else◌, length, at, dec_lt,
}
use go_software_router.Prelude.Bits.{bit_and_mask}
use go_software_router.Prelude.Order.{lt_wf}
use go_software_router.Wire.{byte_to_uint16, uint16_to_byte, uint32_to_byte}

-- One round of `sum = (sum & 0xffff) + sum>>16`.
abbrev pub fold_step : ℕ → ℕ
fold_step sum = bit_and sum 0xffff + sum / 2 ^ 16

pub fold_step-lt : (sum : ℕ) → 0 < sum / 2 ^ 16 → fold_step sum < sum
fold_step-lt sum h = omega (arith, bit_and_mask 16 sum)

-- The loop of both `foldChecksum` and `FinalizeChecksum`, until `sum >> 16` is 0.
pub fold_carry : (sum : ℕ) → Acc ◌<◌ sum → ℕ
fold_carry sum (Acc.intro _ smaller) =
    dite (dec_lt 0 (sum / 2 ^ 16))
      (λ h. fold_carry (fold_step sum) (smaller (fold_step sum) (fold_step-lt sum h))) (λ _. sum)

unfoldable pub fold_checksum : ℕ → ℕ
unfolding fold_carry lt_wf dec_lt
fold_checksum sum = u16 (bit_xor (fold_carry sum (lt_wf.apply sum)) 0xffff)

-- `for i := range packet` of `sumByteArr`, at index `i` with `packet[i:]` left.
pub sum_even : ℕ → List ℕ → ℕ → Result ℕ
sum_even i [] sum = ok sum
sum_even i (x ∷ xs) sum = do
  sum' ← if i % 2 == 0 then (byte_to_uint16 (x ∷ xs) >>= λ word. ok (u64 (sum + word))) else ok sum
  sum_even (i + 1) xs sum'

unfoldable pub sum_byte_arr : List ℕ → Result ℕ
unfolding sum_even byte_to_uint16
sum_byte_arr packet = do
  sum ← sum_even 0 packet 0
  if length packet % 2 == 1
      then (at packet (length packet - 1) >>= λ last. ok (u64 (sum + last * 2 ^ 8)))
      else ok sum

unfoldable pub calc_checksum : List ℕ → Result (List ℕ)
unfolding sum_byte_arr fold_checksum uint16_to_byte
calc_checksum packet = do sum ← sum_byte_arr packet; ok (uint16_to_byte (fold_checksum sum))

-- The words of the addresses, the protocol and the length.
unfoldable pub pseudo_header_sum : ℕ → ℕ → ℕ → ℕ → ℕ
pseudo_header_sum src_addr dest_addr protocol l4_len = u64 (
    src_addr / 2 ^ 16
    + bit_and src_addr 0xffff
    + dest_addr / 2 ^ 16
    + bit_and dest_addr 0xffff
    + protocol
    + l4_len)

-- `ChecksumPartial`: two bytes at a time while two are left, then a last odd byte.
unfoldable pub checksum_partial : List ℕ → ℕ → ℕ
checksum_partial [] sum = sum
checksum_partial (x ∷ []) sum = u32 (sum + x * 2 ^ 8)
checksum_partial (x ∷ y ∷ rest) sum = checksum_partial rest (u32 (sum + (x * 2 ^ 8 + y)))

-- `^uint16(sum)` is the complement of the low word.
unfoldable pub finalize_checksum : ℕ → ℕ
unfolding fold_carry lt_wf dec_lt
finalize_checksum sum = bit_xor (u16 (fold_carry sum (lt_wf.apply sum))) 0xffff

-- The twelve bytes of the pseudo header on the stack.
abbrev pub pseudo_header : ℕ → ℕ → ℕ → ℕ → List ℕ
pseudo_header src_ip dst_ip proto l4_len =
    uint32_to_byte src_ip ++ (uint32_to_byte dst_ip ++ (0 ∷ proto ∷ uint16_to_byte (u16 l4_len)))

unfoldable pub compute_l4_checksum_zero_copy : ℕ → ℕ → ℕ → List ℕ → ℕ
unfolding checksum_partial finalize_checksum uint16_to_byte uint32_to_byte
compute_l4_checksum_zero_copy src_ip dst_ip proto l4_data = finalize_checksum (
    checksum_partial l4_data
      (checksum_partial (pseudo_header src_ip dst_ip proto (length l4_data)) 0))
