-- ===== src/Checksum/ZeroCopy.antt =====
-- packetPool.go, `ComputeL4ChecksumZeroCopy`, against the sums that nat.go and utils.go compute.
use go_software_router.Prelude.{
  ℕ, ◌+◌, ◌-◌, ◌%◌, ◌^◌, ◌<◌, ◌≡◌, sym, ap, ◌∙◌, arith, List, ok, ◌>>=◌, u32, u64, length, IsBytes,
}
use go_software_router.Prelude.Bits.{bit_and_mask}
use go_software_router.Checksum.{
  fold_checksum, finalize_checksum, sum_byte_arr, checksum_partial, pseudo_header_sum,
  pseudo_header, compute_l4_checksum_zero_copy,
}
use go_software_router.Checksum.Fold.{fold_checksum-ones, finalize_checksum-ones}
use go_software_router.Checksum.Sum.{
  word_sum, word_sum-le, sum_byte_arr_short, checksum_partial-word_sum, pseudo_header-words,
}

pub pseudo_header_sum-le :
    (src dst proto len : ℕ)
    → src < 2 ^ 32
    → dst < 2 ^ 32
    → proto < 2 ^ 8
    → len < 2 ^ 16
    → pseudo_header_sum src dst proto len < 2 ^ 19
unfolding pseudo_header_sum
pseudo_header_sum-le src dst proto len hs hd hp hl =
    omega (arith, bit_and_mask 16 src, bit_and_mask 16 dst)

-- On a segment of fewer than 2 ^ 16 bytes, also an odd number of them, the checksum that reads in place is the
-- folded sum of the pseudo header and of the segment's words. The addresses and the protocol fit
-- their widths.
pub compute_l4_checksum_zero_copy-word_sum :
    (src dst proto : ℕ) (xs : List ℕ)
    → src < 2 ^ 32
    → dst < 2 ^ 32
    → proto < 2 ^ 8
    → length xs < 2 ^ 16
    → IsBytes xs
    → compute_l4_checksum_zero_copy src dst proto xs
      ≡ fold_checksum (pseudo_header_sum src dst proto (length xs) + word_sum xs)
unfolding compute_l4_checksum_zero_copy
compute_l4_checksum_zero_copy-word_sum src dst proto xs hs hd hp hl b =
    let p = pseudo_header_sum src dst proto (length xs) in
    let w = word_sum xs in
    let hP : p < 2 ^ 19 = pseudo_header_sum-le src dst proto (length xs) hs hd hp hl in
    let hw : w < 2 ^ 32 - 2 ^ 19 = omega (arith, word_sum-le xs b) in
    let first : checksum_partial (pseudo_header src dst proto (length xs)) 0 ≡ p =
      checksum_partial-word_sum (pseudo_header src dst proto (length xs)) 0 (omega arith)
      ∙ (ap (λ n. u32 (0 + n)) (pseudo_header-words src dst proto (length xs) hs hd hp hl)
          ∙ omega arith) in
    let second : checksum_partial xs p ≡ p + w =
      checksum_partial-word_sum xs p (omega arith) ∙ omega arith in
    ap finalize_checksum (ap (checksum_partial xs) first ∙ second)
    ∙ (finalize_checksum-ones (p + w) ∙ sym (fold_checksum-ones (p + w)))

-- On an even number of bytes it is the checksum that `natExec` computes with `sumByteArr` and
-- `pseudoHeaderSum`, under the same bounds.
pub compute_l4_checksum_zero_copy-sum_byte_arr :
    (src dst proto : ℕ) (xs : List ℕ)
    → src < 2 ^ 32
    → dst < 2 ^ 32
    → proto < 2 ^ 8
    → length xs < 2 ^ 16
    → IsBytes xs
    → length xs % 2 ≡ 0
    → (sum_byte_arr xs >>= λ s.
        ok (fold_checksum (u64 (pseudo_header_sum src dst proto (length xs) + s))))
      ≡ ok (compute_l4_checksum_zero_copy src dst proto xs)
compute_l4_checksum_zero_copy-sum_byte_arr src dst proto xs hs hd hp hl b even =
    let hP = pseudo_header_sum-le src dst proto (length xs) hs hd hp hl in
    rw
      (
        sum_byte_arr_short xs b even (omega arith),
        compute_l4_checksum_zero_copy-word_sum src dst proto xs hs hd hp hl b,
      )
      (ap (λ n. ok (fold_checksum n)) (omega (arith, hP, word_sum-le xs b)))
