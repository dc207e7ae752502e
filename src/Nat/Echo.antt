-- ===== src/Nat/Echo.antt =====
-- nat.go, `natExec`: the echo message that it writes.
use go_software_router.Prelude.{
  ℕ, ◌%◌, ◌/◌, ◌-◌, ◌+◌, ◌^◌, ◌<◌, ◌≡◌, refl, ap, ◌∙◌, arith, List, [], ◌∷◌, ok, ◌>>=◌, length,
  IsBytes, copy_at,
}
use go_software_router.Wire.{uint16_to_byte}
use go_software_router.Checksum.{fold_checksum, sum_byte_arr}
use go_software_router.Checksum.Fold.{fold_checksum_fill, fold_checksum-lt}
use go_software_router.Checksum.Sum.{word_sum, sum_byte_arr_short}
use go_software_router.Nat.L4.{icmp_cleared, icmp_segment}

abbrev pub echo_bytes : ℕ → ℕ → ℕ → ℕ → List ℕ → List ℕ
echo_bytes t k c identity rest = t ∷ k ∷ c / 256 ∷ c % 256 ∷ identity / 256 ∷ identity % 256 ∷ rest

copy_at-nothing : (xs : List ℕ) → copy_at xs 0 [] ≡ xs
copy_at-nothing [] = refl
copy_at-nothing (x ∷ xs) = refl

icmp_cleared_lem :
    (t k c d e f identity : ℕ) (rest : List ℕ)
    → identity < 2 ^ 16
    → icmp_cleared identity (t ∷ k ∷ c ∷ d ∷ e ∷ f ∷ rest) ≡ echo_bytes t k 0 identity rest
unfolding uint16_to_byte
icmp_cleared_lem t k c d e f identity rest h = ground (arith, copy_at-nothing rest)

fill_lem :
    (t k c identity : ℕ) (rest : List ℕ)
    → c < 2 ^ 16
    → copy_at (echo_bytes t k 0 identity rest) 2 (uint16_to_byte c) ≡ echo_bytes t k c identity rest
unfolding uint16_to_byte
fill_lem t k c identity rest h = ground (arith, copy_at-nothing rest)

echo_sum :
    (t k c identity : ℕ) (rest : List ℕ)
    → c < 2 ^ 16
    → word_sum (echo_bytes t k c identity rest) ≡ word_sum (echo_bytes t k 0 identity rest) + c
echo_sum t k c identity rest h = omega arith

-- A message of an even number of bytes, at least six and fewer than 2 ^ 32, with any type and code, is written with
-- the new identifier, a 16-bit number, in bytes 4 and 5 and a checksum in bytes 2 and 3 under which the receiver's sum
-- over all bytes is right; the other bytes are as they were.
pub icmp_segment_lem :
    (t k c d e f identity : ℕ) (rest : List ℕ)
    → IsBytes (t ∷ k ∷ c ∷ d ∷ e ∷ f ∷ rest)
    → identity < 2 ^ 16
    → length rest % 2 ≡ 0
    → length rest < 2 ^ 32 - 6
    → (sum n : ℕ) × (icmp_segment identity (t ∷ k ∷ c ∷ d ∷ e ∷ f ∷ rest)
        ≡ ok (echo_bytes t k sum identity rest))
      × (sum < 2 ^ 16)
      × (sum_byte_arr (echo_bytes t k sum identity rest) ≡ ok n)
      × (fold_checksum n ≡ 0)
unfolding icmp_segment
icmp_segment_lem t k c d e f identity rest b hi even short =
    let zeroed = echo_bytes t k 0 identity rest in
    let w = word_sum zeroed in
    let s = fold_checksum w in
    let hs : s < 2 ^ 16 = fold_checksum-lt w in
    let bytes_of : (x : ℕ) → x < 2 ^ 16 → IsBytes (echo_bytes t k x identity rest) = λ x h. (
      omega arith,
      (omega arith, (omega arith, (omega arith, (omega arith, (omega arith, b.1.1.1.1.1.1))))),
    ) in
    let total : sum_byte_arr zeroed ≡ ok w =
      sum_byte_arr_short zeroed (bytes_of 0 (omega arith)) (omega arith) (omega arith) in
    (
      s,
      w + s,
      ap (λ z. sum_byte_arr z >>= λ x. ok (copy_at z 2 (uint16_to_byte (fold_checksum x))))
            (icmp_cleared_lem t k c d e f identity rest hi)
          ∙ (ap (λ y. y >>= λ x. ok (copy_at zeroed 2 (uint16_to_byte (fold_checksum x)))) total
              ∙ ap ok (fill_lem t k s identity rest hs)),
      hs,
      sum_byte_arr_short (echo_bytes t k s identity rest) (bytes_of s hs) (omega arith)
            (omega arith)
          ∙ ap ok (echo_sum t k s identity rest hs),
      fold_checksum_fill w,
    )
