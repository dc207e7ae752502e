-- ===== src/Checksum/Sum.antt =====
-- What the summing loops compute.
use go_software_router.Prelude.{
  ℕ, true, false, ◌+◌, ◌*◌, ◌%◌, ◌^◌, ◌≤◌, ◌<◌, ◌≡◌, ap, ◌∙◌, arith, List, [], ◌∷◌, ◌++◌, ok, crash,
  panic, u32, u64, length, IsBytes, ◌==◌,
}
use go_software_router.Prelude.Bits.{bit_and_mask}
use go_software_router.Wire.{byte_to_uint16, uint16_to_byte, uint32_to_byte}
use go_software_router.Checksum.{
  sum_even, sum_byte_arr, checksum_partial, pseudo_header_sum, pseudo_header,
}

-- The sum of the big-endian 16-bit words; a last odd byte stands for a word with a zero after it.
abbrev pub word_sum : List ℕ → ℕ
word_sum [] = 0
word_sum (x ∷ []) = x * 256
word_sum (x ∷ y ∷ rest) = (x * 256 + y) + word_sum rest

pub word_sum-le : (xs : List ℕ) → IsBytes xs → 2 * word_sum xs ≤ 65535 * (length xs + 1)
word_sum-le [] b = omega arith
word_sum-le (x ∷ []) b = omega arith
word_sum-le (x ∷ y ∷ rest) b = omega (arith, word_sum-le rest b.1.1)

sum_even-word_sum :
    (i : ℕ) (xs : List ℕ) (sum : ℕ)
    → i % 2 ≡ 0
    → length xs % 2 ≡ 0
    → sum < 2 ^ 64
    → sum_even i xs sum ≡ ok (u64 (sum + word_sum xs))
unfolding sum_even byte_to_uint16
sum_even-word_sum i [] sum hi hl hs = ground arith
sum_even-word_sum i (x ∷ []) sum hi hl hs = absurd (omega arith)
sum_even-word_sum i (x ∷ y ∷ rest) sum hi hl hs =
    let now : (i % 2 == 0) ≡ true = ground arith in
    let after : ((i + 1) % 2 == 0) ≡ false = ground arith in
    let sum' = u64 (sum + (x * 2 ^ 8 + y)) in
    let ih = sum_even-word_sum (i + 1 + 1) rest sum' (omega arith) (omega arith) (omega arith) in
    rw (now, after) (ih ∙ ap ok (omega arith))

sum_even_odd :
    (i : ℕ) (xs : List ℕ) (sum : ℕ)
    → i % 2 ≡ 0
    → length xs % 2 ≡ 1
    → sum_even i xs sum ≡ crash panic
unfolding sum_even byte_to_uint16
sum_even_odd i [] sum hi hl = absurd (omega arith)
sum_even_odd i (x ∷ []) sum hi hl = ground arith
sum_even_odd i (x ∷ y ∷ rest) sum hi hl =
    ground (arith, sum_even_odd (i + 1 + 1) rest (u64 (sum + (x * 2 ^ 8 + y))))

-- On an even number of bytes `sumByteArr` is the sum of the big-endian words, modulo 2 ^ 64.
sum_byte_arr-word_sum : (xs : List ℕ) → length xs % 2 ≡ 0 → sum_byte_arr xs ≡ ok (u64 (word_sum xs))
unfolding sum_byte_arr
sum_byte_arr-word_sum xs h = ground (arith, sum_even-word_sum 0 xs 0)

-- On an odd number of bytes `sumByteArr` panics: at the last index it reads a word from one byte.
pub sum_byte_arr_odd : (xs : List ℕ) → length xs % 2 ≡ 1 → sum_byte_arr xs ≡ crash panic
unfolding sum_byte_arr
sum_byte_arr_odd xs h = ground (arith, sum_even_odd 0 xs 0)

-- `ChecksumPartial` adds the words of any number of bytes, a last odd one as a high half, to an initial sum below 2 ^ 32,
-- modulo 2 ^ 32.
pub checksum_partial-word_sum :
    (xs : List ℕ) (sum : ℕ) → sum < 2 ^ 32 → checksum_partial xs sum ≡ u32 (sum + word_sum xs)
unfolding checksum_partial
checksum_partial-word_sum [] sum h = omega arith
checksum_partial-word_sum (x ∷ []) sum h = omega arith
checksum_partial-word_sum (x ∷ y ∷ rest) sum h =
    omega (arith, checksum_partial-word_sum rest (u32 (sum + (x * 2 ^ 8 + y))) (omega arith))

pub word_sum-append :
    (xs ys : List ℕ) → length xs % 2 ≡ 0 → word_sum (xs ++ ys) ≡ word_sum xs + word_sum ys
word_sum-append [] ys h = omega arith
word_sum-append (x ∷ []) ys h = absurd (omega arith)
word_sum-append (x ∷ y ∷ rest) ys h = omega (arith, word_sum-append rest ys (omega arith))

pub pseudo_header-words :
    (src dst proto len : ℕ)
    → src < 2 ^ 32
    → dst < 2 ^ 32
    → proto < 2 ^ 8
    → len < 2 ^ 16
    → word_sum (pseudo_header src dst proto len) ≡ pseudo_header_sum src dst proto len
unfolding pseudo_header_sum uint16_to_byte uint32_to_byte
pseudo_header-words src dst proto len hs hd hp hl =
    omega (arith, bit_and_mask 16 src, bit_and_mask 16 dst)

-- The sum of at most 2 ^ 32 bytes does not wrap.
pub sum_byte_arr_short :
    (xs : List ℕ)
    → IsBytes xs
    → length xs % 2 ≡ 0
    → length xs ≤ 2 ^ 32
    → sum_byte_arr xs ≡ ok (word_sum xs)
sum_byte_arr_short xs b h s = sum_byte_arr-word_sum xs h ∙ ap ok (omega (arith, word_sum-le xs b))
