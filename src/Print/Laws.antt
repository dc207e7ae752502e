-- ===== src/Print/Laws.antt =====
-- A reader of dotted and colon-separated text, and what it reads of printed addresses.
use mathlib.Core.List.{append-nil}
use go_software_router.Prelude.{
  ℕ, zero, suc, ◌+◌, ◌*◌, ◌/◌, ◌%◌, ◌-◌, ◌^◌, ◌<◌, ◌≡◌, refl, sym, ap, ◌∙◌, List, [], ◌∷◌, ◌++◌,
  Bool, true, ◌&&◌, ◌||◌, ◌==◌, ltb, leb, if◌then◌else◌, Bool-cases, inl, inr, arith, check_below,
  check_below_sound, ==_iff, u8, ok,
}
use go_software_router.Wire.{uint32_to_byte, byte_to_uint32}
use go_software_router.Wire.Laws.{byte_to_uint32-uint32_to_byte}
use go_software_router.Print.{digit, sprint_d, sprint_x, print_ip_addr, colon, dot}

abbrev pub is_digit : ℕ → Bool
is_digit c = (leb 48 c && ltb c 58) || (leb 97 c && ltb c 103)

abbrev pub value : ℕ → ℕ
value c = if ltb c 58 then c - 48 else c - 87

-- A number in a base, from its first digit to the first other character.
unfoldable pub read_number : ℕ → ℕ → List ℕ → ℕ × List ℕ
read_number base n [] = (n, [])
read_number base n (c ∷ cs) =
    let longer = read_number base (n * base + value c) cs in
    if is_digit c then longer else (n, c ∷ cs)

abbrev pub skip_one : List ℕ → List ℕ
skip_one [] = []
skip_one (c ∷ cs) = cs

-- So many numbers, each but the last with a separator behind it.
unfoldable pub read_fields : ℕ → ℕ → List ℕ → List ℕ
unfolding read_number
read_fields zero base cs = []
read_fields (suc k) base cs =
    let read = read_number base 0 cs in read.0 ∷ read_fields k base (skip_one read.1)

are_digits : check_below (λ n. is_digit (digit n)) 16 ≡ true
are_digits = refl

have_values : check_below (λ n. value (digit n) == n) 16 ≡ true
have_values = refl

-- One digit more.
read_digit :
    (base n k : ℕ) (cs : List ℕ)
    → k < 16
    → read_number base n (digit k ∷ cs) ≡ read_number base (n * base + k) cs
unfolding read_number
read_digit base n k cs h =
    let on = check_below_sound (λ m. is_digit (digit m)) 16 k are_digits h in
    let its : value (digit k) ≡ k =
      (==_iff (value (digit k)) k).0
        (check_below_sound (λ m. value (digit m) == m) 16 k have_values h) in
    run on (ap (λ v. read_number base (n * base + v) cs) its)
  where
    run :
        is_digit (digit k) ≡ true
        → read_number base (n * base + value (digit k)) cs ≡ read_number base (n * base + k) cs
        → (if is_digit (digit k)
            then read_number base (n * base + value (digit k)) cs
            else (n, digit k ∷ cs))
          ≡ read_number base (n * base + k) cs
    run on e = rw on e

-- What ends a number.
abbrev pub Ends : ℕ → List ℕ → Type 0
Ends base cs = (n : ℕ) → read_number base n cs ≡ (n, cs)

pub Ends-end : (base : ℕ) → Ends base []
unfolding read_number
Ends-end base n = refl

Ends-dot : (base : ℕ) (cs : List ℕ) → Ends base (dot ∷ cs)
unfolding read_number
Ends-dot base cs n = refl

pub Ends-colon : (base : ℕ) (cs : List ℕ) → Ends base (colon ∷ cs)
unfolding read_number
Ends-colon base cs n = refl

taken : {b : Bool} (t u : List ℕ) → b ≡ true → (if b then t else u) ≡ t
taken t u h = rw h refl

-- A byte that was printed is read.
read_number-sprint_d :
    (b : ℕ) (cs : List ℕ) → b < 256 → Ends 10 cs → read_number 10 0 (sprint_d b ++ cs) ≡ (b, cs)
unfolding sprint_d
read_number-sprint_d b cs h ends = elim (Bool-cases (ltb b 10)) [
  | inl one ↦
      ap (λ text. read_number 10 0 (text ++ cs)) (taken (digit b ∷ []) _ one)
      ∙ (read_digit 10 0 b cs (ground arith)
          ∙ (ends (0 * 10 + b) ∙ ap (λ n. (n, cs)) (omega arith)))
  | inr more ↦ rw more (elim (Bool-cases (ltb b 100)) [
    | inl two ↦ rw two (
        read_digit 10 0 (b / 10) (digit (b % 10) ∷ cs) (ground arith)
        ∙ (read_digit 10 (0 * 10 + b / 10) (b % 10) cs (omega arith)
            ∙ (ends ((0 * 10 + b / 10) * 10 + b % 10) ∙ ap (λ n. (n, cs)) (omega arith))))
    | inr three ↦ rw three (
        read_digit 10 0 (b / 100) (digit (b / 10 % 10) ∷ digit (b % 10) ∷ cs) (omega arith)
        ∙ (read_digit 10 (0 * 10 + b / 100) (b / 10 % 10) (digit (b % 10) ∷ cs) (omega arith)
            ∙ (read_digit 10 ((0 * 10 + b / 100) * 10 + b / 10 % 10) (b % 10) cs (omega arith)
                ∙ (ends (((0 * 10 + b / 100) * 10 + b / 10 % 10) * 10 + b % 10)
                    ∙ ap (λ n. (n, cs)) (omega arith)))))
  ])
]

pub read_number-sprint_x :
    (b : ℕ) (cs : List ℕ) → b < 256 → Ends 16 cs → read_number 16 0 (sprint_x b ++ cs) ≡ (b, cs)
unfolding sprint_x
read_number-sprint_x b cs h ends = elim (Bool-cases (ltb b 16)) [
  | inl one ↦
      rw one (
        read_digit 16 0 b cs (ground arith) ∙ (ends (0 * 16 + b) ∙ ap (λ n. (n, cs)) (omega arith)))
  | inr two ↦ rw two (
      read_digit 16 0 (b / 16) (digit (b % 16) ∷ cs) (omega arith)
      ∙ (read_digit 16 (0 * 16 + b / 16) (b % 16) cs (omega arith)
          ∙ (ends ((0 * 16 + b / 16) * 16 + b % 16) ∙ ap (λ n. (n, cs)) (omega arith))))
]

-- One field of several, and the last one.
pub read_fields-field :
    (k base b : ℕ) (text : List ℕ) (c : ℕ) (cs : List ℕ)
    → read_number base 0 (text ++ (c ∷ cs)) ≡ (b, c ∷ cs)
    → read_fields (suc k) base (text ++ (c ∷ cs)) ≡ b ∷ read_fields k base cs
unfolding read_fields
read_fields-field k base b text c cs e =
    ap (λ (r : ℕ × List ℕ). r.0 ∷ read_fields k base (skip_one r.1)) e

pub read_fields-last :
    (base b : ℕ) (text : List ℕ)
    → read_number base 0 (text ++ []) ≡ (b, [])
    → read_fields 1 base text ≡ b ∷ []
unfolding read_fields
read_fields-last base b text e =
    ap (λ (r : ℕ × List ℕ). r.0 ∷ []) (ap (read_number base 0) (sym (append-nil text)) ∙ e)

dotted :
    (k b : ℕ) (cs : List ℕ)
    → b < 256
    → read_fields (suc k) 10 (sprint_d b ++ (dot ∷ cs)) ≡ b ∷ read_fields k 10 cs
dotted k b cs h =
    read_fields-field k 10 b (sprint_d b) dot cs
      (read_number-sprint_d b (dot ∷ cs) h (Ends-dot 10 cs))

-- The dotted text of an address, with a number for each byte, is read back as its four bytes.
read_fields-print_ip_addr : (ip : ℕ) → read_fields 4 10 (print_ip_addr ip) ≡ uint32_to_byte ip
unfolding print_ip_addr uint32_to_byte
read_fields-print_ip_addr ip =
    dotted 3 (u8 (ip / 2 ^ 24)) _ (omega arith)
    ∙ ap (◌∷◌ (u8 (ip / 2 ^ 24))) (
        dotted 2 (u8 (ip / 2 ^ 16)) _ (omega arith)
        ∙ ap (◌∷◌ (u8 (ip / 2 ^ 16))) (
            dotted 1 (u8 (ip / 2 ^ 8)) _ (omega arith)
            ∙ ap (◌∷◌ (u8 (ip / 2 ^ 8))) (
                read_fields-last 10 (u8 ip) (sprint_d (u8 ip))
                  (read_number-sprint_d (u8 ip) [] (omega arith) (Ends-end 10)))))

-- The text that `printIPAddr` makes of a 32-bit address is read back, number by number, as the
-- four bytes of that address.
pub byte_to_uint32-print_ip_addr :
    (ip : ℕ) → ip < 2 ^ 32 → byte_to_uint32 (read_fields 4 10 (print_ip_addr ip)) ≡ ok ip
byte_to_uint32-print_ip_addr ip h =
    ap byte_to_uint32 (read_fields-print_ip_addr ip ∙ sym (append-nil (uint32_to_byte ip)))
    ∙ byte_to_uint32-uint32_to_byte ip [] h
