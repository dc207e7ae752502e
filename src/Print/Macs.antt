-- ===== src/Print/Macs.antt =====
-- The text of a hardware address.
use mathlib.Core.List.{append-nil, append_assoc}
use go_software_router.Prelude.{
  ℕ, suc, ◌/◌, ◌%◌, ◌<◌, ◌≡◌, ◌≢◌, refl, sym, ap, ◌∙◌, List, [], ◌∷◌, ◌++◌, true, ◌==◌, ltb,
  if◌then◌else◌, Bool-cases, inl, inr, arith, check_below, check_below_sound, IsBytes, length,
  length-append, not, get_or, ==_iff, map,
}
use go_software_router.Device.{Mac, mac_to_byte}
use go_software_router.Print.{digit, sprint_x, trim_right, print_bytes, print_mac_addr, colon}
use go_software_router.Print.Laws.{
  read_fields, Ends-end, Ends-colon, read_number-sprint_x, read_fields-field, read_fields-last,
}

-- A separator at the end is cut off, and a text that ends in another character stays.
trim_right-last : (xs : List ℕ) (x c : ℕ) → x ≢ c → trim_right (xs ++ x ∷ []) c ≡ xs ++ x ∷ []
unfolding trim_right
trim_right-last [] x c ne = ground arith
trim_right-last (y ∷ xs) x c ne = rw (trim_right-last xs x c ne) (not_empty xs)
  where
    not_empty :
        (zs : List ℕ)
        → elim (zs ++ x ∷ []) [ [] ↦ if y == c then [] else y ∷ [] | w ∷ ws ↦ y ∷ w ∷ ws ]
          ≡ y ∷ (zs ++ x ∷ [])
    not_empty [] = refl
    not_empty (z ∷ zs) = refl

trim_right-separator : (xs : List ℕ) (c : ℕ) → trim_right (xs ++ c ∷ []) c ≡ trim_right xs c
unfolding trim_right
trim_right-separator [] c = ground arith
trim_right-separator (x ∷ xs) c = rw (trim_right-separator xs c) refl

trim_right-append :
    (xs ys : List ℕ) (c : ℕ)
    → 0 < length (trim_right ys c)
    → trim_right (xs ++ ys) c ≡ xs ++ trim_right ys c
unfolding trim_right
trim_right-append [] ys c h = refl
trim_right-append (x ∷ xs) ys c h =
    rw (trim_right-append xs ys c h)
      (not_empty (xs ++ trim_right ys c) (omega (arith, length-append xs (trim_right ys c), h)))
  where
    not_empty :
        (zs : List ℕ)
        → 0 < length zs
        → elim zs [ [] ↦ if x == c then [] else x ∷ [] | w ∷ ws ↦ x ∷ w ∷ ws ] ≡ x ∷ zs
    not_empty [] l = absurd (omega arith)
    not_empty (z ∷ zs) l = refl

no_colons : check_below (λ n. not (digit n == colon)) 16 ≡ true
no_colons = refl

digit_not_colon : (n : ℕ) → n < 16 → digit n ≢ colon
digit_not_colon n h e =
    let checked = check_below_sound (λ m. not (digit m == colon)) 16 n no_colons h in
    apart (digit n) checked e
  where
    apart : (c : ℕ) → not (c == colon) ≡ true → c ≢ colon
    apart c checked same = ground arith

trim_right-sprint_x : (b : ℕ) → b < 256 → trim_right (sprint_x b) colon ≡ sprint_x b
unfolding sprint_x
trim_right-sprint_x b h = elim (Bool-cases (ltb b 16)) [
  | inl one ↦ rw one (trim_right-last [] (digit b) colon (digit_not_colon b (ground arith)))
  | inr two ↦ rw two (
      trim_right-last (digit (b / 16) ∷ []) (digit (b % 16)) colon
        (digit_not_colon (b % 16) (omega arith)))
]

length-sprint_x : (b : ℕ) → 0 < length (sprint_x b)
unfolding sprint_x
length-sprint_x b = elim (Bool-cases (ltb b 16)) [
  | inl one ↦ rw one (omega arith)
  | inr two ↦ rw two (omega arith)
]

-- Every byte with a colon behind it, and the same without the last colon.
abbrev joined : List ℕ → List ℕ
joined [] = []
joined (v ∷ vs) = sprint_x v ++ (colon ∷ joined vs)

abbrev separated : ℕ → List ℕ → List ℕ
separated v [] = sprint_x v
separated v (w ∷ vs) = sprint_x v ++ (colon ∷ separated w vs)

print_bytes-joined : (str vs : List ℕ) → print_bytes str vs ≡ str ++ joined vs
unfolding print_bytes
print_bytes-joined str [] = sym (append-nil str)
print_bytes-joined str (v ∷ vs) =
    print_bytes-joined (str ++ (sprint_x v ++ colon ∷ [])) vs
    ∙ (append_assoc str (sprint_x v ++ colon ∷ []) (joined vs)
        ∙ ap (◌++◌ str) (append_assoc (sprint_x v) (colon ∷ []) (joined vs)))

length-separated : (v : ℕ) (vs : List ℕ) → 0 < length (separated v vs)
length-separated v [] = length-sprint_x v
length-separated v (w ∷ vs) =
    omega (arith, length-append (sprint_x v) (colon ∷ separated w vs), length-sprint_x v)

trim_right-joined :
    (v : ℕ) (vs : List ℕ) → IsBytes (v ∷ vs) → trim_right (joined (v ∷ vs)) colon ≡ separated v vs
trim_right-joined v [] h = trim_right-separator (sprint_x v) colon ∙ trim_right-sprint_x v h.0
trim_right-joined v (w ∷ vs) h =
    let rest = trim_right-joined w vs h.1 in
    let whole : trim_right (colon ∷ joined (w ∷ vs)) colon ≡ colon ∷ separated w vs =
      trim_right-append (colon ∷ []) (joined (w ∷ vs)) colon (rw rest (length-separated w vs))
      ∙ ap (◌∷◌ colon) rest in
    trim_right-append (sprint_x v) (colon ∷ joined (w ∷ vs)) colon (rw whole (omega arith))
    ∙ ap (◌++◌ (sprint_x v)) whole

read_fields-separated :
    (v : ℕ) (vs : List ℕ)
    → IsBytes (v ∷ vs)
    → read_fields (suc (length vs)) 16 (separated v vs) ≡ v ∷ vs
read_fields-separated v [] h =
    read_fields-last 16 v (sprint_x v) (read_number-sprint_x v [] h.0 (Ends-end 16))
read_fields-separated v (w ∷ vs) h =
    read_fields-field (suc (length vs)) 16 v (sprint_x v) colon (separated w vs)
      (read_number-sprint_x v (colon ∷ separated w vs) h.0 (Ends-colon 16 (separated w vs)))
    ∙ ap (◌∷◌ v) (read_fields-separated w vs h.1)

-- The hexadecimal text of a byte: one digit below 16, else two, from the sixteen characters 0 to 9 and a to f.
abbrev pub hex_digits : List ℕ
hex_digits = 48 ∷ 49 ∷ 50 ∷ 51 ∷ 52 ∷ 53 ∷ 54 ∷ 55 ∷ 56 ∷ 57 ∷ 97 ∷ 98 ∷ 99 ∷ 100 ∷ 101 ∷ 102 ∷ []

abbrev pub hex : ℕ → List ℕ
hex b =
    if ltb b 16
    then get_or hex_digits b 0 ∷ []
    else get_or hex_digits (b / 16) 0 ∷ get_or hex_digits (b % 16) 0 ∷ []

digits_agree : check_below (λ n. digit n == get_or hex_digits n 0) 16 ≡ true
digits_agree = refl

digit_lem : (n : ℕ) → n < 16 → digit n ≡ get_or hex_digits n 0
digit_lem n h =
    (==_iff _ _).0 (check_below_sound (λ m. digit m == get_or hex_digits m 0) 16 n digits_agree h)

sprint_x-hex : (b : ℕ) → b < 256 → sprint_x b ≡ hex b
unfolding sprint_x
sprint_x-hex b h = elim (Bool-cases (ltb b 16)) [
  | inl one ↦ rw one (ap (λ c. c ∷ []) (digit_lem b (ground arith)))
  | inr two ↦ rw two (
      ap (λ c. c ∷ digit (b % 16) ∷ []) (digit_lem (b / 16) (omega arith))
      ∙ ap (λ c. get_or hex_digits (b / 16) 0 ∷ c ∷ []) (digit_lem (b % 16) (omega arith)))
]

-- Texts with a colon between each and the next.
abbrev pub between : List ℕ → List (List ℕ) → List ℕ
between t [] = t
between t (u ∷ us) = t ++ (58 ∷ between u us)

separated-between :
    (v : ℕ) (vs : List ℕ) → IsBytes (v ∷ vs) → separated v vs ≡ between (hex v) (map hex vs)
separated-between v [] h = sprint_x-hex v h.0
separated-between v (w ∷ vs) h =
    ap (λ t. t ++ (58 ∷ separated w vs)) (sprint_x-hex v h.0)
    ∙ ap (λ t. hex v ++ (58 ∷ t)) (separated-between w vs h.1)

-- The text that `printMacAddr` makes of six bytes is, character for character, the hexadecimal text of each in their order,
-- of one digit below 16 and else of two, with a colon between one and the next and none at the end; and it is read back,
-- number by number, as those bytes.
pub print_mac_addr_lem :
    (mac : Mac)
    → IsBytes (mac_to_byte mac)
    → (print_mac_addr mac
        ≡ between
            (hex mac.b0)
            (hex mac.b1 ∷ hex mac.b2 ∷ hex mac.b3 ∷ hex mac.b4 ∷ hex mac.b5 ∷ []))
      × (read_fields 6 16 (print_mac_addr mac) ≡ mac_to_byte mac)
unfolding print_mac_addr mac_to_byte
print_mac_addr_lem mac h =
    let rest = mac.b1 ∷ mac.b2 ∷ mac.b3 ∷ mac.b4 ∷ mac.b5 ∷ [] in
    let text : print_mac_addr mac ≡ separated mac.b0 rest =
      ap (λ t. trim_right t colon) (print_bytes-joined [] (mac.b0 ∷ rest))
      ∙ trim_right-joined mac.b0 rest h in
    (
      text ∙ separated-between mac.b0 rest h,
      ap (read_fields 6 16) text ∙ read_fields-separated mac.b0 rest h,
    )
