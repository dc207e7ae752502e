-- ===== src/Print.antt =====
-- utils.go: addresses as text. A string is the list of its character codes.
pub mod Laws
pub mod Macs
use go_software_router.Prelude.{
  ℕ, ◌+◌, ◌*◌, ◌/◌, ◌%◌, ◌-◌, ◌^◌, List, [], ◌∷◌, ◌++◌, ◌==◌, ltb, if◌then◌else◌, get_or,
}
use go_software_router.Wire.{uint32_to_byte}
use go_software_router.Device.{Mac, mac_to_byte}

-- A digit, lower-case above nine.
abbrev pub digit : ℕ → ℕ
digit n = if ltb n 10 then 48 + n else 87 + n

-- The verbs `%d` and `%x` on a byte.
unfoldable pub sprint_d : ℕ → List ℕ
sprint_d n =
    if ltb n 10
    then digit n ∷ []
    else if ltb n 100
    then digit (n / 10) ∷ digit (n % 10) ∷ []
    else digit (n / 100) ∷ digit (n / 10 % 10) ∷ digit (n % 10) ∷ []

unfoldable pub sprint_x : ℕ → List ℕ
sprint_x n = if ltb n 16 then digit n ∷ [] else digit (n / 16) ∷ digit (n % 16) ∷ []

-- `strings.TrimRight` with one character.
unfoldable pub trim_right : List ℕ → ℕ → List ℕ
trim_right [] c = []
trim_right (x ∷ xs) c = elim (trim_right xs c) [
  | [] ↦ if x == c then [] else x ∷ []
  | y ∷ ys ↦ x ∷ y ∷ ys
]

abbrev pub colon : ℕ
colon = 58

abbrev pub dot : ℕ
dot = 46

-- The loop of `printMacAddr`, with the text so far.
unfoldable pub print_bytes : List ℕ → List ℕ → List ℕ
unfolding sprint_x
print_bytes str [] = str
print_bytes str (v ∷ vs) = print_bytes (str ++ (sprint_x v ++ colon ∷ [])) vs

unfoldable pub print_mac_addr : Mac → List ℕ
unfolding print_bytes trim_right mac_to_byte
print_mac_addr macaddr = trim_right (print_bytes [] (mac_to_byte macaddr)) colon

unfoldable pub print_ip_addr : ℕ → List ℕ
unfolding sprint_d uint32_to_byte
print_ip_addr ip =
    let ipbyte = uint32_to_byte ip in
    sprint_d (get_or ipbyte 0 0)
    ++ (dot ∷ sprint_d (get_or ipbyte 1 0)
        ++ (dot ∷ sprint_d (get_or ipbyte 2 0) ++ (dot ∷ sprint_d (get_or ipbyte 3 0))))
