-- ===== src/Wire/Total.antt =====
-- utils.go: fields read from packets that are long enough.
use go_software_router.Prelude.{
  ℕ, zero, suc, ◌+◌, ◌-◌, ◌≤◌, ◌<◌, ◌≡◌, refl, ap, ◌∙◌, List, [], ◌∷◌, Result, ok, ◌>>=◌, length,
  length-append, at, slice, slice_from, le→leb, cut, arith,
}
use go_software_router.Wire.{byte_to_uint16, byte_to_uint32}

-- A step that gives some result.
abbrev pub Gives : {A : Type 0} → Result A → Type 0
Gives {A} x = (a : A) × (x ≡ ok a)

pub Gives-bind :
    {A B : Type 0} {x : Result A} {f : A → Result B}
    → Gives x
    → ((a : A) → Gives (f a))
    → Gives (x >>= f)
Gives-bind (a, e) k = let (b, last) = k a in (b, rw e last)

pub at_total : (bs : List ℕ) (i : ℕ) → i < length bs → Gives (at bs i)
at_total [] i h = absurd (omega arith)
at_total (x ∷ bs) zero h = (x, refl)
at_total (x ∷ bs) (suc i) h = at_total bs i (omega arith)

-- A slice within the packet has the length that its bounds say.
pub slice_total :
    (bs : List ℕ) (lo hi : ℕ)
    → lo ≤ hi
    → hi ≤ length bs
    → (field : List ℕ) × (slice bs lo hi ≡ ok field) × (length field ≡ hi - lo)
slice_total bs lo hi ordered h =
    let (front, rest, p, q, e, l) = cut bs lo (omega arith) in
    let whole : length bs ≡ length front + length rest = ap length e ∙ length-append front rest in
    let (field, behind, p', q', e', l') = cut rest (hi - lo) (omega arith) in
    (field, rw (le→leb lo hi ordered, q) p', l')

-- Some bytes between the bounds.
pub bytes_total : (bs : List ℕ) (lo hi : ℕ) → lo ≤ hi → hi ≤ length bs → Gives (slice bs lo hi)
bytes_total bs lo hi ordered h = let (field, e, l) = slice_total bs lo hi ordered h in (field, e)

pub slice_from_total : (bs : List ℕ) (lo : ℕ) → lo ≤ length bs → Gives (slice_from bs lo)
slice_from_total bs lo h = let (front, rest, p, q, e, l) = cut bs lo h in (rest, q)

pub byte_to_uint16_total : (field : List ℕ) → length field ≡ 2 → Gives (byte_to_uint16 field)
unfolding byte_to_uint16
byte_to_uint16_total [] h = absurd (omega arith)
byte_to_uint16_total (x ∷ []) h = absurd (omega arith)
byte_to_uint16_total (x ∷ y ∷ rest) h = (_, refl)

byte_to_uint32_total : (field : List ℕ) → length field ≡ 4 → Gives (byte_to_uint32 field)
unfolding byte_to_uint32
byte_to_uint32_total [] h = absurd (omega arith)
byte_to_uint32_total (x ∷ []) h = absurd (omega arith)
byte_to_uint32_total (x ∷ y ∷ []) h = absurd (omega arith)
byte_to_uint32_total (x ∷ y ∷ z ∷ []) h = absurd (omega arith)
byte_to_uint32_total (x ∷ y ∷ z ∷ w ∷ rest) h = (_, refl)

pub field16_total :
    (bs : List ℕ) (lo hi : ℕ)
    → hi ≡ lo + 2
    → hi ≤ length bs
    → Gives (slice bs lo hi >>= byte_to_uint16)
field16_total bs lo hi two h =
    let (field, e, l) = slice_total bs lo hi (omega arith) h in
    let (n, read) = byte_to_uint16_total field (omega arith) in (n, rw e read)

pub field32_total :
    (bs : List ℕ) (lo hi : ℕ)
    → hi ≡ lo + 4
    → hi ≤ length bs
    → Gives (slice bs lo hi >>= byte_to_uint32)
field32_total bs lo hi four h =
    let (field, e, l) = slice_total bs lo hi (omega arith) h in
    let (n, read) = byte_to_uint32_total field (omega arith) in (n, rw e read)
