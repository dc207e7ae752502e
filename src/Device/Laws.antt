-- ===== src/Device/Laws.antt =====
-- Hardware addresses as bytes, and their equality.
use go_software_router.Prelude.{ℕ, ◌≡◌, refl, ◌↔◌, List, [], ◌∷◌, true, arith, length}
use go_software_router.Device.{Mac, mac_eq, set_mac_addr, mac_to_byte}

-- The comparison of two `[6]uint8` decides their equality.
pub mac_eq_iff : (m n : Mac) → (mac_eq m n ≡ true) ↔ (m ≡ n)
unfolding mac_eq
mac_eq_iff m n = ground arith

pub mac_eq_refl : (m : Mac) → mac_eq m m ≡ true
mac_eq_refl m = (mac_eq_iff m m).1 refl

pub mac_to_byte-set_mac_addr : (bs : List ℕ) → length bs ≡ 6 → mac_to_byte (set_mac_addr bs) ≡ bs
unfolding set_mac_addr mac_to_byte
mac_to_byte-set_mac_addr (a ∷ b ∷ c ∷ d ∷ e ∷ f ∷ []) h = refl
mac_to_byte-set_mac_addr _ h = absurd (omega arith)
