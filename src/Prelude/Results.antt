-- ===== src/Prelude/Results.antt =====
-- The outcomes of Go code: a value, or the end of the program by a run-time panic or by log.Fatalf.
pub data Crash : Type 0 where
  panic fatal : Crash

pub data Result {ℓ} (A : Type ℓ) : Type ℓ where
  ok : A → Result A
  crash : Crash → Result A

infixl 5 ◌>>=◌
abbrev pub ◌>>=◌ {ℓ κ} : {S : Type ℓ} {T : Type κ} → Result S → (S → Result T) → Result T
ok value >>= next = next value
crash c >>= next = crash c
