-- ===== src/Packet/Window.antt =====
-- Writing into the array beside the valid bytes.
use go_software_router.Prelude.{
  ℕ, ◌-◌, ◌≤◌, ◌≡◌, refl, ap, ◌∙◌, List, [], ◌∷◌, ◌++◌, arith, length, split, Split, copy_at,
}

pub copy_at-append :
    (pre old post xs : List ℕ)
    → length xs ≡ length old
    → copy_at (pre ++ (old ++ post)) (length pre) xs ≡ pre ++ (xs ++ post)
copy_at-append (a ∷ pre) old post xs h = ap (◌∷◌ a) (copy_at-append pre old post xs h)
copy_at-append [] [] [] [] h = refl
copy_at-append [] [] (a ∷ post) [] h = refl
copy_at-append [] [] post (x ∷ xs) h = absurd (omega arith)
copy_at-append [] (o ∷ old) post [] h = absurd (omega arith)
copy_at-append [] (o ∷ old) post (x ∷ xs) h =
    ap (◌∷◌ x) (copy_at-append [] old post xs (omega arith))

-- The array in four parts: before `i`, up to `j`, up to `k`, and behind.
abbrev pub Parts : List ℕ → ℕ → ℕ → ℕ → Type 0
Parts buf i j k =
    (a b c d : List ℕ) × (buf ≡ a ++ (b ++ (c ++ d)))
    × (length a ≡ i)
    × (length b ≡ j - i)
    × (length c ≡ k - j)

Parts-third :
    (buf a b rest : List ℕ) (i j k : ℕ)
    → buf ≡ a ++ (b ++ rest)
    → length a ≡ i
    → length b ≡ j - i
    → Split rest (k - j)
    → Parts buf i j k
Parts-third buf a b rest i j k e la lb (c, d, ec, lc, _) =
    (a, b, c, d, e ∙ ap (λ t. a ++ (b ++ t)) ec, la, lb, lc)

Parts-second :
    (buf a rest : List ℕ) (i j k : ℕ)
    → i ≤ j
    → j ≤ k
    → k - i ≤ length rest
    → buf ≡ a ++ rest
    → length a ≡ i
    → Split rest (j - i)
    → Parts buf i j k
Parts-second buf a rest i j k hij hjk hk e la (b, rest', eb, lb, mb) =
    Parts-third buf a b rest' i j k (e ∙ ap (◌++◌ a) eb) la lb (split rest' (k - j) (omega arith))

pub parts : (buf : List ℕ) (i j k : ℕ) → i ≤ j → j ≤ k → k ≤ length buf → Parts buf i j k
parts buf i j k hij hjk hk = go (split buf i (omega arith))
  where
    go : Split buf i → Parts buf i j k
    go (a, rest, ea, la, ma) =
        Parts-second buf a rest i j k hij hjk (omega arith) ea la (split rest (j - i) (omega arith))
