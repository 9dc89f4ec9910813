-- ===== src/Archives/Multipart/Delimiters.antt =====
-- A delimiter found in a buffer, and what follows it in the whole of the body.
use mathlib.Core.List.{append-nil}
use sdk_local_manager.Prelude.{
  ℕ, zero, suc, ◌+◌, ◌≤◌, ◌≡◌, refl, ap, ◌∙◌, true, false, ◌&&◌, some, [], ◌∷◌, ◌++◌, length,
  length-drop, take, drop, drop-drop, drop-append_le, if◌then◌else◌, ◌⊎◌, inl, inr, arith,
}
use sdk_local_manager.Prelude.Text.{Text}
use sdk_local_manager.Archives.Multipart.{find_text, is_closing}
use sdk_local_manager.Archives.Multipart.Search.{
  onto, onto-onto, closes, split_part, has_prefix-append, find_text-has_prefix, split-find-some,
}

take-short : (n : ℕ) (p q : Text) → n ≤ length p → take n (p ++ q) ≡ take n p
take-short zero p q h = refl
take-short (suc n) [] q h = absurd (omega arith)
take-short (suc n) (c ∷ p) q h = ap (◌∷◌ c) (take-short n p q (omega arith))

take_one : (i : ℕ) (b : Text) → take i b ++ take 1 (drop i b) ≡ take (suc i) b
take_one zero b = refl
take_one (suc i) [] = refl
take_one (suc i) (c ∷ b) = ap (◌∷◌ c) (take_one i b)

module _ (d : Text) (h1 : 1 ≤ length d) where
  split-closed :
      (y x : Text)
      → length d ≤ length y
      → closes d (y ++ x) ≡ true
      → split_part d (y ++ x) ≡ some ([], drop (length d) y ++ x)
  split-closed [] x h e = absurd (omega (arith, h1, h))
  split-closed (c ∷ t) x h e =
      ap
        (λ b.
          if b
          then some ([], drop (length d) (c ∷ (t ++ x)))
          else onto (c ∷ []) (split_part d (t ++ x)))
        e
      ∙ ap (λ r. some ([], r)) (drop-append_le (length d) (c ∷ t) x h)

  split-goes_on :
      (y x : Text)
      → length d ≤ length y
      → closes d (y ++ x) ≡ false
      → split_part d (y ++ x) ≡ onto (take 1 y) (split_part d (drop 1 y ++ x))
  split-goes_on [] x h e = absurd (omega (arith, h1, h))
  split-goes_on (c ∷ t) x h e =
      ap
        (λ b.
          if b
          then some ([], drop (length d) (c ∷ (t ++ x)))
          else onto (c ∷ []) (split_part d (t ++ x)))
        e

  -- A delimiter found in a buffer closes the part by the two bytes that follow it there.
  module _ (b x : Text) (i : ℕ) (found : find_text d b ≡ some i) where
    pub delimiter_fits : i + length d ≤ length b
    delimiter_fits = (find_text-has_prefix d h1 b i found).1

    fits_dropped : length d ≤ length (drop i b)
    fits_dropped = omega (arith, delimiter_fits, length-drop i b)

    pub closes-suffix :
        (i + length d + 2 ≤ length b) ⊎ (x ≡ [])
        → closes d (drop i b ++ x) ≡ is_closing (take 2 (drop (i + length d) b))
    closes-suffix short =
        ap (λ p. p && is_closing (take 2 (drop (length d) (drop i b ++ x))))
          (has_prefix-append d (drop i b) x fits_dropped ∙ (find_text-has_prefix d h1 b i found).0)
        ∙ ap (λ t. is_closing (take 2 t))
            (drop-append_le (length d) (drop i b) x fits_dropped
              ∙ ap (λ t. t ++ x) (drop-drop (length d) i b))
        ∙ ap is_closing (without short)
      where
        without :
            (i + length d + 2 ≤ length b) ⊎ (x ≡ [])
            → take 2 (drop (i + length d) b ++ x) ≡ take 2 (drop (i + length d) b)
        without (inl h) =
            take-short 2 (drop (i + length d) b) x (omega (arith, h, length-drop (i + length d) b))
        without (inr e) =
            ap (λ t. take 2 (drop (i + length d) b ++ t)) e
            ∙ ap (take 2) (append-nil (drop (i + length d) b))

    pub split-at-closed :
        closes d (drop i b ++ x) ≡ true
        → split_part d (b ++ x) ≡ some (take i b, drop (i + length d) b ++ x)
    split-at-closed e =
        split-find-some d h1 b x i found
        ∙ ap (onto (take i b)) (split-closed (drop i b) x fits_dropped e)
        ∙ ap (λ p. some (p, drop (length d) (drop i b) ++ x)) (append-nil (take i b))
        ∙ ap (λ r. some (take i b, r ++ x)) (drop-drop (length d) i b)

    pub split-at-goes_on :
        closes d (drop i b ++ x) ≡ false
        → split_part d (b ++ x) ≡ onto (take (suc i) b) (split_part d (drop (suc i) b ++ x))
    split-at-goes_on e =
        split-find-some d h1 b x i found
        ∙ ap (onto (take i b)) (split-goes_on (drop i b) x fits_dropped e)
        ∙ onto-onto (take i b) (take 1 (drop i b)) (split_part d (drop 1 (drop i b) ++ x))
        ∙ ap (λ p. onto p (split_part d (drop 1 (drop i b) ++ x))) (take_one i b)
        ∙ ap (λ r. onto (take (suc i) b) (split_part d (r ++ x)))
            (drop-drop 1 i b ∙ ap (λ n. drop n b) (let e : i + 1 ≡ suc i = omega arith in e))
