-- ===== src/Archives/Multipart/Search.antt =====
-- The delimiter that closes a part, looked for in the whole of the body and in a buffer.
use mathlib.Core.Path.{subst}
use mathlib.Core.List.{append_assoc}
use sdk_local_manager.Prelude.{
  ℕ, zero, suc, ◌+◌, ◌-◌, ◌≤◌, ◌≡◌, refl, sym, ap, ◌∙◌, Bool, true, false, ◌&&◌, Option, none, some,
  [], ◌∷◌, ◌++◌, length, take, drop, if◌then◌else◌, if-cases, inl, inr, arith, ◌==◌, Eq_ℕ,
}
use sdk_local_manager.Prelude.Text.{Text, has_prefix}
use sdk_local_manager.Archives.Multipart.{find_text, one_later, is_closing}

-- A part that begins with some more bytes.
abbrev pub onto : Text → Option (Text × Text) → Option (Text × Text)
onto w none = none
onto w (some (part, rest)) = some (w ++ part, rest)

-- The delimiter stands here, and closes the part.
abbrev pub closes : Text → Text → Bool
closes delimiter t = has_prefix delimiter t && is_closing (take 2 (drop (length delimiter) t))

-- The bytes before the first delimiter that closes the part, and those after it.
abbrev pub split_part : Text → Text → Option (Text × Text)
split_part delimiter [] = none
split_part delimiter (c ∷ t) =
    if closes delimiter (c ∷ t)
    then some ([], drop (length delimiter) (c ∷ t))
    else onto (c ∷ []) (split_part delimiter t)

pub onto-nil : (r : Option (Text × Text)) → r ≡ onto [] r
onto-nil none = refl
onto-nil (some (part, rest)) = refl

pub onto-onto : (v w : Text) (r : Option (Text × Text)) → onto v (onto w r) ≡ onto (v ++ w) r
onto-onto v w none = refl
onto-onto v w (some (part, rest)) = ap (λ p. some (p, rest)) (sym (append_assoc v w part))

pub has_prefix-append :
    (d b x : Text) → length d ≤ length b → has_prefix d (b ++ x) ≡ has_prefix d b
has_prefix-append [] b x h = refl
has_prefix-append (c ∷ d) [] x h = absurd (omega arith)
has_prefix-append (c ∷ d) (e ∷ b) x h = ap (◌&&◌ (c == e)) (has_prefix-append d b x (omega arith))

pub has_prefix-length : (d b : Text) → has_prefix d b ≡ true → length d ≤ length b
has_prefix-length [] b h = omega arith
has_prefix-length (c ∷ d) [] h = absurd (cc h)
has_prefix-length (c ∷ d) (e ∷ b) h =
    let k : has_prefix d b ≡ true = ground arith in omega (arith, has_prefix-length d b k)

one_later-none : (o : Option ℕ) → one_later o ≡ none → o ≡ none
one_later-none none h = refl
one_later-none (some i) h = absurd (cc h)

one_later-some :
    (o : Option ℕ) (i : ℕ) → one_later o ≡ some i → (j : ℕ) × (o ≡ some j) × (suc j ≡ i)
one_later-some none i h = absurd (cc h)
one_later-some (some j) i h = (j, refl, cc h)

module _ (d : Text) where
  split-open :
      (c : ℕ) (t : Text)
      → has_prefix d (c ∷ t) ≡ false
      → split_part d (c ∷ t) ≡ onto (c ∷ []) (split_part d t)
  split-open c t h =
      ap
        (λ b.
          if b && is_closing (take 2 (drop (length d) (c ∷ t)))
          then some ([], drop (length d) (c ∷ t))
          else onto (c ∷ []) (split_part d t))
        h

  -- A part goes on over bytes that hold no delimiter, but for those in which one can begin.
  pub split-find-none :
      (k : ℕ) (b x : Text)
      → find_text d b ≡ none
      → k ≤ length b - length d
      → split_part d (b ++ x) ≡ onto (take k b) (split_part d (drop k b ++ x))
  unfolding find_text
  split-find-none zero b x h l = onto-nil (split_part d (b ++ x))
  split-find-none (suc k) [] x h l = absurd (omega arith)
  split-find-none (suc k) (c ∷ t) x h l =
      elim (if-cases (has_prefix d (c ∷ t)) (some 0) (one_later (find_text d t)) none h) [
        | inl (e, f) ↦ absurd (cc f)
        | inr (e, f) ↦
            split-open c (t ++ x) (has_prefix-append d (c ∷ t) x (omega arith) ∙ e)
            ∙ ap (onto (c ∷ []))
                (split-find-none k t x (one_later-none (find_text d t) f) (omega arith))
            ∙ onto-onto (c ∷ []) (take k t) (split_part d (drop k t ++ x))
      ]

  -- No part ends in bytes without a delimiter.
  pub split_part-find-none : (b : Text) → find_text d b ≡ none → split_part d b ≡ none
  unfolding find_text
  split_part-find-none [] h = refl
  split_part-find-none (c ∷ t) h =
      elim (if-cases (has_prefix d (c ∷ t)) (some 0) (one_later (find_text d t)) none h) [
        | inl (e, f) ↦ absurd (cc f)
        | inr (e, f) ↦
            split-open c t e
            ∙ ap (onto (c ∷ [])) (split_part-find-none t (one_later-none (find_text d t) f))
      ]

module _ (d : Text) (h1 : 1 ≤ length d) where
  -- What the search finds is the delimiter, within the buffer.
  pub find_text-has_prefix :
      (b : Text) (i : ℕ)
      → find_text d b ≡ some i
      → (has_prefix d (drop i b) ≡ true) × (i + length d ≤ length b)
  unfolding find_text
  find_text-has_prefix [] i h = elim (if-cases (has_prefix d []) (some 0) none (some i) h) [
    | inl (e, f) ↦ absurd (omega (arith, has_prefix-length d [] e))
    | inr (e, f) ↦ absurd (cc f)
  ]
  find_text-has_prefix (c ∷ t) i h =
      elim (if-cases (has_prefix d (c ∷ t)) (some 0) (one_later (find_text d t)) (some i) h) [
        | inl (e, f) ↦ at_first i (cc f) e
        | inr (e, f) ↦
            let (j, g, k) = one_later-some (find_text d t) i f in
            after_first i j k (find_text-has_prefix t j g)
      ]
    where
      at_first :
          (n : ℕ)
          → 0 ≡ n
          → has_prefix d (c ∷ t) ≡ true
          → (has_prefix d (drop n (c ∷ t)) ≡ true) × (n + length d ≤ length (c ∷ t))
      at_first n e f =
          subst (λ m. (has_prefix d (drop m (c ∷ t)) ≡ true) × (m + length d ≤ length (c ∷ t))) e
            (f, omega (arith, has_prefix-length d (c ∷ t) f))

      after_first :
          (n j : ℕ)
          → suc j ≡ n
          → (has_prefix d (drop j t) ≡ true) × (j + length d ≤ length t)
          → (has_prefix d (drop n (c ∷ t)) ≡ true) × (n + length d ≤ length (c ∷ t))
      after_first n j e r =
          subst (λ m. (has_prefix d (drop m (c ∷ t)) ≡ true) × (m + length d ≤ length (c ∷ t))) e
            (r.0, omega (arith, r.1))

  -- The first delimiter of a buffer stays the first when bytes are added.
  pub find_text-append :
      (b x : Text) (i : ℕ) → find_text d b ≡ some i → find_text d (b ++ x) ≡ some i
  unfolding find_text
  find_text-append [] x i h = absurd (omega (arith, (find_text-has_prefix [] i h).1))
  find_text-append (c ∷ t) x i h =
      elim (if-cases (has_prefix d (c ∷ t)) (some 0) (one_later (find_text d t)) (some i) h) [
        | inl (e, f) ↦ with_prefix true (e, f)
        | inr (e, f) ↦
            let (j, g, k) = one_later-some (find_text d t) i f in
            with_prefix false (e, ap one_later (find_text-append t x j g ∙ sym g) ∙ f)
      ]
    where
      with_prefix :
          (b : Bool)
          → (has_prefix d (c ∷ t) ≡ b)
            × ((if b then some 0 else one_later (find_text d (t ++ x))) ≡ some i)
          → (if has_prefix d (c ∷ (t ++ x)) then some 0 else one_later (find_text d (t ++ x)))
            ≡ some i
      with_prefix b (e, f) =
          ap (λ y. if y then some 0 else one_later (find_text d (t ++ x)))
            (has_prefix-append d (c ∷ t) x (omega (arith, (find_text-has_prefix (c ∷ t) i h).1))
              ∙ e)
          ∙ f

  -- A part goes on up to the first delimiter.
  pub split-find-some :
      (b x : Text) (i : ℕ)
      → find_text d b ≡ some i
      → split_part d (b ++ x) ≡ onto (take i b) (split_part d (drop i b ++ x))
  unfolding find_text
  split-find-some [] x i h = absurd (omega (arith, (find_text-has_prefix [] i h).1))
  split-find-some (c ∷ t) x i h =
      elim (if-cases (has_prefix d (c ∷ t)) (some 0) (one_later (find_text d t)) (some i) h) [
        | inl (e, f) ↦
            subst
              (λ m.
                split_part d (c ∷ t ++ x)
                ≡ onto (take m (c ∷ t)) (split_part d (drop m (c ∷ t) ++ x)))
              (let k : 0 ≡ i = cc f in k) (onto-nil (split_part d (c ∷ t ++ x)))
        | inr (e, f) ↦
            let (j, g, k) = one_later-some (find_text d t) i f in
            subst
              (λ m.
                split_part d (c ∷ t ++ x)
                ≡ onto (take m (c ∷ t)) (split_part d (drop m (c ∷ t) ++ x)))
              k
              (split-open d c (t ++ x) (
                  has_prefix-append d (c ∷ t) x
                    (omega (arith, (find_text-has_prefix (c ∷ t) i h).1))
                  ∙ e)
                ∙ ap (onto (c ∷ [])) (split-find-some t x j g)
                ∙ onto-onto (c ∷ []) (take j t) (split_part d (drop j t ++ x)))
      ]
