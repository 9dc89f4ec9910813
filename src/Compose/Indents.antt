-- ===== src/Compose/Indents.antt =====
-- Blank lines and indentations of a compose file's lines.
use mathlib.Core.List.{reverse, reverse-cons, append-ne-nil_of_right_ne-nil, cons-ne-nil}
use mathlib.Core.Path.{subst}
use sdk_local_manager.Prelude.{
  and-true, ℕ, suc, ◌-◌, ◌≡◌, ◌≢◌, refl, ap, sym, ◌∙◌, Bool, true, false, not, [], ◌∷◌, ◌++◌,
  length, length-append, if-cases, if◌then◌else◌, inl, inr, ◌==◌, Eq_ℕ, Eq_List, arith,
}
use sdk_local_manager.Prelude.Text.{Text, skip_spaces, strip, is_space}
use sdk_local_manager.Compose.{indent, has_content, is_entry}

abbrev first : Text → ℕ
first [] = 0
first (c ∷ t) = c

first-not-space : (t u : Text) (c : ℕ) → skip_spaces t ≡ c ∷ u → is_space c ≡ false
first-not-space [] u c h = absurd (cons-ne-nil c u (sym h))
first-not-space (d ∷ t) u c h = elim (if-cases (is_space d) (skip_spaces t) (d ∷ t) (c ∷ u) h) [
  | inl (e, k) ↦ first-not-space t u c k
  | inr (e, k) ↦ subst (λ x. is_space x ≡ false) (ap first k) e
]

if-ne-nil : (b : Bool) (t u : Text) (c : ℕ) → t ≢ [] → (if b then t else c ∷ u) ≢ []
if-ne-nil true t u c h = h
if-ne-nil false t u c h = cons-ne-nil c u

skip_spaces-snoc : (t : Text) (c : ℕ) → is_space c ≡ false → skip_spaces (t ++ c ∷ []) ≢ []
skip_spaces-snoc [] c h = subst (λ b. (if b then [] else c ∷ []) ≢ []) (sym h) (cons-ne-nil c [])
skip_spaces-snoc (d ∷ t) c h =
    if-ne-nil (is_space d) (skip_spaces (t ++ c ∷ [])) (t ++ c ∷ []) d (skip_spaces-snoc t c h)

reverse-ne-nil : (t : Text) → t ≢ [] → reverse t ≢ []
reverse-ne-nil [] h = h
reverse-ne-nil (c ∷ t) h =
    subst (λ x. x ≢ []) (sym (reverse-cons c t))
      (append-ne-nil_of_right_ne-nil (reverse t) (cons-ne-nil c []))

strip-ne-nil : (t u : Text) (c : ℕ) → skip_spaces t ≡ c ∷ u → strip t ≢ []
unfolding strip
strip-ne-nil t u c h =
    subst (λ x. reverse (skip_spaces (reverse x)) ≢ []) (sym h)
      (subst (λ x. reverse (skip_spaces x) ≢ []) (sym (reverse-cons c u))
        (reverse-ne-nil _ (skip_spaces-snoc (reverse u) c (first-not-space t u c h))))

not-nil : (t : Text) → t ≢ [] → not (t == []) ≡ true
not-nil [] h = absurd (h refl)
not-nil (c ∷ t) h = refl

-- A line that begins with a character other than a space, after its indentation, has content.
pub has_content-true : (t u : Text) (c : ℕ) → skip_spaces t ≡ c ∷ u → has_content t ≡ true
has_content-true t u c h = not-nil (strip t) (strip-ne-nil t u c h)

strip-blank : (t : Text) → skip_spaces t ≡ [] → strip t ≡ []
unfolding strip
strip-blank t h = ap (λ x. reverse (skip_spaces (reverse x))) h

content-begins :
    (t s : Text) → skip_spaces t ≡ s → has_content t ≡ true → (c : ℕ) × (u : Text) × (s ≡ c ∷ u)
content-begins t (c ∷ u) h k = (c, u, refl)
content-begins t [] h k = absurd (cc (k, ap (λ x. not (x == [])) (strip-blank t h)))

-- A line that has content begins with some character, after its indentation.
pub has_content-begins :
    (t : Text) → has_content t ≡ true → (c : ℕ) × (u : Text) × (skip_spaces t ≡ c ∷ u)
has_content-begins t = content-begins t (skip_spaces t) refl

skip-append : (t x u : Text) (c : ℕ) → skip_spaces t ≡ c ∷ u → skip_spaces (t ++ x) ≡ c ∷ (u ++ x)
skip-append [] x u c h = absurd (cons-ne-nil c u (sym h))
skip-append (d ∷ t) x u c h = elim (if-cases (is_space d) (skip_spaces t) (d ∷ t) (c ∷ u) h) [
  | inl (e, k) ↦
      ap (λ b. if b then skip_spaces (t ++ x) else d ∷ (t ++ x)) e ∙ skip-append t x u c k
  | inr (e, k) ↦ ap (λ b. if b then skip_spaces (t ++ x) else d ∷ (t ++ x)) e ∙ ap (λ y. y ++ x) k
]

-- What is added at the end of a line that has content changes neither its content nor its
-- indentation.
pub has_content-append : (t x : Text) → has_content t ≡ true → has_content (t ++ x) ≡ true
has_content-append t x h =
    let (c, u, e) = has_content-begins t h in
    has_content-true (t ++ x) (u ++ x) c (skip-append t x u c e)

pub indent-append : (t x : Text) → has_content t ≡ true → indent (t ++ x) ≡ indent t
indent-append t x h =
    let (c, u, e) = has_content-begins t h in
    ap (λ y. length (t ++ x) - length y) (skip-append t x u c e)
    ∙ (let k : length (t ++ x) - suc (length (u ++ x)) ≡ length t - suc (length u) =
          omega (arith, length-append t x, length-append u x) in
        k)
    ∙ ap (λ y. length t - length y) (sym e)

pub is_entry-content : (t : Text) → is_entry t ≡ true → has_content t ≡ true
is_entry-content t h = (and-true _ _ h).0
