-- ===== src/Compose/Added.antt =====
-- The `start_period` line: its indentation, and what the block that it is put in becomes.
use mathlib.Core.Path.{subst}
use mathlib.Core.List.{cons-ne-nil}
use sdk_local_manager.Prelude.{
  ℕ, zero, suc, ◌-◌, ◌<◌, ◌≡◌, refl, ap, sym, ◌∙◌, Bool, true, false, not, ◌&&◌, ◌||◌, List, [],
  ◌∷◌, ◌++◌, length, length-append, any, filter, All, leb, if◌then◌else◌, arith, inl, inr, if-holds,
  not-leb→lt, if-cases,
}
use sdk_local_manager.Prelude.Text.{Text, txt, has_prefix, has_suffix, has_text, skip_spaces}
use sdk_local_manager.Compose.{indent, has_content, is_entry}
use sdk_local_manager.Compose.Healthcheck.{
  is_below, starts_period, spaces, with_end, newline_of, start_period_line, insert_after_last,
  amended, needs_start_period, child_indent,
}
use sdk_local_manager.Compose.Indents.{
  has_content-true, has_content-append, indent-append, is_entry-content,
}

skip-spaces : (n : ℕ) (t : Text) → skip_spaces (spaces n ++ 115 ∷ t) ≡ 115 ∷ t
skip-spaces zero t = refl
skip-spaces (suc n) t = skip-spaces n t

length-spaces : (n : ℕ) → length (spaces n) ≡ n
length-spaces zero = refl
length-spaces (suc n) = ap suc (length-spaces n)

abbrev setting : Text → Text
setting nl = txt "tart_period: 120s" ++ nl

module _ (n : ℕ) (last : Text) where
  line-skip : skip_spaces (start_period_line n last) ≡ 115 ∷ setting (newline_of last)
  unfolding start_period_line
  line-skip = skip-spaces n (setting (newline_of last))

  line-content : has_content (start_period_line n last) ≡ true
  line-content =
      has_content-true (start_period_line n last) (setting (newline_of last)) 115 line-skip

  line-is_entry : is_entry (start_period_line n last) ≡ true
  line-is_entry =
      ap (λ b. b && not (has_prefix (txt "#") (skip_spaces (start_period_line n last))))
        line-content
      ∙ ap (λ t. not (has_prefix (txt "#") t)) line-skip

  line-starts : starts_period (start_period_line n last) ≡ true
  line-starts = ap (has_prefix (txt "start_period:")) line-skip

  line-indent : indent (start_period_line n last) ≡ n
  unfolding start_period_line
  line-indent =
      ap (λ t. length (start_period_line n last) - length t) line-skip
      ∙ (let e : length (spaces n ++ 115 ∷ setting (newline_of last))
                - suc (length (setting (newline_of last)))
              ≡ n =
            omega (
              arith,
              length-append (spaces n) (115 ∷ setting (newline_of last)),
              length-spaces n,
            ) in
          e)

  line-is_under : (k : ℕ) → k < n → is_below k (start_period_line n last) ≡ true
  line-is_under k h =
      ap (λ b. not (b && leb (indent (start_period_line n last)) k)) line-content
      ∙ ap (λ i. not (leb i k)) line-indent
      ∙ (let e : not (leb n k) ≡ true = ground arith in e)

with_end-is_under :
    (k : ℕ) (l : Text) → has_content l ≡ true → is_below k l ≡ true → is_below k (with_end l) ≡ true
unfolding with_end
with_end-is_under k l c h = one_of (has_suffix (txt "\n") l || has_suffix (txt "\r") l)
  where
    one_of : (b : Bool) → is_below k (if b then l else l ++ newline_of l) ≡ true
    one_of true = h
    one_of false =
        ap (λ b. not (b && leb (indent (l ++ newline_of l)) k))
          (has_content-append l (newline_of l) c ∙ sym c)
        ∙ ap (λ i. not (has_content l && leb i k)) (indent-append l (newline_of l) c)
        ∙ h

abbrev pub AllUnder : ℕ → List Text → Type 0
AllUnder k = All (λ l. is_below k l ≡ true)

insert_after_last-AllUnder :
    (k n : ℕ) (ls : List Text) → k < n → AllUnder k ls → AllUnder k (insert_after_last n ls)
unfolding insert_after_last
insert_after_last-AllUnder k n [] h u = tt
insert_after_last-AllUnder k n (l ∷ ls) h u =
    if-holds (AllUnder k) (any is_entry ls) (l ∷ insert_after_last n ls) _
      (λ _. (u.0, insert_after_last-AllUnder k n ls h u.1))
      (λ _.
        if-holds (AllUnder k) (is_entry l) (with_end l ∷ start_period_line n l ∷ ls) (l ∷ ls)
          (λ f. (with_end-is_under k l (is_entry-content l f) u.0, (line-is_under n l k h, u.1)))
          (λ _. u))

starts-here :
    (l : Text) (ls : List Text)
    → is_entry l ≡ true
    → starts_period l ≡ true
    → any starts_period (filter is_entry (l ∷ ls)) ≡ true
starts-here l ls e s =
    ap (λ b. any starts_period (if b then l ∷ filter is_entry ls else filter is_entry ls)) e
    ∙ ap (λ b. b || any starts_period (filter is_entry ls)) s

starts-later :
    (l : Text) (ls : List Text)
    → any starts_period (filter is_entry ls) ≡ true
    → any starts_period (filter is_entry (l ∷ ls)) ≡ true
starts-later l ls h =
    if-holds (λ xs. any starts_period xs ≡ true) (is_entry l) (l ∷ filter is_entry ls)
      (filter is_entry ls)
      (λ _.
        (let e : (starts_period l || any starts_period (filter is_entry ls)) ≡ true =
            ground (arith, h) in
          e))
      (λ _. h)

-- Of a block that has a key, the block with the line put in has a `start_period`.
insert_after_last-starts :
    (n : ℕ) (ls : List Text)
    → any is_entry ls ≡ true
    → any starts_period (filter is_entry (insert_after_last n ls)) ≡ true
unfolding insert_after_last
insert_after_last-starts n [] h = absurd (cc (h))
insert_after_last-starts n (l ∷ ls) h =
    if-holds (λ xs. any starts_period (filter is_entry xs) ≡ true) (any is_entry ls)
      (l ∷ insert_after_last n ls) _
      (λ e. starts-later l (insert_after_last n ls) (insert_after_last-starts n ls e))
      (λ e.
        if-holds (λ xs. any starts_period (filter is_entry xs) ≡ true) (is_entry l)
          (with_end l ∷ start_period_line n l ∷ ls) (l ∷ ls)
          (λ f.
            starts-later (with_end l) (start_period_line n l ∷ ls)
              (starts-here (start_period_line n l) ls (line-is_entry n l) (line-starts n l)))
          (λ f. absurd (cc (h, e, f))))

-- The keys under an indentation are all under it, and so is their smallest indentation.
keys-above : (k : ℕ) (ls : List Text) → AllUnder k ls → All (λ l. k < indent l) (filter is_entry ls)
keys-above k [] u = tt
keys-above k (l ∷ ls) u =
    if-holds (All (λ m. k < indent m)) (is_entry l) (l ∷ filter is_entry ls) (filter is_entry ls)
      (λ e. (above l (is_entry-content l e) u.0, keys-above k ls u.1)) (λ _. keys-above k ls u.1)
  where
    above : (m : Text) → has_content m ≡ true → is_below k m ≡ true → k < indent m
    above m c h = not-leb→lt (indent m) k (sym (ap (λ b. not (b && leb (indent m) k)) c) ∙ h)

child_indent-above :
    (k : ℕ) (key : Text) (keys : List Text)
    → All (λ l. k < indent l) (key ∷ keys)
    → k < child_indent (key ∷ keys)
unfolding child_indent
child_indent-above k key [] h = h.0
child_indent-above k key (other ∷ keys) h = omega (arith, h.0, child_indent-above k other keys h.1)

pub needs-any :
    (keys : List Text)
    → (any (has_text (txt "pg_isready")) keys && not (any starts_period keys)) ≡ true
    → (key : Text) × (rest : List Text) × (keys ≡ key ∷ rest)
needs-any [] h = absurd (cc h)
needs-any (key ∷ rest) h = (key, rest, refl)

pub filter-any :
    (ls : List Text) (key : Text) (rest : List Text)
    → filter is_entry ls ≡ key ∷ rest
    → any is_entry ls ≡ true
filter-any [] key rest h = absurd (cons-ne-nil key rest (sym h))
filter-any (l ∷ ls) key rest h =
    elim (if-cases (is_entry l) (l ∷ filter is_entry ls) (filter is_entry ls) (key ∷ rest) h) [
      | inl (e, k) ↦ ap (λ b. b || any is_entry ls) e
      | inr (e, k) ↦ ap (λ b. b || any is_entry ls) e ∙ filter-any ls key rest k
    ]

-- The lines of a block stay under the line that opens it.
pub amended-AllUnder : (k : ℕ) (block : List Text) → AllUnder k block → AllUnder k (amended block)
unfolding amended needs_start_period
amended-AllUnder k block u =
    if-holds (AllUnder k) (needs_start_period block) _ block
      (λ e.
        let (key, rest, f) = needs-any (filter is_entry block) e in
        insert_after_last-AllUnder k (child_indent (filter is_entry block)) block
          (subst (λ keys. k < child_indent keys) (sym f)
            (child_indent-above k key rest
              (subst (All (λ l. k < indent l)) f (keys-above k block u))))
          u)
      (λ _. u)

-- No `start_period` is missing in a block that was amended.
pub needs_start_period-amended : (block : List Text) → needs_start_period (amended block) ≡ false
unfolding amended needs_start_period
needs_start_period-amended block =
    if-holds (λ b. needs_start_period b ≡ false) (needs_start_period block) _ block
      (λ e.
        let (key, rest, f) = needs-any (filter is_entry block) e in
        let inserted = insert_after_last (child_indent (filter is_entry block)) block in
        ap (λ b. any (has_text (txt "pg_isready")) (filter is_entry inserted) && not b)
          (insert_after_last-starts (child_indent (filter is_entry block)) block
            (filter-any block key rest f))
        ∙ and-false (any (has_text (txt "pg_isready")) (filter is_entry inserted)))
      (λ e. e)
  where
    and-false : (b : Bool) → (b && false) ≡ false
    and-false true = refl
    and-false false = refl
