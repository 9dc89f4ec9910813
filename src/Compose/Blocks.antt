-- ===== src/Compose/Blocks.antt =====
-- What the code makes of the lines of a healthcheck.
use mathlib.Core.Path.{subst}
use sdk_local_manager.Prelude.{
  ℕ, ◌-◌, ◌≤◌, min, ◌≡◌, refl, sym, ap, ◌∙◌, ◌⊎◌, inl, inr, Bool, true, false, not, ◌&&◌, ◌||◌,
  List, [], ◌∷◌, ◌++◌, length, any, filter, All, nat_eq, if◌then◌else◌, if-holds, Bool-cases, arith,
  ◌==◌, Eq_ℕ, Eq_List,
}
use sdk_local_manager.Prelude.Text.{Text, txt, has_prefix, has_suffix, has_text, skip_spaces, strip}
use sdk_local_manager.Compose.{is_entry, indent}
use sdk_local_manager.Compose.Healthcheck.{
  spaces, with_end, newline_of, start_period_line, insert_after_last, amended, child_indent,
  needs_start_period,
}
use sdk_local_manager.Compose.Added.{needs-any, filter-any}

-- A line that is neither blank nor a comment, and the spaces it begins with.
abbrev pub is_key : Text → Bool
is_key l = not (strip l == []) && not (has_prefix (txt "#") (skip_spaces l))

abbrev pub margin : Text → ℕ
margin l = length l - length (skip_spaces l)

abbrev pub runs_pg_isready : List Text → Bool
runs_pg_isready = any (λ l. is_key l && has_text (txt "pg_isready") l)

abbrev pub has_start_period : List Text → Bool
has_start_period = any (λ l. is_key l && has_prefix (txt "start_period:") (skip_spaces l))

-- `n` is the smallest margin of the keys.
abbrev pub IsKeyMargin : ℕ → List Text → Type 0
IsKeyMargin n ls =
    All (λ l. is_key l ≡ true → n ≤ margin l) ls
    × (any (λ l. is_key l && nat_eq (margin l) n) ls ≡ true)

abbrev pub line_end : Text → Text
line_end l = if has_suffix (txt "\r\n") l then txt "\r\n" else txt "\n"

abbrev pub ended : Text → Text
ended l = if has_suffix (txt "\n") l || has_suffix (txt "\r") l then l else l ++ line_end l

-- The lines of a healthcheck before and after, and whether they changed: a `start_period` comes after
-- the last key, at the margin of the keys, exactly if `pg_isready` is run and there is none.
pub data EditedBlock : List Text → List Text → Bool → Type 0 where
  same_block :
      (ls : List Text)
      → (runs_pg_isready ls ≡ false) ⊎ (has_start_period ls ≡ true)
      → EditedBlock ls ls false
  period_added :
      (before : List Text) (last : Text) (after : List Text) (n : ℕ)
      → is_key last ≡ true
      → any is_key after ≡ false
      → runs_pg_isready (before ++ last ∷ after) ≡ true
      → has_start_period (before ++ last ∷ after) ≡ false
      → IsKeyMargin n (before ++ last ∷ after)
      → EditedBlock
          (before ++ last ∷ after)
          (before ++ ended last ∷ (spaces n ++ (txt "start_period: 120s" ++ line_end last)) ∷ after)
          true

any-filter : (p q : Text → Bool) (ls : List Text) → any p (filter q ls) ≡ any (λ l. q l && p l) ls
any-filter p q [] = refl
any-filter p q (l ∷ ls) =
    if-holds (λ xs. any p xs ≡ ((q l && p l) || any (λ x. q x && p x) ls)) (q l) (l ∷ filter q ls)
      (filter q ls)
      (λ e.
        ap (λ b. p l || b) (any-filter p q ls)
        ∙ sym (ap (λ b. (b && p l) || any (λ x. q x && p x) ls) e))
      (λ e. any-filter p q ls ∙ sym (ap (λ b. (b && p l) || any (λ x. q x && p x) ls) e))

All-filter :
    (n : ℕ) (ls : List Text)
    → All (λ l. n ≤ indent l) (filter is_entry ls)
    → All (λ l. is_key l ≡ true → n ≤ margin l) ls
All-filter n [] h = tt
All-filter n (l ∷ ls) h =
    if-holds (λ xs. All (λ l. n ≤ indent l) xs → All (λ l. is_key l ≡ true → n ≤ margin l) (l ∷ ls))
      (is_entry l) (l ∷ filter is_entry ls) (filter is_entry ls)
      (λ e k. ((λ _. k.0), All-filter n ls k.1))
      (λ e k. ((λ f. absurd (cc (e, f))), All-filter n ls k)) h

or_left : (a b : Bool) → a ≡ true → (a || b) ≡ true
or_left a b h = ap (λ c. c || b) h

or_right : (a b : Bool) → b ≡ true → (a || b) ≡ true
or_right true b h = refl
or_right false b h = h

nat_eq_refl : (a : ℕ) → nat_eq a a ≡ true
nat_eq_refl a = ground arith

min-cases : (a b : ℕ) → (min a b ≡ a) ⊎ (min a b ≡ b)
min-cases a b = ground arith

All-le :
    (m n : ℕ) (ls : List Text) → m ≤ n → All (λ l. n ≤ indent l) ls → All (λ l. m ≤ indent l) ls
All-le m n [] h k = tt
All-le m n (l ∷ ls) h k = (omega (arith, h, k.0), All-le m n ls h k.1)

child_indent-smallest :
    (key : Text) (keys : List Text)
    → All (λ l. child_indent (key ∷ keys) ≤ indent l) (key ∷ keys)
      × (any (λ l. nat_eq (indent l) (child_indent (key ∷ keys))) (key ∷ keys) ≡ true)
unfolding child_indent
child_indent-smallest key [] =
    ((omega arith, tt), or_left (nat_eq (indent key) (indent key)) false (nat_eq_refl (indent key)))
child_indent-smallest key (other ∷ keys) =
    let c = child_indent (other ∷ keys) in
    let rest = child_indent-smallest other keys in
    (
      (omega arith, All-le (min (indent key) c) c (other ∷ keys) (omega arith) rest.0),
      elim (min-cases (indent key) c) [
        | inl e ↦
            subst
              (λ m. (nat_eq (indent key) m || any (λ l. nat_eq (indent l) m) (other ∷ keys)) ≡ true)
              (sym e) (or_left (nat_eq (indent key) (indent key)) _ (nat_eq_refl (indent key)))
        | inr e ↦
            subst
              (λ m. (nat_eq (indent key) m || any (λ l. nat_eq (indent l) m) (other ∷ keys)) ≡ true)
              (sym e) (or_right (nat_eq (indent key) c) _ rest.1)
      ],
    )

margin_of_keys :
    (ls : List Text) (key : Text) (keys : List Text)
    → filter is_entry ls ≡ key ∷ keys
    → IsKeyMargin (child_indent (filter is_entry ls)) ls
margin_of_keys ls key keys f =
    let n = child_indent (filter is_entry ls) in
    let smallest =
      subst
        (λ ks.
          All (λ l. child_indent ks ≤ indent l) ks
          × (any (λ l. nat_eq (indent l) (child_indent ks)) ks ≡ true))
        (sym f) (child_indent-smallest key keys) in
    (
      All-filter n ls smallest.0,
      sym (any-filter (λ l. nat_eq (indent l) n) is_entry ls) ∙ smallest.1,
    )

-- The last key of some lines, and what is put after it.
LastKey : ℕ → List Text → Type 0
LastKey n ls =
    (before : List Text) × (last : Text) × (after : List Text) × (ls ≡ before ++ last ∷ after)
    × (is_key last ≡ true)
    × (any is_key after ≡ false)
    × (insert_after_last n ls
        ≡ before ++ ended last ∷ (spaces n ++ (txt "start_period: 120s" ++ line_end last)) ∷ after)

insert_after_last-LastKey : (n : ℕ) (ls : List Text) → any is_entry ls ≡ true → LastKey n ls
unfolding insert_after_last LastKey with_end newline_of start_period_line
insert_after_last-LastKey n [] h = absurd (cc h)
insert_after_last-LastKey n (l ∷ ls) h = elim (Bool-cases (any is_entry ls)) [
  | inl e ↦
      let (before, last, after, f, k, a, g) = insert_after_last-LastKey n ls e in
      (
        l ∷ before,
        last,
        after,
        ap (◌∷◌ l) f,
        k,
        a,
        ap
              (λ b.
                if b
                then l ∷ insert_after_last n ls
                else (if is_entry l then with_end l ∷ start_period_line n l ∷ ls else l ∷ ls))
              e
            ∙ ap (◌∷◌ l) g,
      )
  | inr e ↦
      let k : is_entry l ≡ true = sym (or_none (is_entry l) (any is_entry ls) e) ∙ h in
      (
        [],
        l,
        ls,
        refl,
        k,
        e,
        ap
              (λ b.
                if b
                then l ∷ insert_after_last n ls
                else (if is_entry l then with_end l ∷ start_period_line n l ∷ ls else l ∷ ls))
              e
            ∙ ap (λ b. if b then with_end l ∷ start_period_line n l ∷ ls else l ∷ ls) k,
      )
]
  where
    or_none : (a b : Bool) → b ≡ false → (a || b) ≡ a
    or_none true b f = refl
    or_none false b f = f

needs-missing : (r p : Bool) → (r && not p) ≡ false → (r ≡ false) ⊎ (p ≡ true)
needs-missing r p h = ground arith

needs-both : (r p : Bool) → (r && not p) ≡ true → (r ≡ true) × (p ≡ false)
needs-both r p h = ground arith

module _ (ls : List Text) where
  runs_of_keys : any (has_text (txt "pg_isready")) (filter is_entry ls) ≡ runs_pg_isready ls
  runs_of_keys = any-filter (has_text (txt "pg_isready")) is_entry ls

  period_of_keys :
      any (λ l. has_prefix (txt "start_period:") (skip_spaces l)) (filter is_entry ls)
      ≡ has_start_period ls
  period_of_keys = any-filter (λ l. has_prefix (txt "start_period:") (skip_spaces l)) is_entry ls

  needs_of_keys : needs_start_period ls ≡ (runs_pg_isready ls && not (has_start_period ls))
  unfolding needs_start_period
  needs_of_keys =
      ap
        (λ b.
          b
          && not (any (λ l. has_prefix (txt "start_period:") (skip_spaces l)) (filter is_entry ls)))
        runs_of_keys
      ∙ ap (λ b. runs_pg_isready ls && not b) period_of_keys

  added-EditedBlock :
      needs_start_period ls ≡ true
      → EditedBlock ls (insert_after_last (child_indent (filter is_entry ls)) ls) true
  unfolding LastKey needs_start_period
  added-EditedBlock h =
      let (key, keys, f) = needs-any (filter is_entry ls) h in
      let n = child_indent (filter is_entry ls) in
      let (before, last, after, e, k, a, g) =
        insert_after_last-LastKey n ls (filter-any ls key keys f) in
      let needs = needs-both (runs_pg_isready ls) (has_start_period ls) (sym needs_of_keys ∙ h) in
      subst (λ xs. EditedBlock ls xs true) (sym g)
        (subst
          (λ xs.
            EditedBlock xs
              (before
                ++ ended last ∷ (spaces n ++ (txt "start_period: 120s" ++ line_end last)) ∷ after)
              true)
          (sym e)
          (period_added before last after n k a (subst (λ xs. runs_pg_isready xs ≡ true) e needs.0)
            (subst (λ xs. has_start_period xs ≡ false) e needs.1)
            (subst (IsKeyMargin n) e (margin_of_keys ls key keys f))))

  pub amended-EditedBlock : EditedBlock ls (amended ls) (needs_start_period ls)
  unfolding amended
  amended-EditedBlock = elim (Bool-cases (needs_start_period ls)) [
    | inl e ↦
        subst
          (λ b.
            EditedBlock ls
              (if b then insert_after_last (child_indent (filter is_entry ls)) ls else ls) b)
          (sym e) (added-EditedBlock e)
    | inr e ↦
        subst
          (λ b.
            EditedBlock ls
              (if b then insert_after_last (child_indent (filter is_entry ls)) ls else ls) b)
          (sym e)
          (same_block ls
            (needs-missing (runs_pg_isready ls) (has_start_period ls) (sym needs_of_keys ∙ e)))
  ]
