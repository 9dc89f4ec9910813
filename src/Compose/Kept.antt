-- ===== src/Compose/Kept.antt =====
-- What adding a `start_period` keeps of a compose file.
use mathlib.Core.Path.{subst}
use mathlib.Core.List.{Sublist, append_assoc, sublist-append_left, sublist-append_right}
use mathlib.Core.List.Sublist
use sdk_local_manager.Prelude.{
  ℕ, zero, suc, ◌≤◌, ◌≡◌, refl, ap, sym, ◌∙◌, Bool, true, false, ◌||◌, List, [], ◌∷◌, ◌++◌, length,
  any, if◌then◌else◌, arith,
}
use sdk_local_manager.Prelude.Text.{Text, txt, has_suffix}
use sdk_local_manager.Compose.{indent, is_entry, join_lines, keep_lines, joined-keep_lines}
use sdk_local_manager.Compose.Healthcheck.{
  block_of, opened, with_end, newline_of, start_period_line, insert_after_last, amended,
  needs_start_period, edited, add_postgres_healthcheck_start_period,
}

-- The lines `ls` are there as text, in the lines `ms`.
abbrev Kept : List Text → List Text → Type 0
Kept ls ms = Sublist (join_lines ls) (join_lines ms)

if-Kept :
    (b : Bool) (ls ms ns : List Text) → Kept ls ms → Kept ls ns → Kept ls (if b then ms else ns)
if-Kept true ls ms ns h k = h
if-Kept false ls ms ns h k = k

along : (s t u v : Text) → s ≡ t → u ≡ v → Sublist s u → Sublist t v
along s t u v e k h = subst (λ x. Sublist x v) e (subst (Sublist s) k h)

joined-append : (ls ms : List Text) → join_lines (ls ++ ms) ≡ join_lines ls ++ join_lines ms
joined-append [] ms = refl
joined-append (l ∷ ls) ms =
    ap (◌++◌ l) (joined-append ls ms) ∙ sym (append_assoc l (join_lines ls) (join_lines ms))

same-Kept : (ls : List Text) → Kept ls ls
same-Kept ls = Sublist.refl (join_lines ls)

with_end-Sublist : (l : Text) → Sublist l (with_end l)
unfolding with_end
with_end-Sublist l = one_of (has_suffix (txt "\n") l || has_suffix (txt "\r") l)
  where
    one_of : (b : Bool) → Sublist l (if b then l else l ++ newline_of l)
    one_of true = Sublist.refl l
    one_of false = sublist-append_left l (newline_of l)

insert_after_last-Kept : (n : ℕ) (ls : List Text) → Kept ls (insert_after_last n ls)
unfolding insert_after_last
insert_after_last-Kept n [] = same-Kept []
insert_after_last-Kept n (l ∷ ls) =
    if-Kept (any is_entry ls) (l ∷ ls) (l ∷ insert_after_last n ls) _
      (Sublist.append (Sublist.refl l) (insert_after_last-Kept n ls))
      (if-Kept (is_entry l) (l ∷ ls) (with_end l ∷ start_period_line n l ∷ ls) (l ∷ ls)
        (Sublist.append (with_end-Sublist l)
          (sublist-append_right (start_period_line n l) (join_lines ls)))
        (same-Kept (l ∷ ls)))

amended-Kept : (block : List Text) → Kept block (amended block)
unfolding amended
amended-Kept block =
    if-Kept (needs_start_period block) block _ block (insert_after_last-Kept _ block)
      (same-Kept block)

pub append-block_of : (n : ℕ) (ls : List Text) → (block_of n ls).0 ++ (block_of n ls).1 ≡ ls
unfolding block_of
append-block_of n [] = refl
append-block_of n (l ∷ ls) = ground (arith, append-block_of n ls)

pub length-block_of : (n : ℕ) (ls : List Text) → length (block_of n ls).1 ≤ length ls
unfolding block_of
length-block_of n [] = omega arith
length-block_of n (l ∷ ls) = ground (arith, length-block_of n ls)

-- What a line opens and what is after it are the lines that follow.
pub append-opened : (l : Text) (ls : List Text) → (opened l ls).0 ++ (opened l ls).1 ≡ ls
unfolding opened
append-opened l ls = ground (arith, append-block_of (indent l) ls)

pub length-opened : (l : Text) (ls : List Text) → length (opened l ls).1 ≤ length ls
unfolding opened
length-opened l ls = ground (arith, length-block_of (indent l) ls)

edited-Kept : (fuel : ℕ) (ls : List Text) → length ls ≤ fuel → Kept ls (edited fuel ls).0
unfolding edited
edited-Kept zero [] h = same-Kept []
edited-Kept zero (l ∷ ls) h = absurd (omega arith)
edited-Kept (suc fuel) [] h = same-Kept []
edited-Kept (suc fuel) (l ∷ ls) h =
    let block = (opened l ls).0 in
    let after = (opened l ls).1 in
    let rest = (edited fuel after).0 in
    Sublist.append (Sublist.refl l) (
      along _ _ _ _ (sym (joined-append block after) ∙ ap join_lines (append-opened l ls))
        (sym (joined-append (amended block) rest))
        (Sublist.append (amended-Kept block)
          (edited-Kept fuel after (omega (arith, length-opened l ls)))))

-- No character of a compose file is lost: it is what the result is without some of its characters.
pub add_postgres_healthcheck_start_period-Kept :
    (content : Text) → Sublist content (add_postgres_healthcheck_start_period content).0
unfolding add_postgres_healthcheck_start_period
add_postgres_healthcheck_start_period-Kept content =
    subst
      (λ t. Sublist t (join_lines (edited (length (keep_lines content)) (keep_lines content)).0))
      (joined-keep_lines content)
      (edited-Kept (length (keep_lines content)) (keep_lines content) (omega arith))
