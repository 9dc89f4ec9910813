-- ===== src/LogDisplay/Lines.antt =====
-- What is shown of a log are lines of it, in their order.
use mathlib.Core.Path.{subst}
use sdk_local_manager.Prelude.{
  ℕ, zero, suc, ◌≡◌, refl, sym, ap, ◌∙◌, Bool, true, false, not, ◌&&◌, ◌||◌, Option, none, some,
  List, [], ◌∷◌, ◌++◌, map, if◌then◌else◌,
}
use sdk_local_manager.Prelude.Text.{Text, rstrip_newlines}
use sdk_local_manager.Prelude.Lines.{split_lines}
use sdk_local_manager.LogDisplay.{
  Display, Shown, line, summary, header, flushed, flush_lines, flush_pending, summed_up,
  flush_summary, first_flush, feed, finish_display, run_display, new_display, compact_odoo_log_text,
  is_gc_body, emptied, is_empty, is_header, is_record,
}

-- Some of the items of a list, in order.
pub data Part : List Text → List Text → Type 0 where
  nothing : Part [] []
  kept : (x : Text) (xs ys : List Text) → Part xs ys → Part (x ∷ xs) (x ∷ ys)
  left_out : (y : Text) (xs ys : List Text) → Part xs ys → Part xs (y ∷ ys)

abbrev pub lines_of : List Shown → List Text
lines_of [] = []
lines_of (line l ∷ os) = l ∷ lines_of os
lines_of (summary databases count ∷ os) = lines_of os

Part-refl : (xs : List Text) → Part xs xs
Part-refl [] = nothing
Part-refl (x ∷ xs) = kept x xs xs (Part-refl xs)

Part-front : (zs xs ys : List Text) → Part xs ys → Part (zs ++ xs) (zs ++ ys)
Part-front [] xs ys p = p
Part-front (z ∷ zs) xs ys p = kept z (zs ++ xs) (zs ++ ys) (Part-front zs xs ys p)

Part-without : (zs xs ys : List Text) → Part xs ys → Part xs (zs ++ ys)
Part-without [] xs ys p = p
Part-without (z ∷ zs) xs ys p = left_out z xs (zs ++ ys) (Part-without zs xs ys p)

lines_of-append : (a b : List Shown) → lines_of (a ++ b) ≡ lines_of a ++ lines_of b
lines_of-append [] b = refl
lines_of-append (line l ∷ a) b = ap (◌∷◌ l) (lines_of-append a b)
lines_of-append (summary databases count ∷ a) b = lines_of-append a b

lines_of-map : (ls : List Text) → lines_of (map line ls) ≡ ls
lines_of-map [] = refl
lines_of-map (l ∷ ls) = ap (◌∷◌ l) (lines_of-map ls)

-- An output, with what stays pending, shows part of what was pending and came; whatever part of what
-- comes later is shown after it.
abbrev Shows : List Text → List Shown × Display → Type 0
Shows before r =
    (xs ys : List Text) → Part xs (r.1.pending ++ ys) → Part (lines_of r.0 ++ xs) (before ++ ys)

append_assoc : (a b c : List Text) → (a ++ b) ++ c ≡ a ++ (b ++ c)
append_assoc [] b c = refl
append_assoc (x ∷ a) b c = ap (◌∷◌ x) (append_assoc a b c)

all-Shows : (ls xs ys : List Text) → Part xs ys → Part (lines_of (map line ls) ++ xs) (ls ++ ys)
all-Shows ls xs ys p =
    subst (λ k. Part (k ++ xs) (ls ++ ys)) (sym (lines_of-map ls)) (Part-front ls xs ys p)

if-Shows :
    (b : Bool) (ls : List Text) (r s : List Shown × Display)
    → Shows ls r
    → Shows ls s
    → Shows ls (if b then r else s)
if-Shows true ls r s h k = h
if-Shows false ls r s h k = k

flushed-Shows :
    (o : Option Text) (ls body : List Text) (d : Display) → Shows ls (flushed o ls body d)
flushed-Shows none ls body d = all-Shows ls
flushed-Shows (some database) ls body d =
    if-Shows (is_gc_body body) ls _ (map line ls, emptied d) (λ xs ys p. Part-without ls xs ys p)
      (all-Shows ls)

flush_lines-Shows : (ls : List Text) (d : Display) → d.pending ≡ ls → Shows ls (flush_lines ls d)
flush_lines-Shows [] d e = λ xs ys p. subst (λ k. Part xs (k ++ ys)) e p
flush_lines-Shows (first ∷ body) d e = flushed-Shows (header first) (first ∷ body) body d

flush_pending-Shows : (d : Display) → Shows d.pending (flush_pending d)
unfolding flush_pending
flush_pending-Shows d = flush_lines-Shows d.pending d refl

first_flush-Shows : (l : Text) (d : Display) → Shows d.pending (first_flush l d)
first_flush-Shows l d =
    if-Shows _ d.pending (flush_pending d) ([], d) (flush_pending-Shows d) (λ xs ys p. p)

-- A summary shows no line and changes nothing that is pending.
IsSilent : List Shown × Display → Display → Type 0
IsSilent r d = (lines_of r.0 ≡ []) × (r.1.pending ≡ d.pending)

summed_up-IsSilent : (n : ℕ) (d : Display) → IsSilent (summed_up n d) d
unfolding IsSilent
summed_up-IsSilent zero d = (refl, refl)
summed_up-IsSilent (suc n) d = (refl, refl)

flush_summary-lines :
    (d : Display) → (lines_of (flush_summary d).0 ≡ []) × ((flush_summary d).1.pending ≡ d.pending)
unfolding flush_summary IsSilent
flush_summary-lines d = summed_up-IsSilent d.missing_count d

-- The line that comes is shown after all that was pending.
shown-Shows :
    (l : Text) (before : List Text) (output : List Shown) (d : Display)
    → d.pending ≡ []
    → Shows before (output, d)
    → Shows (before ++ l ∷ []) (output ++ ((flush_summary d).0 ++ line l ∷ []), (flush_summary d).1)
shown-Shows l before output d e h xs ys p =
    let silent = flush_summary-lines d in
    let rest : Part xs ys = subst (λ k. Part xs (k ++ ys)) (silent.1 ∙ e) p in
    let after : Part (l ∷ xs) (d.pending ++ l ∷ ys) =
      subst (λ k. Part (l ∷ xs) (k ++ l ∷ ys)) (sym e) (kept l xs ys rest) in
    let lines : lines_of (output ++ ((flush_summary d).0 ++ line l ∷ [])) ++ xs
        ≡ lines_of output ++ l ∷ xs =
      ap (λ k. k ++ xs)
        (lines_of-append output ((flush_summary d).0 ++ line l ∷ [])
          ∙ ap (λ k. lines_of output ++ k)
              (lines_of-append (flush_summary d).0 (line l ∷ []) ∙ ap (λ k. k ++ l ∷ []) silent.0))
      ∙ append_assoc (lines_of output) (l ∷ []) xs in
    subst (λ k. Part k ((before ++ l ∷ []) ++ ys)) (sym lines)
      (subst (Part (lines_of output ++ l ∷ xs)) (sym (append_assoc before (l ∷ []) ys))
        (h (l ∷ xs) (l ∷ ys) after))

pending-Shows :
    (l : Text) (before : List Text) (output : List Shown) (d : Display)
    → Shows before (output, d)
    → Shows (before ++ l ∷ []) (output, record d { pending = d.pending ++ l ∷ [] })
pending-Shows l before output d h xs ys p =
    subst (Part (lines_of output ++ xs)) (sym (append_assoc before (l ∷ []) ys))
      (h xs (l ∷ ys) (subst (Part xs) (append_assoc d.pending (l ∷ []) ys) p))

one_of-Shows :
    (l : Text) (before : List Text) (output : List Shown) (d : Display) (x : Bool) (p : List Text)
    → d.pending ≡ p
    → Shows before (output, d)
    → Shows (before ++ l ∷ []) (
        if (is_empty p && x) || not (is_empty p)
        then (output, record d { pending = d.pending ++ l ∷ [] })
        else (output ++ ((flush_summary d).0 ++ line l ∷ []), (flush_summary d).1))
one_of-Shows l before output d true [] e h = pending-Shows l before output d h
one_of-Shows l before output d false [] e h = shown-Shows l before output d e h
one_of-Shows l before output d x (y ∷ p) e h = kept_pending x
  where
    kept_pending :
        (b : Bool)
        → Shows (before ++ l ∷ []) (
            if (false && b) || true
            then (output, record d { pending = d.pending ++ l ∷ [] })
            else (output ++ ((flush_summary d).0 ++ line l ∷ []), (flush_summary d).1))
    kept_pending b = pending-Shows l before output d h

feed-Shows :
    (text : Text) (d : Display) → Shows (d.pending ++ rstrip_newlines text ∷ []) (feed text d)
unfolding feed
feed-Shows text d =
    let l = rstrip_newlines text in
    let r = first_flush l d in
    one_of-Shows l d.pending r.0 r.1 (is_record l && is_header l) r.1.pending refl
      (first_flush-Shows l d)

Part-none : (ys : List Text) → Part [] ys
Part-none [] = nothing
Part-none (y ∷ ys) = left_out y [] ys (Part-none ys)

finish_display-Part : (d : Display) → Part (lines_of (finish_display d)) (d.pending ++ [])
unfolding finish_display
finish_display-Part d =
    let r = flush_pending d in
    subst (λ k. Part k (d.pending ++ []))
      (sym (
        lines_of-append r.0 (flush_summary r.1).0
        ∙ ap (λ k. lines_of r.0 ++ k) (flush_summary-lines r.1).0))
      (flush_pending-Shows d [] [] (Part-none (r.1.pending ++ [])))

run_display-Part :
    (ls : List Text) (d : Display)
    → Part (lines_of (run_display ls d)) (d.pending ++ map rstrip_newlines ls)
unfolding run_display
run_display-Part [] d = finish_display-Part d
run_display-Part (l ∷ ls) d =
    let r = feed l d in
    let rest = map rstrip_newlines ls in
    subst (λ k. Part k (d.pending ++ rstrip_newlines l ∷ rest))
      (sym (lines_of-append r.0 (run_display ls r.1)))
      (subst (Part (lines_of r.0 ++ lines_of (run_display ls r.1)))
        (append_assoc d.pending (rstrip_newlines l ∷ []) rest)
        (feed-Shows l d (lines_of (run_display ls r.1)) rest (run_display-Part ls r.1)))

-- Nothing is shown that the log does not hold: but for the sentences that sum traces up, the lines
-- that are shown are lines of the log, each at most once and in their order.
pub compact_odoo_log_text-Part :
    (value : Text)
    → Part (lines_of (compact_odoo_log_text value)) (map rstrip_newlines (split_lines value))
unfolding compact_odoo_log_text
compact_odoo_log_text-Part value = run_display-Part (split_lines value) new_display
