-- ===== src/Compose/Edition.antt =====
-- What `add_postgres_healthcheck_start_period` makes of a compose file, said of its lines.
use mathlib.Core.Path.{subst}
use sdk_local_manager.Prelude.{
  ℕ, zero, suc, ◌≤◌, ◌<◌, ◌≡◌, ◌≢◌, refl, sym, ap, ◌∙◌, Bool, true, false, not, ◌&&◌, ◌||◌, List,
  [], ◌∷◌, ◌++◌, length, All, leb, if-holds, not-leb→lt, arith, ◌==◌, eq_iff, Eq_ℕ, Eq_List,
}
use sdk_local_manager.Prelude.Text.{Text, txt, strip}
use sdk_local_manager.Compose.{indent, has_content, join_lines, keep_lines}
use sdk_local_manager.Compose.Healthcheck.{
  block_of, opened, amended, opens_healthcheck, needs_start_period, edited,
  add_postgres_healthcheck_start_period,
}
use sdk_local_manager.Compose.Kept.{append-block_of, length-block_of}
use sdk_local_manager.Compose.Added.{AllUnder}
use sdk_local_manager.Compose.Settled.{Stops, block_of-AllUnder, block_of-Stops}
use sdk_local_manager.Compose.Blocks.{margin, EditedBlock, amended-EditedBlock}

-- The lines under a healthcheck are blank or have a greater margin; the first line after them is not.
abbrev pub IsUnder : ℕ → Text → Type 0
IsUnder n l = strip l ≢ [] → n < margin l

abbrev pub EndsBlock : ℕ → List Text → Type 0
EndsBlock n [] = Unit
EndsBlock n (l ∷ ls) = (strip l ≢ []) × (margin l ≤ n)

-- The lines of a file before and after, and whether they changed.
pub data Edition : List Text → List Text → Bool → Type 0 where
  no_line : Edition [] [] false
  other_line :
      (l : Text) (ls ms : List Text) (b : Bool)
      → strip l ≢ txt "healthcheck:"
      → Edition ls ms b
      → Edition (l ∷ ls) (l ∷ ms) b
  healthcheck :
      (l : Text) (block block' after ms : List Text) (a b : Bool)
      → strip l ≡ txt "healthcheck:"
      → All (IsUnder (margin l)) block
      → EndsBlock (margin l) after
      → EditedBlock block block' a
      → Edition after ms b
      → Edition (l ∷ block ++ after) (l ∷ block' ++ ms) (a || b)

content-true : (t : Text) → t ≢ [] → not (t == []) ≡ true
content-true [] h = absurd (h refl)
content-true (c ∷ t) h = refl

content-ne-nil : (t : Text) → not (t == []) ≡ true → t ≢ []
content-ne-nil [] h = absurd (cc h)
content-ne-nil (c ∷ t) h = λ e. absurd (cc (ap (λ x. x == []) e))

under_test : (c : Bool) (m n : ℕ) → not (c && leb m n) ≡ true → c ≡ true → n < m
under_test c m n h e = not-leb→lt m n (sym (ap (λ b. not (b && leb m n)) e) ∙ h)

ends_test : (c : Bool) (m n : ℕ) → not (c && leb m n) ≡ false → (c ≡ true) × (m ≤ n)
ends_test c m n h = ground arith

AllUnder-IsUnder : (n : ℕ) (ls : List Text) → AllUnder n ls → All (IsUnder n) ls
AllUnder-IsUnder n [] h = tt
AllUnder-IsUnder n (l ∷ ls) h = (
  (λ e. under_test (has_content l) (indent l) n h.0 (content-true (strip l) e)),
  AllUnder-IsUnder n ls h.1,
)

Stops-EndsBlock : (n : ℕ) (ls : List Text) → Stops n ls → EndsBlock n ls
Stops-EndsBlock n [] h = tt
Stops-EndsBlock n (l ∷ ls) h =
    let e = ends_test (has_content l) (indent l) n h in (content-ne-nil (strip l) e.0, e.1)

-- What `edited` does at a line, by what the line opens.
module _ (fuel : ℕ) (l : Text) where
  abbrev IsStep : List Text → List Text × List Text → Type 0
  IsStep ls r =
      Edition (l ∷ ls) (l ∷ amended r.0 ++ (edited fuel r.1).0)
        (needs_start_period r.0 || (edited fuel r.1).1)

  header-IsStep :
      (ls : List Text)
      → strip l ≡ txt "healthcheck:"
      → Edition
          (block_of (indent l) ls).1
          (edited fuel (block_of (indent l) ls).1).0
          (edited fuel (block_of (indent l) ls).1).1
      → IsStep ls (block_of (indent l) ls)
  header-IsStep ls h e =
      let block = (block_of (indent l) ls).0 in
      let after = (block_of (indent l) ls).1 in
      subst
        (λ xs.
          Edition (l ∷ xs) (l ∷ amended block ++ (edited fuel after).0)
            (needs_start_period block || (edited fuel after).1))
        (append-block_of (indent l) ls)
        (healthcheck l block (amended block) after (edited fuel after).0 (needs_start_period block)
          (edited fuel after).1 h
          (AllUnder-IsUnder (indent l) block (block_of-AllUnder (indent l) ls))
          (Stops-EndsBlock (indent l) after (block_of-Stops (indent l) ls))
          (amended-EditedBlock block) e)

  other-IsStep :
      (ls : List Text)
      → strip l ≢ txt "healthcheck:"
      → Edition ls (edited fuel ls).0 (edited fuel ls).1
      → IsStep ls ([], ls)
  unfolding amended needs_start_period
  other-IsStep ls h e = other_line l ls (edited fuel ls).0 (edited fuel ls).1 h e

edited-Edition :
    (fuel : ℕ) (ls : List Text)
    → length ls ≤ fuel
    → Edition ls (edited fuel ls).0 (edited fuel ls).1
unfolding edited opened opens_healthcheck
edited-Edition zero [] h = no_line
edited-Edition zero (l ∷ ls) h = absurd (omega arith)
edited-Edition (suc fuel) [] h = no_line
edited-Edition (suc fuel) (l ∷ ls) h =
    if-holds (IsStep fuel l ls) (strip l == txt "healthcheck:") (block_of (indent l) ls) ([], ls)
      (λ e. header-IsStep fuel l ls ((eq_iff (strip l) (txt "healthcheck:")).0 e) (
        edited-Edition fuel (block_of (indent l) ls).1
          (omega (arith, h, length-block_of (indent l) ls))))
      (λ e.
        other-IsStep fuel l ls (λ f. absurd (cc (e, (eq_iff (strip l) (txt "healthcheck:")).1 f)))
          (edited-Edition fuel ls (omega (arith, h))))

-- The result is that of one pass over the lines. Under each line `healthcheck:` stand the lines that
-- are blank or have a greater margin; if a key among them has `pg_isready` in it and none begins with
-- `start_period:`, the line `start_period: 120s` is put after the last key, at the smallest margin of
-- the keys, and the last key is given a line end if it has none. All else stays, and the answer tells
-- whether a line was put.
pub add_postgres_healthcheck_start_period-Edition :
    (content : Text)
    → (ms : List Text) × Edition
        (keep_lines content)
        ms
        (add_postgres_healthcheck_start_period content).1
      × ((add_postgres_healthcheck_start_period content).0 ≡ join_lines ms)
unfolding add_postgres_healthcheck_start_period
add_postgres_healthcheck_start_period-Edition content =
    let lines = keep_lines content in
    ((edited (length lines) lines).0, edited-Edition (length lines) lines (omega arith), refl)
