-- ===== src/CommandOutput.antt =====
-- odoo_manager_core/command_output.py, `parse_output_progress`: the progress that a line of a
-- command's output tells. The patterns are read by hand, character by character; `\d` is taken for
-- the ASCII digits. A fraction is kept exact, as a pair of numbers, where the code has a float.
pub mod Bounds
pub mod Errors
pub mod Imports
pub mod Tests
use sdk_local_manager.Prelude.{
  ℕ, ◌+◌, ◌-◌, ◌*◌, zero, suc, min, Bool, true, false, not, ◌&&◌, ◌||◌, Option, none, some, List,
  [], ◌∷◌, ◌++◌, leb, ltb, if◌then◌else◌, ◌==◌, Eq_ℕ, Eq_List, length, drop,
}
use sdk_local_manager.Prelude.Options.{◌>>=◌, ◌>>◌, guard}
use sdk_local_manager.Prelude.Dict
use sdk_local_manager.Prelude.Dict.{Dict}
use sdk_local_manager.Prelude.Text.{
  Text, txt, has_prefix, is_space, is_digit, span, skip_spaces, strip, has_suffix, to_number,
}

-- A fraction `num / den`, or the place of a module in the list that Odoo goes through.
pub data Measure : Type 0 where
  fraction : (num den : ℕ) → Measure
  position : (index total : ℕ) → Measure

pub record Reading : Type 0 where
  pub measure : Measure
  pub transient : Bool

-- Where each phase begins and how much of the whole it is, in hundredths.
pub git_progress_phases : Dict Text (ℕ × ℕ)
git_progress_phases =
    (txt "Counting objects", (0, 5))
    ∷ (txt "Enumerating objects", (0, 5))
    ∷ (txt "Compressing objects", (5, 5))
    ∷ (txt "Receiving objects", (10, 65))
    ∷ (txt "Resolving deltas", (75, 15))
    ∷ (txt "Updating files", (90, 10))
    ∷ (txt "Filtering content", (90, 10))
    ∷ []

abbrev is_letter : ℕ → Bool
is_letter c = (leb b'A' c && leb c b'Z') || (leb b'a' c && leb c b'z')

-- One character that must stand here.
abbrev pub expect : ℕ → Text → Option Text
expect c [] = none
expect c (d ∷ t) = if d == c then some t else none

-- `\s+`
spaces1 : Text → Option Text
unfolding span
spaces1 t = let (blank, rest) = span is_space t in if leb 1 (length blank) then some rest else none

-- `\d+`
digits : Text → Option (Text × Text)
unfolding span
digits t = let (ds, rest) = span is_digit t in if leb 1 (length ds) then some (ds, rest) else none

-- `current/total`
ratio : Text → Option (ℕ × ℕ × Text)
unfolding digits to_number
ratio t = do
  (current, t1) ← digits t
  t2 ← expect b'/' t1
  (total, t3) ← digits t2
  some (to_number current, to_number total, t3)

-- `\s*\((?P<current>\d+)/(?P<total>\d+)\)`
git_counts : Text → Option (ℕ × ℕ)
unfolding ratio
git_counts t = do
  t1 ← expect b'(' (skip_spaces t)
  (current, total, t2) ← ratio t1
  t3 ← expect b')' t2
  some (current, total)

record GitMatch : Type 0 where
  phase : Text
  percent : ℕ
  counts : Option (ℕ × ℕ)

starts_with_letter : Text → Bool
starts_with_letter [] = false
starts_with_letter (c ∷ t) = is_letter c

-- GIT_PROGRESS_RE
git_match : Text → Option GitMatch
unfolding span digits spaces1 git_counts to_number starts_with_letter
git_match t = do
  let (phase, t1) = span (λ c. is_letter c || c == b' ') t
  guard (starts_with_letter phase && leb 2 (length phase))
  t2 ← expect b':' t1
  t3 ← spaces1 t2
  (ds, t4) ← digits t3
  guard (leb (length ds) 3)
  t5 ← expect b'%' t4
  some (record { phase = phase; percent = to_number ds; counts = git_counts t5 })

-- How much of the phase is done, as a pair of numbers.
unfoldable pub phase_done : ℕ → Option (ℕ × ℕ) → ℕ × ℕ
phase_done percent none = (min percent 100, 100)
phase_done percent (some (current, zero)) = (min percent 100, 100)
phase_done percent (some (current, suc total)) = (min current (suc total), suc total)

-- offset + weight * done
unfoldable pub git_fraction : ℕ × ℕ → ℕ × ℕ → Measure
git_fraction (offset, weight) (num, den) = fraction (offset * den + weight * num) (100 * den)

git_reading : Text → GitMatch → Option Reading
unfolding git_progress_phases git_fraction phase_done has_suffix Dict.get
git_reading line m = do
  place ← Dict.get m.phase git_progress_phases
  some (record {
    measure = git_fraction place (phase_done m.percent m.counts);
    transient = not (has_suffix (txt "done.") line);
  })

-- COUNTED_PROGRESS_RE, with a total that is not zero
counted_reading : Text → Option Reading
unfolding span spaces1 ratio
counted_reading t = do
  let (label, t1) = span (λ c. not (c == b':')) t
  guard (leb 3 (length label) && leb (length label) 60)
  t2 ← expect b':' t1
  t3 ← spaces1 t2
  (current, total, t4) ← ratio t3
  guard (leb (length (skip_spaces t4)) 0 && ltb 0 total)
  some (record { measure = fraction (min current total) total; transient = false })

-- ODOO_MODULE_LOADING_RE at the beginning of the text
odoo_match : Text → Option (ℕ × ℕ)
unfolding span ratio
odoo_match t = do
  let announced = txt "odoo.modules.loading: Loading module "
  guard (has_prefix announced t)
  let (name, t1) = span (λ c. not (is_space c)) (drop (length announced) t)
  guard (leb 1 (length name))
  t2 ← expect b' ' t1
  t3 ← expect b'(' t2
  (index, total, t4) ← ratio t3
  t5 ← expect b')' t4
  some (index, total)

-- `search`: the first place where the pattern fits
odoo_search : Text → Option (ℕ × ℕ)
unfolding odoo_match
odoo_search [] = none
odoo_search (c ∷ t) =
    let later = odoo_search t in elim (odoo_match (c ∷ t)) [ some r ↦ some r | none ↦ later ]

odoo_reading : Text → Option Reading
unfolding odoo_search
odoo_reading t = do
  (index, total) ← odoo_search t
  guard (ltb 0 total)
  some (record { measure = position index total; transient = false })

first_reading : Option Reading → Option Reading → Option Reading
first_reading (some r) other = some r
first_reading none other = other

without_remote : Text → Text
without_remote t = if has_prefix (txt "remote: ") t then drop (length (txt "remote: ")) t else t

read_line : Text → Option GitMatch → Option Reading
unfolding git_reading counted_reading odoo_reading first_reading
read_line line (some m) = git_reading line m
read_line line none = first_reading (counted_reading line) (odoo_reading line)

unfoldable pub parse_output_progress : Text → Option Reading
unfolding strip without_remote git_match read_line
parse_output_progress text =
    let line = without_remote (strip text) in read_line line (git_match line)
