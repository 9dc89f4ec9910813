-- ===== src/CommandOutput/Bounds.antt =====
-- What a reading of a command's output can be.
use sdk_local_manager.Prelude.{
  ℕ, ◌+◌, ◌*◌, ◌≤◌, ◌<◌, ◌≡◌, Option, none, some, arith, zero, suc, Eq_ℕ, Eq_List, All,
  Option-cases, inl, inr,
}
use mathlib.Core.Path.{subst}
use native.Mathlib.Nat.{le_trans}
use sdk_local_manager.Prelude.Dict
use sdk_local_manager.Prelude.Dict.{All-get}
use sdk_local_manager.Prelude.Options.{>>=-eq-some}
use sdk_local_manager.Prelude.Text.{Text, strip}
use sdk_local_manager.CommandOutput.{
  Measure, fraction, position, Reading, GitMatch, git_progress_phases, phase_done, git_fraction,
  git_reading, counted_reading, odoo_reading, read_line, without_remote, git_match,
  parse_output_progress,
}

-- A fraction is at most one whole; a list of modules that Odoo goes through is not empty.
abbrev pub IsWithin : Measure → Type 0
IsWithin (fraction num den) = (num ≤ den) × (0 < den)
IsWithin (position index total) = 0 < total

phase_done_bounds :
    (percent : ℕ) (counts : Option (ℕ × ℕ))
    → ((phase_done percent counts).0 ≤ (phase_done percent counts).1)
      × (0 < (phase_done percent counts).1)
unfolding phase_done
phase_done_bounds percent none = omega arith
phase_done_bounds percent (some (current, zero)) = omega arith
phase_done_bounds percent (some (current, suc total)) = omega arith

scaled : (o w n d : ℕ) → o + w ≤ 100 → n ≤ d → o * d + w * n ≤ 100 * d
scaled o w n d p h = le_trans (add_le w n d h) (omega (arith, mul_mono (o + w) 100 d p))
  where
    add_le : (a b c : ℕ) → b ≤ c → o * d + a * b ≤ o * d + a * c
    add_le a b c e = grind arith

    mul_mono : (a b c : ℕ) → a ≤ b → a * c ≤ b * c
    mul_mono a b c e = grind arith

git_fraction-IsWithin :
    (place done : ℕ × ℕ)
    → place.0 + place.1 ≤ 100
    → done.0 ≤ done.1
    → 0 < done.1
    → IsWithin (git_fraction place done)
unfolding git_fraction
git_fraction-IsWithin (offset, weight) (num, den) p h z =
    (grind (arith, scaled offset weight num den), omega arith)

phases_fit : All (λ (e : Text × (ℕ × ℕ)). e.1.0 + e.1.1 ≤ 100) git_progress_phases
unfolding git_progress_phases
phases_fit = omega arith

git_reading-IsWithin :
    (line : Text) (m : GitMatch) (r : Reading) → git_reading line m ≡ some r → IsWithin r.measure
unfolding git_reading
git_reading-IsWithin line m r h =
    let (place, found, e) = >>=-eq-some (Dict.get m.phase git_progress_phases) _ h in
    let d = phase_done_bounds m.percent m.counts in
    let w =
      git_fraction-IsWithin place (phase_done m.percent m.counts)
        (All-get (λ (p : ℕ × ℕ). p.0 + p.1 ≤ 100) git_progress_phases m.phase phases_fit found) d.0
        d.1 in
    subst IsWithin
      (let q : git_fraction place (phase_done m.percent m.counts) ≡ r.measure = ground arith in q) w

counted_reading-IsWithin :
    (line : Text) (r : Reading) → counted_reading line ≡ some r → IsWithin r.measure
unfolding counted_reading
counted_reading-IsWithin line r h = ground arith

odoo_reading-IsWithin :
    (line : Text) (r : Reading) → odoo_reading line ≡ some r → IsWithin r.measure
unfolding odoo_reading
odoo_reading-IsWithin line r h = ground arith

read_line-IsWithin :
    (line : Text) (m : Option GitMatch) (r : Reading)
    → read_line line m ≡ some r
    → IsWithin r.measure
unfolding read_line
read_line-IsWithin line (some m) r h = git_reading-IsWithin line m r h
read_line-IsWithin line none r h = elim (Option-cases (counted_reading line)) [
  | inl e ↦ odoo_reading-IsWithin line r (ground arith)
  | inr (s, e) ↦ counted_reading-IsWithin line r (ground arith)
]

-- Whatever a command writes, a fraction that is read from its line lies between 0 and 1, and a place
-- in the list of modules comes with a list that is not empty: neither divides by zero.
pub parse_output_progress-IsWithin :
    (text : Text) (r : Reading) → parse_output_progress text ≡ some r → IsWithin r.measure
unfolding parse_output_progress
parse_output_progress-IsWithin text r h =
    read_line-IsWithin (without_remote (strip text)) (git_match (without_remote (strip text))) r h
