-- ===== src/JobProgress/Tests.antt =====
-- A bar over hundredths, and the theorem of the bars at it.
use sdk_local_manager.Prelude.{
  ℕ, zero, suc, ◌+◌, ◌-◌, ◌*◌, ◌/◌, ◌≤◌, ◌≡◌, refl, true, false, Option, none, some, List, [], ◌∷◌,
  arith, leb, Eq_ℕ, Eq_Option,
}
use sdk_local_manager.Prelude.Text.{txt}
use sdk_local_manager.JobProgress.{
  Numbers, Operation, do_span, do_measure, do_snapshot, percents, new_progress, step, span, begin,
  current, measure, measure_position, time_fraction, default_expected_seconds, max_running_percent,
}
use sdk_local_manager.JobProgress.Forward.{Advances, percents-new_progress}

-- The number n stands for n hundredths.
abbrev divide : ℕ → ℕ → Option ℕ
divide a zero = none
divide a (suc b) = some (100 * a / suc b)

total : (a b : ℕ) → leb a b ≡ false → leb b a ≡ true
total a b h = ground arith

floor_up : (a b : ℕ) → leb a b ≡ true → a / 100 ≤ b / 100
floor_up a b h = let l : a ≤ b = ground arith in omega arith

floor_whole : (n : ℕ) → 100 * n / 100 ≡ n
floor_whole n = omega arith

of_up : (m n : ℕ) → m ≤ n → leb (100 * m) (100 * n) ≡ true
of_up m n h = ground arith

abbrev hundredths : Numbers
hundredths = record {
  Q = ℕ;
  leb = leb;
  add = λ a b. a + b;
  sub = λ a b. a - b;
  mul = λ a b. a * b / 100;
  div = divide;
  of = λ n. 100 * n;
  floor = λ a. a / 100;
  leb_total = total;
  floor_mono = floor_up;
  floor_of = floor_whole;
  of_mono = of_up;
}

abbrev operations : List (Operation hundredths)
operations =
    do_span (txt "Download") (some 4000) none none 0 0
    ∷ do_measure 50 none
    ∷ do_snapshot 100
    ∷ do_measure 20 none
    ∷ do_snapshot 200
    ∷ do_span (txt "Update") none none none 300 300
    ∷ do_snapshot 4800
    ∷ []

percents-operations :
    percents hundredths operations (new_progress hundredths none (txt "") 0) ≡ 20 ∷ 20 ∷ 79 ∷ []
unfolding percents new_progress step span begin current measure measure_position time_fraction
    default_expected_seconds max_running_percent
percents-operations = refl

percents-new_progress_example :
    Advances 0 (percents hundredths operations (new_progress hundredths none [] 0))
percents-new_progress_example = percents-new_progress hundredths operations none [] 0
