-- ===== src/JobProgress.antt =====
-- odoo_manager_core/job_progress.py: the one progress bar of an action.
--
-- The numbers of the bar are a parameter, an ordered type with the operations that the code calls,
-- of which nothing but the order is assumed: what is proved does not depend on their rounding. A
-- clock reading is an argument of each operation.
pub mod Forward
pub mod Tests
use sdk_local_manager.Prelude.{
  ℕ, ◌≤◌, ◌≡◌, Bool, true, false, not, ◌||◌, Option, none, some, List, [], ◌∷◌, if◌then◌else◌, ◌==◌,
  Eq_ℕ, Eq_Option, nat_eq,
}
use sdk_local_manager.Prelude.Text.{Text, txt}

-- The numbers that are no NaN.
pub record Numbers : Type 1 where
  pub Q : Type 0
  pub leb : Q → Q → Bool
  pub add : Q → Q → Q
  pub sub : Q → Q → Q
  pub mul : Q → Q → Q
  -- `none`: division by zero
  pub div : Q → Q → Option Q
  pub of : ℕ → Q
  -- `int` of a number that is not negative
  pub floor : Q → ℕ
  pub leb_total : (a b : Q) → leb a b ≡ false → leb b a ≡ true
  pub floor_mono : (a b : Q) → leb a b ≡ true → floor a ≤ floor b
  pub floor_of : (n : ℕ) → floor (of n) ≡ n
  pub of_mono : (m n : ℕ) → m ≤ n → leb (of m) (of n) ≡ true

unfoldable pub max_running_percent : ℕ
max_running_percent = 99

unfoldable pub default_expected_seconds : ℕ
default_expected_seconds = 30

module _ (numbers : Numbers) where
  abbrev pub Q : Type 0
  Q = numbers.Q

  -- Python's `max` and `min` keep the first of two equal numbers.
  abbrev pub qmax : Q → Q → Q
  qmax a b = if numbers.leb b a then a else b

  abbrev pub qmin : Q → Q → Q
  qmin a b = if numbers.leb a b then a else b

  abbrev pub limit : Q
  limit = numbers.of max_running_percent

  pub record Progress : Type 0 where
    pub shown : Q
    pub label : Text
    pub start : Q
    pub end : Q
    pub started_at : Q
    pub expected : Q
    pub fraction : Q
    pub sequence_total : Option ℕ
    pub sequence_origin : ℕ

  abbrev pub quotient : Q → Option Q → Q
  quotient default none = default
  quotient default (some q) = q

  -- The quotient always exists: elapsed is positive, and so is what it is divided by.
  unfoldable pub time_fraction : Q → Q → Q
  time_fraction elapsed expected =
      if numbers.leb elapsed (numbers.of 0)
      then numbers.of 0
      else quotient (numbers.of 0) (
          numbers.div elapsed (
            numbers.add elapsed (
              quotient (numbers.of 0) (numbers.div (qmax expected (numbers.of 1)) (numbers.of 2)))))

  -- `expected_seconds or DEFAULT_EXPECTED_SECONDS`; `none` stands for None and for zero.
  abbrev pub seconds_or_default : Option Q → Q
  seconds_or_default none = numbers.of default_expected_seconds
  seconds_or_default (some q) = q

  unfoldable pub begin : Q → Option Q → Q → Progress → Progress
  begin end expected_seconds now p = record p {
    start = p.shown;
    end = qmin (qmax end p.shown) limit;
    started_at = now;
    expected = qmax (seconds_or_default expected_seconds) (numbers.of 1);
    fraction = numbers.of 0;
    sequence_total = none;
    sequence_origin = 0;
  }

  -- `JobProgress(expected_seconds, label)`
  unfoldable pub new_progress : Option Q → Text → Q → Progress
  new_progress expected_seconds label now = begin limit expected_seconds now (record {
    shown = numbers.of 0;
    label = label;
    start = numbers.of 0;
    end = numbers.of 0;
    started_at = now;
    expected = numbers.of 0;
    fraction = numbers.of 0;
    sequence_total = none;
    sequence_origin = 0;
  })

  abbrev pub value_at : Q → Progress → Q
  value_at now p = numbers.add p.start (
      numbers.mul (numbers.sub p.end p.start)
        (qmax p.fraction (time_fraction (numbers.sub now p.started_at) p.expected)))

  -- `_current()`: the bar after it, whose `shown` is what the method returns
  unfoldable pub current : Q → Progress → Progress
  current now p = record p { shown = qmax p.shown (qmin (value_at now p) limit) }

  abbrev pub end_of : Option Q → Option Q → Q → Q
  end_of (some end) share shown = end
  end_of none share shown =
      numbers.add shown (numbers.mul (numbers.sub limit shown) (quotient (numbers.of 1) share))

  abbrev pub relabelled : Text → Progress → Progress
  relabelled [] p = p
  relabelled (c ∷ t) p = record p { label = c ∷ t }

  -- The clock is read twice, by `_current` and by `_begin`.
  unfoldable pub span : Text → Option Q → Option Q → Option Q → Q → Q → Progress → Progress
  span label end share expected now later p =
      let p' = current now p in
      begin (end_of end share p'.shown) expected later (relabelled label p')

  abbrev pub kept_fraction : Option Q → Progress → Progress
  kept_fraction none p = p
  kept_fraction (some fraction) p = record p {
    fraction = qmax p.fraction (qmin (qmax fraction (numbers.of 0)) (numbers.of 1));
  }

  abbrev pub measured : Q → Option Q → Option Q
  measured value none = some value
  measured value (some total) = numbers.div value total

  unfoldable pub measure : Q → Option Q → Progress → Progress
  measure value total p = kept_fraction (measured value total) p

  abbrev pub with_sequence : ℕ → ℕ → Progress → Progress
  with_sequence index total p =
      if not (some total == p.sequence_total)
      then record p { sequence_total = some total; sequence_origin = index }
      else p

  unfoldable pub measure_position : ℕ → ℕ → Progress → Progress
  measure_position index total p =
      let p' = with_sequence index total p in
      kept_fraction
        (numbers.div (numbers.sub (numbers.of index) (numbers.of p'.sequence_origin)) (
          qmax
            (numbers.add (numbers.sub (numbers.of total) (numbers.of p'.sequence_origin))
              (numbers.of 1))
            (numbers.of 1)))
        p'

  -- What an action and its readers do, in the order in which they take the lock.
  pub data Operation : Type 0 where
    do_span : Text → (end share expected : Option Q) → (now later : Q) → Operation
    do_measure : Q → Option Q → Operation
    do_position : (index total : ℕ) → Operation
    do_snapshot : (now : Q) → Operation

  unfoldable pub step : Operation → Progress → Progress
  step (do_span label end share expected now later) p = span label end share expected now later p
  step (do_measure value total) p = measure value total p
  step (do_position index total) p = measure_position index total p
  step (do_snapshot now) p = current now p

  -- `int(self._current())`, for a snapshot
  abbrev pub percent_after : Operation → Progress → List ℕ → List ℕ
  percent_after (do_snapshot now) p rest = numbers.floor p.shown ∷ rest
  percent_after _ p rest = rest

  -- The percents that the snapshots of a sequence of operations give.
  unfoldable pub percents : List Operation → Progress → List ℕ
  percents [] p = []
  percents (o ∷ os) p = let p' = step o p in percent_after o p' (percents os p')
