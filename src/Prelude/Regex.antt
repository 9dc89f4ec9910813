-- ===== src/Prelude/Regex.antt =====
-- Python's `re`, as the program uses it: a backtracking search, over texts as lists of code points.
--
-- A body under a repetition consumes at least one character in every pattern of the program, so the
-- length of what is left bounds the rounds of the repetition.
use mathlib.Core.Bool.{Bool, true, false, not, ◌&&◌, ◌||◌}
use mathlib.Core.Option.{Option, none, some}
use mathlib.Core.List.{List, [], ◌∷◌}
use Prim.Native.Nat.{ℕ, zero, suc, ◌-◌}
use sdk_local_manager.Prelude.Tests.{if◌then◌else◌, leb, nat_eq}
use sdk_local_manager.Prelude.Lists.{length, take}
use sdk_local_manager.Prelude.Equality.{◌==◌, Eq_ℕ}
use sdk_local_manager.Prelude.Text.{Text, is_space, is_digit}

pub data Re : Type 0 where
  -- a character of a class
  one : (ℕ → Bool) → Re
  empty : Re
  seq : Re → Re → Re
  alt : Re → Re → Re
  -- `r*`, and `r*?`
  many : Re → Re
  many_lazy : Re → Re
  -- a group, by its number
  group : ℕ → Re → Re
  -- `^`, `$`, `\b`
  at_start : Re
  at_end : Re
  at_edge : Re

-- A place in a text: what lies before it, the nearest character first, and what is left.
pub record Place : Type 0 where
  pub before : Text
  pub rest : Text
  pub groups : List (ℕ × Text)

abbrev pub is_word : ℕ → Bool
is_word c =
    (leb b'a' c && leb c b'z') || (leb b'A' c && leb c b'Z') || is_digit c || c == b'_' || leb 192 c

abbrev word_first : Text → Bool
word_first [] = false
word_first (c ∷ t) = is_word c

abbrev is_edge : Place → Bool
is_edge s = if word_first s.before then not (word_first s.rest) else word_first s.rest

abbrev is_end : Text → Bool
is_end [] = true
is_end (c ∷ []) = c == 10
is_end (c ∷ d ∷ t) = false

abbrev is_start : Text → Bool
is_start [] = true
is_start (c ∷ t) = false

abbrev capture : ℕ → Place → Place → Place
capture n from to = record to {
  groups = (n, take (length from.rest - length to.rest) from.rest) ∷ to.groups;
}

module _ {ℓ} {A : Type ℓ} where
  abbrev or_else : Option A → Option A → Option A
  or_else none b = b
  or_else (some a) b = some a

  abbrev step_one : (ℕ → Bool) → Place → Text → (Place → Option A) → Option A
  step_one p s [] k = none
  step_one p s (c ∷ t) k = if p c then k (record s { before = c ∷ s.before; rest = t }) else none

  unfoldable pub greedy_loop :
      (Place → (Place → Option A) → Option A) → ℕ → Place → (Place → Option A) → Option A
  greedy_loop step zero s k = k s
  greedy_loop step (suc n) s k = elim (step s (λ s'. greedy_loop step n s' k)) [
    | some a ↦ some a
    | none ↦ k s
  ]

  lazy_loop : (Place → (Place → Option A) → Option A) → ℕ → Place → (Place → Option A) → Option A
  lazy_loop step zero s k = k s
  lazy_loop step (suc n) s k = elim (k s) [
    | some a ↦ some a
    | none ↦ step s (λ s'. lazy_loop step n s' k)
  ]

  unfoldable pub run_re : Re → Place → (Place → Option A) → Option A
  unfolding greedy_loop lazy_loop
  run_re (one p) s k = step_one p s s.rest k
  run_re empty s k = k s
  run_re (seq a b) s k = run_re a s (λ s'. run_re b s' k)
  run_re (alt a b) s k = elim (run_re a s k) [ some x ↦ some x | none ↦ run_re b s k ]
  run_re (many r) s k = greedy_loop (run_re r) (length s.rest) s k
  run_re (many_lazy r) s k = lazy_loop (run_re r) (length s.rest) s k
  run_re (group n r) s k = run_re r s (λ s'. k (capture n s s'))
  run_re at_start s k = if is_start s.before then k s else none
  run_re at_end s k = if is_end s.rest then k s else none
  run_re at_edge s k = if is_edge s then k s else none

abbrev pub whole : Text → Place
whole t = record { before = []; rest = t; groups = [] }

-- `re.match`, `re.fullmatch` and `re.search`
unfoldable pub match_re : Re → Text → Option Place
unfolding run_re
match_re r t = run_re r (whole t) some

abbrev pub at_last : Place → Option Place
at_last s = elim s.rest [ [] ↦ some s | c ∷ t ↦ none ]

unfoldable pub fullmatch : Re → Text → Option Place
unfolding run_re
fullmatch r t = run_re r (whole t) at_last

unfoldable pub search_from : Re → Text → Text → Option Place
unfolding run_re
search_from r before [] = run_re r (record { before = before; rest = []; groups = [] }) some
search_from r before (c ∷ t) =
    elim (run_re r (record { before = before; rest = c ∷ t; groups = [] }) some) [
      | some s ↦ some s
      | none ↦ search_from r (c ∷ before) t
    ]

unfoldable pub search_re : Re → Text → Option Place
unfolding search_from
search_re r t = search_from r [] t

abbrev find_group : ℕ → List (ℕ × Text) → Option Text
find_group n [] = none
find_group n ((m, t) ∷ gs) = if nat_eq m n then some t else find_group n gs

-- `match.group(n)`
abbrev pub group_of : ℕ → Place → Option Text
group_of n s = find_group n s.groups

-- Shorthands.
abbrev pub lit : Text → Re
lit [] = empty
lit (c ∷ t) = seq (one (λ d. d == c)) (lit t)

abbrev pub many1 : Re → Re
many1 r = seq r (many r)

abbrev pub maybe : Re → Re
maybe r = alt r empty

abbrev pub times : ℕ → Re → Re
times zero r = empty
times (suc n) r = seq r (times n r)

abbrev pub digit : Re
digit = one is_digit

abbrev pub space : Re
space = one is_space

abbrev pub any_char : Re
any_char = one (λ c. not (c == 10))

abbrev pub not_space : Re
not_space = one (λ c. not (is_space c))

-- `text.split(sep)` for a one-character separator, `text.partition(sep)`
abbrev pub cons_first : ℕ → List Text → List Text
cons_first c [] = (c ∷ []) ∷ []
cons_first c (p ∷ ps) = (c ∷ p) ∷ ps

unfoldable pub split_on : ℕ → Text → List Text
split_on sep [] = [] ∷ []
split_on sep (c ∷ t) =
    let rest = split_on sep t in if c == sep then [] ∷ rest else cons_first c rest

unfoldable pub partition : ℕ → Text → Text × Text
partition sep [] = ([], [])
partition sep (c ∷ t) = let (a, b) = partition sep t in if c == sep then ([], t) else (c ∷ a, b)
