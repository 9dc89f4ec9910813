-- ===== src/Compose/Settled.antt =====
-- A compose file whose healthchecks have their `start_period` is not edited again.
use mathlib.Core.Path.{subst}
use sdk_local_manager.Prelude.{
  ℕ, zero, suc, ◌≤◌, ◌≡◌, refl, ap, ◌∙◌, false, ◌||◌, List, [], ◌∷◌, ◌++◌, length, if◌then◌else◌,
  if-holds, arith,
}
use sdk_local_manager.Prelude.Text.{Text}
use sdk_local_manager.Compose.{indent}
use sdk_local_manager.Compose.Healthcheck.{
  is_below, block_of, opened, amended, opens_healthcheck, needs_start_period, edited,
}
use sdk_local_manager.Compose.Kept.{length-opened}
use sdk_local_manager.Compose.Added.{AllUnder, amended-AllUnder, needs_start_period-amended}

-- The lines are none, or the first is not under the indentation.
abbrev pub Stops : ℕ → List Text → Type 0
Stops k [] = Unit
Stops k (l ∷ ls) = is_below k l ≡ false

-- The lines begin with the same line, or are none.
abbrev first_line : List Text → List Text
first_line [] = []
first_line (l ∷ ls) = l ∷ []

pub block_of-AllUnder : (k : ℕ) (ls : List Text) → AllUnder k (block_of k ls).0
unfolding block_of
block_of-AllUnder k [] = tt
block_of-AllUnder k (l ∷ ls) =
    if-holds (λ (r : List Text × List Text). AllUnder k r.0) (is_below k l)
      (l ∷ (block_of k ls).0, (block_of k ls).1) ([], l ∷ ls) (λ e. (e, block_of-AllUnder k ls))
      (λ _. tt)

pub block_of-Stops : (k : ℕ) (ls : List Text) → Stops k (block_of k ls).1
unfolding block_of
block_of-Stops k [] = tt
block_of-Stops k (l ∷ ls) =
    if-holds (λ (r : List Text × List Text). Stops k r.1) (is_below k l)
      (l ∷ (block_of k ls).0, (block_of k ls).1) ([], l ∷ ls) (λ _. block_of-Stops k ls) (λ e. e)

block_of-append :
    (k : ℕ) (block after : List Text)
    → AllUnder k block
    → Stops k after
    → block_of k (block ++ after) ≡ (block, after)
unfolding block_of
block_of-append k [] [] u s = refl
block_of-append k [] (l ∷ ls) u s =
    ap (λ b. if b then (l ∷ (block_of k ls).0, (block_of k ls).1) else ([], l ∷ ls)) s
block_of-append k (l ∷ block) after u s =
    ap
      (λ b.
        if b
        then (l ∷ (block_of k (block ++ after)).0, (block_of k (block ++ after)).1)
        else ([], l ∷ (block ++ after)))
      u.0
    ∙ ap (λ r. (l ∷ r.0, r.1)) (block_of-append k block after u.1 s)

Stops-first_line :
    (k : ℕ) (ls ms : List Text) → first_line ls ≡ first_line ms → Stops k ls → Stops k ms
Stops-first_line k ls ms e s = to_all ms (subst (Stops k) e (to_first ls s))
  where
    to_first : (xs : List Text) → Stops k xs → Stops k (first_line xs)
    to_first [] h = h
    to_first (x ∷ xs) h = h

    to_all : (xs : List Text) → Stops k (first_line xs) → Stops k xs
    to_all [] h = h
    to_all (x ∷ xs) h = h

edited-first_line :
    (n : ℕ) (ls : List Text) → length ls ≤ n → first_line ls ≡ first_line (edited n ls).0
unfolding edited
edited-first_line zero [] h = refl
edited-first_line zero (l ∷ ls) h = absurd (omega arith)
edited-first_line (suc n) [] h = refl
edited-first_line (suc n) (l ∷ ls) h = refl

-- What the line opens in the result: the amended block, and the lines edited after it.
opened-amended :
    (l : Text) (ls rest : List Text)
    → first_line (opened l ls).1 ≡ first_line rest
    → opened l (amended (opened l ls).0 ++ rest) ≡ (amended (opened l ls).0, rest)
unfolding opened
opened-amended l ls rest =
    if-holds
      (λ (r : List Text × List Text).
        first_line r.1 ≡ first_line rest
        → (if opens_healthcheck l
            then block_of (indent l) (amended r.0 ++ rest)
            else ([], amended r.0 ++ rest))
          ≡ (amended r.0, rest))
      (opens_healthcheck l) (block_of (indent l) ls) ([], ls)
      (λ e f.
        ap
          (λ b.
            if b
            then block_of (indent l) (amended (block_of (indent l) ls).0 ++ rest)
            else ([], amended (block_of (indent l) ls).0 ++ rest))
          e
        ∙ block_of-append (indent l) (amended (block_of (indent l) ls).0) rest
            (amended-AllUnder (indent l) (block_of (indent l) ls).0
              (block_of-AllUnder (indent l) ls))
            (Stops-first_line (indent l) (block_of (indent l) ls).1 rest f
              (block_of-Stops (indent l) ls)))
      (λ e f.
        unfold amended needs_start_period in
        ap (λ b. if b then block_of (indent l) rest else ([], rest)) e)

amended-amended : (block : List Text) → amended (amended block) ≡ amended block
unfolding amended
amended-amended block =
    if-holds (λ b. b ≡ amended block) (needs_start_period (amended block)) _ (amended block)
      (λ e. absurd (cc (e, needs_start_period-amended block))) (λ _. refl)

length-edited : (l : Text) (block rest : List Text) → length rest ≤ length (block ++ rest)
length-edited l [] rest = omega arith
length-edited l (x ∷ block) rest = omega (arith, length-edited l block rest)

edited-again :
    (n m : ℕ) (ls : List Text)
    → length ls ≤ n
    → length (edited n ls).0 ≤ m
    → edited m (edited n ls).0 ≡ ((edited n ls).0, false)
unfolding edited
edited-again zero zero ls h k = refl
edited-again zero (suc m) ls h k = refl
edited-again (suc n) zero [] h k = refl
edited-again (suc n) (suc m) [] h k = refl
edited-again (suc n) zero (l ∷ ls) h k = absurd (omega arith)
edited-again (suc n) (suc m) (l ∷ ls) h k =
    let block = (opened l ls).0 in
    let after = (opened l ls).1 in
    let rest = (edited n after).0 in
    let fits : length after ≤ n = omega (arith, length-opened l ls) in
    ap (λ r. (l ∷ amended r.0 ++ (edited m r.1).0, needs_start_period r.0 || (edited m r.1).1))
      (opened-amended l ls rest (edited-first_line n after fits))
    ∙ ap
        (λ b. (l ∷ b ++ (edited m rest).0, needs_start_period (amended block) || (edited m rest).1))
        (amended-amended block)
    ∙ ap (λ b. (l ∷ amended block ++ (edited m rest).0, b || (edited m rest).1))
        (needs_start_period-amended block)
    ∙ ap (λ r. (l ∷ amended block ++ r.0, r.1))
        (edited-again n m after fits (omega (arith, length-edited l (amended block) rest)))

-- Editing the lines that an edition gives changes nothing, whatever the rounds allowed above their
-- number: each `healthcheck` that runs `pg_isready` has its `start_period` after one edition.
pub edited-edited :
    (ls : List Text) (n : ℕ)
    → length (edited (length ls) ls).0 ≤ n
    → edited n (edited (length ls) ls).0 ≡ ((edited (length ls) ls).0, false)
edited-edited ls n h = edited-again (length ls) n ls (omega arith) h
