-- ===== src/Prelude/Greedy.antt =====
-- A repetition of a class takes all that it can, when what follows then fits.
use Prim.Native.Nat.{ℕ, zero, suc, ◌≤◌, ◌-◌}
use mathlib.Core.Path.{◌≡◌, refl, ap, ◌∙◌}
use mathlib.Core.Bool.{Bool, true, false}
use mathlib.Core.Option.{Option, none, some}
use mathlib.Core.List.{List, [], ◌∷◌, ◌++◌}
use native.Mathlib.Omega.{arith}
use sdk_local_manager.Prelude.Tests.{if◌then◌else◌, and-true}
use sdk_local_manager.Prelude.Lists.{length, all, length-append, take}
use sdk_local_manager.Prelude.Text.{Text}
use sdk_local_manager.Prelude.Regex.{one, many1, group, Place, run_re, greedy_loop}

-- What has been read comes before, the last character first.
abbrev pub walked : Text → Text → Text
walked [] b = b
walked (c ∷ t) b = walked t (c ∷ b)

-- The class ends here.
abbrev pub Stops : (ℕ → Bool) → Text → Type 0
Stops p [] = Unit
Stops p (c ∷ t) = p c ≡ false

abbrev pub at : Text → Text → List (ℕ × Text) → Place
at before rest groups = record { before = before; rest = rest; groups = groups }

module _ {ℓ} {A : Type ℓ} (p : ℕ → Bool) (gs : List (ℕ × Text)) (k : Place → Option A) (x : A) where
  pub greedy_loop-run :
      (n : ℕ) (b u w : Text)
      → all p u ≡ true
      → Stops p w
      → length u ≤ n
      → k (at (walked u b) w gs) ≡ some x
      → greedy_loop (run_re (one p)) n (at b (u ++ w) gs) k ≡ some x
  unfolding greedy_loop run_re
  greedy_loop-run zero b [] w hu hw hn hk = hk
  greedy_loop-run zero b (c ∷ u) w hu hw hn hk = absurd (omega arith)
  greedy_loop-run (suc n) b [] [] hu hw hn hk = hk
  greedy_loop-run (suc n) b [] (c ∷ w) hu hw hn hk = ground (arith, hw, hk)
  greedy_loop-run (suc n) b (c ∷ u) w hu hw hn hk =
      let h = and-true (p c) (all p u) hu in
      let rest = greedy_loop-run n (c ∷ b) u w h.1 hw (omega arith) hk in ground (arith, h.0, rest)

take-append : (u w : Text) → take (length u) (u ++ w) ≡ u
take-append [] w = refl
take-append (c ∷ u) w = ap (◌∷◌ c) (take-append u w)

-- What stands between two places.
between : (u w : Text) → take (length (u ++ w) - length w) (u ++ w) ≡ u
between u w =
    ap (λ n. take n (u ++ w))
      (let e : length (u ++ w) - length w ≡ length u = omega (arith, length-append u w) in e)
    ∙ take-append u w

module _ {ℓ} {A : Type ℓ} (p : ℕ → Bool) (gs : List (ℕ × Text)) (k : Place → Option A) (x : A) where
  -- A group of one or more characters.
  pub run_re-group :
      (n : ℕ) (c : ℕ) (b u w : Text)
      → all p (c ∷ u) ≡ true
      → Stops p w
      → k (at (walked (c ∷ u) b) w ((n, c ∷ u) ∷ gs)) ≡ some x
      → run_re (group n (many1 (one p))) (at b (c ∷ (u ++ w)) gs) k ≡ some x
  unfolding run_re
  run_re-group n c b u w hu hw hk =
      let h = and-true (p c) (all p u) hu in
      let keep : Place → Option A = λ s. k (record s {
        groups = (n, take (length (c ∷ (u ++ w)) - length s.rest) (c ∷ (u ++ w))) ∷ s.groups;
      }) in
      let rest =
        greedy_loop-run p gs keep x (length (u ++ w)) (c ∷ b) u w h.1 hw
          (omega (arith, length-append u w))
          (ap (λ t. k (at (walked u (c ∷ b)) w ((n, t) ∷ gs))) (between (c ∷ u) w) ∙ hk) in
      ap
        (λ q.
          if q
          then greedy_loop (run_re (one p)) (length (u ++ w)) (at (c ∷ b) (u ++ w) gs) keep
          else none)
        h.0
      ∙ rest
