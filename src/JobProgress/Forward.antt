-- ===== src/JobProgress/Forward.antt =====
-- The bar never goes back, and does not reach its end while the action runs.
use sdk_local_manager.Prelude.{
  ℕ, ◌≤◌, ◌≡◌, refl, ◌∙◌, true, Option, none, some, List, [], ◌∷◌, arith, Bool-cases, inl, inr,
}
use sdk_local_manager.Prelude.Text.{Text}
use sdk_local_manager.JobProgress.{
  Numbers, Q, qmax, qmin, limit, Progress, begin, new_progress, current, value_at, span, measure,
  measure_position, kept_fraction, with_sequence, relabelled, Operation, do_span, do_measure,
  do_position, do_snapshot, step, percent_after, percents, max_running_percent, measured,
}

-- From `last` on, none smaller than the one before, and none at a hundred.
abbrev pub Advances : ℕ → List ℕ → Type 0
Advances last [] = Unit
Advances last (n ∷ ns) = (last ≤ n) × (n ≤ max_running_percent) × Advances n ns

module _ (numbers : Numbers) where
  leb_refl : (a : Q numbers) → numbers.leb a a ≡ true
  leb_refl a = elim (Bool-cases (numbers.leb a a)) [ inl e ↦ e | inr e ↦ numbers.leb_total a a e ]

  qmax-left : (a b : Q numbers) → numbers.leb a (qmax numbers a b) ≡ true
  qmax-left a b = ground (arith, leb_refl a, numbers.leb_total b a)

  qmax-le :
      (a b c : Q numbers)
      → numbers.leb a c ≡ true
      → numbers.leb b c ≡ true
      → numbers.leb (qmax numbers a b) c ≡ true
  qmax-le a b c h k = ground arith

  qmin-right : (a b : Q numbers) → numbers.leb (qmin numbers a b) b ≡ true
  qmin-right a b = ground (arith, leb_refl b)

  -- Within what a running action shows.
  abbrev pub IsRunning : Progress numbers → Type 0
  IsRunning p = numbers.leb p.shown (limit numbers) ≡ true

  -- No further back, and still within.
  abbrev IsForward : Progress numbers → Progress numbers → Type 0
  IsForward p p' = (numbers.leb p.shown p'.shown ≡ true) × IsRunning p'

  current-IsForward :
      (now : Q numbers) (p : Progress numbers) → IsRunning p → IsForward p (current numbers now p)
  unfolding current
  current-IsForward now p h = (
    qmax-left p.shown (qmin numbers (value_at numbers now p) (limit numbers)),
    qmax-le p.shown (qmin numbers (value_at numbers now p) (limit numbers)) (limit numbers) h
        (qmin-right (value_at numbers now p) (limit numbers)),
  )

  same-IsForward : (p p' : Progress numbers) → p'.shown ≡ p.shown → IsRunning p → IsForward p p'
  same-IsForward p p' e h = ground (arith, leb_refl p.shown, e, h)

  kept_fraction-shown :
      (f : Option (Q numbers)) (p : Progress numbers) → (kept_fraction numbers f p).shown ≡ p.shown
  kept_fraction-shown none p = refl
  kept_fraction-shown (some f) p = refl

  relabelled-shown :
      (label : Text) (p : Progress numbers) → (relabelled numbers label p).shown ≡ p.shown
  relabelled-shown [] p = refl
  relabelled-shown (c ∷ t) p = refl

  step-IsForward :
      (o : Operation numbers) (p : Progress numbers) → IsRunning p → IsForward p (step numbers o p)
  unfolding step span begin measure measure_position
  step-IsForward (do_span label end share expected now later) p h =
      let c = current-IsForward now p h in
      ground (arith, c, relabelled-shown label (current numbers now p))
  step-IsForward (do_measure value total) p h =
      same-IsForward p (step numbers (do_measure value total) p)
        (kept_fraction-shown (measured numbers value total) p) h
  step-IsForward (do_position index total) p h =
      same-IsForward p (step numbers (do_position index total) p)
        (kept_fraction-shown _ (with_sequence numbers index total p) ∙ ground arith) h
  step-IsForward (do_snapshot now) p h = current-IsForward now p h

  Advances-lower : (m n : ℕ) (ns : List ℕ) → m ≤ n → Advances n ns → Advances m ns
  Advances-lower m n [] h k = tt
  Advances-lower m n (i ∷ ns) h k = (omega (arith, k.0), k.1, k.2)

  floor-le : (p : Progress numbers) → IsRunning p → numbers.floor p.shown ≤ max_running_percent
  floor-le p h =
      let m = numbers.floor_mono p.shown (limit numbers) h in
      ground (arith, m, numbers.floor_of max_running_percent)

  percent_after-Advances :
      (o : Operation numbers) (last : ℕ) (p : Progress numbers) (ns : List ℕ)
      → last ≤ numbers.floor p.shown
      → numbers.floor p.shown ≤ max_running_percent
      → Advances (numbers.floor p.shown) ns
      → Advances last (percent_after numbers o p ns)
  percent_after-Advances (do_span label end share expected now later) last p ns h k a =
      Advances-lower last (numbers.floor p.shown) ns h a
  percent_after-Advances (do_measure value total) last p ns h k a =
      Advances-lower last (numbers.floor p.shown) ns h a
  percent_after-Advances (do_position index total) last p ns h k a =
      Advances-lower last (numbers.floor p.shown) ns h a
  percent_after-Advances (do_snapshot now) last p ns h k a = (h, k, a)

  percents-Advances :
      (os : List (Operation numbers)) (p : Progress numbers)
      → IsRunning p
      → Advances (numbers.floor p.shown) (percents numbers os p)
  unfolding percents
  percents-Advances [] p h = tt
  percents-Advances (o ∷ os) p h =
      let s = step-IsForward o p h in
      let p' = step numbers o p in
      percent_after-Advances o (numbers.floor p.shown) p' (percents numbers os p')
        (numbers.floor_mono p.shown p'.shown s.0) (floor-le p' s.1) (percents-Advances os p' s.1)

  new_progress-IsRunning :
      (expected : Option (Q numbers)) (label : Text) (now : Q numbers)
      → IsRunning (new_progress numbers expected label now)
  unfolding new_progress begin
  new_progress-IsRunning expected label now = numbers.of_mono 0 max_running_percent (omega arith)

  -- Whatever an action does with its bar, and however its clock goes, the percents that are read
  -- never go back and never reach a hundred.
  pub percents-new_progress :
      (os : List (Operation numbers)) (expected : Option (Q numbers)) (label : Text)
      (now : Q numbers)
      → Advances 0 (percents numbers os (new_progress numbers expected label now))
  percents-new_progress os expected label now =
      let p = new_progress numbers expected label now in
      Advances-lower 0 (numbers.floor p.shown) (percents numbers os p) (omega arith)
        (percents-Advances os p (new_progress-IsRunning expected label now))
