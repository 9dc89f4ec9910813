-- ===== src/JobControl/Reverts.antt =====
-- odoo_manager_core/jobs.py: the reverts that an action registers, and their run after a stop.
use mathlib.Core.List.{reverse}
use sdk_local_manager.Prelude.{
  ℕ, ◌≡◌, refl, ap, Bool, true, false, ◌&&◌, Option, none, some, List, [], ◌∷◌, ◌++◌, map, arith,
  if◌then◌else◌, ◌==◌, eq_iff, contains, Eq, Eq_ℕ, Eq_List, ◌↔◌, nat_eq_iff,
}
use sdk_local_manager.Prelude.Text.{Text, txt}
use sdk_local_manager.JobControl.{
  Control, Revert, Effect, call_revert, returned, begin_cleanup, checkpoint,
}

abbrev pub revert_eq : Revert → Revert → Bool
revert_eq a b = (a.label == b.label) && (a.callback == b.callback)

pub revert_eq_iff : (a b : Revert) → (revert_eq a b ≡ true) ↔ (a ≡ b)
revert_eq_iff a b = ground (arith, eq_iff a.label b.label, nat_eq_iff a.callback b.callback)

instance abbrev pub Eq_Revert : Eq Revert
Eq_Revert = record { same = revert_eq; same_iff = revert_eq_iff }

unfoldable pub on_cancel : Text → ℕ → Control → Revert × Control
on_cancel label callback c =
    let entry : Revert = record { label = label; callback = callback } in
    (entry, record c { reverts = c.reverts ++ entry ∷ [] })

-- `list.remove`: the first entry that is equal.
remove_first : Revert → List Revert → List Revert
remove_first e [] = []
remove_first e (r ∷ rs) = if r == e then rs else r ∷ remove_first e rs

unfoldable pub discard_revert : Revert → Control → Control
unfolding remove_first
discard_revert e c =
    if contains c.reverts e then record c { reverts = remove_first e c.reverts } else c

-- The loop of `run_reverts`: the failures, the lines for the log, the calls made.
-- `answer` is what a callback answers: nothing, or the exception's text.
pub record Outcome : Type 0 where
  pub failures : List Text
  pub lines : List Text
  pub calls : List Effect

pub call_each : (ℕ → Option Text) → List Revert → Outcome
call_each answer [] = record { failures = []; lines = []; calls = [] }
call_each answer (r ∷ rs) =
    let rest = call_each answer rs in
    let announced = txt "Retour arrière : " ++ r.label ++ txt "..." in
    elim (answer r.callback) [
      | none ↦ record {
        failures = rest.failures;
        lines = announced ∷ rest.lines;
        calls = call_revert r.callback ∷ rest.calls;
      }
      | some e ↦ record {
        failures = (r.label ++ txt " (" ++ e ++ txt ")") ∷ rest.failures;
        lines =
            announced
            ∷ (txt "Retour arrière incomplet : " ++ r.label ++ txt " : " ++ e)
            ∷ rest.lines;
        calls = call_revert r.callback ∷ rest.calls;
      }
    ]

unfoldable pub run_reverts : (ℕ → Option Text) → Text → Control → List Text × List Text × Control
unfolding call_each begin_cleanup
run_reverts answer fresh c =
    let c' = begin_cleanup fresh c in
    let run = call_each answer (reverse c'.reverts) in
    (run.failures, run.lines, record c' { reverts = []; effects = c'.effects ++ run.calls })

call_each-calls :
    (answer : ℕ → Option Text) (rs : List Revert)
    → (call_each answer rs).calls ≡ map (λ r. call_revert r.callback) rs
unfolding call_each
call_each-calls answer [] = refl
call_each-calls answer (r ∷ rs) = ground (arith, call_each-calls answer rs)

-- The reverts whose callback failed, in the order given.
abbrev pub failed_reverts : (ℕ → Option Text) → List Revert → List Text
failed_reverts answer [] = []
failed_reverts answer (r ∷ rs) =
    let rest = failed_reverts answer rs in
    elim (answer r.callback) [ none ↦ rest | some e ↦ (r.label ++ txt " (" ++ e ++ txt ")") ∷ rest ]

call_each-failures :
    (answer : ℕ → Option Text) (rs : List Revert)
    → (call_each answer rs).failures ≡ failed_reverts answer rs
unfolding call_each
call_each-failures answer [] = refl
call_each-failures answer (r ∷ rs) = ground (arith, call_each-failures answer rs)

module _ (answer : ℕ → Option Text) (fresh : Text) (c : Control) where
  -- Every registered revert is called, once each and the latest first, also after one that fails;
  -- what is answered names exactly those that failed, none is left registered, and no checkpoint
  -- that follows raises.
  pub run_reverts-calls :
      ((run_reverts answer fresh c).2.effects
        ≡ c.effects ++ map (λ r. call_revert r.callback) (reverse c.reverts))
      × ((run_reverts answer fresh c).0 ≡ failed_reverts answer (reverse c.reverts))
      × ((run_reverts answer fresh c).2.reverts ≡ [])
      × ((again : Text) → (checkpoint again (run_reverts answer fresh c).2).0 ≡ returned)
  unfolding run_reverts checkpoint
  run_reverts-calls = (
    ground (arith, call_each-calls answer (reverse c.reverts)),
    ground (arith, call_each-failures answer (reverse c.reverts)),
    ground arith,
    λ again. ground arith,
  )

remove_first-append :
    (e : Revert) (rs : List Revert) → contains rs e ≡ false → remove_first e (rs ++ e ∷ []) ≡ rs
unfolding remove_first
remove_first-append e [] h = ground (arith, revert_eq_iff e e)
remove_first-append e (r ∷ rs) h = ground (arith, remove_first-append e rs)

contains-append_self : (e : Revert) (rs : List Revert) → contains (rs ++ e ∷ []) e ≡ true
contains-append_self e [] = ground (arith, revert_eq_iff e e)
contains-append_self e (r ∷ rs) = ground (arith, contains-append_self e rs)

-- A revert that is discarded is forgotten: of an entry that is not registered yet, registering and
-- discarding it gives the control back as it was.
pub discard_revert-on_cancel :
    (label : Text) (callback : ℕ) (c : Control)
    → contains c.reverts (record { label = label; callback = callback }) ≡ false
    → discard_revert (on_cancel label callback c).0 (on_cancel label callback c).1 ≡ c
unfolding discard_revert on_cancel
discard_revert-on_cancel label callback c h =
    let e : Revert = record { label = label; callback = callback } in
    rw (contains-append_self e c.reverts)
      (ap (λ rs. record c { reverts = rs }) (remove_first-append e c.reverts h))
