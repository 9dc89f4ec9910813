-- ===== src/JobControl/Cancellation.antt =====
-- odoo_manager_core/jobs.py: the job's thread and the threads that ask for its stop, interleaved.
use sdk_local_manager.Prelude.{
  ℕ, ◌+◌, ◌≤◌, ◌≡◌, refl, Bool, true, false, List, [], ◌∷◌, ◌++◌, map, filter, arith, ◌⊎◌, inl, inr,
  if◌then◌else◌,
}
use sdk_local_manager.Prelude.Text.{Text}
use sdk_local_manager.JobControl.{
  Control, Revert, terminate, call_interrupt, kill_in_containers, is_empty, Signal, returned,
  job_cancelled, accepted, request_cancel, begin_cleanup, checkpoint, push_step, pop_step,
  track_process, untrack_process, enter_interruptible, leave_interruptible, mark_container,
}
use sdk_local_manager.JobControl.Reverts.{on_cancel, discard_revert}

-- One critical section, of whatever thread; `ask_stop`, `track` and `enter` are taken together with
-- the interruption that follows their section.
pub data Act : Type 0 where
  ask_stop : (ℕ → Bool) → Act
  check : Text → Act
  clean_up : Text → Act
  open_step : Text → Bool → Act
  close_step : Act
  track : (ℕ → Bool) → ℕ → Act
  untrack : ℕ → Act
  enter : ℕ → Act
  leave : ℕ → Act
  mark : List Text → Text → Act
  register : Text → ℕ → Act
  discard : Revert → Act
  take_reverts : Act

pub act : Act → Control → Signal × Control
unfolding checkpoint
act (ask_stop alive) c = (returned, (request_cancel alive c).1)
act (check fresh) c = checkpoint fresh c
act (clean_up fresh) c = (returned, begin_cleanup fresh c)
act (open_step label irreversible) c = (returned, push_step label irreversible c)
act close_step c = (returned, pop_step c)
act (track alive p) c = (returned, track_process alive p c)
act (untrack p) c = (returned, untrack_process p c)
act (enter k) c = (returned, enter_interruptible k c)
act (leave k) c = (returned, leave_interruptible k c)
act (mark prefix container) c = (returned, mark_container prefix container c)
act (register label callback) c = (returned, (on_cancel label callback c).1)
act (discard e) c = (returned, discard_revert e c)
act take_reverts c = (returned, record c { reverts = [] })

abbrev count_raise : Signal → ℕ
count_raise job_cancelled = 1
count_raise _ = 0

-- How often `JobCancelled` is raised along a sequence of sections.
pub raises : List Act → Control → ℕ
raises [] c = 0
raises (a ∷ as') c = let (signal, c') = act a c in count_raise signal + raises as' c'

-- The cleanup has no end, and in it nothing is raised.
act-raised :
    (a : Act) (c : Control)
    → c.raised ≡ true
    → ((act a c).1.raised ≡ true) × (count_raise (act a c).0 ≡ 0)
unfolding act request_cancel push_step pop_step track_process untrack_process enter_interruptible
    leave_interruptible mark_container on_cancel discard_revert
act-raised (check fresh) c h = ground arith
act-raised _ c h = ground arith

act_raise_starts_cleanup :
    (a : Act) (c : Control) → ((act a c).1.raised ≡ true) ⊎ (count_raise (act a c).0 ≡ 0)
unfolding act
act_raise_starts_cleanup (check fresh) c = ground arith
act_raise_starts_cleanup _ c = inr refl

count_raise-le-one : (s : Signal) → count_raise s ≤ 1
count_raise-le-one job_cancelled = omega arith
count_raise-le-one _ = omega arith

raises-raised : (as' : List Act) (c : Control) → c.raised ≡ true → raises as' c ≡ 0
unfolding raises
raises-raised [] c h = refl
raises-raised (a ∷ as') c h =
    omega (arith, (act-raised a c h).1, raises-raised as' (act a c).1 (act-raised a c h).0)

-- However the threads interleave, the action is stopped once at most: `JobCancelled` is raised at
-- most once, and never after the cleanup has begun.
pub raises-le-one :
    (as' : List Act) (c : Control) → (raises as' c ≤ 1) × (c.raised ≡ true → raises as' c ≡ 0)
unfolding raises
raises-le-one [] c = (omega arith, λ _. refl)
raises-le-one (a ∷ as') c = (
  elim (act_raise_starts_cleanup a c) [
    | inl r ↦ omega (arith, count_raise-le-one (act a c).0, raises-raised as' (act a c).1 r)
    | inr z ↦ omega (arith, z, (raises-le-one as' (act a c).1).0)
  ],
  raises-raised (a ∷ as') c,
)

-- Of a running action that is not yet cleaning up, a stop that is accepted ends, by a signal, the
-- processes that are alive, calls every interrupt, has the processes of the marked containers killed
-- under the job's token, and the next checkpoint raises; what follows that checkpoint carries a
-- token of its own.
pub accepted_stop :
    (alive : ℕ → Bool) (fresh : Text) (c : Control)
    → (request_cancel alive c).0 ≡ accepted
    → c.raised ≡ false
    → ((request_cancel alive c).1.effects
        ≡ c.effects
          ++ map terminate (filter alive c.processes)
          ++ map call_interrupt c.interrupts
          ++ (if is_empty c.containers then [] else kill_in_containers c.containers c.token ∷ []))
      × ((checkpoint fresh (request_cancel alive c).1).0 ≡ job_cancelled)
      × ((checkpoint fresh (request_cancel alive c).1).1.token ≡ fresh)
unfolding request_cancel checkpoint
accepted_stop alive fresh c e r = (ground arith, ground arith, ground arith)
