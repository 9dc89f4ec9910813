-- ===== src/JobControl/Protection.antt =====
-- odoo_manager_core/jobs.py: steps that a stop may not cut short.
use sdk_local_manager.Prelude.{ℕ, ◌≡◌, Bool, true, false, not, ◌&&◌, [], arith, ◌↔◌, if◌then◌else◌}
use sdk_local_manager.Prelude.Text.{Text}
use sdk_local_manager.JobControl.{
  Control, Signal, returned, job_cancelled, deferred, refused, already, has_irreversible, is_empty,
  request_cancel, checkpoint, push_step, protected,
}

-- A stop is refused exactly when none was asked for yet and some open step is irreversible, however
-- deep it lies; an answer `refused` or `already` leaves the control as it was, and no answer opens
-- or closes a step.
pub request_cancel_refusal :
    (alive : ℕ → Bool) (c : Control)
    → (((request_cancel alive c).0 ≡ refused) ↔ ((c.cancel ≡ false) × (has_irreversible c ≡ true)))
      × ((request_cancel alive c).0 ≡ refused → (request_cancel alive c).1 ≡ c)
      × ((request_cancel alive c).0 ≡ already → (request_cancel alive c).1 ≡ c)
      × ((request_cancel alive c).1.protected_steps ≡ c.protected_steps)
unfolding request_cancel
request_cancel_refusal alive c =
    ((λ h. ground arith, λ h. ground arith), λ h. ground arith, λ h. ground arith, ground arith)

-- A protected step whose body returns and closes the steps that it opened: the step is closed, and
-- the stop that was asked for before or during it is raised at its end, exactly if the job is not
-- cleaning up and no outer step is open.
pub protected_returned :
    (fresh label : Text) (irreversible : Bool) (body : Control → Signal × Control) (c : Control)
    → (body (push_step label irreversible c)).0 ≡ returned
    → (body (push_step label irreversible c)).1.protected_steps
      ≡ (push_step label irreversible c).protected_steps
    → ((protected fresh label irreversible body c).1.protected_steps ≡ c.protected_steps)
      × ((protected fresh label irreversible body c).0 ≡ (
          if (body (push_step label irreversible c)).1.cancel
            && not (body (push_step label irreversible c)).1.raised
            && is_empty c.protected_steps
          then job_cancelled
          else returned))
unfolding protected
protected_returned fresh label irreversible body c e s = (ground arith, ground arith)

-- A stop that is asked for inside a reversible step is deferred: it reaches no process, no
-- interrupt and no container, no checkpoint of the step raises, and the end of the outermost step
-- raises it.
pub deferred_stop :
    (alive : ℕ → Bool) (fresh label : Text) (c : Control)
    → c.cancel ≡ false
    → c.raised ≡ false
    → c.protected_steps ≡ []
    → ((request_cancel alive (push_step label false c)).0 ≡ deferred)
      × ((request_cancel alive (push_step label false c)).1.effects ≡ c.effects)
      × ((checkpoint fresh (request_cancel alive (push_step label false c)).1).0 ≡ returned)
      × ((protected fresh label false (λ i. (returned, (request_cancel alive i).1)) c).0
          ≡ job_cancelled)
unfolding request_cancel protected
deferred_stop alive fresh label c e r s = (ground arith, ground arith, ground arith, ground arith)
