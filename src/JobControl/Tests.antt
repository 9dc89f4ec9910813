-- ===== src/JobControl/Tests.antt =====
-- Small controls, and the theorems of the action's control at them.
use mathlib.Core.List.{reverse}
use sdk_local_manager.Prelude.{
  contains, Eq_ℕ, Eq_List, ℕ, zero, suc, ◌≤◌, ◌≡◌, ◌↔◌, refl, Bool, true, false, not, ◌&&◌, Option,
  none, some, [], ◌∷◌, ◌++◌, map, if◌then◌else◌,
}
use sdk_local_manager.Prelude.Text.{Text, txt, has_prefix}
use sdk_local_manager.JobControl.{
  Control, Signal, returned, job_cancelled, accepted, refused, already, call_revert, new_control,
  is_empty, has_irreversible, request_cancel, checkpoint, push_step, protected,
}
use sdk_local_manager.JobControl.Cancellation.{
  ask_stop, check, open_step, close_step, raises, raises-le-one,
}
use sdk_local_manager.JobControl.Protection.{request_cancel_refusal, protected_returned}
use sdk_local_manager.JobControl.Reverts.{run_reverts, failed_reverts, run_reverts-calls}
use sdk_local_manager.JobControl.DockerMark.{
  valued, IsMarked, documented_options, scan_options, detaches, env_mark, mark_docker_arguments,
  mark_docker_arguments-render, is_option, takes_value,
}

abbrev control : Control
control = record (new_control (txt "t1")) {
  processes = 7 ∷ [];
  interrupts = 3 ∷ [];
  reverts =
      record { label = txt "base"; callback = 1 }
      ∷ record { label = txt "fichiers"; callback = 2 }
      ∷ [];
}

abbrev alive : ℕ → Bool
alive n = true

-- The revert 1 fails.
abbrev answer : ℕ → Option Text
answer (suc zero) = some (txt "absente")
answer n = none

abbrev fresh : Text
fresh = txt "t2"

abbrev body : Control → Signal × Control
body c = (returned, (request_cancel alive c).1)

raises-le-one_example :
    (raises
        (ask_stop alive
          ∷ open_step (txt "x") false
          ∷ check fresh
          ∷ close_step
          ∷ check fresh
          ∷ check fresh
          ∷ [])
        control
      ≤ 1)
    × (control.raised ≡ true
        → raises
            (ask_stop alive
              ∷ open_step (txt "x") false
              ∷ check fresh
              ∷ close_step
              ∷ check fresh
              ∷ check fresh
              ∷ [])
            control
          ≡ 0)
raises-le-one_example =
    raises-le-one
      (ask_stop alive
        ∷ open_step (txt "x") false
        ∷ check fresh
        ∷ close_step
        ∷ check fresh
        ∷ check fresh
        ∷ [])
      control

accepted_control : (request_cancel alive control).0 ≡ accepted
unfolding request_cancel
accepted_control = refl

request_cancel_refusal_example :
    (((request_cancel alive control).0 ≡ refused)
      ↔ ((control.cancel ≡ false) × (has_irreversible control ≡ true)))
    × ((request_cancel alive control).0 ≡ refused → (request_cancel alive control).1 ≡ control)
    × ((request_cancel alive control).0 ≡ already → (request_cancel alive control).1 ≡ control)
    × ((request_cancel alive control).1.protected_steps ≡ control.protected_steps)
request_cancel_refusal_example = request_cancel_refusal alive control

body_returned :
    ((body (push_step (txt "x") false control)).0 ≡ returned)
    × ((body (push_step (txt "x") false control)).1.protected_steps
        ≡ (push_step (txt "x") false control).protected_steps)
unfolding request_cancel push_step
body_returned = (refl, refl)

protected_returned_example :
    ((protected fresh (txt "x") false body control).1.protected_steps ≡ control.protected_steps)
    × ((protected fresh (txt "x") false body control).0 ≡ (
        if (body (push_step (txt "x") false control)).1.cancel
          && not (body (push_step (txt "x") false control)).1.raised
          && is_empty control.protected_steps
        then job_cancelled
        else returned))
protected_returned_example =
    protected_returned fresh (txt "x") false body control body_returned.0 body_returned.1

run_reverts-calls_example :
    ((run_reverts answer fresh control).2.effects
      ≡ control.effects ++ map (λ r. call_revert r.callback) (reverse control.reverts))
    × ((run_reverts answer fresh control).0 ≡ failed_reverts answer (reverse control.reverts))
    × ((run_reverts answer fresh control).2.reverts ≡ [])
    × ((again : Text) → (checkpoint again (run_reverts answer fresh control).2).0 ≡ returned)
run_reverts-calls_example = run_reverts-calls answer fresh control

user_option :
    (has_prefix (txt "-") (txt "-u") ≡ true) × (contains documented_options (txt "-u") ≡ true)
user_option = (refl, refl)

-- `--detach=true` detaches for Docker, and is no option that the code looks for; of a user `dev` it
-- takes the `d` for the option.
marks_detached :
    ((mark_docker_arguments []
        (txt "exec" ∷ txt "--detach=true" ∷ txt "odoo" ∷ txt "ls" ∷ [])
        (some control)).0
      ≡ txt "exec"
        ∷ txt "-e"
        ∷ env_mark control.token
        ∷ txt "--detach=true"
        ∷ txt "odoo"
        ∷ txt "ls"
        ∷ [])
    × ((mark_docker_arguments []
          (txt "exec" ∷ txt "-udev" ∷ txt "odoo" ∷ txt "ls" ∷ [])
          (some control)).0
        ≡ txt "exec" ∷ txt "-udev" ∷ txt "odoo" ∷ txt "ls" ∷ [])
unfolding mark_docker_arguments scan_options is_option takes_value detaches env_mark
marks_detached = (refl, refl)

mark_docker_arguments-render_example :
    IsMarked
      (txt "docker" ∷ [])
      (valued (txt "-u") (txt "root") ∷ [])
      (txt "odoo")
      (txt "ls" ∷ [])
      control
mark_docker_arguments-render_example =
    mark_docker_arguments-render (txt "docker" ∷ []) (valued (txt "-u") (txt "root") ∷ [])
      (txt "odoo") (txt "ls" ∷ []) control (user_option, tt) refl
