-- ===== src/JobControl.antt =====
-- odoo_manager_core/jobs.py: the control through which a running action is stopped.
--
-- A `Control` is a `JobControl`. Each function below is one critical section under the control's
-- lock, or a composition of such sections in the order of the code. Outside of the model, and
-- arguments here: the tokens of `uuid.uuid4()`, which processes are still alive (`process.poll()`),
-- what a callback of a revert answers. What the control does to the outside is kept, oldest first,
-- in the field `effects`, which the code has not.
pub mod Cancellation
pub mod Protection
pub mod Reverts
pub mod DockerMark
pub mod Tests
use sdk_local_manager.Prelude.{
  ℕ, Bool, true, false, not, ◌&&◌, ◌||◌, Option, none, some, List, [], ◌∷◌, ◌++◌, map, any, filter,
  if◌then◌else◌, ◌==◌, contains, Eq_ℕ, Eq_List,
}
use sdk_local_manager.Prelude.Text.{Text}
use sdk_local_manager.Prelude.Dict
use sdk_local_manager.Prelude.Dict.{Dict}

pub data Effect : Type 0 where
  terminate : ℕ → Effect
  call_interrupt : ℕ → Effect
  kill_in_containers : Dict Text (List Text) → Text → Effect
  call_revert : ℕ → Effect

pub record ProtectedStep : Type 0 where
  pub label : Text
  pub irreversible : Bool

pub record Revert : Type 0 where
  pub label : Text
  pub callback : ℕ

pub record Control : Type 0 where
  pub token : Text
  pub cancel : Bool
  pub raised : Bool
  -- `_protected`, the innermost step first
  pub protected_steps : List ProtectedStep
  pub processes : List ℕ
  -- `_interrupts`: the keys, each standing for its callback
  pub interrupts : List ℕ
  pub containers : Dict Text (List Text)
  -- `_reverts`, in the order of registration
  pub reverts : List Revert
  pub effects : List Effect

abbrev pub new_control : Text → Control
new_control token = record {
  token = token;
  cancel = false;
  raised = false;
  protected_steps = [];
  processes = [];
  interrupts = [];
  containers = [];
  reverts = [];
  effects = [];
}

-- What a piece of the job's code ends with: `job_cancelled` is the exception `JobCancelled`.
pub data Signal : Type 0 where
  returned job_cancelled : Signal
  failed : Text → Signal

pub data CancelOutcome : Type 0 where
  accepted deferred refused already : CancelOutcome

abbrev pub first_label : List ProtectedStep → Text
first_label [] = []
first_label (s ∷ _) = s.label

unfoldable pub protected_step : Control → Text
protected_step c = first_label c.protected_steps

unfoldable pub irreversible_step : Control → Text
irreversible_step c = first_label (filter (λ s. s.irreversible) c.protected_steps)

abbrev pub has_irreversible : Control → Bool
has_irreversible c = any (λ s. s.irreversible) c.protected_steps

abbrev pub is_empty {ℓ} : {A : Type ℓ} → List A → Bool
is_empty [] = true
is_empty (x ∷ xs) = false

-- `interrupt_work`: the processes that are alive, every interrupt, then the containers if any.
unfoldable pub interrupt_work : (ℕ → Bool) → Text → Control → Control
interrupt_work alive token c = record c {
  effects =
      c.effects
      ++ map terminate (filter alive c.processes)
      ++ map call_interrupt c.interrupts
      ++ (if is_empty c.containers then [] else kill_in_containers c.containers token ∷ []);
}

unfoldable pub request_cancel : (ℕ → Bool) → Control → CancelOutcome × Control
unfolding interrupt_work
request_cancel alive c =
    if c.cancel
    then (already, c)
    else if has_irreversible c
    then (refused, c)
    else let c' = record c { cancel = true } in
      if is_empty c.protected_steps
      then (accepted, interrupt_work alive c.token c')
      else (deferred, c')

unfoldable pub begin_cleanup : Text → Control → Control
begin_cleanup fresh c = if c.raised then c else record c { raised = true; token = fresh }

unfoldable pub interruptible_now : Control → Bool
interruptible_now c = c.cancel && not c.raised && is_empty c.protected_steps

unfoldable pub checkpoint : Text → Control → Signal × Control
unfolding interruptible_now begin_cleanup
checkpoint fresh c =
    if interruptible_now c then (job_cancelled, begin_cleanup fresh c) else (returned, c)

-- What comes after a piece of code that may raise.
abbrev pub and_then : Signal × Control → (Control → Signal × Control) → Signal × Control
and_then (returned, c) k = k c
and_then (job_cancelled, c) k = (job_cancelled, c)
and_then (failed e, c) k = (failed e, c)

-- `meanwhile` is what the other threads do to the control during the wait.
unfoldable pub sleep : Text → (Control → Control) → Control → Signal × Control
unfolding checkpoint
sleep fresh meanwhile c = and_then (checkpoint fresh c) (λ c'. checkpoint fresh (meanwhile c'))

unfoldable pub push_step : Text → Bool → Control → Control
push_step label irreversible c = record c {
  protected_steps = record { label = label; irreversible = irreversible } ∷ c.protected_steps;
}

abbrev pub tail {ℓ} : {A : Type ℓ} → List A → List A
tail [] = []
tail (x ∷ xs) = xs

unfoldable pub pop_step : Control → Control
pop_step c = record c { protected_steps = tail c.protected_steps }

-- `with control.protected(label, irreversible): body`. An exception of the body leaves before the
-- checkpoint that follows the step.
unfoldable pub protected :
    Text → Text → Bool → (Control → Signal × Control) → Control → Signal × Control
unfolding push_step pop_step checkpoint
protected fresh label irreversible body c =
    let (signal, inner) = body (push_step label irreversible c) in
    and_then (signal, pop_step inner) (checkpoint fresh)

unfoldable pub track_process : (ℕ → Bool) → ℕ → Control → Control
unfolding interruptible_now
track_process alive process c =
    let tracked = record c {
      processes = if contains c.processes process then c.processes else process ∷ c.processes;
    } in
    if interruptible_now tracked && alive process
    then record tracked { effects = c.effects ++ terminate process ∷ [] }
    else tracked

unfoldable pub untrack_process : ℕ → Control → Control
untrack_process process c = record c { processes = filter (λ p. not (p == process)) c.processes }

-- `with control.interruptible(interrupt): body`, `key` being the new object that names the interrupt.
unfoldable pub enter_interruptible : ℕ → Control → Control
unfolding interruptible_now
enter_interruptible key c =
    let entered = record c { interrupts = c.interrupts ++ key ∷ [] } in
    if interruptible_now entered
    then record entered { effects = c.effects ++ call_interrupt key ∷ [] }
    else entered

unfoldable pub leave_interruptible : ℕ → Control → Control
leave_interruptible key c = record c { interrupts = filter (λ k. not (k == key)) c.interrupts }

-- The `except BaseException` of `interruptible`: a stop takes the place of the body's exception.
unfoldable pub convert_failure : Text → Signal × Control → Signal × Control
unfolding checkpoint
convert_failure fresh (returned, c) = (returned, c)
convert_failure fresh (signal, c) =
    let (raised, c') = checkpoint fresh c in (elim raised [ returned ↦ signal | other ↦ other ], c')

unfoldable pub interruptible : Text → ℕ → (Control → Signal × Control) → Control → Signal × Control
unfolding enter_interruptible leave_interruptible convert_failure
interruptible fresh key body c =
    let (signal, c') = convert_failure fresh (body (enter_interruptible key c)) in
    (signal, leave_interruptible key c')

unfoldable pub mark_container : List Text → Text → Control → Control
mark_container prefix container c = record c { containers = Dict.put container prefix c.containers }
