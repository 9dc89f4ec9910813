-- ===== src/JobQueue/Handlers.antt =====
-- odoo_manager_core/job_queue.py: creating an action, stopping one, forgetting finished ones.
--
-- Outside of the model, and arguments: the clock's texts, the token of the new control, which
-- processes are alive, and the policies that `configure` was given.
use sdk_local_manager.Prelude.{
  ℕ, ◌+◌, ◌-◌, Bool, true, false, not, ◌&&◌, Option, none, some, List, [], ◌∷◌, ◌++◌, map, length,
  filter, take, if◌then◌else◌, ◌==◌, contains, Eq_ℕ, Eq_List, Eq_Option, nat_eq, ◌⊎◌, inl, inr,
}
use sdk_local_manager.Prelude.Text.{Text, txt}
use sdk_local_manager.Prelude.Dict
use sdk_local_manager.Prelude.Dict.{Dict}
use sdk_local_manager.JobControl.{
  Control, new_control, CancelOutcome, accepted, deferred, refused, request_cancel,
  irreversible_step, protected_step,
}
use sdk_local_manager.JobQueue.{
  Job, Queue, Status, queued, running, cancelling, cancelled, is_queued, is_unfinished, find_job,
  update_job, max_retained_jobs, persist_job_history, notify_jobs_changed, publish_completion,
}
use sdk_local_manager.JobQueue.Output.{add_unbound}
use sdk_local_manager.JobQueue.Schedule.{schedule_jobs, job_waiting_reason}

-- CANCEL_POLICIES: whether the action may be stopped, and what to tell of it.
abbrev pub Policies : Type 0
Policies = Dict Text (Bool × Text)

default_policy : Bool × Text
default_policy = (
  true,
  txt "L'action est interrompue ; ce qu'elle a déjà modifié n'est pas annulé automatiquement.",
)

policy_of : Policies → Text → Bool × Text
unfolding default_policy
policy_of policies target = elim (Dict.get target policies) [ some p ↦ p | none ↦ default_policy ]

-- What the caller of `Job(...)` gives, and the clock's text and the token met on the way.
pub record Request : Type 0 where
  pub title : Text
  pub target : Text
  pub args : List Text
  pub project : Option Text
  pub resources : Option (List Text)
  pub now : Text
  pub token : Text

abbrev pub project_resources : Option Text → List Text
project_resources none = []
project_resources (some []) = []
project_resources (some (c ∷ name)) = (txt "project:" ++ c ∷ name) ∷ []

abbrev resources_of : Request → List Text
resources_of r = elim r.resources [ none ↦ project_resources r.project | some rs ↦ rs ]

unfoldable pub new_job : Policies → Request → ℕ → Job
unfolding policy_of
new_job policies r id = record {
  id = id;
  title = r.title;
  project = r.project;
  status = queued;
  started_at = r.now;
  finished_at = none;
  error_message = [];
  lines = [];
  output = [];
  output_total = 0;
  result = [];
  progress = some [];
  target = some r.target;
  args = r.args;
  thread = false;
  control = new_control r.token;
  cancellable = (policy_of policies r.target).0;
  cancel_hint = (policy_of policies r.target).1;
  resources = resources_of r;
}

-- The oldest finished jobs make room for the new one.
unfoldable pub evict : List Job → List Job
evict jobs =
    let finished_ids = map (λ j. j.id) (filter (λ j. not (is_unfinished j)) jobs) in
    let gone = take (length jobs + 1 - max_retained_jobs) finished_ids in
    filter (λ j. not (contains gone j.id)) jobs

-- The section under the lock.
unfoldable pub insert_job : Policies → Request → Queue → Queue
unfolding evict new_job
insert_job policies r q = record q {
  jobs = evict q.jobs ++ new_job policies r q.next_id ∷ [];
  next_id = q.next_id + 1;
}

unfoldable pub create_job : Policies → Request → Queue → Queue
unfolding insert_job notify_jobs_changed
create_job policies r q = schedule_jobs r.now (notify_jobs_changed (insert_job policies r q))

-- What `cancel_job` and `delete_job_history` raise.
pub data Refusal : Type 0 where
  not_found already_finished still_unfinished : Refusal
  not_cancellable : Text → Text → Refusal
  irreversible : Text → Text → Refusal

pub withdrawn_message : Text
withdrawn_message = txt "Retirée de la file d'attente avant son démarrage."

unfoldable pub withdraw : Text → Job → Job
unfolding withdrawn_message
withdraw now j = record j {
  status = cancelled;
  finished_at = some now;
  error_message = withdrawn_message;
  target = none;
  args = [];
}

abbrev pub publish_found : Option Job → Queue → Queue
publish_found none q = q
publish_found (some j) q = publish_completion j q

unfoldable pub cancel_queued : Text → ℕ → Queue → Queue
unfolding withdraw withdrawn_message add_unbound publish_completion
cancel_queued now id q =
    let q1 = record q { jobs = update_job id (withdraw now) q.jobs } in
    let q2 = add_unbound id withdrawn_message q1 in
    schedule_jobs now (persist_job_history (publish_found (find_job id q2.jobs) q2))

-- The second section under the lock: the job may have ended since the first.
unfoldable pub mark_cancelling : Job → Job
mark_cancelling j = elim j.status [ running ↦ record j { status = cancelling } | _ ↦ j ]

abbrev pub stop_line : CancelOutcome → ℕ → Text → Queue → Queue
stop_line deferred id step q =
    add_unbound id
      (txt "Arrêt demandé : il sera effectif à la fin de l'étape en cours (" ++ step ++ txt ").") q
stop_line accepted id step q = add_unbound id (txt "Arrêt demandé : interruption de l'action...") q
stop_line _ id step q = q

abbrev pub set_control : Control → Job → Job
set_control c j = record j { control = c }

-- What follows the answer of the control.
unfoldable pub after_request :
    CancelOutcome × Control → Job → Queue → (Refusal ⊎ (Unit {0})) × Queue
unfolding mark_cancelling notify_jobs_changed add_unbound
after_request (refused, c) j q = (inl (irreversible j.title (irreversible_step j.control)), q)
after_request (outcome, c) j q =
    let q1 = record q { jobs = update_job j.id (set_control c) q.jobs } in
    let q2 = notify_jobs_changed (record q1 { jobs = update_job j.id mark_cancelling q1.jobs }) in
    (inr tt, stop_line outcome j.id (protected_step c) q2)

abbrev pub cancel_found : (ℕ → Bool) → Text → Job → Status → Queue → (Refusal ⊎ (Unit {0})) × Queue
cancel_found alive now j queued q = (inr tt, cancel_queued now j.id q)
cancel_found alive now j running q =
    if j.cancellable
    then after_request (request_cancel alive j.control) j q
    else (inl (not_cancellable j.title j.cancel_hint), q)
cancel_found alive now j cancelling q = (inr tt, q)
cancel_found alive now j _ q = (inl already_finished, q)

-- Without another thread between its two sections.
unfoldable pub cancel_job : (ℕ → Bool) → Text → ℕ → Queue → (Refusal ⊎ (Unit {0})) × Queue
unfolding cancel_queued after_request
cancel_job alive now id q = elim (find_job id q.jobs) [
  | none ↦ (inl not_found, q)
  | some j ↦ cancel_found alive now j j.status q
]

-- Forgetting finished actions.
abbrev pub delete_found : Bool → ℕ → Queue → (Refusal ⊎ (Unit {0})) × Queue
delete_found true id q = (inl still_unfinished, q)
delete_found false id q = (
  inr tt,
  persist_job_history
      (notify_jobs_changed (record q { jobs = filter (λ k. not (nat_eq k.id id)) q.jobs })),
)

unfoldable pub delete_job_history : ℕ → Queue → (Refusal ⊎ (Unit {0})) × Queue
unfolding notify_jobs_changed
delete_job_history id q = elim (find_job id q.jobs) [
  | none ↦ (inl not_found, q)
  | some j ↦ delete_found (is_unfinished j) id q
]

-- Whether `clear_jobs_history` forgets this job.
unfoldable pub clears : Option Text → Option (List ℕ) → Job → Bool
clears project job_ids j =
    not (is_unfinished j)
    && (elim project [ none ↦ true | some p ↦ j.project == some p ])
    && (elim job_ids [ none ↦ true | some ids ↦ contains ids j.id ])

unfoldable pub clear_jobs_history : Option Text → Option (List ℕ) → Queue → ℕ × Queue
unfolding clears notify_jobs_changed
clear_jobs_history project job_ids q =
    let kept = filter (λ j. not (clears project job_ids j)) q.jobs in
    (
      length (filter is_unfinished kept),
      persist_job_history (notify_jobs_changed (record q { jobs = kept })),
    )

-- The unfinished job for this action and this project, if there is one.
unfoldable pub unfinished_job : Text → Option Text → List Job → Option Job
unfinished_job target project [] = none
unfinished_job target project (j ∷ js) =
    let later = unfinished_job target project js in
    if (j.target == some target) && (j.project == project) && is_unfinished j then some j else later

-- What the interface may offer for stopping the job.
pub record CancelPayload : Type 0 where
  pub cancellable : Bool
  pub cancel_hint : Text
  pub cancel_blocked_step : Text
  pub cancel_pending_step : Text
  pub waiting_for : Text

abbrev blocked_step : Job → Text
blocked_step j = elim j.status [ running ↦ irreversible_step j.control | _ ↦ [] ]

abbrev no_text : Text → Bool
no_text [] = true
no_text (_ ∷ _) = false

unfoldable pub job_cancel_payload : Job → Queue → CancelPayload
job_cancel_payload j q = record {
  cancellable = elim j.status [
    | queued ↦ true
    | running ↦ j.cancellable && no_text (blocked_step j)
    | _ ↦ false
  ];
  cancel_hint = j.cancel_hint;
  cancel_blocked_step = blocked_step j;
  cancel_pending_step = elim j.status [ cancelling ↦ protected_step j.control | _ ↦ [] ];
  waiting_for = if is_queued j then job_waiting_reason j q else [];
}
