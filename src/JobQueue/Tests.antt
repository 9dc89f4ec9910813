-- ===== src/JobQueue/Tests.antt =====
-- Small queues, and the theorems of the action queue at them.
use sdk_local_manager.Prelude.{
  ℕ, ◌+◌, ◌-◌, ◌≤◌, ◌<◌, ◌≡◌, ◌⊎◌, refl, Bool, true, false, none, some, List, [], ◌∷◌, ◌++◌, arith,
  inr, length, filter, take,
}
use sdk_local_manager.JobQueue.{is_unfinished}
use sdk_local_manager.Prelude.Text.{Text, txt}
use sdk_local_manager.JobControl.{new_control}
use sdk_local_manager.JobQueue.{
  Job, Queue, Status, queued, running, done, error, is_unfinished, jobs_conflict, covers, share,
  star, project_prefix, persist_job_history, notify_jobs_changed, history_record, max_running_jobs,
  max_retained_jobs, job_output_limit,
}
use sdk_local_manager.JobQueue.Output.{append_output}
use sdk_local_manager.JobQueue.Schedule.{schedule_jobs, scan, visit, must_wait, started}
use sdk_local_manager.JobQueue.Handlers.{Request, create_job, cancel_job, evict, delete_job_history}
use sdk_local_manager.JobQueue.Ending.{finalize}
use sdk_local_manager.JobQueue.Exclusion.{Exclusive, active_count}
use sdk_local_manager.JobQueue.Fairness.{IsFair, IsFair-schedule_jobs, schedule_jobs_progress}
use sdk_local_manager.JobQueue.Validity.{IsValid, Distinct}
use sdk_local_manager.JobQueue.Steps.{here, next, create, schedule, forget, Reach-Exclusive}
use sdk_local_manager.JobQueue.Finality.{IsOver}
use sdk_local_manager.JobQueue.FinalSteps.{Reach-IsOver}
use sdk_local_manager.JobQueue.Withdrawal.{IsCancelled, cancel_job-queued, finalize_withdraws}
use sdk_local_manager.JobQueue.Snapshot.{job_output_payload, goes_on, visible_output}
use sdk_local_manager.JobQueue.Window.{IsEndOf, append_output-IsEndOf, job_output_payload-rest}
use sdk_local_manager.JobQueue.Eviction.{without_finished, evict_lem}

abbrev job : ℕ → Status → List Text → Job
job id status resources = record {
  id = id;
  title = txt "Mise à jour";
  project = some (txt "client");
  status = status;
  started_at = txt "2026-11-26 12:00:00";
  finished_at = none;
  error_message = [];
  lines = [];
  output = [];
  output_total = 0;
  result = [];
  progress = some [];
  target = some (txt "update_modules");
  args = [];
  thread = false;
  control = new_control (txt "t");
  cancellable = true;
  cancel_hint = [];
  resources = resources;
}

abbrev queue : List Job → ℕ → Queue
queue jobs next_id = record {
  jobs = jobs;
  next_id = next_id;
  changed = false;
  history_path = true;
  writable = true;
  history = [];
  published = [];
  errors = [];
  finished_calls = 0;
}

abbrev empty_queue : Queue
empty_queue = queue [] 1

abbrev client : List Text
client = txt "project:client" ∷ []

abbrev other_project : List Text
other_project = txt "project:other" ∷ []

abbrev everything : List Text
everything = txt "*" ∷ []

-- A failed action, one that waits for the same project, one of another project.
abbrev mixed : Queue
mixed =
    queue
      (job 1 error client
        ∷ job 2 queued client
        ∷ job 3 queued other_project
        ∷ job 4 done client
        ∷ [])
      5

abbrev request : Request
request = record {
  title = txt "Installer";
  target = txt "install_modules";
  args = [];
  project = some (txt "client");
  resources = none;
  now = txt "2026-11-26 12:00:00";
  token = txt "t1";
}

-- `*` covers a project, and not Git.
conflict_star :
    (jobs_conflict (job 1 queued everything) (job 2 queued client) ≡ true)
    × (jobs_conflict (job 1 queued everything) (job 2 queued (txt "git" ∷ [])) ≡ false)
    × (jobs_conflict (job 1 queued client) (job 2 queued other_project) ≡ false)
unfolding jobs_conflict covers share star project_prefix
conflict_star = (refl, refl, refl)

-- Both waiting actions start: they use different projects, and the failed one is over.
schedule_mixed : active_count (schedule_jobs (txt "now") mixed).jobs ≡ 2
unfolding schedule_jobs scan visit must_wait started jobs_conflict covers share star project_prefix
    persist_job_history notify_jobs_changed history_record
schedule_mixed = refl

IsValid-empty : IsValid empty_queue
IsValid-empty = record { distinct = tt; below = tt; exclusive = tt; limited = omega arith }

IsValid-mixed : IsValid mixed
IsValid-mixed = record {
  distinct = omega arith;
  below = omega arith;
  exclusive = ground arith;
  limited = omega arith;
}

abbrev no_process : ℕ → Bool
no_process n = false

abbrev now : Text
now = txt "2026-11-26 12:30:00"

conflict_client : jobs_conflict (job 1 error client) (job 2 queued client) ≡ true
unfolding jobs_conflict covers share star project_prefix
conflict_client = refl

-- An empty queue into which one action is entered.
Reach-Exclusive_example :
    (active_count (create_job [] request empty_queue).jobs ≤ max_running_jobs)
    × Exclusive (create_job [] request empty_queue).jobs
    × Distinct (create_job [] request empty_queue).jobs
Reach-Exclusive_example =
    Reach-Exclusive empty_queue (create_job [] request empty_queue) IsValid-empty
      (next here (create [] request empty_queue))

Reach-IsOver_example : IsOver error 1 (delete_job_history 4 (schedule_jobs now mixed)).1.jobs
Reach-IsOver_example =
    Reach-IsOver mixed (delete_job_history 4 (schedule_jobs now mixed)).1 (job 1 error client)
      IsValid-mixed refl refl
      (next (next here (schedule now mixed)) (forget 4 (schedule_jobs now mixed)))

IsFair-schedule_jobs_example :
    IsFair (schedule_jobs now mixed).jobs [] mixed.jobs (schedule_jobs now mixed).jobs
IsFair-schedule_jobs_example = IsFair-schedule_jobs now mixed

schedule_jobs_progress_example : 0 < active_count (schedule_jobs now mixed).jobs
schedule_jobs_progress_example = schedule_jobs_progress now mixed refl refl

finalize_withdraws_example : IsCancelled 2 (finalize now (job 1 error client) mixed)
finalize_withdraws_example =
    finalize_withdraws now (job 1 error client) (job 2 queued client) mixed refl refl refl
      (omega arith) conflict_client

cancel_job-queued_example :
    ((cancel_job no_process now 2 mixed).0 ≡ inr tt)
    × IsCancelled 2 (cancel_job no_process now 2 mixed).1
cancel_job-queued_example = cancel_job-queued no_process now (job 2 queued client) mixed refl refl

evict_lem_example :
    (evict mixed.jobs ≡ without_finished (length mixed.jobs + 1 - max_retained_jobs) mixed.jobs)
    × (filter is_unfinished (evict mixed.jobs) ≡ filter is_unfinished mixed.jobs)
    × ((length (evict mixed.jobs) < max_retained_jobs)
        ⊎ (evict mixed.jobs ≡ filter is_unfinished mixed.jobs))
evict_lem_example = evict_lem mixed.jobs IsValid-mixed.distinct

-- Of what action 5 wrote, the first line was trimmed.
abbrev written : Text
written = txt "one two"

abbrev writer : Job
writer = record (job 5 running client) { output = txt "two"; output_total = 7 }

IsEndOf-writer : IsEndOf written writer
IsEndOf-writer = record { counted = refl; kept = omega arith; output = refl }

goes_on-writer : goes_on writer 5 ≡ true
unfolding goes_on visible_output job_output_limit
goes_on-writer = refl

job_output_payload-rest_example :
    take 5 written ++ (job_output_payload writer true (some 5) (some 5)).output ≡ written
job_output_payload-rest_example =
    job_output_payload-rest written writer 5 IsEndOf-writer goes_on-writer

append_output-IsEndOf_example :
    IsEndOf (written ++ txt "three") (append_output (txt "three") writer)
append_output-IsEndOf_example = append_output-IsEndOf written (txt "three") writer IsEndOf-writer
