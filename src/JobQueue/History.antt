-- ===== src/JobQueue/History.antt =====
-- odoo_manager_core/job_queue.py: the history file read again (`from_history`, `load_job_history`).
--
-- The reading of the JSON file is outside: here are the records that it holds.
use sdk_local_manager.JobQueue.{job_history_output_limit, is_unfinished}
use sdk_local_manager.Prelude.{◌≡◌, ◌≢◌, Option}
use sdk_local_manager.Prelude.{
  ℕ, ◌+◌, max, true, false, none, some, List, [], ◌∷◌, ◌++◌, map, length, leb, nat_eq,
  if◌then◌else◌, take_last, any,
}
use sdk_local_manager.Prelude.Lines.{split_lines}
use sdk_local_manager.Prelude.Text.{Text, txt}
use sdk_local_manager.JobControl.{new_control}
use sdk_local_manager.JobQueue.{
  Job, Queue, HistoryRecord, error, is_unfinished_status, job_lines_limit, max_retained_jobs,
  persist_job_history,
}
use sdk_local_manager.JobQueue.Output.{append_output}

unfoldable pub interrupted_message : Text
interrupted_message = txt "Action interrompue : le gestionnaire s'est arrêté pendant son exécution."

-- `title or "Action"`, and `value or None`
abbrev pub or_action : Text → Text
or_action [] = txt "Action"
or_action (c ∷ t) = c ∷ t

abbrev pub or_none : Option Text → Option Text
or_none none = none
or_none (some []) = none
or_none (some (c ∷ t)) = some (c ∷ t)

-- The job as the record has it.
unfoldable pub restored : Text → HistoryRecord → Job
unfolding split_lines
restored token r = record {
  id = r.id;
  title = or_action r.title;
  project = or_none r.project;
  status = r.status;
  started_at = r.started_at;
  finished_at = or_none r.finished_at;
  error_message = r.error_message;
  lines = take_last job_lines_limit (split_lines r.output);
  output = r.output;
  output_total = length r.output;
  result = r.result;
  progress = none;
  target = none;
  args = [];
  thread = false;
  control = new_control token;
  cancellable = false;
  cancel_hint = [];
  resources = [];
}

-- An action that was not finished is marked as interrupted.
unfoldable pub interrupted : Job → Job
unfolding interrupted_message append_output
interrupted j = append_output (interrupted_message ++ 10 ∷ []) (record j {
  status = error;
  finished_at = elim j.finished_at [ none ↦ some j.started_at | some t ↦ some t ];
  error_message = interrupted_message;
  lines = j.lines ++ interrupted_message ∷ [];
})

unfoldable pub from_history : Text → HistoryRecord → Job
unfolding restored interrupted
from_history token r =
    if is_unfinished_status r.status then interrupted (restored token r) else restored token r

-- `sorted(restored, key=id)`, stable
insert_by_id : Job → List Job → List Job
insert_by_id j [] = j ∷ []
insert_by_id j (k ∷ ks) = if leb j.id k.id then j ∷ k ∷ ks else k ∷ insert_by_id j ks

unfoldable pub sort_by_id : List Job → List Job
unfolding insert_by_id
sort_by_id [] = []
sort_by_id (j ∷ js) = insert_by_id j (sort_by_id js)

-- `JOBS.setdefault(job.id, job)` for each in turn
unfoldable pub add_missing : List Job → List Job → List Job
add_missing [] jobs = jobs
add_missing (j ∷ js) jobs =
    add_missing js (if any (λ k. nat_eq k.id j.id) jobs then jobs else jobs ++ j ∷ [])

abbrev pub next_above : ℕ → List Job → ℕ
next_above n [] = n
next_above n (j ∷ js) = max (j.id + 1) (next_above n js)

unfoldable pub load_job_history : Text → List HistoryRecord → Queue → ℕ × Queue
unfolding from_history sort_by_id add_missing
load_job_history token records q =
    let jobs = map (from_history token) (take_last max_retained_jobs records) in
    let all_jobs = add_missing (sort_by_id jobs) q.jobs in
    (
      length jobs,
      persist_job_history (record q {
        history_path = true;
        jobs = all_jobs;
        next_id = next_above q.next_id all_jobs;
      }),
    )

-- What becomes of an action `j` that is written to the history and read again as `k`.
abbrev pub IsReadBack : Job → Job → Type 0
IsReadBack j k =
    (is_unfinished k ≡ false)
    × (k.id ≡ j.id)
    × (j.title ≢ [] → k.title ≡ j.title)
    × (j.title ≡ [] → k.title ≡ txt "Action")
    × (j.project ≢ some [] → k.project ≡ j.project)
    × (j.project ≡ some [] → k.project ≡ none)
    × (k.started_at ≡ j.started_at)
    × (k.result ≡ j.result)
    × (is_unfinished j ≡ false
        → (k.status ≡ j.status)
          × (j.finished_at ≢ some [] → k.finished_at ≡ j.finished_at)
          × (k.error_message ≡ j.error_message)
          × (k.output ≡ take_last job_history_output_limit j.output))
    × (is_unfinished j ≡ true
        → (k.status ≡ error) × (k.error_message ≡ interrupted_message) × (k.finished_at ≢ none))
