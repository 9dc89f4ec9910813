-- ===== src/JobQueue.antt =====
-- odoo_manager_core/job_queue.py: the state of the action queue.
--
-- `JOBS` is a dictionary from a job's id to the job, in the order of creation: here the list of the
-- jobs, each with its id. `target` is the name of the action's function, and `progress` the
-- measures that were handed to its `JobProgress`. A queue also holds what the module publishes,
-- reports and writes to disk: `published`, `errors`, `history`, `finished_calls`.
pub mod Conflict
pub mod Output
pub mod Schedule
pub mod Handlers
pub mod Ending
pub mod History
pub mod Exclusion
pub mod Fairness
pub mod Cascade
pub mod Cancel
pub mod Evolution
pub mod Validity
pub mod Sections
pub mod Creation
pub mod Steps
pub mod Finality
pub mod FinalSteps
pub mod Withdrawal
pub mod Snapshot
pub mod Window
pub mod Eviction
pub mod Tests
use sdk_local_manager.Prelude.{
  ℕ, ◌+◌, Bool, true, false, not, ◌&&◌, ◌||◌, Option, none, some, List, [], ◌∷◌, ◌++◌, map, nat_eq,
  if◌then◌else◌, any, ◌==◌, contains, Eq_ℕ, Eq_List, take_last,
}
use sdk_local_manager.Prelude.Text.{Text, txt, has_prefix}
use sdk_local_manager.Prelude.Dict.{Dict}
use sdk_local_manager.CommandOutput.{Measure}
use sdk_local_manager.JobControl.{Control}

abbrev pub max_retained_jobs : ℕ
max_retained_jobs = 60

abbrev pub max_running_jobs : ℕ
max_running_jobs = 4

abbrev pub job_lines_limit : ℕ
job_lines_limit = 700

-- Large: shut, so that nothing counts it out.
unfoldable pub job_output_limit : ℕ
job_output_limit = 120_000

unfoldable pub job_history_output_limit : ℕ
job_history_output_limit = 40_000

pub data Status : Type 0 where
  queued running cancelling done error cancelled : Status

-- JOB_ACTIVE_STATUSES, JOB_UNFINISHED_STATUSES
abbrev pub is_active_status : Status → Bool
is_active_status running = true
is_active_status cancelling = true
is_active_status _ = false

abbrev pub is_queued_status : Status → Bool
is_queued_status queued = true
is_queued_status _ = false

abbrev pub is_unfinished_status : Status → Bool
is_unfinished_status s = is_queued_status s || is_active_status s

pub record Job : Type 0 where
  pub id : ℕ
  pub title : Text
  pub project : Option Text
  pub status : Status
  pub started_at : Text
  pub finished_at : Option Text
  pub error_message : Text
  pub lines : List Text
  pub output : Text
  pub output_total : ℕ
  pub result : Dict Text Text
  pub progress : Option (List Measure)
  pub target : Option Text
  pub args : List Text
  -- whether `thread` is set: from the start by the scheduler to the end of `run`
  pub thread : Bool
  pub control : Control
  pub cancellable : Bool
  pub cancel_hint : Text
  pub resources : List Text

abbrev pub is_active : Job → Bool
is_active j = is_active_status j.status

abbrev pub is_queued : Job → Bool
is_queued j = is_queued_status j.status

abbrev pub is_unfinished : Job → Bool
is_unfinished j = is_unfinished_status j.status

pub record HistoryRecord : Type 0 where
  pub id : ℕ
  pub title : Text
  pub project : Option Text
  pub status : Status
  pub started_at : Text
  pub finished_at : Option Text
  pub error_message : Text
  pub result : Dict Text Text
  pub output : Text

-- The event `job_completed`.
pub record Completion : Type 0 where
  pub id : ℕ
  pub status : Status
  pub project : Option Text
  pub finished_at : Option Text
  pub result : Dict Text Text

pub record Queue : Type 0 where
  pub jobs : List Job
  pub next_id : ℕ
  -- the event JOBS_CHANGED
  pub changed : Bool
  -- whether JOB_HISTORY_PATH is set, and whether the disk takes the file
  pub history_path : Bool
  pub writable : Bool
  -- what the file holds
  pub history : List HistoryRecord
  pub published : List Completion
  -- the texts handed to the hook `record_error`, and the calls of the hook `on_finished`
  pub errors : List Text
  pub finished_calls : ℕ

-- Each handler of the queue finds its job by id and writes to it.
abbrev pub find_job : ℕ → List Job → Option Job
find_job id [] = none
find_job id (j ∷ js) = if nat_eq j.id id then some j else find_job id js

abbrev pub update_job : ℕ → (Job → Job) → List Job → List Job
update_job id f [] = []
update_job id f (j ∷ js) =
    let rest = update_job id f js in if nat_eq j.id id then f j ∷ js else j ∷ rest

unfoldable pub history_record : Job → HistoryRecord
history_record j = record {
  id = j.id;
  title = j.title;
  project = j.project;
  status = j.status;
  started_at = j.started_at;
  finished_at = j.finished_at;
  error_message = j.error_message;
  result = j.result;
  output = take_last job_history_output_limit j.output;
}

unfoldable pub persist_job_history : Queue → Queue
unfolding history_record
persist_job_history q =
    if q.history_path && q.writable then record q { history = map history_record q.jobs } else q

unfoldable pub notify_jobs_changed : Queue → Queue
notify_jobs_changed q = record q { changed = true }

unfoldable pub publish_completion : Job → Queue → Queue
publish_completion j q = record q {
  published =
      q.published
      ++ record {
        id = j.id;
        status = j.status;
        project = j.project;
        finished_at = j.finished_at;
        result = j.result;
      }
        ∷ [];
}

star : Text
star = txt "*"

project_prefix : Text
project_prefix = txt "project:"

-- `*` covers every project, and neither Git nor Traefik.
covers : List Text → List Text → Bool
unfolding star project_prefix
covers everything other =
    contains everything star && any (λ item. item == star || has_prefix project_prefix item) other

share : List Text → List Text → Bool
share xs ys = any (λ r. contains ys r) xs

unfoldable pub jobs_conflict : Job → Job → Bool
unfolding covers share
jobs_conflict first second =
    share first.resources second.resources
    || covers first.resources second.resources
    || covers second.resources first.resources
