-- ===== src/JobQueue/Snapshot.antt =====
-- odoo_manager_core/job_queue.py: what the interface reads (`job_output_payload`, `jobs_snapshot`,
-- `job_creation_payload`).
use mathlib.Core.List.{reverse}
use sdk_local_manager.Prelude.{
  ℕ, zero, suc, ◌-◌, Bool, true, false, not, ◌&&◌, ◌||◌, Option, none, some, List, [], ◌∷◌, map,
  length, filter, drop, take_last, leb, nat_eq, if◌then◌else◌, contains, Eq_ℕ,
}
use sdk_local_manager.Prelude.Text.{Text}
use sdk_local_manager.Prelude.Dict.{Dict}
use sdk_local_manager.CommandOutput.{Measure}
use sdk_local_manager.JobQueue.{
  Job, Queue, Status, is_active, is_unfinished, job_lines_limit, job_output_limit,
}
use sdk_local_manager.JobQueue.Handlers.{CancelPayload, job_cancel_payload}

-- `output_from` is absent, zero for the whole output, or where the text given goes on.
pub record OutputPayload : Type 0 where
  pub lines : List Text
  pub output : Text
  pub output_from : Option ℕ

abbrev pub is_detail : Option ℕ → ℕ → Bool
is_detail none id = false
is_detail (some d) id = nat_eq d id

unfoldable pub visible_output : Job → Text
visible_output j = take_last job_output_limit j.output

-- Whether the interface holds a beginning of the output that goes on in what is kept.
unfoldable pub goes_on : Job → ℕ → Bool
unfolding visible_output
goes_on j zero = false
goes_on j (suc n) =
    leb (j.output_total - length (visible_output j)) (suc n) && leb (suc n) j.output_total

abbrev pub rest_payload : Job → ℕ → OutputPayload
rest_payload j n = record {
  lines = [];
  output = drop (length (visible_output j) - (j.output_total - n)) (visible_output j);
  output_from = some n;
}

abbrev pub whole_payload : Bool → Job → OutputPayload
whole_payload compact j = record {
  lines = take_last job_lines_limit j.lines;
  output = visible_output j;
  output_from = if compact then some 0 else none;
}

abbrev pub shown_payload : Bool → Option ℕ → Job → OutputPayload
shown_payload true (some n) j = if goes_on j n then rest_payload j n else whole_payload true j
shown_payload compact _ j = whole_payload compact j

unfoldable pub job_output_payload : Job → Bool → Option ℕ → Option ℕ → OutputPayload
unfolding goes_on visible_output
job_output_payload j compact detail_job_id output_from =
    if compact && not (is_detail detail_job_id j.id)
    then record { lines = []; output = []; output_from = none }
    else shown_payload compact output_from j

abbrev last_line : List Text → Text
last_line [] = []
last_line (l ∷ []) = l
last_line (l ∷ k ∷ ls) = last_line (k ∷ ls)

-- `progress` gives the measures from which the bar is drawn.
pub record Row : Type 0 where
  pub id : ℕ
  pub title : Text
  pub project : Option Text
  pub status : Status
  pub started_at : Text
  pub finished_at : Option Text
  pub error_message : Text
  pub last_line : Text
  pub output_total : ℕ
  pub output : OutputPayload
  pub result : Dict Text Text
  pub progress : Option (List Measure)
  pub cancel : CancelPayload

unfoldable pub row : Queue → Bool → Option ℕ → Option ℕ → Job → Row
unfolding job_output_payload
row q compact detail_job_id output_from j = record {
  id = j.id;
  title = j.title;
  project = j.project;
  status = j.status;
  started_at = j.started_at;
  finished_at = j.finished_at;
  error_message = j.error_message;
  last_line = last_line j.lines;
  output_total = j.output_total;
  output = job_output_payload j compact detail_job_id output_from;
  result = j.result;
  progress = if is_active j then j.progress else none;
  cancel = job_cancel_payload j q;
}

-- The unfinished jobs, the thirty latest others, and the one whose detail is asked for.
unfoldable pub listed_jobs : List Job → Option ℕ → List Job
listed_jobs jobs detail_job_id =
    let included = map (λ j. j.id) (take_last 30 (filter (λ j. not (is_unfinished j)) jobs)) in
    filter (λ j. contains included j.id || is_unfinished j || is_detail detail_job_id j.id) jobs

abbrev last_id : List Job → Option ℕ
last_id [] = none
last_id (j ∷ []) = some j.id
last_id (j ∷ k ∷ js) = last_id (k ∷ js)

abbrev default_detail : Bool → Option ℕ → List Job → Option ℕ
default_detail true none values = last_id values
default_detail compact detail values = detail

unfoldable pub jobs_snapshot : Queue → Option ℕ → Bool → Option ℕ → List Row
unfolding row listed_jobs
jobs_snapshot q detail_job_id compact output_from =
    let values = listed_jobs q.jobs detail_job_id in
    map (row q compact (default_detail compact detail_job_id values) output_from) (reverse values)

pub record CreationPayload : Type 0 where
  pub id : ℕ
  pub title : Text
  pub project : Option Text
  pub status : Status
  pub started_at : Text
  pub lines : List Text
  pub cancel : CancelPayload

unfoldable pub job_creation_payload : Job → Queue → CreationPayload
job_creation_payload j q = record {
  id = j.id;
  title = j.title;
  project = j.project;
  status = j.status;
  started_at = j.started_at;
  lines = take_last job_lines_limit j.lines;
  cancel = job_cancel_payload j q;
}
