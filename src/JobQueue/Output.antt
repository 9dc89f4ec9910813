-- ===== src/JobQueue/Output.antt =====
-- odoo_manager_core/job_queue.py: what an action writes (`Job.add`, `_append_output`, `_trim_lines`).
use sdk_local_manager.Prelude.{
  ℕ, ◌+◌, ◌*◌, Bool, true, false, Option, none, some, List, [], ◌∷◌, ◌++◌, length, ltb,
  if◌then◌else◌, take_last,
}
use sdk_local_manager.Prelude.Text.{Text, rstrip_newlines}
use sdk_local_manager.CommandOutput.{Reading, parse_output_progress}
use sdk_local_manager.JobControl.{Signal, returned, checkpoint}
use sdk_local_manager.JobQueue.{
  Job, Queue, find_job, update_job, job_lines_limit, job_output_limit, notify_jobs_changed,
}

unfoldable pub trim_lines : List Text → List Text
trim_lines lines =
    if ltb (job_lines_limit * 2) (length lines) then take_last job_lines_limit lines else lines

unfoldable pub trim_output : Text → Text
trim_output output =
    if ltb (job_output_limit * 2) (length output) then take_last job_output_limit output else output

unfoldable pub append_output : Text → Job → Job
unfolding trim_lines trim_output
append_output text j = record j {
  output = trim_output (j.output ++ text);
  output_total = j.output_total + length text;
  lines = trim_lines j.lines;
}

-- A reading feeds the progress bar of a job that has one.
abbrev measured : Option Reading → Job → Job
measured none j = j
measured (some r) j = record j {
  progress = elim j.progress [ none ↦ none | some ms ↦ some (ms ++ r.measure ∷ []) ];
}

-- Only a line that the command rewrites in place is kept out of the history.
abbrev is_transient : Option Reading → Bool
is_transient none = false
is_transient (some r) = r.transient

unfoldable pub write_line : Text → Option Reading → Job → Job
unfolding append_output
write_line text reading j =
    let j' = measured reading j in
    if is_transient reading
    then j'
    else append_output (text ++ 10 ∷ []) (record j' { lines = j'.lines ++ text ∷ [] })

-- The line as it is kept, and what is read of it.
unfoldable pub add_line : Bool → Text → Job → Job
unfolding write_line rstrip_newlines
add_line raw line j =
    let text = rstrip_newlines line in
    write_line text (if raw then none else parse_output_progress text) j

-- `job.add(line)`. `bound` says whether the thread that writes is the job's own, in its action:
-- then the line is also a checkpoint.
abbrev pub at_checkpoint : Bool → ℕ → Text → Queue → Option Job → Signal × Queue
at_checkpoint true id fresh q (some j) =
    let (signal, control) = checkpoint fresh j.control in
    (signal, record q { jobs = update_job id (λ k. record k { control = control }) q.jobs })
at_checkpoint _ id fresh q _ = (returned, q)

unfoldable pub add : Bool → Bool → Text → ℕ → Text → Queue → Signal × Queue
unfolding notify_jobs_changed
add raw bound fresh id line q =
    let q' = notify_jobs_changed (record q { jobs = update_job id (add_line raw line) q.jobs }) in
    at_checkpoint bound id fresh q' (find_job id q'.jobs)

-- `add` from a thread that is not the job's own, or after its action.
unfoldable pub add_unbound : ℕ → Text → Queue → Queue
unfolding notify_jobs_changed
add_unbound id line q =
    notify_jobs_changed (record q { jobs = update_job id (add_line false line) q.jobs })
