-- ===== src/JobQueue/Schedule.antt =====
-- odoo_manager_core/job_queue.py: `schedule_jobs`, and why a job waits.
use sdk_local_manager.Prelude.{
  ℕ, Bool, true, ◌&&◌, ◌||◌, Option, none, some, List, [], ◌∷◌, ◌++◌, length, leb, any, filter,
  if◌then◌else◌,
}
use sdk_local_manager.Prelude.Text.{Text, txt}
use sdk_local_manager.JobQueue.{
  Job, Queue, running, is_active, is_queued, is_unfinished, jobs_conflict, max_running_jobs,
  notify_jobs_changed, persist_job_history,
}

-- The variables of the loop: the active jobs, the jobs that wait, the jobs to start.
pub record Pass : Type 0 where
  pub active : List Job
  pub waiting : List Job
  pub to_start : List ℕ

-- Whether a queued job has to wait.
unfoldable pub must_wait : Job → List Job → List Job → Bool
must_wait job active waiting =
    leb max_running_jobs (length active) || any (jobs_conflict job) (active ++ waiting)

unfoldable pub started : Text → Job → Job
started now job = record job { status = running; started_at = now; thread = true }

-- The body of the loop, for one job.
unfoldable pub visit : Text → Job → Pass → Job × Pass
unfolding must_wait started
visit now job p =
    if is_queued job
    then (if must_wait job p.active p.waiting
        then (job, record p { waiting = p.waiting ++ job ∷ [] })
        else (
          started now job,
          record p {
            active = p.active ++ started now job ∷ [];
            to_start = p.to_start ++ job.id ∷ [];
          },
        ))
    else (job, p)

unfoldable pub scan : Text → Pass → List Job → List Job × List ℕ
scan now p [] = ([], p.to_start)
scan now p (job ∷ rest) =
    let (job', p') = visit now job p in
    let (rest', to_start) = scan now p' rest in (job' ∷ rest', to_start)

abbrev pub first_pass : List Job → Pass
first_pass jobs = record { active = filter is_active jobs; waiting = []; to_start = [] }

abbrev announce : List ℕ → Queue → Queue
announce [] q = q
announce (id ∷ _) q = persist_job_history (notify_jobs_changed q)

-- The threads of the jobs to start run on their own from here.
unfoldable pub schedule_jobs : Text → Queue → Queue
schedule_jobs now q =
    let (jobs, to_start) = scan now (first_pass q.jobs) q.jobs in
    announce to_start (record q { jobs = jobs })

-- The first job created earlier that is not finished and excludes this one, if any.
unfoldable pub blocker : Job → List Job → Option Job
blocker job [] = none
blocker job (other ∷ rest) =
    let later = blocker job rest in
    if leb job.id other.id
    then none
    else if is_unfinished other && jobs_conflict job other
    then some other
    else later

unfoldable pub job_waiting_reason : Job → Queue → Text
unfolding blocker
job_waiting_reason job q = elim (blocker job q.jobs) [
  | some other ↦ txt "Après « " ++ other.title ++ txt " »"
  | none ↦ txt "Limite de 4 actions simultanées atteinte"
]
