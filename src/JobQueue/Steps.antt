-- ===== src/JobQueue/Steps.antt =====
-- The handlers of the queue in any order, as the threads of the program take their turns.
--
-- Each step is one handler, its sections run together, but for two that other threads may part: the
-- answer of a job's control may be applied later than `cancel_job` asked for it (`late_answer`), and
-- the end of an action is two steps (`end_action`, `close`).
use sdk_local_manager.Prelude.{
  ℕ, ◌≤◌, ◌≡◌, refl, Bool, true, false, not, Option, none, some, List, arith, Option-cases, inl,
  inr, nat_eq,
}
use sdk_local_manager.Prelude.Text.{Text}
use sdk_local_manager.JobControl.{Control, CancelOutcome, checkpoint}
use sdk_local_manager.JobQueue.{
  Job, Queue, is_active, is_unfinished, find_job, update_job, max_running_jobs, persist_job_history,
  notify_jobs_changed,
}
use sdk_local_manager.JobQueue.Output.{add_line, add, at_checkpoint}
use sdk_local_manager.JobQueue.Schedule.{schedule_jobs}
use sdk_local_manager.JobQueue.Handlers.{
  Policies, Request, create_job, after_request, cancel_job, delete_job_history, clear_jobs_history,
  clears, delete_found,
}
use sdk_local_manager.JobQueue.Ending.{Ending, finish, finalize}
use sdk_local_manager.JobQueue.Exclusion.{Exclusive, active_count}
use sdk_local_manager.JobQueue.Validity.{IsValid, Distinct, filter-IsValid}
use sdk_local_manager.JobQueue.Sections.{
  Calm, Quiet-IsValid, Calm→Quiet, Calm-trans, Calm-same, Calm-notify, Calm-update, Same-add_line,
}
use sdk_local_manager.JobQueue.Creation.{schedule_jobs-IsValid, create_job-IsValid, Moves-IsValid}
use sdk_local_manager.JobQueue.Cancel.{cancel_job-Moves, Quiet-after_request}
use sdk_local_manager.JobQueue.Cascade.{Quiet-finish, finalize-Moves}

pub data Step : Queue → Queue → Type 0 where
  create : (policies : Policies) (r : Request) (q : Queue) → Step q (create_job policies r q)
  schedule : (now : Text) (q : Queue) → Step q (schedule_jobs now q)
  cancel :
      (alive : ℕ → Bool) (now : Text) (id : ℕ) (q : Queue) → Step q (cancel_job alive now id q).1
  late_answer :
      (outcome : CancelOutcome) (c : Control) (j : Job) (q : Queue)
      → Step q (after_request (outcome, c) j q).1
  write :
      (raw bound : Bool) (fresh : Text) (id : ℕ) (line : Text) (q : Queue)
      → Step q (add raw bound fresh id line q).1
  -- The action of an active job ends.
  end_action :
      (answer : ℕ → Option Text) (fresh : Text) (ending : Ending) (j : Job) (q : Queue)
      → find_job j.id q.jobs ≡ some j
      → is_active j ≡ true
      → Step q (finish answer fresh ending j q)
  close : (now : Text) (j : Job) (q : Queue) → Step q (finalize now j q)
  forget : (id : ℕ) (q : Queue) → Step q (delete_job_history id q).1
  clear :
      (project : Option Text) (job_ids : Option (List ℕ)) (q : Queue)
      → Step q (clear_jobs_history project job_ids q).1

pub data Reach (q : Queue) : Queue → Type 0 where
  here : Reach q q
  next : {r s : Queue} → Reach q r → Step r s → Reach q s

Calm-at_checkpoint :
    (bound : Bool) (id : ℕ) (fresh : Text) (q : Queue) (o : Option Job)
    → Calm q (at_checkpoint bound id fresh q o).1
unfolding checkpoint
Calm-at_checkpoint true id fresh q (some j) =
    Calm-update id (λ k. record k { control = (checkpoint fresh j.control).1 }) q
      (λ k. record { id = refl; resources = refl; status = refl })
Calm-at_checkpoint true id fresh q none = Calm-same q q refl refl
Calm-at_checkpoint false id fresh q o = Calm-same q q refl refl

pub Calm-add :
    (raw bound : Bool) (fresh : Text) (id : ℕ) (line : Text) (q : Queue)
    → Calm q (add raw bound fresh id line q).1
unfolding add
Calm-add raw bound fresh id line q =
    let q1 : Queue = record q { jobs = update_job id (add_line raw line) q.jobs } in
    let q2 = notify_jobs_changed q1 in
    Calm-trans q q1 _ (Calm-update id (add_line raw line) q (Same-add_line raw line)) (
      Calm-trans q1 q2 _ (Calm-notify q1)
        (Calm-at_checkpoint bound id fresh q2 (find_job id q2.jobs)))

pub jobs-persist : (q : Queue) → (persist_job_history q).jobs ≡ q.jobs
unfolding persist_job_history
jobs-persist q = ground arith

pub next_id-persist : (q : Queue) → (persist_job_history q).next_id ≡ q.next_id
unfolding persist_job_history
next_id-persist q = ground arith

clear-IsValid :
    (project : Option Text) (job_ids : Option (List ℕ)) (q : Queue)
    → IsValid q
    → IsValid (clear_jobs_history project job_ids q).1
unfolding clear_jobs_history notify_jobs_changed
clear-IsValid project job_ids q v =
    filter-IsValid (λ j. not (clears project job_ids j)) q _ (jobs-persist _) (next_id-persist _) v

delete_found-IsValid :
    (unfinished : Bool) (id : ℕ) (q : Queue) → IsValid q → IsValid (delete_found unfinished id q).1
unfolding notify_jobs_changed
delete_found-IsValid true id q v = v
delete_found-IsValid false id q v =
    filter-IsValid (λ k. not (nat_eq k.id id)) q _ (jobs-persist _) (next_id-persist _) v

delete-IsValid : (id : ℕ) (q : Queue) → IsValid q → IsValid (delete_job_history id q).1
unfolding delete_job_history
delete-IsValid id q v = elim (Option-cases (find_job id q.jobs)) [
  | inl e ↦ rw (e, delete_job_history) v
  | inr (j, e) ↦ rw (e, delete_job_history) (delete_found-IsValid (is_unfinished j) id q v)
]

pub Step-IsValid : {q q' : Queue} → Step q q' → IsValid q → IsValid q'
Step-IsValid (create policies r q) v = create_job-IsValid policies r q v
Step-IsValid (schedule now q) v = schedule_jobs-IsValid now q v
Step-IsValid (cancel alive now id q) v = Moves-IsValid q _ (cancel_job-Moves alive now id q) v
Step-IsValid (late_answer outcome c j q) v = Quiet-IsValid q _ (Quiet-after_request outcome c j q) v
Step-IsValid (write raw bound fresh id line q) v =
    Quiet-IsValid q _ (Calm→Quiet q _ (Calm-add raw bound fresh id line q)) v
Step-IsValid (end_action answer fresh ending j q f a) v =
    Quiet-IsValid q _ (Quiet-finish answer fresh ending j q f a) v
Step-IsValid (close now j q) v = Moves-IsValid q _ (finalize-Moves now j q) v
Step-IsValid (forget id q) v = delete-IsValid id q v
Step-IsValid (clear project job_ids q) v = clear-IsValid project job_ids q v

pub Reach-IsValid : {q q' : Queue} → IsValid q → Reach q q' → IsValid q'
Reach-IsValid v here = v
Reach-IsValid v (next r s) = Step-IsValid s (Reach-IsValid v r)

-- Whatever handlers run, in whatever order, from a queue where it holds (an empty one, say): at most
-- four actions are active, no two of them use the same resource, and every id names one job.
pub Reach-Exclusive :
    (q q' : Queue)
    → IsValid q
    → Reach q q'
    → (active_count q'.jobs ≤ max_running_jobs) × Exclusive q'.jobs × Distinct q'.jobs
Reach-Exclusive q q' v r = let w = Reach-IsValid v r in (w.limited, w.exclusive, w.distinct)
