-- ===== src/JobQueue/FinalSteps.antt =====
-- A finished action stays as it ended, whatever the handlers do.
use sdk_local_manager.Prelude.{
  ℕ, ◌<◌, ◌≡◌, refl, Bool, true, false, not, Option, some, List, [], ◌∷◌, arith, Bool-cases,
  Option-cases, inl, inr, nat_eq, filter, All,
}
use sdk_local_manager.Prelude.Text.{Text}
use sdk_local_manager.JobQueue.{Job, Queue, Status, find_job, is_unfinished, notify_jobs_changed}
use sdk_local_manager.JobQueue.Schedule.{schedule_jobs}
use sdk_local_manager.JobQueue.Handlers.{
  Policies, Request, new_job, evict, insert_job, create_job, delete_found, delete_job_history,
  clears, clear_jobs_history,
}
use sdk_local_manager.JobQueue.Validity.{IsValid}
use sdk_local_manager.JobQueue.Sections.{Quiet, Calm→Quiet, Calm-notify}
use sdk_local_manager.JobQueue.Creation.{next_id-schedule_jobs, Moves, quiet, scheduled}
use sdk_local_manager.JobQueue.Cancel.{Quiet-after_request, cancel_job-Moves}
use sdk_local_manager.JobQueue.Cascade.{Quiet-finish, finalize-Moves}
use sdk_local_manager.JobQueue.Steps.{
  Step, create, schedule, cancel, late_answer, write, end_action, close, forget, clear, Reach, here,
  next, Calm-add, Reach-IsValid, jobs-persist, next_id-persist,
}
use sdk_local_manager.JobQueue.Finality.{
  IsOver, IsFinal, IsOver-Quiet, IsOver-schedule_jobs, IsOver-filter, IsOver-snoc,
}

-- What a step keeps: the job is over, and its id is of the past.
pub record Keeps (s : Status) (id : ℕ) (q' : Queue) : Type 0 where
  pub over : IsOver s id q'.jobs
  pub past : id < q'.next_id

module _ (s : Status) (id : ℕ) (final : IsFinal s) where
  Keeps-Quiet : (q q' : Queue) → Quiet q q' → Keeps s id q → Keeps s id q'
  Keeps-Quiet q q' k h = record {
    over = IsOver-Quiet s id q q' final k h.over;
    past = rw k.next_id h.past;
  }

  Keeps-schedule : (now : Text) (q : Queue) → Keeps s id q → Keeps s id (schedule_jobs now q)
  Keeps-schedule now q h = record {
    over = IsOver-schedule_jobs s id now q final h.over;
    past = rw (next_id-schedule_jobs now q) h.past;
  }

  Keeps-insert :
      (policies : Policies) (r : Request) (q : Queue)
      → IsValid q
      → Keeps s id q
      → Keeps s id (insert_job policies r q)
  unfolding insert_job new_job evict
  Keeps-insert policies r q v h = record {
    over =
        IsOver-snoc s id (evict q.jobs) (new_job policies r q.next_id) (omega (arith, h.past))
          (IsOver-filter s id _ q.jobs v.distinct h.over);
    past = omega (arith, h.past);
  }

  Keeps-create :
      (policies : Policies) (r : Request) (q : Queue)
      → IsValid q
      → Keeps s id q
      → Keeps s id (create_job policies r q)
  unfolding create_job
  Keeps-create policies r q v h =
      let q1 = insert_job policies r q in
      Keeps-schedule r.now (notify_jobs_changed q1) (
        Keeps-Quiet q1 (notify_jobs_changed q1)
          (Calm→Quiet q1 (notify_jobs_changed q1) (Calm-notify q1)) (Keeps-insert policies r q v h))

  Keeps-Moves : (q q' : Queue) → Moves q q' → Keeps s id q → Keeps s id q'
  Keeps-Moves q q' (quiet k) h = Keeps-Quiet q q' k h
  Keeps-Moves q q' (scheduled now r k e) h = rw e (Keeps-schedule now r (Keeps-Quiet q r k h))

  Keeps-filter :
      (f : Job → Bool) (q q' : Queue)
      → q'.jobs ≡ filter f q.jobs
      → q'.next_id ≡ q.next_id
      → IsValid q
      → Keeps s id q
      → Keeps s id q'
  Keeps-filter f q q' e n v h = record {
    over = rw e (IsOver-filter s id f q.jobs v.distinct h.over);
    past = rw n h.past;
  }

  Keeps-clear :
      (project : Option Text) (job_ids : Option (List ℕ)) (q : Queue)
      → IsValid q
      → Keeps s id q
      → Keeps s id (clear_jobs_history project job_ids q).1
  unfolding clear_jobs_history notify_jobs_changed
  Keeps-clear project job_ids q v h =
      Keeps-filter (λ j. not (clears project job_ids j)) q _ (jobs-persist _) (next_id-persist _) v
        h

  Keeps-delete_found :
      (unfinished : Bool) (n : ℕ) (q : Queue)
      → IsValid q
      → Keeps s id q
      → Keeps s id (delete_found unfinished n q).1
  unfolding notify_jobs_changed
  Keeps-delete_found true n q v h = h
  Keeps-delete_found false n q v h =
      Keeps-filter (λ k. not (nat_eq k.id n)) q _ (jobs-persist _) (next_id-persist _) v h

  Keeps-delete :
      (n : ℕ) (q : Queue) → IsValid q → Keeps s id q → Keeps s id (delete_job_history n q).1
  unfolding delete_job_history
  Keeps-delete n q v h = elim (Option-cases (find_job n q.jobs)) [
    | inl e ↦ rw (e, delete_job_history) h
    | inr (j, e) ↦ rw (e, delete_job_history) (Keeps-delete_found (is_unfinished j) n q v h)
  ]

  Keeps-Step : {q q' : Queue} → Step q q' → IsValid q → Keeps s id q → Keeps s id q'
  Keeps-Step (create policies r q) v h = Keeps-create policies r q v h
  Keeps-Step (schedule now q) v h = Keeps-schedule now q h
  Keeps-Step (cancel alive now n q) v h = Keeps-Moves q _ (cancel_job-Moves alive now n q) h
  Keeps-Step (late_answer outcome c j q) v h = Keeps-Quiet q _ (Quiet-after_request outcome c j q) h
  Keeps-Step (write raw bound fresh n line q) v h =
      Keeps-Quiet q _ (Calm→Quiet q _ (Calm-add raw bound fresh n line q)) h
  Keeps-Step (end_action answer fresh ending j q f a) v h =
      Keeps-Quiet q _ (Quiet-finish answer fresh ending j q f a) h
  Keeps-Step (close now j q) v h = Keeps-Moves q _ (finalize-Moves now j q) h
  Keeps-Step (forget n q) v h = Keeps-delete n q v h
  Keeps-Step (clear project job_ids q) v h = Keeps-clear project job_ids q v h

  Keeps-Reach : {q q' : Queue} → IsValid q → Keeps s id q → Reach q q' → Keeps s id q'
  Keeps-Reach v h here = h
  Keeps-Reach v h (next r st) = Keeps-Step st (Reach-IsValid v r) (Keeps-Reach v h r)

find_below :
    (n id : ℕ) (js : List Job) (j : Job) → All (λ k. k.id < n) js → find_job id js ≡ some j → id < n
find_below n id [] j a e = cc
find_below n id (k ∷ ks) j a e = elim (Bool-cases (nat_eq k.id id)) [
  | inl h ↦ ground (arith, a.0)
  | inr h ↦ find_below n id ks j a.1 (ground arith)
]

-- An action that is done, failed or stopped stays so: whatever handlers run afterwards, the job
-- under its id has the same status, or it was forgotten and its id names no job.
pub Reach-IsOver :
    (q q' : Queue) (j : Job)
    → IsValid q
    → find_job j.id q.jobs ≡ some j
    → IsFinal j.status
    → Reach q q'
    → IsOver j.status j.id q'.jobs
Reach-IsOver q q' j v e f r =
    (Keeps-Reach j.status j.id f v
      (record { over = inr (j, e, refl); past = find_below q.next_id j.id q.jobs j v.below e })
      r).over
