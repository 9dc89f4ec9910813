-- ===== src/JobQueue/Withdrawal.antt =====
-- A job that is withdrawn from the queue, by the user or by the failure of an action, does not run.
use mathlib.Core.Path.{subst}
use sdk_local_manager.Prelude.{
  ℕ, ◌≡◌, ◌≢◌, refl, sym, ◌∙◌, Bool, true, Option, none, some, List, [], ◌∷◌, map, arith,
  Bool-cases, inl, inr, ◌⊎◌, nat_eq,
}
use sdk_local_manager.Prelude.Text.{Text}
use sdk_local_manager.JobQueue.{
  Job, Queue, Status, queued, cancelled, find_job, update_job, jobs_conflict,
}
use sdk_local_manager.JobQueue.Schedule.{first_pass, schedule_jobs}
use sdk_local_manager.JobQueue.Handlers.{withdraw, cancel_job, cancel_found, not_found, Refusal}
use sdk_local_manager.JobQueue.Ending.{
  is_failed, withdraw_dependent, clear_ended, finalize_jobs, finalize,
}
use sdk_local_manager.JobQueue.Exclusion.{jobs-schedule_jobs}
use sdk_local_manager.JobQueue.Evolution.{Same}
use sdk_local_manager.JobQueue.Sections.{Calm, find_related}
use sdk_local_manager.JobQueue.Cancel.{withdrawn, Calm-withdrawn, cancel_queued-withdrawn}
use sdk_local_manager.JobQueue.Cascade.{settled, Calm-settled, finalize-settled}
use sdk_local_manager.JobQueue.Finality.{find_job-scan}

-- The id names a job that is cancelled.
abbrev pub IsCancelled : ℕ → Queue → Type 0
IsCancelled id q = (k : Job) × (find_job id q.jobs ≡ some k) × (k.status ≡ cancelled)

IsCancelled-Calm : (id : ℕ) (q q' : Queue) → Calm q q' → IsCancelled id q → IsCancelled id q'
IsCancelled-Calm id q q' c (k, f, e) =
    let (l, g, s) = find_related Same (λ a b r. r.id) id q.jobs q'.jobs k c.jobs f in
    (l, g, s.status ∙ e)

IsCancelled-schedule_jobs :
    (id : ℕ) (now : Text) (q : Queue) → IsCancelled id q → IsCancelled id (schedule_jobs now q)
IsCancelled-schedule_jobs id now q (k, f, e) = (
  k,
  rw (jobs-schedule_jobs now q)
      (find_job-scan now id (first_pass q.jobs) q.jobs k f (ground (arith, e))),
  e,
)

find_job-update :
    (id : ℕ) (f : Job → Job) (js : List Job) (j : Job)
    → (f j).id ≡ j.id
    → find_job id js ≡ some j
    → find_job id (update_job id f js) ≡ some (f j)
find_job-update id f [] j h e = cc
find_job-update id f (k ∷ ks) j h e = elim (Bool-cases (nat_eq k.id id)) [
  | inl x ↦ let same : k ≡ j = ground arith in rw (x, same) (ground (arith, h, same))
  | inr x ↦ rw x (rw x (find_job-update id f ks j h (ground arith)))
]

withdraw_parts :
    (now : Text) (j : Job) → ((withdraw now j).id ≡ j.id) × ((withdraw now j).status ≡ cancelled)
unfolding withdraw
withdraw_parts now j = (refl, refl)

IsCancelled-withdrawn :
    (now : Text) (j : Job) (q : Queue)
    → find_job j.id q.jobs ≡ some j
    → IsCancelled j.id (withdrawn now j.id q)
IsCancelled-withdrawn now j q f =
    let q1 : Queue = record q { jobs = update_job j.id (withdraw now) q.jobs } in
    IsCancelled-Calm j.id q1 (withdrawn now j.id q) (Calm-withdrawn now j.id q) (
      withdraw now j,
      find_job-update j.id (withdraw now) q.jobs j (withdraw_parts now j).0 f,
      (withdraw_parts now j).1,
    )

cancel_found-queued :
    (alive : ℕ → Bool) (now : Text) (j : Job) (s : Status) (q : Queue)
    → find_job j.id q.jobs ≡ some j
    → s ≡ queued
    → ((cancel_found alive now j s q).0 ≡ inr tt)
      × IsCancelled j.id (cancel_found alive now j s q).1
cancel_found-queued alive now j queued q f h = (
  refl,
  rw (cancel_queued-withdrawn now j.id q)
      (IsCancelled-schedule_jobs j.id now (withdrawn now j.id q) (IsCancelled-withdrawn now j q f)),
)
cancel_found-queued alive now j _ q f h = absurd (cc)

-- Stopping a queued action is granted, and takes it out of the queue: it is cancelled, also after
-- the turn of the scheduler that follows.
pub cancel_job-queued :
    (alive : ℕ → Bool) (now : Text) (j : Job) (q : Queue)
    → find_job j.id q.jobs ≡ some j
    → j.status ≡ queued
    → ((cancel_job alive now j.id q).0 ≡ inr tt) × IsCancelled j.id (cancel_job alive now j.id q).1
unfolding cancel_job
cancel_job-queued alive now j q f h =
    subst
      (λ (o : Option Job).
        let answer : (Refusal ⊎ (Unit {0})) × Queue = elim o [
          | none ↦ (inl not_found, q)
          | some k ↦ cancel_found alive now k k.status q
        ] in
        (answer.0 ≡ inr tt) × IsCancelled j.id answer.1)
      (sym f) (cancel_found-queued alive now j j.status q f h)

find_job-map :
    (id : ℕ) (f : Job → Job) (js : List Job) (j : Job)
    → ((k : Job) → (f k).id ≡ k.id)
    → find_job id js ≡ some j
    → find_job id (map f js) ≡ some (f j)
find_job-map id f [] j h e = cc
find_job-map id f (k ∷ ks) j h e = elim (Bool-cases (nat_eq k.id id)) [
  | inl x ↦ let same : k ≡ j = ground arith in ground (arith, h k, same)
  | inr x ↦ ground (arith, h k, find_job-map id f ks j h (ground arith))
]

find_job-update_ne :
    (id other : ℕ) (f : Job → Job) (js : List Job)
    → ((k : Job) → (f k).id ≡ k.id)
    → other ≢ id
    → find_job id (update_job other f js) ≡ find_job id js
find_job-update_ne id other f [] h d = refl
find_job-update_ne id other f (k ∷ ks) h d =
    ground (arith, h k, find_job-update_ne id other f ks h d)

withdraw_dependent-id : (now : Text) (j k : Job) → (withdraw_dependent now j k).id ≡ k.id
unfolding withdraw_dependent
withdraw_dependent-id now j k = ground arith

clear_ended-id : (now : Text) (k : Job) → (clear_ended now k).id ≡ k.id
unfolding clear_ended
clear_ended-id now k = refl

withdraw_dependent-status :
    (now : Text) (j k : Job)
    → is_failed j ≡ true
    → k.status ≡ queued
    → jobs_conflict j k ≡ true
    → (withdraw_dependent now j k).status ≡ cancelled
unfolding withdraw_dependent
withdraw_dependent-status now j k b s c = ground arith

-- The end of an action that failed or was stopped withdraws every queued job that excludes it: each
-- is cancelled, and the scheduler's turn at the end does not start it.
pub finalize_withdraws :
    (now : Text) (j k : Job) (q : Queue)
    → is_failed j ≡ true
    → find_job k.id q.jobs ≡ some k
    → k.status ≡ queued
    → k.id ≢ j.id
    → jobs_conflict j k ≡ true
    → IsCancelled k.id (finalize now j q)
unfolding finalize_jobs
finalize_withdraws now j k q b f s d c =
    let q1 : Queue = record q { jobs = finalize_jobs now j q.jobs } in
    rw (finalize-settled now j q) (
      IsCancelled-schedule_jobs k.id now (settled now j q) (
        IsCancelled-Calm k.id q1 (settled now j q) (Calm-settled now j q) (
          withdraw_dependent now j k,
          find_job-map k.id (withdraw_dependent now j) (update_job j.id (clear_ended now) q.jobs) k
              (withdraw_dependent-id now j)
              (find_job-update_ne k.id j.id (clear_ended now) q.jobs (clear_ended-id now)
                  (λ e. d (sym e))
                ∙ f),
          withdraw_dependent-status now j k b s c,
        )))
