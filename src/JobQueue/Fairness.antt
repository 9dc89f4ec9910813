-- ===== src/JobQueue/Fairness.antt =====
-- What `schedule_jobs` decides for each job: nothing waits without a reason, nothing overtakes.
use mathlib.Core.List.{append_assoc, append-nil}
use sdk_local_manager.Prelude.{
  ◌+◌, ◌≤◌, ◌<◌, ◌≡◌, refl, Bool, true, false, ◌||◌, List, [], ◌∷◌, ◌++◌, arith, any, any-append,
  length, length-append, filter, filter-append, Bool-cases, inl, inr, ◌⊎◌,
}
use sdk_local_manager.Prelude.Text.{Text}
use sdk_local_manager.JobQueue.{
  Job, Queue, running, is_active, is_queued, jobs_conflict, max_running_jobs,
}
use sdk_local_manager.JobQueue.Schedule.{
  Pass, must_wait, started, visit, scan, first_pass, schedule_jobs,
}
use sdk_local_manager.JobQueue.Exclusion.{active_count, jobs-schedule_jobs}

-- What may become of the job `old`, given the jobs `before` it and `all_jobs` after the pass.
pub data Decision (all_jobs before : List Job) (old new : Job) : Type 0 where
  keeps : is_queued old ≡ false → new ≡ old → Decision all_jobs before old new
  starts :
      is_queued old ≡ true
      → new.status ≡ running
      → new.id ≡ old.id
      → any (jobs_conflict old) (filter is_queued before) ≡ false
      → Decision all_jobs before old new
  waits :
      is_queued old ≡ true
      → new ≡ old
      → (max_running_jobs ≤ active_count all_jobs)
        ⊎ ((any (jobs_conflict old) (filter is_active all_jobs) ≡ true)
            ⊎ (any (jobs_conflict old) (filter is_queued before) ≡ true))
      → Decision all_jobs before old new

-- A decision for each job, in the order of the list.
abbrev pub IsFair : List Job → List Job → List Job → List Job → Type 0
IsFair all_jobs before [] [] = Unit
IsFair all_jobs before (o ∷ os) (n ∷ ns) =
    Decision all_jobs before o n × IsFair all_jobs (before ++ n ∷ []) os ns
IsFair all_jobs before _ _ = ⊥

-- The pass has seen `before`, as it left them, and has `rest` ahead.
record Seen (p : Pass) (before rest : List Job) : Type 0 where
  counted : length p.active ≡ active_count before + active_count rest
  active :
      (f : Job → Bool)
      → any f p.active ≡ (any f (filter is_active before) || any f (filter is_active rest))
  waiting : p.waiting ≡ filter is_queued before

started_parts :
    (now : Text) (job : Job)
    → (is_active (started now job) ≡ true)
      × (is_queued (started now job) ≡ false)
      × ((started now job).status ≡ running)
      × ((started now job).id ≡ job.id)
unfolding started
started_parts now job = (refl, refl, refl, refl)

module _ (now : Text) where
  active_count-le-scan :
      (p : Pass) (jobs : List Job) → active_count jobs ≤ active_count (scan now p jobs).0
  unfolding scan visit
  active_count-le-scan p [] = omega arith
  active_count-le-scan p (job ∷ rest) =
      ground (arith, active_count-le-scan (visit now job p).1 rest, started_parts now job)

  any-active-scan :
      (f : Job → Bool) (p : Pass) (jobs : List Job)
      → any f (filter is_active jobs) ≡ true
      → any f (filter is_active (scan now p jobs).0) ≡ true
  unfolding scan visit
  any-active-scan f p [] h = h
  any-active-scan f p (job ∷ rest) h =
      ground (arith, any-active-scan f (visit now job p).1 rest, started_parts now job)

  -- The three things that a visit does.
  abbrev wait_pass : Pass → Job → Pass
  wait_pass p job = record p { waiting = p.waiting ++ job ∷ [] }

  abbrev start_pass : Pass → Job → Pass
  start_pass p job = record p {
    active = p.active ++ started now job ∷ [];
    to_start = p.to_start ++ job.id ∷ [];
  }

  visit-keep : (p : Pass) (job : Job) → is_queued job ≡ false → visit now job p ≡ (job, p)
  unfolding visit
  visit-keep p job h = rw h

  visit-wait :
      (p : Pass) (job : Job)
      → is_queued job ≡ true
      → must_wait job p.active p.waiting ≡ true
      → visit now job p ≡ (job, wait_pass p job)
  unfolding visit
  visit-wait p job h w = rw (h, w)

  visit-start :
      (p : Pass) (job : Job)
      → is_queued job ≡ true
      → must_wait job p.active p.waiting ≡ false
      → visit now job p ≡ (started now job, start_pass p job)
  unfolding visit
  visit-start p job h w = rw (h, w)

  module _ (p : Pass) (before : List Job) (job : Job) (rest : List Job)
      (s : Seen p before (job ∷ rest)) where
    Seen-keep : is_queued job ≡ false → Seen p (before ++ job ∷ []) rest
    Seen-keep q = record {
      counted = ground (
        arith,
        s.counted,
        filter-append is_active before (job ∷ []),
        length-append (filter is_active before) (filter is_active (job ∷ [])),
      );
      active = λ f. ground (
        arith,
        s.active f,
        filter-append is_active before (job ∷ []),
        any-append f (filter is_active before) (filter is_active (job ∷ [])),
      );
      waiting = ground (
        arith,
        s.waiting,
        filter-append is_queued before (job ∷ []),
        append-nil (filter is_queued before),
      );
    }

    Seen-wait : is_queued job ≡ true → Seen (wait_pass p job) (before ++ job ∷ []) rest
    Seen-wait q = record {
      counted = ground (
        arith,
        s.counted,
        filter-append is_active before (job ∷ []),
        length-append (filter is_active before) (filter is_active (job ∷ [])),
      );
      active = λ f. ground (
        arith,
        s.active f,
        filter-append is_active before (job ∷ []),
        any-append f (filter is_active before) (filter is_active (job ∷ [])),
      );
      waiting = ground (arith, s.waiting, filter-append is_queued before (job ∷ []));
    }

    Seen-start :
        is_queued job ≡ true → Seen (start_pass p job) (before ++ started now job ∷ []) rest
    Seen-start q = record {
      counted = ground (
        arith,
        s.counted,
        filter-append is_active before (started now job ∷ []),
        started_parts now job,
        length-append (filter is_active before) (filter is_active (started now job ∷ [])),
        length-append p.active (started now job ∷ []),
      );
      active = λ f. ground (
        arith,
        s.active f,
        filter-append is_active before (started now job ∷ []),
        started_parts now job,
        any-append f (filter is_active before) (filter is_active (started now job ∷ [])),
        any-append f p.active (started now job ∷ []),
      );
      waiting = ground (
        arith,
        s.waiting,
        filter-append is_queued before (started now job ∷ []),
        started_parts now job,
        append-nil (filter is_queued before),
      );
    }

  -- The active jobs of the pass are found again among those that it leaves.
  full_stays :
      (p : Pass) (before jobs : List Job)
      → Seen p before jobs
      → length p.active ≤ active_count (before ++ (scan now p jobs).0)
  full_stays p before jobs s = rw (filter-append is_active before (scan now p jobs).0) (
      omega (
        arith,
        s.counted,
        active_count-le-scan p jobs,
        length-append (filter is_active before) (filter is_active (scan now p jobs).0),
      ))

  conflict_stays :
      (f : Job → Bool) (p : Pass) (before jobs : List Job)
      → Seen p before jobs
      → any f p.active ≡ true
      → any f (filter is_active (before ++ (scan now p jobs).0)) ≡ true
  conflict_stays f p before jobs s h = rw (filter-append is_active before (scan now p jobs).0) (
      ground (
        arith,
        s.active f,
        any-active-scan f p jobs,
        any-append f (filter is_active before) (filter is_active (scan now p jobs).0),
      ))

  waits_for :
      (p : Pass) (before : List Job) (job : Job) (rest all_jobs : List Job)
      → Seen p before (job ∷ rest)
      → is_queued job ≡ true
      → must_wait job p.active p.waiting ≡ true
      → all_jobs ≡ before ++ (scan now p (job ∷ rest)).0
      → Decision all_jobs before job job
  unfolding must_wait
  waits_for p before job rest all_jobs s q w e = waits q refl (
      rw e (
        ground (
          arith,
          s.waiting,
          full_stays p before (job ∷ rest) s,
          conflict_stays (jobs_conflict job) p before (job ∷ rest) s,
          any-append (jobs_conflict job) p.active p.waiting,
        )))

  starts_at :
      (p : Pass) (before : List Job) (job : Job) (rest all_jobs : List Job)
      → Seen p before (job ∷ rest)
      → is_queued job ≡ true
      → must_wait job p.active p.waiting ≡ false
      → Decision all_jobs before job (started now job)
  unfolding must_wait
  starts_at p before job rest all_jobs s q w =
      starts q (started_parts now job).2 (started_parts now job).3
        (ground (arith, s.waiting, any-append (jobs_conflict job) p.active p.waiting))

  IsFair-scan :
      (p : Pass) (before jobs all_jobs : List Job)
      → Seen p before jobs
      → all_jobs ≡ before ++ (scan now p jobs).0
      → IsFair all_jobs before jobs (scan now p jobs).0
  unfolding scan
  IsFair-scan p before [] all_jobs s e = tt
  IsFair-scan p before (job ∷ rest) all_jobs s e = elim (Bool-cases (is_queued job)) [
    | inr q ↦ rw (visit-keep p job q) (
      keeps q refl,
      IsFair-scan p (before ++ job ∷ []) rest all_jobs (Seen-keep p before job rest s q)
          (rw append_assoc (rw (visit-keep p job q) at e)),
    )
    | inl q ↦ elim (Bool-cases (must_wait job p.active p.waiting)) [
      | inl w ↦ rw (visit-wait p job q w) (
        waits_for p before job rest all_jobs s q w e,
        IsFair-scan (wait_pass p job) (before ++ job ∷ []) rest all_jobs
            (Seen-wait p before job rest s q) (rw append_assoc (rw (visit-wait p job q w) at e)),
      )
      | inr w ↦ rw (visit-start p job q w) (
        starts_at p before job rest all_jobs s q w,
        IsFair-scan (start_pass p job) (before ++ started now job ∷ []) rest all_jobs
            (Seen-start p before job rest s q) (rw append_assoc (rw (visit-start p job q w) at e)),
      )
    ]
  ]

-- After a pass of the scheduler every queued job has been started or has a reason to wait: as many
-- jobs are active as may be, or an active job excludes it, or a job that was created earlier and
-- still waits excludes it. None is started that such an earlier waiting job excludes, and every
-- other job is left as it was.
pub IsFair-schedule_jobs :
    (now : Text) (q : Queue)
    → IsFair (schedule_jobs now q).jobs [] q.jobs (schedule_jobs now q).jobs
IsFair-schedule_jobs now q = rw (jobs-schedule_jobs now q) (
    IsFair-scan now (first_pass q.jobs) [] q.jobs (scan now (first_pass q.jobs) q.jobs).0
      (record { counted = omega arith; active = λ f. refl; waiting = refl }) refl)

module _ (now : Text) where
  starts_first :
      (jobs : List Job)
      → active_count jobs ≡ 0
      → any is_queued jobs ≡ true
      → 0 < active_count (scan now (record { active = []; waiting = []; to_start = [] }) jobs).0
  unfolding scan must_wait
  starts_first [] a h = cc
  starts_first (job ∷ rest) a h = elim (Bool-cases (is_queued job)) [
    | inl q ↦
        rw (visit-start now (record { active = []; waiting = []; to_start = [] }) job q refl)
          (ground (arith, started_parts now job))
    | inr q ↦
        rw (visit-keep now (record { active = []; waiting = []; to_start = [] }) job q)
          (ground (arith, starts_first rest))
  ]

nothing_active : (jobs : List Job) → active_count jobs ≡ 0 → filter is_active jobs ≡ []
nothing_active [] h = refl
nothing_active (j ∷ js) h = ground (arith, nothing_active js)

-- The queue does not stall: when a job waits and none is active, the scheduler starts one.
pub schedule_jobs_progress :
    (now : Text) (q : Queue)
    → active_count q.jobs ≡ 0
    → any is_queued q.jobs ≡ true
    → 0 < active_count (schedule_jobs now q).jobs
schedule_jobs_progress now q a h =
    rw (jobs-schedule_jobs now q, nothing_active q.jobs a) (starts_first now q.jobs a h)
