-- ===== src/JobQueue/Exclusion.antt =====
-- `schedule_jobs` keeps the limit on the active jobs, and keeps those that exclude one another apart.
use sdk_local_manager.Prelude.{
  ℕ, suc, ◌+◌, ◌≤◌, ◌≡◌, refl, Bool, true, false, List, [], ◌∷◌, ◌++◌, arith, any, any-append,
  length, length-append, filter, All, Bool-cases, inl, inr, ◌⊎◌,
}
use sdk_local_manager.Prelude.Text.{Text}
use sdk_local_manager.JobQueue.{
  Job, Queue, is_active, is_queued, jobs_conflict, max_running_jobs, persist_job_history,
  notify_jobs_changed,
}
use sdk_local_manager.JobQueue.Conflict.{jobs_conflict_comm}
use sdk_local_manager.JobQueue.Schedule.{
  Pass, must_wait, started, visit, scan, first_pass, schedule_jobs,
}

-- Two jobs that are not both active, or do not exclude one another.
abbrev pub Apart : Job → Job → Type 0
Apart j k = is_active j ≡ true → is_active k ≡ true → jobs_conflict j k ≡ false

abbrev pub Exclusive : List Job → Type 0
Exclusive [] = Unit
Exclusive (j ∷ js) = All (Apart j) js × Exclusive js

abbrev pub active_count : List Job → ℕ
active_count jobs = length (filter is_active jobs)

-- What excludes none of the pass's active jobs does not exclude `x`.
abbrev Covers : Pass → Job → Type 0
Covers p x = (job : Job) → any (jobs_conflict job) p.active ≡ false → jobs_conflict job x ≡ false

-- Every active job of the list is one of the pass's.
abbrev Covered : Pass → List Job → Type 0
Covered p jobs = All (λ j. is_active j ≡ true → Covers p j) jobs

must_wait-Covers :
    (p : Pass) (job x : Job)
    → must_wait job p.active p.waiting ≡ false
    → Covers p x
    → jobs_conflict job x ≡ false
unfolding must_wait
must_wait-Covers p job x h c =
    ground (arith, any-append (jobs_conflict job) p.active p.waiting, c job)

All-Apart-idle : (j : Job) (js : List Job) → is_active j ≡ false → All (Apart j) js
All-Apart-idle j [] e = tt
All-Apart-idle j (k ∷ ks) e = ((λ a _. cc), All-Apart-idle j ks e)

queued_idle : (j : Job) → is_queued j ≡ true → is_active j ≡ false
queued_idle j h = ground arith

room :
    (p : Pass) (job : Job)
    → must_wait job p.active p.waiting ≡ false
    → suc (length p.active) ≤ max_running_jobs
unfolding must_wait
room p job h = ground arith

module _ (now : Text) where
  conflict-started : (x job : Job) → jobs_conflict x (started now job) ≡ jobs_conflict x job
  unfolding jobs_conflict started
  conflict-started x job = refl

  conflict-started_left : (x job : Job) → jobs_conflict (started now job) x ≡ jobs_conflict job x
  unfolding jobs_conflict started
  conflict-started_left x job = refl

  -- The two things that a visit does.
  abbrev pub Starts : Pass → Job → Type 0
  Starts p job =
      (is_queued job ≡ true)
      × (must_wait job p.active p.waiting ≡ false)
      × ((visit now job p).0 ≡ started now job)
      × ((visit now job p).1.active ≡ p.active ++ started now job ∷ [])

  abbrev pub Leaves : Pass → Job → Type 0
  Leaves p job = ((visit now job p).0 ≡ job) × ((visit now job p).1.active ≡ p.active)

  pub visit_cases : (p : Pass) (job : Job) → Starts p job ⊎ Leaves p job
  unfolding visit
  visit_cases p job = elim (Bool-cases (is_queued job)) [
    | inl q ↦ elim (Bool-cases (must_wait job p.active p.waiting)) [
      | inl w ↦ inr (ground arith, ground arith)
      | inr w ↦ inl (q, w, ground arith, ground arith)
    ]
    | inr q ↦ inr (ground arith, ground arith)
  ]

  pub is_active-started : (job : Job) → is_active (started now job) ≡ true
  unfolding started
  is_active-started job = refl

  Covers-visit : (p : Pass) (job x : Job) → Covers p x → Covers (visit now job p).1 x
  Covers-visit p job x c other h = elim (visit_cases p job) [
    | inl (_, _, _, e) ↦
        c other
          (ground (arith, e, any-append (jobs_conflict other) p.active (started now job ∷ [])))
    | inr (_, e) ↦ c other (rw e at h)
  ]

  Covers-visit_self :
      (p : Pass) (job : Job) → Starts p job → Covers (visit now job p).1 (started now job)
  Covers-visit_self p job (_, _, _, e) other h =
      ground (arith, e, any-append (jobs_conflict other) p.active (started now job ∷ []))

  -- A visit does not bring its job into conflict with an active one.
  Apart-visit : (p : Pass) (job x : Job) → Covers p x → Apart x job → Apart x (visit now job p).0
  Apart-visit p job x c h a b = elim (visit_cases p job) [
    | inl (_, w, e, _) ↦
        rw (e, conflict-started x job, jobs_conflict_comm x job) (must_wait-Covers p job x w c)
    | inr (e, _) ↦ rw e (h a (rw e at b))
  ]

  All-Apart-scan :
      (p : Pass) (x : Job) (jobs : List Job)
      → Covers p x
      → All (Apart x) jobs
      → All (Apart x) (scan now p jobs).0
  unfolding scan
  All-Apart-scan p x [] c h = tt
  All-Apart-scan p x (job ∷ rest) c h = (
    Apart-visit p job x c h.0,
    All-Apart-scan (visit now job p).1 x rest (Covers-visit p job x c) h.1,
  )

  Covered-visit :
      (p : Pass) (job : Job) (jobs : List Job) → Covered p jobs → Covered (visit now job p).1 jobs
  Covered-visit p job [] h = tt
  Covered-visit p job (j ∷ js) h = (λ a. Covers-visit p job j (h.0 a), Covered-visit p job js h.1)

  All-Apart-started :
      (p : Pass) (job : Job) (jobs : List Job)
      → must_wait job p.active p.waiting ≡ false
      → Covered p jobs
      → All (Apart (started now job)) jobs
  All-Apart-started p job [] w h = tt
  All-Apart-started p job (j ∷ js) w h = (
    λ _ b. rw (conflict-started_left j job) (must_wait-Covers p job j w (h.0 b)),
    All-Apart-started p job js w h.1,
  )

  Covers-visit_active :
      (p : Pass) (job : Job)
      → (is_active job ≡ true → Covers p job)
      → is_active job ≡ true
      → Covers (visit now job p).1 job
  Covers-visit_active p job c a = Covers-visit p job job (c a)

  All-Apart-scan_active :
      (p : Pass) (j : Job) (js : List Job)
      → (is_active j ≡ true → Covers p j)
      → All (Apart j) js
      → All (Apart j) (scan now p js).0
  All-Apart-scan_active p j js k a = elim (Bool-cases (is_active j)) [
    | inl e ↦ All-Apart-scan p j js (k e) a
    | inr e ↦ All-Apart-idle j (scan now p js).0 e
  ]

  Exclusive-scan :
      (p : Pass) (jobs : List Job) → Covered p jobs → Exclusive jobs → Exclusive (scan now p jobs).0
  unfolding scan
  Exclusive-scan p [] c h = tt
  Exclusive-scan p (job ∷ rest) c h =
      let p' = (visit now job p).1 in
      let c' = Covered-visit p job rest c.1 in
      (
        elim (visit_cases p job) [
          | inl s ↦ rw s.2 (
              All-Apart-scan p' (started now job) rest (Covers-visit_self p job s)
                (All-Apart-started p job rest s.1 c.1))
          | inr (e, _) ↦
              rw e (All-Apart-scan_active p' job rest (Covers-visit_active p job c.0) h.0)
        ],
        Exclusive-scan p' rest c' h.1,
      )

  -- The limit: `a` active jobs in the pass, whatever else.
  active_count-scan :
      (p : Pass) (jobs : List Job)
      → length p.active ≤ max_running_jobs
      → active_count (scan now p jobs).0 + length p.active ≤ max_running_jobs + active_count jobs
  unfolding scan
  active_count-scan p [] h = omega arith
  active_count-scan p (job ∷ rest) h = elim (visit_cases p job) [
    | inl (q, w, e, l) ↦ rw e (
        ground (
          arith,
          active_count-scan (visit now job p).1 rest,
          l,
          is_active-started job,
          length-append p.active (started now job ∷ []),
          room p job w,
          queued_idle job q,
        ))
    | inr (e, l) ↦ rw e (ground (arith, active_count-scan (visit now job p).1 rest, l))
  ]

-- The jobs after `schedule_jobs` are those of the pass over the list.
pub jobs-schedule_jobs :
    (now : Text) (q : Queue) → (schedule_jobs now q).jobs ≡ (scan now (first_pass q.jobs) q.jobs).0
unfolding schedule_jobs persist_job_history notify_jobs_changed
jobs-schedule_jobs now q = ground arith

Covered-first_pass :
    (all_jobs jobs : List Job)
    → ((f : Job → Bool)
        → any f (filter is_active all_jobs) ≡ false
        → any f (filter is_active jobs) ≡ false)
    → Covered (first_pass all_jobs) jobs
Covered-first_pass all_jobs [] h = tt
Covered-first_pass all_jobs (j ∷ js) h = (
  λ a job e. ground (arith, h (jobs_conflict job) e),
  Covered-first_pass all_jobs js (λ f e. ground (arith, h f e)),
)

module _ (now : Text) (q : Queue) where
  pub Exclusive-schedule_jobs : Exclusive q.jobs → Exclusive (schedule_jobs now q).jobs
  Exclusive-schedule_jobs h = rw (jobs-schedule_jobs now q) (
      Exclusive-scan now (first_pass q.jobs) q.jobs (Covered-first_pass q.jobs q.jobs (λ _ e. e)) h)

  pub active_count-schedule_jobs :
      active_count q.jobs ≤ max_running_jobs
      → active_count (schedule_jobs now q).jobs ≤ max_running_jobs
  active_count-schedule_jobs h =
      rw (jobs-schedule_jobs now q)
        (omega (arith, active_count-scan now (first_pass q.jobs) q.jobs h))
