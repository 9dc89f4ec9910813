-- ===== src/JobQueue/Creation.antt =====
-- The scheduler and the creation of an action keep the invariant.
use sdk_local_manager.Prelude.{
  ℕ, ◌+◌, ◌<◌, ◌≡◌, ◌≢◌, refl, false, List, [], ◌∷◌, ◌++◌, arith, filter, All, All-append, All-map,
  filter-append, length-append,
}
use sdk_local_manager.Prelude.Text.{Text}
use sdk_local_manager.JobQueue.{
  Job, Queue, queued, is_active, persist_job_history, notify_jobs_changed,
}
use sdk_local_manager.JobQueue.Schedule.{visit, scan, first_pass, schedule_jobs, Pass}
use sdk_local_manager.JobQueue.Handlers.{Policies, Request, new_job, evict, insert_job, create_job}
use sdk_local_manager.JobQueue.Exclusion.{
  Apart, Exclusive, jobs-schedule_jobs, Exclusive-schedule_jobs, active_count-schedule_jobs,
}
use sdk_local_manager.JobQueue.Evolution.{SameId, Pointwise}
use sdk_local_manager.JobQueue.Validity.{
  IsValid, Distinct, Distinct-Pointwise, All-below-Pointwise, filter-IsValid,
}
use sdk_local_manager.JobQueue.Sections.{Quiet, Quiet-IsValid, Calm→Quiet, Calm-notify}

-- The scheduler.
SameId-visit : (now : Text) (job : Job) (p : Pass) → (visit now job p).0.id ≡ job.id
unfolding visit
SameId-visit now job p = ground arith

SameId-scan : (now : Text) (p : Pass) (jobs : List Job) → Pointwise SameId jobs (scan now p jobs).0
unfolding scan
SameId-scan now p [] = tt
SameId-scan now p (job ∷ rest) = (SameId-visit now job p, SameId-scan now (visit now job p).1 rest)

pub next_id-schedule_jobs : (now : Text) (q : Queue) → (schedule_jobs now q).next_id ≡ q.next_id
unfolding schedule_jobs persist_job_history notify_jobs_changed
next_id-schedule_jobs now q = ground arith

pub schedule_jobs-IsValid : (now : Text) (q : Queue) → IsValid q → IsValid (schedule_jobs now q)
schedule_jobs-IsValid now q v =
    let ids = SameId-scan now (first_pass q.jobs) q.jobs in
    record {
      distinct = rw (jobs-schedule_jobs now q) (Distinct-Pointwise 0 q.jobs _ ids v.distinct);
      below =
          rw (jobs-schedule_jobs now q, next_id-schedule_jobs now q)
            (All-below-Pointwise q.next_id q.jobs _ ids v.below);
      exclusive = Exclusive-schedule_jobs now q v.exclusive;
      limited = active_count-schedule_jobs now q v.limited;
    }

-- What the other handlers do: statuses settle, and then the scheduler may take its turn.
pub data Moves (q q' : Queue) : Type 0 where
  quiet : Quiet q q' → Moves q q'
  scheduled : (now : Text) (r : Queue) → Quiet q r → q' ≡ schedule_jobs now r → Moves q q'

pub Moves-IsValid : (q q' : Queue) → Moves q q' → IsValid q → IsValid q'
Moves-IsValid q q' (quiet k) v = Quiet-IsValid q q' k v
Moves-IsValid q q' (scheduled now r k e) v =
    rw e (schedule_jobs-IsValid now r (Quiet-IsValid q r k v))

-- Creation.
All-ne-below : (n : ℕ) (js : List Job) → All (λ j. j.id < n) js → All (λ k. n ≢ k.id) js
All-ne-below n [] h = tt
All-ne-below n (j ∷ js) h = (omega arith, All-ne-below n js h.1)

Distinct-snoc :
    (js : List Job) (k : Job) → Distinct js → All (λ j. k.id ≢ j.id) js → Distinct (js ++ k ∷ [])
Distinct-snoc [] k d h = (tt, tt)
Distinct-snoc (j ∷ js) k d h =
    (All-append (λ l. l.id ≢ j.id) js (k ∷ []) d.0 (h.0, tt), Distinct-snoc js k d.1 h.1)

All-Apart-idle_right : (js : List Job) (k : Job) → is_active k ≡ false → All (λ j. Apart j k) js
All-Apart-idle_right [] k h = tt
All-Apart-idle_right (j ∷ js) k h = ((λ a b. cc), All-Apart-idle_right js k h)

Exclusive-snoc :
    (js : List Job) (k : Job) → is_active k ≡ false → Exclusive js → Exclusive (js ++ k ∷ [])
Exclusive-snoc [] k i e = (tt, tt)
Exclusive-snoc (j ∷ js) k i e =
    (All-append (Apart j) js (k ∷ []) e.0 ((λ a b. cc), tt), Exclusive-snoc js k i e.1)

new_job_parts :
    (policies : Policies) (r : Request) (id : ℕ)
    → ((new_job policies r id).id ≡ id) × ((new_job policies r id).status ≡ queued)
unfolding new_job
new_job_parts policies r id = (refl, refl)

module _ (policies : Policies) (r : Request) (q : Queue) where
  pub evicted : Queue
  evicted = record q { jobs = evict q.jobs }

  pub evicted-IsValid : IsValid q → IsValid evicted
  unfolding evicted evict
  evicted-IsValid v = filter-IsValid _ q _ refl refl v

  insert_job-IsValid : IsValid q → IsValid (insert_job policies r q)
  unfolding insert_job evicted new_job
  insert_job-IsValid v =
      let w = evicted-IsValid v in
      let j = new_job policies r q.next_id in
      record {
        distinct =
            Distinct-snoc (evict q.jobs) j w.distinct
              (All-ne-below q.next_id (evict q.jobs) w.below);
        below =
            All-append (λ k. k.id < q.next_id + 1) (evict q.jobs) (j ∷ [])
              (All-map (λ k. k.id < q.next_id) (λ k. k.id < q.next_id + 1) (λ k h. omega arith)
                (evict q.jobs) w.below)
              (omega arith, tt);
        exclusive =
            Exclusive-snoc (evict q.jobs) j (ground (arith, new_job_parts policies r q.next_id))
              w.exclusive;
        limited = ground (
          arith,
          w.limited,
          filter-append is_active (evict q.jobs) (j ∷ []),
          length-append (filter is_active (evict q.jobs)) (filter is_active (j ∷ [])),
        );
      }

  pub create_job-IsValid : IsValid q → IsValid (create_job policies r q)
  unfolding create_job
  create_job-IsValid v =
      let q1 = insert_job policies r q in
      schedule_jobs-IsValid r.now (notify_jobs_changed q1) (
        Quiet-IsValid q1 (notify_jobs_changed q1)
          (Calm→Quiet q1 (notify_jobs_changed q1) (Calm-notify q1)) (insert_job-IsValid v))
