-- ===== src/JobQueue/Cancel.antt =====
-- `cancel_job`: what each answer leaves, and that the invariant is kept.
use mathlib.Core.Path.{subst}
use sdk_local_manager.Prelude.{
  ℕ, ◌≡◌, refl, sym, Bool, true, false, some, List, [], ◌∷◌, arith, Bool-cases, Option-cases, inl,
  inr, nat_eq, if◌then◌else◌,
}
use sdk_local_manager.Prelude.Text.{Text}
use sdk_local_manager.JobControl.{
  Control, CancelOutcome, accepted, deferred, refused, request_cancel, protected_step,
}
use sdk_local_manager.JobQueue.{
  Job, Queue, Status, queued, running, find_job, update_job, persist_job_history,
  notify_jobs_changed,
}
use sdk_local_manager.JobQueue.Output.{add_unbound}
use sdk_local_manager.JobQueue.Schedule.{schedule_jobs}
use sdk_local_manager.JobQueue.Handlers.{
  withdraw, withdrawn_message, cancel_queued, mark_cancelling, after_request, cancel_job,
  publish_found, set_control, stop_line, Refusal, cancel_found, not_cancellable,
}
use sdk_local_manager.JobQueue.Evolution.{Settles}
use sdk_local_manager.JobQueue.Sections.{
  Calm, Quiet, Calm→Quiet, Calm-trans, Quiet-trans, Calm-same, Calm-persist, Calm-notify,
  Calm-publish_found, Calm-update, Quiet-update, Calm-add_unbound, Same-set_control,
}
use sdk_local_manager.JobQueue.Creation.{Moves, quiet, scheduled}

pub find_job-id : (id : ℕ) (js : List Job) {j : Job} → find_job id js ≡ some j → j.id ≡ id
find_job-id id [] e = cc
find_job-id id (k ∷ ks) {j} e = elim (Bool-cases (nat_eq k.id id)) [
  | inl h ↦ let x : k ≡ j = ground arith in ground (arith, x)
  | inr h ↦ find_job-id id ks {j = j} (let e' : find_job id ks ≡ some j = ground arith in e')
]

pub find_job_own :
    (id : ℕ) (js : List Job) (j : Job) → find_job id js ≡ some j → find_job j.id js ≡ some j
find_job_own id js j f = subst (λ i. find_job i js ≡ some j) (sym (find_job-id id js {j = j} f)) f

Settles-withdraw : (now : Text) (j : Job) → j.status ≡ queued → Settles j (withdraw now j)
unfolding withdraw
Settles-withdraw now j h = record { id = refl; resources = refl; status = rw h }

Settles-mark_cancelling : (j : Job) → Settles j (mark_cancelling j)
unfolding mark_cancelling
Settles-mark_cancelling j = record {
  id = ground arith;
  resources = ground arith;
  status = ground arith;
}

-- What `cancel_queued` does before the scheduler's turn.
pub withdrawn : Text → ℕ → Queue → Queue
withdrawn now id q =
    let q1 : Queue = record q { jobs = update_job id (withdraw now) q.jobs } in
    let q2 = add_unbound id withdrawn_message q1 in
    persist_job_history (publish_found (find_job id q2.jobs) q2)

pub cancel_queued-withdrawn :
    (now : Text) (id : ℕ) (q : Queue)
    → cancel_queued now id q ≡ schedule_jobs now (withdrawn now id q)
unfolding cancel_queued withdrawn
cancel_queued-withdrawn now id q = refl

pub Calm-withdrawn :
    (now : Text) (id : ℕ) (q : Queue)
    → Calm (record q { jobs = update_job id (withdraw now) q.jobs }) (withdrawn now id q)
unfolding withdrawn
Calm-withdrawn now id q =
    let q1 : Queue = record q { jobs = update_job id (withdraw now) q.jobs } in
    let q2 = add_unbound id withdrawn_message q1 in
    let q3 = publish_found (find_job id q2.jobs) q2 in
    Calm-trans q1 q3 (persist_job_history q3)
      (Calm-trans q1 q2 q3 (Calm-add_unbound id withdrawn_message q1)
        (Calm-publish_found (find_job id q2.jobs) q2))
      (Calm-persist q3)

pub Quiet-withdrawn :
    (now : Text) (id : ℕ) (q : Queue) (j : Job)
    → find_job id q.jobs ≡ some j
    → j.status ≡ queued
    → Quiet q (withdrawn now id q)
Quiet-withdrawn now id q j f h =
    let q1 : Queue = record q { jobs = update_job id (withdraw now) q.jobs } in
    Quiet-trans q q1 (withdrawn now id q)
      (Quiet-update id (withdraw now) q
        (λ k e. Settles-withdraw now k (let x : j ≡ k = ground (arith, f, e) in rw x at h)))
      (Calm→Quiet q1 (withdrawn now id q) (Calm-withdrawn now id q))

Calm-stop_line :
    (outcome : CancelOutcome) (id : ℕ) (step : Text) (q : Queue)
    → Calm q (stop_line outcome id step q)
Calm-stop_line deferred id step q = Calm-add_unbound id _ q
Calm-stop_line accepted id step q = Calm-add_unbound id _ q
Calm-stop_line _ id step q = Calm-same q q refl refl

-- The part that follows an answer other than a refusal.
pub Quiet-after_request :
    (outcome : CancelOutcome) (c : Control) (j : Job) (q : Queue)
    → Quiet q (after_request (outcome, c) j q).1
unfolding after_request
Quiet-after_request refused c j q = Calm→Quiet q q (Calm-same q q refl refl)
Quiet-after_request outcome c j q =
    let q1 : Queue = record q { jobs = update_job j.id (set_control c) q.jobs } in
    let q2 : Queue = record q1 { jobs = update_job j.id mark_cancelling q1.jobs } in
    let q3 = notify_jobs_changed q2 in
    Quiet-trans q q1 _ (Calm→Quiet q q1 (Calm-update j.id (set_control c) q (Same-set_control c))) (
      Quiet-trans q1 q2 _ (Quiet-update j.id mark_cancelling q1 (λ k _. Settles-mark_cancelling k))
        (Calm→Quiet q2 _ (
          Calm-trans q2 q3 _ (Calm-notify q2) (Calm-stop_line outcome j.id (protected_step c) q3))))

allowed-Moves :
    (allowed : Bool) (answer : CancelOutcome × Control) (r : Refusal) (j : Job) (q : Queue)
    → Moves q (if allowed then after_request answer j q else (inl r, q)).1
allowed-Moves false answer r j q = quiet (Calm→Quiet q q (Calm-same q q refl refl))
allowed-Moves true (outcome, control) r j q = quiet (Quiet-after_request outcome control j q)

cancel_found-Moves :
    (alive : ℕ → Bool) (now : Text) (id : ℕ) (j : Job) (s : Status) (q : Queue)
    → find_job id q.jobs ≡ some j
    → j.status ≡ s
    → Moves q (cancel_found alive now j s q).1
cancel_found-Moves alive now id j queued q f e =
    scheduled now (withdrawn now j.id q)
      (Quiet-withdrawn now j.id q j (find_job_own id q.jobs j f) e)
      (cancel_queued-withdrawn now j.id q)
cancel_found-Moves alive now id j running q f e =
    allowed-Moves j.cancellable (request_cancel alive j.control)
      (not_cancellable j.title j.cancel_hint) j q
cancel_found-Moves alive now id j _ q f e = quiet (Calm→Quiet q q (Calm-same q q refl refl))

pub cancel_job-Moves :
    (alive : ℕ → Bool) (now : Text) (id : ℕ) (q : Queue) → Moves q (cancel_job alive now id q).1
unfolding cancel_job
cancel_job-Moves alive now id q = elim (Option-cases (find_job id q.jobs)) [
  | inl e ↦ rw (e, cancel_job) (quiet (Calm→Quiet q q (Calm-same q q refl refl)))
  | inr (j, e) ↦ rw (e, cancel_job) (cancel_found-Moves alive now id j j.status q e refl)
]
