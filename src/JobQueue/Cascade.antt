-- ===== src/JobQueue/Cascade.antt =====
-- The end of an action: what it withdraws, and that the invariant is kept.
use sdk_local_manager.Prelude.{
  ℕ, ◌+◌, ◌≡◌, refl, Bool, true, false, Option, some, List, [], ◌∷◌, ◌++◌, map, arith, filter,
  Bool-cases, inl, inr, ◌⊎◌,
}
use sdk_local_manager.Prelude.Text.{Text, txt}
use sdk_local_manager.JobControl.Reverts.{run_reverts}
use sdk_local_manager.JobQueue.{
  Job, Queue, Status, error, cancelled, is_active, find_job, update_job, persist_job_history,
  notify_jobs_changed,
}
use sdk_local_manager.JobQueue.Output.{add_unbound}
use sdk_local_manager.JobQueue.Schedule.{schedule_jobs}
use sdk_local_manager.JobQueue.Handlers.{publish_found, set_control}
use sdk_local_manager.JobQueue.Ending.{
  Ending, write_lines, report, set_message, set_status, interruption_lines, cancelled_message,
  finish_cancelled, mark_done, too_late, finish_returned, finish_crashed, failure_text, finish,
  is_stop, has_failed, withdraw_dependent, is_dependent, clear_ended, finalize_jobs,
  announce_dependents, dependent_message, finalize,
}
use sdk_local_manager.JobQueue.Evolution.{Same, Settles, Pointwise-map}
use sdk_local_manager.JobQueue.Sections.{
  Calm, Quiet, Calm→Quiet, Calm-trans, Quiet-trans, Calm-same, Calm-persist, Calm-notify,
  Calm-publish_found, Calm-update, Quiet-update, Calm-add_unbound, find-Pointwise,
}
use sdk_local_manager.JobQueue.Creation.{Moves, scheduled}

Calm-write_lines : (id : ℕ) (lines : List Text) (q : Queue) → Calm q (write_lines id lines q)
Calm-write_lines id [] q = Calm-same q q refl refl
Calm-write_lines id (line ∷ rest) q =
    Calm-trans q (add_unbound id line q) (write_lines id rest (add_unbound id line q))
      (Calm-add_unbound id line q) (Calm-write_lines id rest (add_unbound id line q))

Calm-report :
    (failures : List Text) (message : Text) (q : Queue) → Calm q (report failures message q)
Calm-report [] message q = Calm-same q q refl refl
Calm-report (f ∷ fs) message q = Calm-same q (report (f ∷ fs) message q) refl refl

-- The two statuses that end an active job against its will.
abbrev IsForced : Status → Type 0
IsForced s = (s ≡ cancelled) ⊎ (s ≡ error)

Settles-set_status :
    (s : Status) (j k : Job)
    → IsForced s
    → Same j k
    → is_active j ≡ true
    → Settles k (set_status s k)
Settles-set_status s j k (inl c) m a = record {
  id = refl;
  resources = refl;
  status = ground (arith, m.status);
}
Settles-set_status s j k (inr c) m a = record {
  id = refl;
  resources = refl;
  status = ground (arith, m.status);
}

-- After calm changes the job is still active, so its last status settles.
Quiet-set_status :
    (s : Status) (id : ℕ) (j : Job) (q q' : Queue)
    → IsForced s
    → find_job id q.jobs ≡ some j
    → is_active j ≡ true
    → Calm q q'
    → Quiet q (record q' { jobs = update_job id (set_status s) q'.jobs })
Quiet-set_status s id j q q' t f a c =
    Quiet-trans q q' (record q' { jobs = update_job id (set_status s) q'.jobs }) (Calm→Quiet q q' c)
      (Quiet-update id (set_status s) q'
        (λ k e. Settles-set_status s j k t (find-Pointwise id q.jobs q'.jobs j k c.jobs f e) a))

module _ (answer : ℕ → Option Text) (fresh : Text) (ending : Ending) (j : Job) (q : Queue)
    (found : find_job j.id q.jobs ≡ some j) (active : is_active j ≡ true) where
  Quiet-finish_cancelled : Quiet q (finish_cancelled answer fresh ending j q)
  unfolding finish_cancelled
  Quiet-finish_cancelled =
      let (failures, lines, control) = run_reverts answer fresh j.control in
      let message = cancelled_message failures in
      let q1 = write_lines j.id (interruption_lines ending ++ lines) q in
      let q2 = report failures message q1 in
      let f = λ (k : Job). set_message message (set_control control k) in
      let q3 : Queue = record q2 { jobs = update_job j.id f q2.jobs } in
      let q4 = add_unbound j.id message q3 in
      Quiet-set_status cancelled j.id j q q4 (inl refl) found active (
        Calm-trans q q1 q4 (Calm-write_lines j.id (interruption_lines ending ++ lines) q) (
          Calm-trans q1 q2 q4 (Calm-report failures message q1) (
            Calm-trans q2 q3 q4
              (Calm-update j.id f q2 (λ k. record { id = refl; resources = refl; status = refl }))
              (Calm-add_unbound j.id message q3))))

  Quiet-finish_crashed : Quiet q (finish_crashed ending j q)
  unfolding finish_crashed
  Quiet-finish_crashed =
      let message = failure_text ending in
      let q1 : Queue = record q { jobs = update_job j.id (set_message message) q.jobs } in
      let q2 = add_unbound j.id (txt "Erreur: " ++ message) q1 in
      let q3 : Queue = record q2 { jobs = update_job j.id (set_status error) q2.jobs } in
      Quiet-trans q q3 _
        (Quiet-set_status error j.id j q q2 (inr refl) found active (
          Calm-trans q q1 q2
            (Calm-update j.id (set_message message) q
              (λ k. record { id = refl; resources = refl; status = refl }))
            (Calm-add_unbound j.id (txt "Erreur: " ++ message) q1)))
        (Calm→Quiet q3 _ (Calm-same q3 _ refl refl))

  Calm-too_late : (b : Bool) (id : ℕ) (r : Queue) → Calm r (too_late b id r)
  Calm-too_late true id r = Calm-add_unbound id _ r
  Calm-too_late false id r = Calm-same r r refl refl

  Quiet-finish_returned : Quiet q (finish_returned j q)
  unfolding finish_returned
  Quiet-finish_returned =
      let q1 : Queue = record q { jobs = update_job j.id mark_done q.jobs } in
      Quiet-trans q q1 _
        (Quiet-update j.id mark_done q
          (λ k e. record { id = ground arith; resources = ground arith; status = ground arith }))
        (Calm→Quiet q1 _ (Calm-too_late j.control.cancel j.id q1))

  -- The first section of the end.
  pub Quiet-finish : Quiet q (finish answer fresh ending j q)
  unfolding finish
  Quiet-finish = elim (Bool-cases (is_stop ending j)) [
    | inl s ↦ rw s Quiet-finish_cancelled
    | inr s ↦ elim (Bool-cases (has_failed ending)) [
      | inl h ↦ rw (s, h) Quiet-finish_crashed
      | inr h ↦ rw (s, h) Quiet-finish_returned
    ]
  ]

Settles-withdraw_dependent : (now : Text) (j k : Job) → Settles k (withdraw_dependent now j k)
unfolding withdraw_dependent
Settles-withdraw_dependent now j k = record {
  id = ground arith;
  resources = ground arith;
  status = ground arith;
}

Quiet-finalize_jobs :
    (now : Text) (j : Job) (q : Queue) → Quiet q (record q { jobs = finalize_jobs now j q.jobs })
unfolding finalize_jobs
Quiet-finalize_jobs now j q =
    let q1 : Queue = record q { jobs = update_job j.id (clear_ended now) q.jobs } in
    let q2 : Queue = record q1 { jobs = map (withdraw_dependent now j) q1.jobs } in
    Quiet-trans q q1 q2
      (Calm→Quiet q q1 (
        Calm-update j.id (clear_ended now) q
          (λ k. record { id = refl; resources = refl; status = refl })))
      (record {
        jobs =
            Pointwise-map Settles (withdraw_dependent now j) (Settles-withdraw_dependent now j)
              q1.jobs;
        next_id = refl;
      })

Calm-announce_dependents :
    (message : Text) (ids : List ℕ) (q : Queue) → Calm q (announce_dependents message ids q)
Calm-announce_dependents message [] q = Calm-same q q refl refl
Calm-announce_dependents message (id ∷ ids) q =
    let q1 = add_unbound id message q in
    let q2 = publish_found (find_job id q1.jobs) q1 in
    Calm-trans q q1 (announce_dependents message ids q2) (Calm-add_unbound id message q) (
      Calm-trans q1 q2 (announce_dependents message ids q2)
        (Calm-publish_found (find_job id q1.jobs) q1) (Calm-announce_dependents message ids q2))

-- What `finalize` does before the scheduler's turn.
pub settled : Text → Job → Queue → Queue
settled now j q =
    let dependents = map (λ k. k.id) (filter (is_dependent j) q.jobs) in
    let q1 : Queue = record q { jobs = finalize_jobs now j q.jobs } in
    let q2 = announce_dependents (dependent_message j) dependents q1 in
    let q3 : Queue = record q2 { finished_calls = q2.finished_calls + 1 } in
    persist_job_history (notify_jobs_changed (publish_found (find_job j.id q3.jobs) q3))

pub finalize-settled :
    (now : Text) (j : Job) (q : Queue) → finalize now j q ≡ schedule_jobs now (settled now j q)
unfolding finalize settled
finalize-settled now j q = refl

pub Calm-settled :
    (now : Text) (j : Job) (q : Queue)
    → Calm (record q { jobs = finalize_jobs now j q.jobs }) (settled now j q)
unfolding settled
Calm-settled now j q =
    let dependents = map (λ k. k.id) (filter (is_dependent j) q.jobs) in
    let q1 : Queue = record q { jobs = finalize_jobs now j q.jobs } in
    let q2 = announce_dependents (dependent_message j) dependents q1 in
    let q3 : Queue = record q2 { finished_calls = q2.finished_calls + 1 } in
    let q4 = publish_found (find_job j.id q3.jobs) q3 in
    let q5 = notify_jobs_changed q4 in
    Calm-trans q1 q2 (persist_job_history q5)
      (Calm-announce_dependents (dependent_message j) dependents q1)
      (Calm-trans q2 q3 (persist_job_history q5) (Calm-same q2 q3 refl refl) (
        Calm-trans q3 q4 (persist_job_history q5) (Calm-publish_found (find_job j.id q3.jobs) q3)
          (Calm-trans q4 q5 (persist_job_history q5) (Calm-notify q4) (Calm-persist q5))))

pub Quiet-settled : (now : Text) (j : Job) (q : Queue) → Quiet q (settled now j q)
Quiet-settled now j q =
    Quiet-trans q (record q { jobs = finalize_jobs now j q.jobs }) (settled now j q)
      (Quiet-finalize_jobs now j q)
      (Calm→Quiet (record q { jobs = finalize_jobs now j q.jobs }) (settled now j q)
        (Calm-settled now j q))

pub finalize-Moves : (now : Text) (j : Job) (q : Queue) → Moves q (finalize now j q)
finalize-Moves now j q =
    scheduled now (settled now j q) (Quiet-settled now j q) (finalize-settled now j q)
