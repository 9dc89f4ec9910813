-- ===== src/JobQueue/Ending.antt =====
-- odoo_manager_core/job_queue.py: the end of an action (`Job.run` from the return of its function,
-- `finish_cancelled`).
--
-- `run` ends in two sections under the lock: the first gives the job its last status, the second
-- clears it and withdraws what waited for it. A job that is forgotten between the two is not
-- modelled further: the second section does nothing for it here.
use sdk_local_manager.Prelude.{
  ℕ, Bool, true, false, ◌&&◌, ◌||◌, Option, none, some, List, [], ◌∷◌, ◌++◌, map, filter,
  if◌then◌else◌, ◌+◌,
}
use sdk_local_manager.Prelude.Text.{Text, txt, strip}
use sdk_local_manager.JobControl.Reverts.{run_reverts}
use sdk_local_manager.JobQueue.{
  Job, Queue, Status, done, error, cancelled, is_active, is_queued, find_job, update_job,
  persist_job_history, notify_jobs_changed, publish_completion, jobs_conflict,
}
use sdk_local_manager.JobQueue.Output.{add_unbound}
use sdk_local_manager.JobQueue.Schedule.{schedule_jobs}
use sdk_local_manager.JobQueue.Handlers.{set_control, publish_found}

-- How the action's function ended: it returned, it raised `JobCancelled`, or it raised something
-- else, an `OdooError` or not.
pub data Ending : Type 0 where
  finished stopped : Ending
  crashed : Bool → Text → Ending

abbrev pub has_failed : Ending → Bool
has_failed finished = false
has_failed _ = true

abbrev pub or_unknown : Text → Text
or_unknown [] = txt "Une erreur inattendue est survenue."
or_unknown (c ∷ t) = c ∷ t

unfoldable pub job_failure_message : Bool → Text → Text
unfolding strip
job_failure_message odoo failure =
    let message = or_unknown (strip failure) in
    if odoo
    then txt "Erreur d'Odoo (code des modules ou données de la base, pas le gestionnaire) : "
      ++ message
    else txt "Erreur du gestionnaire : " ++ message

abbrev pub failure_text : Ending → Text
failure_text (crashed odoo text) = job_failure_message odoo text
failure_text _ = job_failure_message false []

abbrev pub raw_text : Ending → Text
raw_text (crashed odoo text) = text
raw_text _ = []

-- " ; ".join(failures)
abbrev pub join_failures : List Text → Text
join_failures [] = []
join_failures (f ∷ []) = f
join_failures (f ∷ g ∷ fs) = f ++ txt " ; " ++ join_failures (g ∷ fs)

unfoldable pub cancelled_message : List Text → Text
cancelled_message [] = txt "Action arrêtée par l'utilisateur."
cancelled_message (f ∷ fs) =
    txt "Action arrêtée par l'utilisateur."
    ++ txt " Retour arrière incomplet : "
    ++ join_failures (f ∷ fs)

abbrev pub write_lines : ℕ → List Text → Queue → Queue
write_lines id [] q = q
write_lines id (line ∷ rest) q = write_lines id rest (add_unbound id line q)

abbrev pub interruption_lines : Ending → List Text
interruption_lines (crashed odoo text) = (txt "Interruption : " ++ text) ∷ []
interruption_lines _ = []

abbrev pub report : List Text → Text → Queue → Queue
report [] message q = q
report (_ ∷ _) message q = record q { errors = q.errors ++ message ∷ [] }

abbrev pub set_message : Text → Job → Job
set_message message j = record j { error_message = message }

abbrev pub set_status : Status → Job → Job
set_status s j = record j { status = s }

-- `finish_cancelled`. Its lines are written in the cleanup, where no checkpoint raises; `answer` is
-- what each revert answers.
unfoldable pub finish_cancelled : (ℕ → Option Text) → Text → Ending → Job → Queue → Queue
unfolding run_reverts cancelled_message add_unbound
finish_cancelled answer fresh ending j q =
    let (failures, lines, control) = run_reverts answer fresh j.control in
    let message = cancelled_message failures in
    let q1 = write_lines j.id (interruption_lines ending ++ lines) q in
    let q2 = report failures message q1 in
    let q3 = record q2 {
      jobs = update_job j.id (λ k. set_message message (set_control control k)) q2.jobs;
    } in
    let q4 = add_unbound j.id message q3 in
    record q4 { jobs = update_job j.id (set_status cancelled) q4.jobs }

abbrev pub mark_done : Job → Job
mark_done j = if is_active j then record j { status = done } else j

abbrev pub too_late : Bool → ℕ → Queue → Queue
too_late true id q =
    add_unbound id (txt "Arrêt demandé après la fin de l'action : rien n'a été annulé.") q
too_late false id q = q

unfoldable pub finish_returned : Job → Queue → Queue
unfolding add_unbound
finish_returned j q =
    too_late j.control.cancel j.id (record q { jobs = update_job j.id mark_done q.jobs })

unfoldable pub finish_crashed : Ending → Job → Queue → Queue
unfolding add_unbound job_failure_message
finish_crashed ending j q =
    let message = failure_text ending in
    let q1 = record q { jobs = update_job j.id (set_message message) q.jobs } in
    let q2 = add_unbound j.id (txt "Erreur: " ++ message) q1 in
    record q2 {
      jobs = update_job j.id (set_status error) q2.jobs;
      errors = q2.errors ++ raw_text ending ∷ [];
    }

-- Whether the end counts as a stop.
abbrev pub is_stop : Ending → Job → Bool
is_stop ending j = j.control.cancel && (has_failed ending || j.control.raised)

-- The first part of `run` behind the action's function.
unfoldable pub finish : (ℕ → Option Text) → Text → Ending → Job → Queue → Queue
unfolding finish_cancelled finish_returned finish_crashed
finish answer fresh ending j q =
    if is_stop ending j
    then finish_cancelled answer fresh ending j q
    else if has_failed ending
    then finish_crashed ending j q
    else finish_returned j q

abbrev pub is_failed : Job → Bool
is_failed j = elim j.status [ error ↦ true | cancelled ↦ true | _ ↦ false ]

abbrev pub outcome_of : Job → Text
outcome_of j = elim j.status [ cancelled ↦ txt "a été arrêtée" | _ ↦ txt "a échoué" ]

unfoldable pub dependent_message : Job → Text
dependent_message j =
    txt "Annulée : l'action précédente « " ++ j.title ++ txt " » " ++ outcome_of j ++ txt "."

unfoldable pub is_dependent : Job → Job → Bool
is_dependent j other = is_failed j && is_queued other && jobs_conflict j other

unfoldable pub withdraw_dependent : Text → Job → Job → Job
unfolding dependent_message is_dependent
withdraw_dependent now j other =
    if is_dependent j other
    then record other {
      status = cancelled;
      finished_at = some now;
      error_message = dependent_message j;
      target = none;
      args = [];
    }
    else other

unfoldable pub clear_ended : Text → Job → Job
clear_ended now j = record j { finished_at = some now; args = []; target = none; thread = false }

-- The second section under the lock.
unfoldable pub finalize_jobs : Text → Job → List Job → List Job
unfolding clear_ended withdraw_dependent
finalize_jobs now j jobs = map (withdraw_dependent now j) (update_job j.id (clear_ended now) jobs)

abbrev pub announce_dependents : Text → List ℕ → Queue → Queue
announce_dependents message [] q = q
announce_dependents message (id ∷ ids) q =
    let q' = add_unbound id message q in
    announce_dependents message ids (publish_found (find_job id q'.jobs) q')

-- The `finally` of `run`, for the job `j` as its first section left it.
unfoldable pub finalize : Text → Job → Queue → Queue
unfolding finalize_jobs dependent_message is_dependent add_unbound publish_completion
    persist_job_history notify_jobs_changed
finalize now j q =
    let dependents = map (λ k. k.id) (filter (is_dependent j) q.jobs) in
    let q1 = record q { jobs = finalize_jobs now j q.jobs } in
    let q2 = announce_dependents (dependent_message j) dependents q1 in
    let q3 = record q2 { finished_calls = q2.finished_calls + 1 } in
    let q4 = publish_found (find_job j.id q3.jobs) q3 in
    schedule_jobs now (persist_job_history (notify_jobs_changed q4))

abbrev pub finalize_found : Text → Option Job → Queue → Queue
finalize_found now none q = q
finalize_found now (some j) q = finalize now j q

-- Both, with no other thread between them.
unfoldable pub run_end : (ℕ → Option Text) → Text → Text → Ending → ℕ → Queue → Queue
unfolding finish finalize
run_end answer fresh now ending id q = elim (find_job id q.jobs) [
  | none ↦ q
  | some j ↦ let q' = finish answer fresh ending j q in finalize_found now (find_job id q'.jobs) q'
]
