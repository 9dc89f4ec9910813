-- ===== src/JobQueue/Sections.antt =====
-- How each function of the queue changes the jobs.
use mathlib.Core.Path.{subst}
use sdk_local_manager.Prelude.{
  ℕ, ◌≡◌, refl, ◌∙◌, Bool, false, Option, none, some, List, [], ◌∷◌, arith, Bool-cases, inl, inr,
  nat_eq, if◌then◌else◌,
}
use sdk_local_manager.Prelude.Text.{Text, rstrip_newlines}
use sdk_local_manager.CommandOutput.{Reading, parse_output_progress}
use sdk_local_manager.JobControl.{Control}
use sdk_local_manager.JobQueue.{
  Job, Queue, find_job, update_job, persist_job_history, notify_jobs_changed, publish_completion,
}
use sdk_local_manager.JobQueue.Output.{append_output, write_line, add_line, add_unbound}
use sdk_local_manager.JobQueue.Handlers.{publish_found, set_control}
use sdk_local_manager.JobQueue.Evolution.{
  Same, Same-refl, Same→Settles, Settles, Settles-trans, Pointwise, Pointwise-refl,
  Pointwise-update, Pointwise-weaken, Pointwise-trans,
}
use sdk_local_manager.JobQueue.Validity.{IsValid, Settles-IsValid}

-- Nothing that exclusion and the statuses depend on changes.
pub record Calm (q q' : Queue) : Type 0 where
  pub jobs : Pointwise Same q.jobs q'.jobs
  pub next_id : q'.next_id ≡ q.next_id

-- Statuses only settle.
pub record Quiet (q q' : Queue) : Type 0 where
  pub jobs : Pointwise Settles q.jobs q'.jobs
  pub next_id : q'.next_id ≡ q.next_id

pub Quiet-IsValid : (q q' : Queue) → Quiet q q' → IsValid q → IsValid q'
Quiet-IsValid q q' k v = Settles-IsValid q q' k.jobs k.next_id v

Same-trans : (j k l : Job) → Same j k → Same k l → Same j l
Same-trans j k l a b = record {
  id = b.id ∙ a.id;
  resources = b.resources ∙ a.resources;
  status = b.status ∙ a.status;
}

pub Calm→Quiet : (q q' : Queue) → Calm q q' → Quiet q q'
Calm→Quiet q q' c = record {
  jobs = Pointwise-weaken Same Settles Same→Settles q.jobs q'.jobs c.jobs;
  next_id = c.next_id;
}

pub Calm-trans : (q r s : Queue) → Calm q r → Calm r s → Calm q s
Calm-trans q r s a b = record {
  jobs = Pointwise-trans Same Same-trans q.jobs r.jobs s.jobs a.jobs b.jobs;
  next_id = b.next_id ∙ a.next_id;
}

pub Quiet-trans : (q r s : Queue) → Quiet q r → Quiet r s → Quiet q s
Quiet-trans q r s a b = record {
  jobs = Pointwise-trans Settles Settles-trans q.jobs r.jobs s.jobs a.jobs b.jobs;
  next_id = b.next_id ∙ a.next_id;
}

-- The functions that leave the jobs alone.
pub Calm-same : (q q' : Queue) → q'.jobs ≡ q.jobs → q'.next_id ≡ q.next_id → Calm q q'
Calm-same q q' e n = record { jobs = rw e (Pointwise-refl Same Same-refl q.jobs); next_id = n }

pub Calm-persist : (q : Queue) → Calm q (persist_job_history q)
unfolding persist_job_history
Calm-persist q = Calm-same q (persist_job_history q) (ground arith) (ground arith)

pub Calm-notify : (q : Queue) → Calm q (notify_jobs_changed q)
unfolding notify_jobs_changed
Calm-notify q = Calm-same q (notify_jobs_changed q) refl refl

pub Calm-publish_found : (o : Option Job) (q : Queue) → Calm q (publish_found o q)
unfolding publish_completion
Calm-publish_found none q = Calm-same q q refl refl
Calm-publish_found (some j) q = Calm-same q (publish_completion j q) refl refl

pub Calm-update :
    (id : ℕ) (f : Job → Job) (q : Queue)
    → ((j : Job) → Same j (f j))
    → Calm q (record q { jobs = update_job id f q.jobs })
Calm-update id f q h = record {
  jobs = Pointwise-update Same Same-refl id f q.jobs (λ j _. h j);
  next_id = refl;
}

pub Quiet-update :
    (id : ℕ) (f : Job → Job) (q : Queue)
    → ((j : Job) → find_job id q.jobs ≡ some j → Settles j (f j))
    → Quiet q (record q { jobs = update_job id f q.jobs })
Quiet-update id f q h = record {
  jobs = Pointwise-update Settles (λ j. Same→Settles j j (Same-refl j)) id f q.jobs h;
  next_id = refl;
}

Same-write_line :
    (text : Text) (reading : Option Reading) (j : Job) → Same j (write_line text reading j)
unfolding write_line append_output
Same-write_line text none j = record { id = refl; resources = refl; status = refl }
Same-write_line text (some r) j = record {
  id = ground arith;
  resources = ground arith;
  status = ground arith;
}

pub Same-add_line : (raw : Bool) (line : Text) (j : Job) → Same j (add_line raw line j)
unfolding add_line
Same-add_line raw line j =
    let text = rstrip_newlines line in
    Same-write_line text (if raw then none else parse_output_progress text) j

pub Calm-add_unbound : (id : ℕ) (line : Text) (q : Queue) → Calm q (add_unbound id line q)
unfolding add_unbound
Calm-add_unbound id line q =
    let q1 = record q { jobs = update_job id (add_line false line) q.jobs } in
    Calm-trans q q1 (notify_jobs_changed q1)
      (Calm-update id (add_line false line) q (Same-add_line false line)) (Calm-notify q1)

pub Same-set_control : (c : Control) (j : Job) → Same j (set_control c j)
Same-set_control c j = record { id = refl; resources = refl; status = refl }

-- Related lists have related jobs under an id.
pub find_related :
    (R : Job → Job → Type 0)
    → ((j k : Job) → R j k → k.id ≡ j.id)
    → (id : ℕ) (js ks : List Job) (j : Job) → Pointwise R js ks
    → find_job id js ≡ some j
    → (k : Job) × (find_job id ks ≡ some k) × R j k
find_related R same id [] [] j p e = cc
find_related R same id [] (k ∷ ks) j p e = absurd p
find_related R same id (j ∷ js) [] a p e = absurd p
find_related R same id (j ∷ js) (k ∷ ks) a p e = elim (Bool-cases (nat_eq j.id id)) [
  | inl h ↦
      let x : j ≡ a = ground arith in (k, ground (arith, same j k p.0), subst (λ b. R b k) x p.0)
  | inr h ↦
      let (b, f, r) = find_related R same id js ks a p.1 (ground arith) in
      (b, ground (arith, same j k p.0), r)
]

-- Nothing appears under an id that was not there.
pub find_unrelated :
    (R : Job → Job → Type 0)
    → ((j k : Job) → R j k → k.id ≡ j.id)
    → (id : ℕ) (js ks : List Job) → Pointwise R js ks
    → find_job id js ≡ none
    → find_job id ks ≡ none
find_unrelated R same id [] [] p e = refl
find_unrelated R same id [] (k ∷ ks) p e = absurd p
find_unrelated R same id (j ∷ js) [] p e = absurd p
find_unrelated R same id (j ∷ js) (k ∷ ks) p e =
    ground (arith, same j k p.0, find_unrelated R same id js ks p.1)

-- A calm change leaves each job findable under its id, with its status.
pub find-Pointwise :
    (id : ℕ) (js ks : List Job) (j k : Job)
    → Pointwise Same js ks
    → find_job id js ≡ some j
    → find_job id ks ≡ some k
    → Same j k
find-Pointwise id js ks j k p e f =
    let (l, g, r) = find_related Same (λ a b s. s.id) id js ks j p e in
    let x : l ≡ k = ground arith in subst (λ b. Same j b) x r
