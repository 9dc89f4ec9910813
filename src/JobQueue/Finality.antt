-- ===== src/JobQueue/Finality.antt =====
-- A finished action stays as it ended, and its id is never given again.
use mathlib.Core.Path.{subst}
use sdk_local_manager.Prelude.{
  ℕ, ◌≡◌, ◌≢◌, refl, Bool, true, false, none, some, List, [], ◌∷◌, ◌++◌, arith, Bool-cases, inl,
  inr, ◌⊎◌, nat_eq, nat_eq_iff, filter, All,
}
use sdk_local_manager.Prelude.Text.{Text}
use sdk_local_manager.JobQueue.{Job, Queue, Status, is_queued, is_unfinished_status, find_job}
use sdk_local_manager.JobQueue.Schedule.{Pass, visit, scan, first_pass, schedule_jobs}
use sdk_local_manager.JobQueue.Exclusion.{jobs-schedule_jobs}
use sdk_local_manager.JobQueue.Evolution.{settles, Settles, Pointwise}
use sdk_local_manager.JobQueue.Validity.{Distinct}
use sdk_local_manager.JobQueue.Sections.{Quiet, find_related, find_unrelated}

-- The job is finished with status `s`, or it is gone from the history.
abbrev pub IsOver : Status → ℕ → List Job → Type 0
IsOver s id js = (find_job id js ≡ none) ⊎ ((j : Job) × (find_job id js ≡ some j) × (j.status ≡ s))

abbrev pub IsFinal : Status → Type 0
IsFinal s = is_unfinished_status s ≡ false

settles_final : (s t u : Status) → IsFinal s → t ≡ s → settles t u ≡ true → u ≡ s
settles_final s t u h e m = ground arith

IsOver-Settles :
    (s : Status) (id : ℕ) (js ks : List Job)
    → IsFinal s
    → Pointwise Settles js ks
    → IsOver s id js
    → IsOver s id ks
IsOver-Settles s id js ks f p (inl e) = inl (find_unrelated Settles (λ a b r. r.id) id js ks p e)
IsOver-Settles s id js ks f p (inr (j, e, h)) =
    let (k, g, r) = find_related Settles (λ a b x. x.id) id js ks j p e in
    inr (k, g, settles_final s j.status k.status f h r.status)

-- The scheduler touches queued jobs alone.
find_job-visit :
    (now : Text) (p : Pass) (j : Job)
    → ((visit now j p).0.id ≡ j.id) × (is_queued j ≡ false → (visit now j p).0 ≡ j)
unfolding visit
find_job-visit now p j = (ground arith, λ h. ground arith)

pub find_job-scan :
    (now : Text) (id : ℕ) (p : Pass) (js : List Job) (j : Job)
    → find_job id js ≡ some j
    → is_queued j ≡ false
    → find_job id (scan now p js).0 ≡ some j
unfolding scan
find_job-scan now id p [] j e q = cc
find_job-scan now id p (k ∷ ks) j e q = elim (Bool-cases (nat_eq k.id id)) [
  | inl h ↦
      let x : k ≡ j = ground arith in
      ground (arith, find_job-visit now p k, (find_job-visit now p k).1 (rw x q), x)
  | inr h ↦
      ground (
        arith,
        find_job-visit now p k,
        find_job-scan now id (visit now k p).1 ks j (ground arith) q,
      )
]

find_job-scan-none :
    (now : Text) (id : ℕ) (p : Pass) (js : List Job)
    → find_job id js ≡ none
    → find_job id (scan now p js).0 ≡ none
unfolding scan
find_job-scan-none now id p [] e = refl
find_job-scan-none now id p (k ∷ ks) e =
    ground (arith, find_job-visit now p k, find_job-scan-none now id (visit now k p).1 ks)

final_not_queued : (s : Status) (j : Job) → IsFinal s → j.status ≡ s → is_queued j ≡ false
final_not_queued s j f e = ground arith

pub IsOver-schedule_jobs :
    (s : Status) (id : ℕ) (now : Text) (q : Queue)
    → IsFinal s
    → IsOver s id q.jobs
    → IsOver s id (schedule_jobs now q).jobs
IsOver-schedule_jobs s id now q f (inl e) =
    inl (rw (jobs-schedule_jobs now q) (find_job-scan-none now id (first_pass q.jobs) q.jobs e))
IsOver-schedule_jobs s id now q f (inr (j, e, h)) = inr (
  j,
  rw (jobs-schedule_jobs now q)
      (find_job-scan now id (first_pass q.jobs) q.jobs j e (final_not_queued s j f h)),
  h,
)

pub IsOver-Quiet :
    (s : Status) (id : ℕ) (q q' : Queue)
    → IsFinal s
    → Quiet q q'
    → IsOver s id q.jobs
    → IsOver s id q'.jobs
IsOver-Quiet s id q q' f k o = IsOver-Settles s id q.jobs q'.jobs f k.jobs o

-- Forgetting.
absent : (id : ℕ) (js : List Job) → All (λ k. k.id ≢ id) js → find_job id js ≡ none
absent id [] h = refl
absent id (k ∷ ks) h = ground (arith, absent id ks h.1, h.0)

find_job-filter-none :
    (f : Job → Bool) (id : ℕ) (js : List Job)
    → find_job id js ≡ none
    → find_job id (filter f js) ≡ none
find_job-filter-none f id [] e = refl
find_job-filter-none f id (k ∷ ks) e = ground (arith, find_job-filter-none f id ks)

find_job-filter :
    (f : Job → Bool) (id : ℕ) (js : List Job) (j : Job)
    → Distinct js
    → find_job id js ≡ some j
    → (find_job id (filter f js) ≡ none) ⊎ (find_job id (filter f js) ≡ some j)
find_job-filter f id [] j d e = cc
find_job-filter f id (k ∷ ks) j d e = elim (Bool-cases (nat_eq k.id id)) [
  | inl h ↦ elim (Bool-cases (f k)) [
    | inl t ↦ inr (ground arith)
    | inr t ↦ inl (
        rw t (
          find_job-filter-none f id ks
            (absent id ks (subst (λ i. All (λ l. l.id ≢ i) ks) ((nat_eq_iff k.id id).0 h) d.0))))
  ]
  | inr h ↦ elim (find_job-filter f id ks j d.1 (ground arith)) [
    | inl n ↦ inl (ground (arith, n))
    | inr y ↦ elim (Bool-cases (f k)) [ inl t ↦ inr (ground arith) | inr t ↦ inr (ground arith) ]
  ]
]

pub IsOver-filter :
    (s : Status) (id : ℕ) (f : Job → Bool) (js : List Job)
    → Distinct js
    → IsOver s id js
    → IsOver s id (filter f js)
IsOver-filter s id f js d (inl e) = inl (find_job-filter-none f id js e)
IsOver-filter s id f js d (inr (j, e, h)) = elim (find_job-filter f id js j d e) [
  | inl n ↦ inl n
  | inr y ↦ inr (j, y, h)
]

-- A new action has an id of its own.
find_job-snoc :
    (id : ℕ) (js : List Job) (n : Job) → n.id ≢ id → find_job id (js ++ n ∷ []) ≡ find_job id js
find_job-snoc id [] n h = ground arith
find_job-snoc id (k ∷ ks) n h = ground (arith, find_job-snoc id ks n h)

pub IsOver-snoc :
    (s : Status) (id : ℕ) (js : List Job) (n : Job)
    → n.id ≢ id
    → IsOver s id js
    → IsOver s id (js ++ n ∷ [])
IsOver-snoc s id js n h (inl e) = inl (rw (find_job-snoc id js n h) e)
IsOver-snoc s id js n h (inr (j, e, x)) = inr (j, rw (find_job-snoc id js n h) e, x)
