-- ===== src/JobQueue/Validity.antt =====
-- The invariant of the queue, and what keeps it: changes of status that settle, and forgetting.
use sdk_local_manager.Prelude.{
  ℕ, ◌≤◌, ◌<◌, ◌≡◌, ◌≢◌, Bool, true, List, [], ◌∷◌, arith, filter, All, Bool-cases, inl, inr,
}
use sdk_local_manager.JobQueue.{
  Job, Queue, Status, is_active_status, jobs_conflict, max_running_jobs,
}
use sdk_local_manager.JobQueue.Exclusion.{Apart, Exclusive, active_count}
use sdk_local_manager.JobQueue.Evolution.{settles, Settles, SameId, Pointwise, Pointwise-weaken}

-- The ids name one job each.
abbrev pub Distinct : List Job → Type 0
Distinct [] = Unit
Distinct (j ∷ js) = All (λ k. k.id ≢ j.id) js × Distinct js

pub record IsValid (q : Queue) : Type 0 where
  pub distinct : Distinct q.jobs
  pub below : All (λ j. j.id < q.next_id) q.jobs
  pub exclusive : Exclusive q.jobs
  pub limited : active_count q.jobs ≤ max_running_jobs

module _ (n : ℕ) where
  pub All-ne-Pointwise :
      (i : ℕ) (js ks : List Job)
      → Pointwise SameId js ks
      → All (λ k. k.id ≢ i) js
      → All (λ k. k.id ≢ i) ks
  All-ne-Pointwise i [] [] p h = tt
  All-ne-Pointwise i [] (k ∷ ks) p h = absurd p
  All-ne-Pointwise i (j ∷ js) [] p h = absurd p
  All-ne-Pointwise i (j ∷ js) (k ∷ ks) p h = (rw p.0 h.0, All-ne-Pointwise i js ks p.1 h.1)

  pub All-below-Pointwise :
      (js ks : List Job) → Pointwise SameId js ks → All (λ j. j.id < n) js → All (λ j. j.id < n) ks
  All-below-Pointwise [] [] p h = tt
  All-below-Pointwise [] (k ∷ ks) p h = absurd p
  All-below-Pointwise (j ∷ js) [] p h = absurd p
  All-below-Pointwise (j ∷ js) (k ∷ ks) p h = (rw p.0 h.0, All-below-Pointwise js ks p.1 h.1)

  pub Distinct-Pointwise : (js ks : List Job) → Pointwise SameId js ks → Distinct js → Distinct ks
  Distinct-Pointwise [] [] p h = tt
  Distinct-Pointwise [] (k ∷ ks) p h = absurd p
  Distinct-Pointwise (j ∷ js) [] p h = absurd p
  Distinct-Pointwise (j ∷ js) (k ∷ ks) p h =
      (rw p.0 (All-ne-Pointwise j.id js ks p.1 h.0), Distinct-Pointwise js ks p.1 h.1)

Apart-Settles : (j k j' k' : Job) → Settles j j' → Settles k k' → Apart j k → Apart j' k'
unfolding jobs_conflict
Apart-Settles j k j' k' s t a x y =
    rw (s.resources, t.resources)
      (a (was_active j.status j'.status s.status x) (was_active k.status k'.status t.status y))
  where
    was_active :
        (a b : Status) → settles a b ≡ true → is_active_status b ≡ true → is_active_status a ≡ true
    was_active a b m act = ground arith

All-Apart-Settles :
    (j j' : Job) (ks ks' : List Job)
    → Settles j j'
    → Pointwise Settles ks ks'
    → All (Apart j) ks
    → All (Apart j') ks'
All-Apart-Settles j j' [] [] s p h = tt
All-Apart-Settles j j' [] (k' ∷ ks') s p h = absurd p
All-Apart-Settles j j' (k ∷ ks) [] s p h = absurd p
All-Apart-Settles j j' (k ∷ ks) (k' ∷ ks') s p h =
    (Apart-Settles j k j' k' s p.0 h.0, All-Apart-Settles j j' ks ks' s p.1 h.1)

Exclusive-Settles : (js ks : List Job) → Pointwise Settles js ks → Exclusive js → Exclusive ks
Exclusive-Settles [] [] p h = tt
Exclusive-Settles [] (k ∷ ks) p h = absurd p
Exclusive-Settles (j ∷ js) [] p h = absurd p
Exclusive-Settles (j ∷ js) (k ∷ ks) p h =
    (All-Apart-Settles j k js ks p.0 p.1 h.0, Exclusive-Settles js ks p.1 h.1)

active_count-Settles :
    (js ks : List Job) → Pointwise Settles js ks → active_count ks ≤ active_count js
active_count-Settles [] [] p = omega arith
active_count-Settles [] (k ∷ ks) p = absurd p
active_count-Settles (j ∷ js) [] p = absurd p
active_count-Settles (j ∷ js) (k ∷ ks) p =
    ground (arith, active_count-Settles js ks p.1, p.0.status)

-- A section that moves each job's status as `settles` allows keeps the invariant.
pub Settles-IsValid :
    (q q' : Queue)
    → Pointwise Settles q.jobs q'.jobs
    → q'.next_id ≡ q.next_id
    → IsValid q
    → IsValid q'
Settles-IsValid q q' p e v =
    let ids = Pointwise-weaken Settles SameId (λ j k s. s.id) q.jobs q'.jobs p in
    record {
      distinct = Distinct-Pointwise 0 q.jobs q'.jobs ids v.distinct;
      below = rw e (All-below-Pointwise q.next_id q.jobs q'.jobs ids v.below);
      exclusive = Exclusive-Settles q.jobs q'.jobs p v.exclusive;
      limited = omega (arith, active_count-Settles q.jobs q'.jobs p, v.limited);
    }

-- Forgetting jobs keeps it too.
All-filter {κ} :
    (P : Job → Type κ) (f : Job → Bool) (js : List Job) → All P js → All P (filter f js)
All-filter P f [] h = tt
All-filter P f (j ∷ js) h = elim (Bool-cases (f j)) [
  | inl e ↦ rw e (h.0, All-filter P f js h.1)
  | inr e ↦ rw e (All-filter P f js h.1)
]

Distinct-filter : (f : Job → Bool) (js : List Job) → Distinct js → Distinct (filter f js)
Distinct-filter f [] h = tt
Distinct-filter f (j ∷ js) h = elim (Bool-cases (f j)) [
  | inl e ↦ rw e (All-filter (λ k. k.id ≢ j.id) f js h.0, Distinct-filter f js h.1)
  | inr e ↦ rw e (Distinct-filter f js h.1)
]

Exclusive-filter : (f : Job → Bool) (js : List Job) → Exclusive js → Exclusive (filter f js)
Exclusive-filter f [] h = tt
Exclusive-filter f (j ∷ js) h = elim (Bool-cases (f j)) [
  | inl e ↦ rw e (All-filter (Apart j) f js h.0, Exclusive-filter f js h.1)
  | inr e ↦ rw e (Exclusive-filter f js h.1)
]

active_count-filter :
    (f : Job → Bool) (js : List Job) → active_count (filter f js) ≤ active_count js
active_count-filter f [] = omega arith
active_count-filter f (j ∷ js) = ground (arith, active_count-filter f js)

pub filter-IsValid :
    (f : Job → Bool) (q q' : Queue)
    → q'.jobs ≡ filter f q.jobs
    → q'.next_id ≡ q.next_id
    → IsValid q
    → IsValid q'
filter-IsValid f q q' e n v = record {
  distinct = rw e (Distinct-filter f q.jobs v.distinct);
  below = rw (e, n) (All-filter (λ j. j.id < q.next_id) f q.jobs v.below);
  exclusive = rw e (Exclusive-filter f q.jobs v.exclusive);
  limited = rw e (omega (arith, active_count-filter f q.jobs, v.limited));
}
