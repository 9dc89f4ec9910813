-- ===== src/JobQueue/Eviction.antt =====
-- The history is bounded: finished actions make room for new ones.
use sdk_local_manager.Prelude.{
  ℕ, zero, suc, ◌+◌, ◌-◌, ◌<◌, ◌≡◌, ◌≢◌, ◌⊎◌, refl, ap, Bool, true, false, not, List, [], ◌∷◌, map,
  arith, length, filter, take, contains, Eq_ℕ, nat_eq_iff, if◌then◌else◌, All, Bool-cases, inl, inr,
}
use sdk_local_manager.JobQueue.{Job, is_unfinished, max_retained_jobs}
use sdk_local_manager.JobQueue.Handlers.{evict}
use sdk_local_manager.JobQueue.Validity.{Distinct}

abbrev unfinished_count : List Job → ℕ
unfinished_count jobs = length (filter is_unfinished jobs)

abbrev is_finished : Job → Bool
is_finished j = not (is_unfinished j)

abbrev ids : List Job → List ℕ
ids jobs = map (λ j. j.id) jobs

-- The specification: the list without its first `n` finished jobs.
abbrev pub without_finished : ℕ → List Job → List Job
without_finished zero js = js
without_finished (suc n) [] = []
without_finished (suc n) (j ∷ js) =
    let skipped = without_finished n js in
    let kept = without_finished (suc n) js in if is_unfinished j then j ∷ kept else skipped

-- An id that no job of the list has is not among those of its finished jobs.
not_taken :
    (id n : ℕ) (js : List Job)
    → All (λ k. k.id ≢ id) js
    → contains (take n (ids (filter is_finished js))) id ≡ false
not_taken id zero js a = refl
not_taken id (suc n) [] a = refl
not_taken id (suc n) (k ∷ ks) a = elim (Bool-cases (is_unfinished k)) [
  | inl u ↦ rw u (not_taken id (suc n) ks a.1)
  | inr u ↦ rw u (ground (arith, not_taken id n ks a.1, a.0))
]

-- An id that no job of the list has may be added to those that go.
filter_other :
    (id : ℕ) (gone : List ℕ) (js : List Job)
    → All (λ k. k.id ≢ id) js
    → filter (λ j. not (contains (id ∷ gone) j.id)) js ≡ filter (λ j. not (contains gone j.id)) js
filter_other id gone [] a = refl
filter_other id gone (k ∷ ks) a = ground (arith, filter_other id gone ks a.1, a.0)

keep_all : (js : List Job) → filter (λ j. not (contains [] j.id)) js ≡ js
keep_all [] = refl
keep_all (j ∷ js) = ap (◌∷◌ j) (keep_all js)

-- The ids of the first `n` finished jobs, and the list without the jobs of these ids.
gone : ℕ → List Job → List ℕ
gone n js = take n (ids (filter is_finished js))

without_ids : List ℕ → List Job → List Job
without_ids g js = filter (λ j. not (contains g j.id)) js

gone_unfinished :
    (n : ℕ) (j : Job) (js : List Job) → is_unfinished j ≡ true → gone n (j ∷ js) ≡ gone n js
unfolding gone
gone_unfinished n j js u = rw u

gone_finished :
    (n : ℕ) (j : Job) (js : List Job)
    → is_unfinished j ≡ false
    → gone (suc n) (j ∷ js) ≡ j.id ∷ gone n js
unfolding gone
gone_finished n j js u = rw u

without_ids-kept :
    (g : List ℕ) (j : Job) (js : List Job)
    → contains g j.id ≡ false
    → without_ids g (j ∷ js) ≡ j ∷ without_ids g js
unfolding without_ids
without_ids-kept g j js h = rw h

without_ids-gone :
    (g : List ℕ) (j : Job) (js : List Job)
    → All (λ k. k.id ≢ j.id) js
    → without_ids (j.id ∷ g) (j ∷ js) ≡ without_ids g js
unfolding without_ids
without_ids-gone g j js a = ground (arith, filter_other j.id g js a, nat_eq_iff j.id j.id)

without_ids-gone_lem :
    (n : ℕ) (js : List Job) → Distinct js → without_ids (gone n js) js ≡ without_finished n js
without_ids-gone_lem zero js d = unfold without_ids gone in keep_all js
without_ids-gone_lem (suc n) [] d = unfold without_ids gone in refl
without_ids-gone_lem (suc n) (j ∷ js) d = elim (Bool-cases (is_unfinished j)) [
  | inl u ↦ rw (gone_unfinished (suc n) j js u) (
      rw (without_ids-kept (gone (suc n) js) j js (unfold gone in not_taken j.id (suc n) js d.0))
        (ground (arith, without_ids-gone_lem (suc n) js d.1)))
  | inr u ↦
      rw (gone_finished n j js u)
        (rw (without_ids-gone (gone n js) j js d.0) (ground (arith, without_ids-gone_lem n js d.1)))
]

unfinished-without_finished :
    (n : ℕ) (js : List Job) → filter is_unfinished (without_finished n js) ≡ filter is_unfinished js
unfinished-without_finished zero js = refl
unfinished-without_finished (suc n) [] = refl
unfinished-without_finished (suc n) (j ∷ js) =
    ground (arith, unfinished-without_finished (suc n) js, unfinished-without_finished n js)

-- Either `n` jobs are gone, or no finished one is left.
length-without_finished :
    (n : ℕ) (js : List Job)
    → (length (without_finished n js) + n ≡ length js)
      ⊎ (without_finished n js ≡ filter is_unfinished js)
length-without_finished zero js = inl (omega arith)
length-without_finished (suc n) [] = inr refl
length-without_finished (suc n) (j ∷ js) = elim (Bool-cases (is_unfinished j)) [
  | inl u ↦ elim (length-without_finished (suc n) js) [
    | inl h ↦ inl (rw u (omega (arith, h)))
    | inr h ↦ inr (rw u (ap (◌∷◌ j) h))
  ]
  | inr u ↦ elim (length-without_finished n js) [
    | inl h ↦ inl (rw u (omega (arith, h)))
    | inr h ↦ inr (rw u h)
  ]
]

-- Before a new action is entered, finished actions are forgotten, the oldest first, until fewer
-- than sixty actions are kept or no finished one is left. An unfinished action is never forgotten.
pub evict_lem :
    (js : List Job)
    → Distinct js
    → (evict js ≡ without_finished (length js + 1 - max_retained_jobs) js)
      × (filter is_unfinished (evict js) ≡ filter is_unfinished js)
      × ((length (evict js) < max_retained_jobs) ⊎ (evict js ≡ filter is_unfinished js))
unfolding evict without_ids gone
evict_lem js d =
    let n = length js + 1 - max_retained_jobs in
    let e : evict js ≡ without_finished n js = without_ids-gone_lem n js d in
    (
      e,
      rw e (unfinished-without_finished n js),
      elim (length-without_finished n js) [
        | inl h ↦ inl (rw e (omega (arith, h)))
        | inr h ↦ inr (rw e h)
      ],
    )
