-- ===== src/JobQueue/Evolution.antt =====
-- How the sections of the queue change its jobs, one by one: relations between the jobs before and
-- after, and what they keep of the queue's invariant.
use sdk_local_manager.Prelude.{
  ℕ, ◌≡◌, refl, ◌∙◌, Bool, true, false, some, List, [], ◌∷◌, map, arith, Bool-cases, inl, inr,
  nat_eq,
}
use sdk_local_manager.JobQueue.{
  Job, Status, queued, running, cancelling, done, error, cancelled, find_job, update_job,
}

-- The changes of status that a section other than the scheduler's makes.
abbrev pub settles : Status → Status → Bool
settles queued queued = true
settles queued cancelled = true
settles running running = true
settles running cancelling = true
settles running done = true
settles running error = true
settles running cancelled = true
settles cancelling cancelling = true
settles cancelling done = true
settles cancelling error = true
settles cancelling cancelled = true
settles done done = true
settles error error = true
settles cancelled cancelled = true
settles _ _ = false

pub record Same (j k : Job) : Type 0 where
  pub id : k.id ≡ j.id
  pub resources : k.resources ≡ j.resources
  pub status : k.status ≡ j.status

pub record Settles (j k : Job) : Type 0 where
  pub id : k.id ≡ j.id
  pub resources : k.resources ≡ j.resources
  pub status : settles j.status k.status ≡ true

abbrev pub SameId : Job → Job → Type 0
SameId j k = k.id ≡ j.id

abbrev pub Pointwise : (Job → Job → Type 0) → List Job → List Job → Type 0
Pointwise R [] [] = Unit
Pointwise R (j ∷ js) (k ∷ ks) = R j k × Pointwise R js ks
Pointwise R _ _ = ⊥

settles_refl : (s : Status) → settles s s ≡ true
settles_refl s = ground arith

settles_trans : (a b c : Status) → settles a b ≡ true → settles b c ≡ true → settles a c ≡ true
settles_trans queued b c p q = ground arith
settles_trans running b c p q = ground arith
settles_trans _ b c p q = ground arith

pub Same-refl : (j : Job) → Same j j
Same-refl j = record { id = refl; resources = refl; status = refl }

pub Same→Settles : (j k : Job) → Same j k → Settles j k
Same→Settles j k s = record {
  id = s.id;
  resources = s.resources;
  status = rw s.status (settles_refl j.status);
}

pub Settles-trans : (j k l : Job) → Settles j k → Settles k l → Settles j l
Settles-trans j k l a b = record {
  id = b.id ∙ a.id;
  resources = b.resources ∙ a.resources;
  status = settles_trans j.status k.status l.status a.status b.status;
}

module _ (R : Job → Job → Type 0) where
  pub Pointwise-refl : ((j : Job) → R j j) → (js : List Job) → Pointwise R js js
  Pointwise-refl r [] = tt
  Pointwise-refl r (j ∷ js) = (r j, Pointwise-refl r js)

  pub Pointwise-update :
      (r : (j : Job) → R j j) (id : ℕ) (f : Job → Job) (js : List Job)
      → ((j : Job) → find_job id js ≡ some j → R j (f j))
      → Pointwise R js (update_job id f js)
  Pointwise-update r id f [] h = tt
  Pointwise-update r id f (j ∷ js) h = elim (Bool-cases (nat_eq j.id id)) [
    | inl e ↦ rw e (h j (rw e), Pointwise-refl r js)
    | inr e ↦ rw e (r j, Pointwise-update r id f js (λ k p. h k (rw e p)))
  ]

  pub Pointwise-map :
      (f : Job → Job) → ((j : Job) → R j (f j)) → (js : List Job) → Pointwise R js (map f js)
  Pointwise-map f h [] = tt
  Pointwise-map f h (j ∷ js) = (h j, Pointwise-map f h js)

  pub Pointwise-weaken :
      (S : Job → Job → Type 0)
      → ((j k : Job) → R j k → S j k)
      → (js ks : List Job) → Pointwise R js ks
      → Pointwise S js ks
  Pointwise-weaken S w [] [] p = tt
  Pointwise-weaken S w [] (k ∷ ks) p = p
  Pointwise-weaken S w (j ∷ js) [] p = p
  Pointwise-weaken S w (j ∷ js) (k ∷ ks) p = (w j k p.0, Pointwise-weaken S w js ks p.1)

  pub Pointwise-trans :
      ((j k l : Job) → R j k → R k l → R j l)
      → (js ks ls : List Job) → Pointwise R js ks
      → Pointwise R ks ls
      → Pointwise R js ls
  Pointwise-trans t [] [] [] p q = tt
  Pointwise-trans t [] [] (l ∷ ls) p q = q
  Pointwise-trans t [] (k ∷ ks) ls p q = absurd p
  Pointwise-trans t (j ∷ js) [] ls p q = absurd p
  Pointwise-trans t (j ∷ js) (k ∷ ks) [] p q = q
  Pointwise-trans t (j ∷ js) (k ∷ ks) (l ∷ ls) p q =
      (t j k l p.0 q.0, Pointwise-trans t js ks ls p.1 q.1)
