-- ===== src/Retention/Deadlines.antt =====
-- The deadlines of the registry: what is deleted, and what an extension does.
use sdk_local_manager.Prelude.{
  ℕ, ◌+◌, ◌≤◌, ◌≡◌, refl, ap, ◌∙◌, max, Bool, true, Option, none, some, List, [], ◌∷◌, arith,
  filter, if◌then◌else◌, contains, ◌==◌, eq_iff, Eq_ℕ, Eq_List, Eq_Option, Bool-cases, inl, inr,
  ◌⊎◌, Option-cases,
}
use sdk_local_manager.Prelude.Text.{Text}
use sdk_local_manager.Prelude.Sorting.{contains-sort_texts}
use sdk_local_manager.Prelude.Dict
use sdk_local_manager.Prelude.Dict.{Dict, keys, get-put}
use sdk_local_manager.Retention.{
  Entry, ProjectState, RetentionStore, found, project_state, set_project, RetentionError,
  unknown_database, no_deadline, extend, extend_entry, is_expired, expired_databases,
  retention_seconds, reconcile,
}
use sdk_local_manager.Retention.Alignment.{
  aligned, live_oid, reconcile_lem, project_state-set_project, project_state-save_if,
}

contains-filter :
    (p : Text → Bool) (x : Text) (ts : List Text) → contains (filter p ts) x ≡ true → p x ≡ true
contains-filter p x [] h = cc
contains-filter p x (t ∷ ts) h = elim (Bool-cases (t == x)) [
  | inl e ↦ let same : t ≡ x = (eq_iff t x).0 e in ground (arith, contains-filter p x ts, same)
  | inr e ↦ ground (arith, contains-filter p x ts)
]

-- A database that is to be deleted has an entry whose deadline is over.
expired_databases-entry :
    (state : ProjectState) (now : ℕ) (name : Text)
    → contains (expired_databases state now) name ≡ true
    → is_expired now (Dict.get name state.databases) ≡ true
unfolding expired_databases
expired_databases-entry state now name h =
    contains-filter (λ x. is_expired now (Dict.get x state.databases)) name (keys state.databases)
      (ground (
        arith,
        contains-sort_texts name
            (filter (λ x. is_expired now (Dict.get x state.databases)) (keys state.databases)),
      ))

aligned-expired :
    (now : ℕ) (live : Option ℕ) (known : Option Entry)
    → is_expired now (aligned now live known) ≡ true
    → (e : Entry) × (t : ℕ) × (known ≡ some e)
      × (live ≡ some e.oid)
      × (e.expires_at ≡ some t)
      × (t ≤ now)
unfolding aligned is_expired found
aligned-expired now none known h = cc
aligned-expired now (some oid) none h = ground arith
aligned-expired now (some oid) (some e) h = elim (Bool-cases (e.oid == oid)) [
  | inl same ↦ elim (Option-cases e.expires_at) [
    | inl x ↦ ground arith
    | inr (t, x) ↦ (e, t, refl, ground (arith, eq_iff e.oid oid), x, ground arith)
  ]
  | inr other ↦ ground arith
]

-- Nothing is deleted on its discovery: a database that is to be deleted right after an inventory
-- was known before it, under the identifier that it still has, with a deadline that is over.
pub expired_databases-reconcile :
    (now : ℕ) (workspace project : Text) (live : Dict Text ℕ) (s : RetentionStore) (name : Text)
    → contains
        (expired_databases
          (project_state workspace project (reconcile now workspace project live s).1)
          now)
        name
      ≡ true
    → (e : Entry) × (t : ℕ) × (Dict.get name (project_state workspace project s).databases ≡ some e)
      × (live_oid live name ≡ some e.oid)
      × (e.expires_at ≡ some t)
      × (t ≤ now)
expired_databases-reconcile now workspace project live s name h =
    aligned-expired now (live_oid live name)
      (Dict.get name (project_state workspace project s).databases)
      (ground (
        arith,
        reconcile_lem now workspace project live s name,
        expired_databases-entry
            (project_state workspace project (reconcile now workspace project live s).1) now name h,
      ))

abbrev thirty_days : ℕ
thirty_days = 2592000

-- What an extension answers and does.
pub data Extended (now : ℕ) (name : Text) (before after : Dict Text Entry)
    : RetentionError ⊎ ℕ → Type 0 where
  unknown :
      Dict.get name before ≡ none
      → after ≡ before
      → Extended now name before after (inl (unknown_database name))
  kept :
      (e : Entry)
      → Dict.get name before ≡ some e
      → e.expires_at ≡ none
      → after ≡ before
      → Extended now name before after (inl (no_deadline name))
  later :
      (e : Entry) (t u : ℕ)
      → Dict.get name before ≡ some e
      → e.expires_at ≡ some t
      → t + thirty_days ≤ u
      → now + thirty_days ≤ u
      → (u ≡ t + thirty_days) ⊎ (u ≡ now + thirty_days)
      → ((x : Text)
          → Dict.get x after
            ≡ (if name == x then some (record e { expires_at = some u }) else Dict.get x before))
      → Extended now name before after (inr u)

one_of :
    (t now : ℕ)
    → (max t now + retention_seconds ≡ t + thirty_days)
      ⊎ (max t now + retention_seconds ≡ now + thirty_days)
one_of t now = ground arith

extend_entry-Extended :
    (now : ℕ) (workspace project name : Text) (s : RetentionStore) (e : Entry) (o : Option ℕ)
    → Dict.get name (project_state workspace project s).databases ≡ some e
    → e.expires_at ≡ o
    → Extended now name
        (project_state workspace project s).databases
        (project_state workspace project
          (extend_entry now workspace project name
            (project_state workspace project s)
            e
            o
            s).1).databases
        (extend_entry now workspace project name (project_state workspace project s) e o s).0
extend_entry-Extended now workspace project name s e none f h = kept e f h refl
extend_entry-Extended now workspace project name s e (some t) f h =
    let entry : Entry = record e { expires_at = some (max t now + retention_seconds) } in
    let state : ProjectState = record (project_state workspace project s) {
      databases = Dict.put name entry (project_state workspace project s).databases;
    } in
    let saved =
      project_state-save_if workspace project true (set_project workspace project state s)
      ∙ project_state-set_project workspace project state s in
    later e t (max t now + retention_seconds) f h (omega arith) (omega arith) (one_of t now) (λ x.
      ap (λ (r : ProjectState). Dict.get x r.databases) saved
      ∙ get-put name x entry (project_state workspace project s).databases)

-- An extension gives thirty days more, no less and no more, counted from the deadline or from now,
-- whichever is later, and touches no other database; for a database that is unknown or that is kept for good it is an
-- error, and nothing changes.
pub extend-Extended :
    (now : ℕ) (workspace project name : Text) (s : RetentionStore)
    → Extended now name
        (project_state workspace project s).databases
        (project_state workspace project (extend now workspace project name s).1).databases
        (extend now workspace project name s).0
unfolding extend
extend-Extended now workspace project name s =
    elim (Option-cases (Dict.get name (project_state workspace project s).databases)) [
      | inl f ↦ rw (f, extend) (unknown f refl)
      | inr (e, f) ↦
          rw (f, extend) (extend_entry-Extended now workspace project name s e e.expires_at f refl)
    ]
