-- ===== src/Retention/Alignment.antt =====
-- What `reconcile` makes of the registry, database by database.
use sdk_local_manager.Prelude.{
  ℕ, ◌≡◌, refl, ap, ◌∙◌, Bool, true, false, not, ◌&&◌, Option, none, some, List, [], ◌∷◌, arith,
  filter, if◌then◌else◌, contains, ◌==◌, eq_iff, Eq_ℕ, Eq_List, Eq_Option, Bool-cases, inl, inr,
  Option-cases,
}
use sdk_local_manager.Prelude.Text.{Text}
use sdk_local_manager.Prelude.Dict
use sdk_local_manager.Prelude.Dict.{Dict, keys, get-put, get-remove}
use sdk_local_manager.Retention.{
  Entry, ProjectState, RetentionStore, system_databases, is_stale, drop_stale, found, add_found,
  without_system, align, inventory, reconcile, project_state, set_project, find_project, save_if,
  projects_of,
}

-- The specification: what is known of a database stays as long as the same database is there, and
-- one that is not known is found now.
unfoldable pub aligned : ℕ → Option ℕ → Option Entry → Option Entry
aligned now none known = none
aligned now (some oid) none = some (found now oid)
aligned now (some oid) (some e) = if e.oid == oid then some e else some (found now oid)

-- The server's own database is left out.
abbrev pub live_oid : Dict Text ℕ → Text → Option ℕ
live_oid live name = if contains system_databases name then none else Dict.get name live

get-drop_stale :
    (live : Dict Text ℕ) (names : List Text) (k : Text) (d : Dict Text Entry)
    → Dict.get k (drop_stale live names d).1
      ≡ (if contains names k && is_stale live k (Dict.get k d) then none else Dict.get k d)
unfolding drop_stale
get-drop_stale live [] k d = refl
get-drop_stale live (name ∷ names) k d = ground (
  arith,
  eq_iff name k,
  get-remove name k d,
  get-drop_stale live names k d,
  get-drop_stale live names k (Dict.remove name d),
)

get-add_found :
    (now : ℕ) (live : Dict Text ℕ) (k : Text) (d : Dict Text Entry)
    → Dict.get k (add_found now live d).1 ≡ (elim (Dict.get k d) [
      | some e ↦ some e
      | none ↦ elim (Dict.get k live) [ none ↦ none | some oid ↦ some (found now oid) ]
    ])
unfolding add_found Dict.get
get-add_found now [] k d = ground arith
get-add_found now ((name, oid) ∷ live) k d = ground (
  arith,
  eq_iff name k,
  get-put name k (found now oid) d,
  get-add_found now live k d,
  get-add_found now live k (Dict.put name (found now oid) d),
)

get-filter_keys :
    (p : Text → Bool) (live : Dict Text ℕ) (k : Text)
    → Dict.get k (filter (λ e. p e.0) live) ≡ (if p k then Dict.get k live else none)
unfolding Dict.get
get-filter_keys p [] k = ground arith
get-filter_keys p ((name, oid) ∷ live) k = elim (Bool-cases (name == k)) [
  | inl h ↦ let e : name ≡ k = (eq_iff name k).0 h in ground (arith, get-filter_keys p live k, h, e)
  | inr h ↦ ground (arith, get-filter_keys p live k)
]

get-without_system :
    (live : Dict Text ℕ) (k : Text) → Dict.get k (without_system live) ≡ live_oid live k
unfolding without_system
get-without_system live k =
    get-filter_keys (λ name. not (contains system_databases name)) live k
    ∙ if_not (contains system_databases k)
  where
    if_not :
        (b : Bool)
        → (if not b then Dict.get k live else none) ≡ (if b then none else Dict.get k live)
    if_not true = refl
    if_not false = refl

contains-keys :
    (k : Text) (d : Dict Text Entry) (e : Entry)
    → Dict.get k d ≡ some e
    → contains (keys d) k ≡ true
unfolding Dict.get
contains-keys k [] e h = cc
contains-keys k ((j, w) ∷ d) e h = ground (arith, eq_iff j k, contains-keys k d e)

get-align :
    (now : ℕ) (live : Dict Text ℕ) (k : Text) (d : Dict Text Entry)
    → Dict.get k (align now live d).1 ≡ aligned now (Dict.get k live) (Dict.get k d)
unfolding align aligned is_stale
get-align now live k d = elim (Option-cases (Dict.get k d)) [
  | inl e ↦ ground (
    arith,
    get-add_found now live k (drop_stale live (keys d) d).1,
    get-drop_stale live (keys d) k d,
    e,
  )
  | inr (x, e) ↦ ground (
    arith,
    get-add_found now live k (drop_stale live (keys d) d).1,
    get-drop_stale live (keys d) k d,
    e,
    contains-keys k d x e,
  )
]

pub project_state-set_project :
    (workspace project : Text) (state : ProjectState) (s : RetentionStore)
    → project_state workspace project (set_project workspace project state s) ≡ state
unfolding project_state set_project find_project
project_state-set_project workspace project state s = ground (
  arith,
  get-put workspace workspace (Dict.put project state (projects_of workspace s.workspaces))
      s.workspaces,
  eq_iff workspace workspace,
  eq_iff project project,
  get-put project project state (projects_of workspace s.workspaces),
)

pub project_state-save_if :
    (workspace project : Text) (b : Bool) (s : RetentionStore)
    → project_state workspace project (save_if b s) ≡ project_state workspace project s
unfolding project_state find_project
project_state-save_if workspace project true s = refl
project_state-save_if workspace project false s = refl

-- The state that `reconcile` answers, and leaves behind.
pub reconcile-inventory :
    (now : ℕ) (workspace project : Text) (live : Dict Text ℕ) (s : RetentionStore)
    → ((reconcile now workspace project live s).0
        ≡ (inventory now live (project_state workspace project s)).1)
      × (project_state workspace project (reconcile now workspace project live s).1
          ≡ (inventory now live (project_state workspace project s)).1)
unfolding reconcile
reconcile-inventory now workspace project live s =
    let state = (inventory now live (project_state workspace project s)) in
    let e =
      project_state-save_if workspace project state.0 (set_project workspace project state.1 s)
      ∙ project_state-set_project workspace project state.1 s in
    (e, e)

-- After an inventory the registry holds exactly the databases that are there, the server's own
-- excepted: one that is known under the same identifier keeps its entry, one that is not, or that
-- was created again under its name, is found now, with thirty days from now.
pub reconcile_lem :
    (now : ℕ) (workspace project : Text) (live : Dict Text ℕ) (s : RetentionStore) (name : Text)
    → Dict.get name
        (project_state workspace project (reconcile now workspace project live s).1).databases
      ≡ aligned now
          (live_oid live name)
          (Dict.get name (project_state workspace project s).databases)
unfolding inventory
reconcile_lem now workspace project live s name =
    ap (λ (state : ProjectState). Dict.get name state.databases)
      (reconcile-inventory now workspace project live s).1
    ∙ (get-align now (without_system live) name (project_state workspace project s).databases
        ∙ ap (λ o. aligned now o (Dict.get name (project_state workspace project s).databases))
            (get-without_system live name))
