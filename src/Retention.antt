-- ===== src/Retention.antt =====
-- odoo_manager_core/database_retention.py: how long the databases of the clients stay.
--
-- The registry is kept in memory and written as a whole: `written` is what the file holds, when it
-- was written. A time is a number of seconds. The reading of a damaged file is outside, and so is a
-- disk that refuses the file.
pub mod Alignment
pub mod Deadlines
pub mod Tests
use sdk_local_manager.Prelude.{
  ℕ, ◌+◌, ◌*◌, max, Bool, true, false, not, ◌&&◌, ◌||◌, Option, none, some, List, [], ◌∷◌, map,
  filter, leb, if◌then◌else◌, contains, ◌==◌, Eq_ℕ, Eq_List, Eq_Option, ◌⊎◌, inl, inr,
}
use sdk_local_manager.Prelude.Text.{Text, txt}
use sdk_local_manager.Prelude.Sorting.{sort_texts}
use sdk_local_manager.Prelude.Dict
use sdk_local_manager.Prelude.Dict.{Dict, keys}

abbrev pub day_seconds : ℕ
day_seconds = 24 * 60 * 60

abbrev pub retention_seconds : ℕ
retention_seconds = 30 * day_seconds

abbrev pub system_databases : List Text
system_databases = txt "postgres" ∷ []

-- ORIGINS
pub data Origin : Type 0 where
  created restored duplicated detected : Origin

unfoldable pub origin_of : Text → Option Origin
origin_of t =
    if t == txt "created"
    then some created
    else if t == txt "restored"
    then some restored
    else if t == txt "duplicated"
    then some duplicated
    else if t == txt "detected"
    then some detected
    else none

pub record Entry : Type 0 where
  pub oid : ℕ
  pub origin : Origin
  pub arrived_at : ℕ
  pub expires_at : Option ℕ

pub record ProjectState : Type 0 where
  pub inventoried_at : Option ℕ
  pub databases : Dict Text Entry

abbrev pub no_state : ProjectState
no_state = record { inventoried_at = none; databases = [] }

abbrev pub Workspaces : Type 0
Workspaces = Dict Text (Dict Text ProjectState)

pub record RetentionStore : Type 0 where
  pub workspaces : Workspaces
  pub written : Option Workspaces

abbrev pub projects_of : Text → Workspaces → Dict Text ProjectState
projects_of workspace ws = elim (Dict.get workspace ws) [ none ↦ [] | some ps ↦ ps ]

unfoldable pub find_project : Text → Text → RetentionStore → Option ProjectState
find_project workspace project s = Dict.get project (projects_of workspace s.workspaces)

unfoldable pub project_state : Text → Text → RetentionStore → ProjectState
unfolding find_project
project_state workspace project s = elim (find_project workspace project s) [
  | none ↦ no_state
  | some state ↦ state
]

unfoldable pub set_project : Text → Text → ProjectState → RetentionStore → RetentionStore
set_project workspace project state s = record s {
  workspaces =
      Dict.put workspace (Dict.put project state (projects_of workspace s.workspaces)) s.workspaces;
}

abbrev pub save : RetentionStore → RetentionStore
save s = record s { written = some s.workspaces }

abbrev pub save_if : Bool → RetentionStore → RetentionStore
save_if true s = save s
save_if false s = s

-- What the methods raise.
pub data RetentionError : Type 0 where
  unknown_origin unknown_database no_deadline : Text → RetentionError

-- A copy keeps the deadline of the database that it is a copy of.
unfoldable pub arrival_deadline : ℕ → Origin → Option Text → Dict Text Entry → Option ℕ
arrival_deadline now created source databases = none
arrival_deadline now duplicated (some source) databases = elim (Dict.get source databases) [
  | none ↦ some (now + retention_seconds)
  | some original ↦ original.expires_at
]
arrival_deadline now _ source databases = some (now + retention_seconds)

-- `if origin == "duplicated" and source`: an empty name is no source.
abbrev pub named_source : Option Text → Option Text
named_source (some []) = none
named_source source = source

abbrev pub record_entry :
    ℕ → Text → Text → Text → ℕ → Origin → Option Text → RetentionStore → Entry × RetentionStore
record_entry now workspace project db_name oid origin source s =
    let state = project_state workspace project s in
    let entry : Entry = record {
      oid = oid;
      origin = origin;
      arrived_at = now;
      expires_at = arrival_deadline now origin (named_source source) state.databases;
    } in
    (
      entry,
      save (
          set_project workspace project
            (record state { databases = Dict.put db_name entry state.databases }) s),
    )

unfoldable pub record_arrival :
    ℕ
    → Text
    → Text
    → Text
    → ℕ
    → Text
    → Option Text
    → RetentionStore
    → (RetentionError ⊎ Entry) × RetentionStore
unfolding origin_of arrival_deadline set_project project_state
record_arrival now workspace project db_name oid origin source s = elim (origin_of origin) [
  | none ↦ (inl (unknown_origin origin), s)
  | some o ↦
      let (entry, s') = record_entry now workspace project db_name oid o source s in (inr entry, s')
]

-- The first loop of `reconcile`: what has disappeared or was created again is taken out. It answers
-- whether anything changed.
unfoldable pub is_stale : Dict Text ℕ → Text → Option Entry → Bool
is_stale live name none = false
is_stale live name (some e) = not (Dict.get name live == some e.oid)

unfoldable pub drop_stale : Dict Text ℕ → List Text → Dict Text Entry → Bool × Dict Text Entry
unfolding is_stale
drop_stale live [] d = (false, d)
drop_stale live (name ∷ names) d =
    let stale = is_stale live name (Dict.get name d) in
    let (changed, d') = drop_stale live names (if stale then Dict.remove name d else d) in
    (stale || changed, d')

unfoldable pub found : ℕ → ℕ → Entry
found now oid = record {
  oid = oid;
  origin = detected;
  arrived_at = now;
  expires_at = some (now + retention_seconds);
}

-- The second loop: what is not known begins its thirty days.
unfoldable pub add_found : ℕ → Dict Text ℕ → Dict Text Entry → Bool × Dict Text Entry
unfolding found
add_found now [] d = (false, d)
add_found now ((name, oid) ∷ live) d =
    let missing = not (Dict.has name d) in
    let (changed, d') =
      add_found now live (if missing then Dict.put name (found now oid) d else d) in
    (missing || changed, d')

unfoldable pub without_system : Dict Text ℕ → Dict Text ℕ
without_system live = filter (λ e. not (contains system_databases e.0)) live

unfoldable pub align : ℕ → Dict Text ℕ → Dict Text Entry → Bool × Dict Text Entry
unfolding drop_stale add_found
align now live databases =
    let (dropped, d) = drop_stale live (keys databases) databases in
    let (added, d') = add_found now live d in (dropped || added, d')

-- The inventory is dated to the day.
abbrev pub inventory_is_old : ℕ → Option ℕ → Bool
inventory_is_old now none = true
inventory_is_old now (some previous) = leb (previous + day_seconds) now

-- The project's new state, and whether it changed.
unfoldable pub inventory : ℕ → Dict Text ℕ → ProjectState → Bool × ProjectState
inventory now live state =
    let (aligned, databases) = align now (without_system live) state.databases in
    let changed = aligned || inventory_is_old now state.inventoried_at in
    (
      changed,
      record {
        inventoried_at = if changed then some now else state.inventoried_at;
        databases = databases;
      },
    )

unfoldable pub reconcile :
    ℕ → Text → Text → Dict Text ℕ → RetentionStore → ProjectState × RetentionStore
reconcile now workspace project live s =
    let (changed, state) = inventory now live (project_state workspace project s) in
    let s' = save_if changed (set_project workspace project state s) in
    (project_state workspace project s', s')

abbrev pub extend_entry :
    ℕ
    → Text
    → Text
    → Text
    → ProjectState
    → Entry
    → Option ℕ
    → RetentionStore
    → (RetentionError ⊎ ℕ) × RetentionStore
extend_entry now workspace project db_name state e none s = (inl (no_deadline db_name), s)
extend_entry now workspace project db_name state e (some t) s =
    let later = max t now + retention_seconds in
    let entry : Entry = record e { expires_at = some later } in
    (
      inr later,
      save (
          set_project workspace project
            (record state { databases = Dict.put db_name entry state.databases }) s),
    )

unfoldable pub extend :
    ℕ → Text → Text → Text → RetentionStore → (RetentionError ⊎ ℕ) × RetentionStore
extend now workspace project db_name s =
    elim (Dict.get db_name (project_state workspace project s).databases) [
      | none ↦ (inl (unknown_database db_name), s)
      | some e ↦
          extend_entry now workspace project db_name (project_state workspace project s) e
            e.expires_at s
    ]

unfoldable pub forget : Text → Text → Text → RetentionStore → RetentionStore
unfolding set_project project_state
forget workspace project db_name s =
    let state = project_state workspace project s in
    if Dict.has db_name state.databases
    then save (
        set_project workspace project
          (record state { databases = Dict.remove db_name state.databases }) s)
    else s

unfoldable pub prune_projects : Text → List Text → RetentionStore → RetentionStore
prune_projects workspace keep s =
    let projects = projects_of workspace s.workspaces in
    let kept = filter (λ p. contains keep p.0) projects in
    elim (filter (λ p. not (contains keep p.0)) projects) [
      | [] ↦ s
      | _ ∷ _ ↦ save (record s { workspaces = Dict.put workspace kept s.workspaces })
    ]

unfoldable pub is_expired : ℕ → Option Entry → Bool
is_expired now none = false
is_expired now (some e) = elim e.expires_at [ none ↦ false | some t ↦ leb t now ]

unfoldable pub expired_databases : ProjectState → ℕ → List Text
unfolding is_expired sort_texts
expired_databases state now =
    sort_texts
      (filter (λ name. is_expired now (Dict.get name state.databases)) (keys state.databases))

unfoldable pub needs_inventory : ProjectState → ℕ → Bool
needs_inventory state now = elim state.inventoried_at [
  | none ↦ true
  | some previous ↦ leb (previous + retention_seconds) now
]
