-- ===== src/Dependencies.antt =====
-- odoo_manager_core/module_dependencies.py: the modules of a database that Odoo cannot load.
--
-- `states` gives the state of each module of the database. Dependencies/Report has
-- the rows that explain where a missing module is required, and the first causes.
pub mod Unloadable
pub mod Complete
pub mod Report
pub mod Tests
use sdk_local_manager.Prelude.{
  ℕ, zero, suc, ◌+◌, Bool, true, false, not, ◌&&◌, ◌||◌, Option, none, some, List, [], ◌∷◌, ◌++◌,
  map, filter, length, if◌then◌else◌, contains, Eq_ℕ, Eq_List,
}
use sdk_local_manager.Prelude.Text.{Text, txt}
use sdk_local_manager.Prelude.Sorting.{sort_texts}
use sdk_local_manager.Prelude.Dict
use sdk_local_manager.Prelude.Dict.{Dict, keys}
use sdk_local_manager.Modules.{GraphEntry, Graph, active_names}

abbrev pub unavailable_entry : Option GraphEntry → Bool
unavailable_entry none = true
unavailable_entry (some e) = not e.installable

abbrev pub is_unavailable : Graph → Text → Bool
is_unavailable graph name = unavailable_entry (Dict.get name graph)

abbrev pub depends_of : Option GraphEntry → List Text
depends_of none = []
depends_of (some e) = e.depends

-- `active`: what the database has installed, without the modules that only it has.
unfoldable pub active_modules : Dict Text Text → List Text → List Text
active_modules states database_only =
    filter (λ name. not (contains database_only name)) (active_names states)

unfoldable pub missing_modules : Graph → List Text → List Text
missing_modules graph active = filter (is_unavailable graph) active

-- What the loop reads and does not change.
pub record Database : Type 0 where
  pub graph : Graph
  pub active : List Text
  pub missing : List Text
  pub database_only : List Text

abbrev pub database : Graph → Dict Text Text → List Text → Database
database graph states database_only =
    let active = active_modules states database_only in
    record {
      graph = graph;
      active = active;
      missing = missing_modules graph active;
      database_only = database_only;
    }

abbrev pub NotLoaded : Type 0
NotLoaded = Dict Text (List Text)

unfoldable pub is_blocking : Database → NotLoaded → Text → Bool
is_blocking b not_loaded dependency =
    not (contains b.database_only dependency)
    && (contains b.missing dependency
        || Dict.has dependency not_loaded
        || is_unavailable b.graph dependency)

unfoldable pub blocking : Database → NotLoaded → Text → List Text
blocking b not_loaded name =
    sort_texts (filter (is_blocking b not_loaded) (depends_of (Dict.get name b.graph)))

pub record Round : Type 0 where
  pub not_loaded : NotLoaded
  pub changed : Bool

abbrev pub set_aside : Text → List Text → Round → Round
set_aside name [] p = p
set_aside name (d ∷ ds) p = record {
  not_loaded = Dict.put name (d ∷ ds) p.not_loaded;
  changed = true;
}

-- The `for` loop over the modules that may be loaded.
unfoldable pub one_round : Database → List Text → Round → Round
one_round b [] p = p
one_round b (name ∷ names) p = one_round b names (set_aside name (blocking b p.not_loaded name) p)

unfoldable pub loadable : Database → NotLoaded → List Text
loadable b not_loaded =
    sort_texts
      (filter (λ name. not (contains b.missing name) && not (Dict.has name not_loaded)) b.active)

-- The `while changed` loop, on fuel.
unfoldable pub rounds : Database → ℕ → Round → Option NotLoaded
rounds b zero p = none
rounds b (suc fuel) p =
    let p' = one_round b (loadable b p.not_loaded) (record p { changed = false }) in
    let again = rounds b fuel p' in if p'.changed then again else some p'.not_loaded

abbrev pub or_empty : Option NotLoaded → NotLoaded
or_empty none = []
or_empty (some d) = d

-- The fuel: each round that changes something sets a module aside.
unfoldable pub not_loaded_modules : Database → NotLoaded
not_loaded_modules b =
    or_empty (rounds b (1 + length b.active) (record { not_loaded = []; changed = false }))
