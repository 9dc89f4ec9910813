-- ===== src/Modules.antt =====
-- odoo_manager_core/manifests.py and odoo_manager_core/module_dependencies.py: which modules Odoo
-- will install, and which it cannot load.
--
-- A graph is the dictionary of the manifests' entries by module name, `states` gives the state that
-- the database has for a module. The reading of a manifest is outside.
pub mod Plan
pub mod Closure
pub mod Progress
pub mod Automatic
pub mod Tests
use sdk_local_manager.Prelude.{
  ℕ, zero, suc, Bool, true, false, not, ◌&&◌, ◌||◌, Option, none, some, List, [], ◌∷◌, ◌++◌, map,
  filter, any, all, if◌then◌else◌, contains, Eq_ℕ, Eq_List, length, ◌+◌,
}
use sdk_local_manager.Prelude.Sorting.{sort_texts}
use sdk_local_manager.JobControl.{is_empty}
use sdk_local_manager.Prelude.Text.{Text, txt}
use sdk_local_manager.Prelude.Dict
use sdk_local_manager.Prelude.Dict.{Dict, keys}

-- `manifest_graph_entry`, without what only the interface reads.
pub record GraphEntry : Type 0 where
  pub title : Text
  pub depends : List Text
  pub auto_install : Bool
  pub auto_install_triggers : List Text
  pub installable : Bool
  pub application : Bool
  pub country_restricted : Bool

abbrev pub Graph : Type 0
Graph = Dict Text GraphEntry

-- INSTALLED_MODULE_STATES
abbrev pub is_installed_state : Text → Bool
is_installed_state state =
    contains (txt "installed" ∷ txt "to install" ∷ txt "to upgrade" ∷ []) state

unfoldable pub active_names : Dict Text Text → List Text
active_names states = map (λ e. e.0) (filter (λ e. is_installed_state e.1) states)

-- What the resolution has found: each name with the module that asked for it first.
pub record Resolution : Type 0 where
  pub to_install : Dict Text Text
  pub missing : Dict Text Text
  pub uninstallable : Dict Text Text

abbrev pub settled : List Text → Resolution → Text → Bool
settled installed r name = contains installed name || Dict.has name r.to_install

-- d.setdefault(k, v)
unfoldable pub set_default : Text → Text → Dict Text Text → Dict Text Text
set_default k v d = if Dict.has k d then d else Dict.put k v d

-- `stack.extend((dependency, current) for dependency in ...)`; the top of the stack comes first.
unfoldable pub extend_stack : Text → List Text → List (Text × Text) → List (Text × Text)
extend_stack current [] stack = stack
extend_stack current (dependency ∷ rest) stack =
    extend_stack current rest ((dependency, current) ∷ stack)

abbrev pub visit_entry :
    Text
    → Text
    → Option GraphEntry
    → List (Text × Text)
    → Resolution
    → List (Text × Text) × Resolution
visit_entry current parent none stack r =
    (stack, record r { missing = set_default current parent r.missing })
visit_entry current parent (some e) stack r =
    if e.installable
    then (
      extend_stack current e.depends stack,
      record r { to_install = Dict.put current parent r.to_install },
    )
    else (stack, record r { uninstallable = set_default current parent r.uninstallable })

-- One turn of the loop, for the module taken from the stack.
unfoldable pub visit_module :
    List Text
    → Graph
    → Text
    → Text
    → List (Text × Text)
    → Resolution
    → List (Text × Text) × Resolution
visit_module installed graph current parent stack r =
    if settled installed r current
    then (stack, r)
    else visit_entry current parent (Dict.get current graph) stack r

-- The loop of `add`, on fuel.
unfoldable pub resolve : List Text → Graph → ℕ → List (Text × Text) → Resolution → Option Resolution
resolve installed graph fuel [] r = some r
resolve installed graph zero (top ∷ stack) r = none
resolve installed graph (suc fuel) ((current, parent) ∷ stack) r =
    let (stack', r') = visit_module installed graph current parent stack r in
    resolve installed graph fuel stack' r'

abbrev pub depends_count : Graph → ℕ
depends_count [] = 0
depends_count ((name, e) ∷ graph) = length e.depends + depends_count graph

-- The fuel is enough for every resolution.
abbrev pub or_same : Resolution → Option Resolution → Resolution
or_same r none = r
or_same r (some r') = r'

unfoldable pub add : List Text → Graph → Text → Text → Resolution → Resolution
add installed graph name required_by r =
    or_same r (resolve installed graph (1 + depends_count graph) ((name, required_by) ∷ []) r)

unfoldable pub add_all : List Text → Graph → List Text → Resolution → Resolution
add_all installed graph [] r = r
add_all installed graph (name ∷ names) r =
    add_all installed graph names (add installed graph name [] r)

unfoldable pub is_candidate : Option GraphEntry → Bool
is_candidate none = false
is_candidate (some e) =
    e.auto_install
    && e.installable
    && not (is_empty e.auto_install_triggers)
    && not e.country_restricted

unfoldable pub candidates : Graph → List Text
candidates graph = sort_texts (filter (λ name. is_candidate (Dict.get name graph)) (keys graph))

abbrev pub triggers_of : Option GraphEntry → List Text
triggers_of none = []
triggers_of (some e) = e.auto_install_triggers

-- Whether the triggers of this module are there, one of them newly.
unfoldable pub is_triggered : List Text → Graph → Resolution → Text → Bool
is_triggered installed graph r name =
    all (settled installed r) (triggers_of (Dict.get name graph))
    && any (λ trigger. Dict.has trigger r.to_install) (triggers_of (Dict.get name graph))

unfoldable pub is_due : List Text → Graph → Resolution → Text → Bool
is_due installed graph r name =
    not (settled installed r name) && is_triggered installed graph r name

pub record AutoPass : Type 0 where
  pub resolution : Resolution
  pub auto_installed : List Text
  pub changed : Bool

-- The `for` loop over the candidates.
unfoldable pub auto_pass : List Text → Graph → List Text → AutoPass → AutoPass
auto_pass installed graph [] p = p
auto_pass installed graph (name ∷ names) p =
    if is_due installed graph p.resolution name
    then auto_pass installed graph names (record {
      resolution = add installed graph name [] p.resolution;
      auto_installed = p.auto_installed ++ name ∷ [];
      changed = true;
    })
    else auto_pass installed graph names p

-- The `while changed` loop, on fuel.
unfoldable pub auto_loop : List Text → Graph → ℕ → AutoPass → Option AutoPass
auto_loop installed graph zero p = none
auto_loop installed graph (suc fuel) p =
    let p' = auto_pass installed graph (candidates graph) (record p { changed = false }) in
    let again = auto_loop installed graph fuel p' in if p'.changed then again else some p'

unfoldable pub installed_names : Dict Text Text → List Text
unfolding active_names
installed_names states = txt "base" ∷ active_names states

abbrev pub nothing_found : Resolution
nothing_found = record { to_install = []; missing = []; uninstallable = [] }

abbrev pub or_pass : AutoPass → Option AutoPass → AutoPass
or_pass p none = p
or_pass p (some q) = q

-- Requested modules, then those that their triggers install. The fuel: each pass that changes
-- something settles a candidate.
unfoldable pub resolution_of : List Text → Graph → List Text → AutoPass
resolution_of installed graph requested =
    let first : AutoPass = record {
      resolution = add_all installed graph requested nothing_found;
      auto_installed = [];
      changed = false;
    } in
    or_pass first (auto_loop installed graph (1 + length (candidates graph)) first)

pub record InstallPlan : Type 0 where
  pub requested : List Text
  pub already_installed : List Text
  pub dependencies : List (Text × Text)
  pub auto_installed : List (Text × Text)
  pub applications : List (Text × Text)
  pub missing : List (Text × Text)
  pub uninstallable : List (Text × Text)
  pub total : ℕ

abbrev pub is_application : Option GraphEntry → Bool
is_application none = false
is_application (some e) = e.application

-- `graph.get(name, {}).get("title") or name`
abbrev pub title_or : Text → Option GraphEntry → Text
title_or name none = name
title_or name (some e) = elim e.title [ [] ↦ name | c ∷ t ↦ c ∷ t ]

-- Each name with its title, in order.
unfoldable pub described : Graph → List Text → List (Text × Text)
described graph names = map (λ name. (name, title_or name (Dict.get name graph))) (sort_texts names)

-- `sorted(d.items())`: the names are those of a dictionary, each once.
abbrev pub sorted_items : Dict Text Text → List (Text × Text)
sorted_items d =
    map (λ name. (name, elim (Dict.get name d) [ none ↦ [] | some v ↦ v ])) (sort_texts (keys d))

-- `list(dict.fromkeys(names))`
unfoldable pub without_repeats : List Text → List Text → List Text
without_repeats seen [] = []
without_repeats seen (name ∷ names) =
    let rest = without_repeats (name ∷ seen) names in
    let skipped = without_repeats seen names in if contains seen name then skipped else name ∷ rest

unfoldable pub plan_of : List Text → Graph → List Text → AutoPass → InstallPlan
plan_of installed graph requested p =
    let r = p.resolution in
    let new_modules = filter (λ name. not (contains requested name)) (keys r.to_install) in
    record {
      requested = filter (λ name. Dict.has name r.to_install) requested;
      already_installed = filter (contains installed) requested;
      dependencies =
          described graph (filter (λ name. not (contains p.auto_installed name)) new_modules);
      auto_installed = described graph (filter (contains p.auto_installed) new_modules);
      applications =
          described graph (filter (λ name. is_application (Dict.get name graph)) new_modules);
      missing = sorted_items r.missing;
      uninstallable = sorted_items r.uninstallable;
      total = length r.to_install;
    }

unfoldable pub module_install_plan : Graph → Dict Text Text → List Text → InstallPlan
module_install_plan graph states requested =
    let names = without_repeats [] requested in
    plan_of (installed_names states) graph names
      (resolution_of (installed_names states) graph names)
