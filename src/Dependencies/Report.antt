-- ===== src/Dependencies/Report.antt =====
-- module_dependencies.py, the end of `dependency_report`: the rows that explain it.
--
-- A set is a list without repeats, in the order in which its members came; every set of the report
-- is sorted before it is shown.
use sdk_local_manager.Prelude.{
  ℕ, zero, suc, ◌+◌, ◌*◌, Bool, true, false, not, ◌&&◌, ◌||◌, Option, none, some, List, [], ◌∷◌,
  ◌++◌, map, filter, length, if◌then◌else◌, contains, Eq_ℕ, Eq_List,
}
use sdk_local_manager.Prelude.Text.{Text}
use sdk_local_manager.Prelude.Sorting.{sort_texts}
use sdk_local_manager.Prelude.Dict
use sdk_local_manager.Prelude.Dict.{Dict, keys}
use sdk_local_manager.Dependencies.{Database, NotLoaded, database, depends_of, not_loaded_modules}
use sdk_local_manager.Modules.{Graph}

-- `s.add(x)`, and `s | t`
unfoldable pub add_member : Text → List Text → List Text
add_member x s = if contains s x then s else s ++ x ∷ []

unfoldable pub union : List Text → List Text → List Text
union s [] = s
union s (x ∷ xs) = union (add_member x s) xs

abbrev pub Causes : Type 0
Causes = Dict Text (List Text)

abbrev pub list_or_empty : Option (List Text) → List Text
list_or_empty none = []
list_or_empty (some l) = l

-- The causes, and the cache after the call.
abbrev pub Answer : Type 0
Answer = List Text × Causes

abbrev pub remember : Text → Answer → Answer
remember name (causes, cache) = (causes, Dict.put name causes cache)

abbrev pub with_cached : Option (List Text) → Causes → Answer → Answer
with_cached none cache answer = answer
with_cached (some causes) cache answer = (causes, cache)

-- The loop over the modules that block one; `call` is the function itself, called with the trail.
unfoldable pub union_causes :
    (Text → Causes → Answer) → List Text → List Text → List Text → Causes → Answer
union_causes call trail [] causes cache = (causes, cache)
union_causes call trail (dependency ∷ dependencies) causes cache =
    if contains trail dependency
    then union_causes call trail dependencies causes cache
    else (let (found, cache') = call dependency cache in
        union_causes call trail dependencies (union causes found) cache')

-- A module stands at most twice on a trail, one time right after the other when it depends on
-- itself, so that twice as many calls as there are modules set aside, and one more, are enough.
unfoldable pub root_causes : NotLoaded → ℕ → List Text → Text → Causes → Answer
root_causes not_loaded zero trail name cache = ([], cache)
root_causes not_loaded (suc fuel) trail name cache =
    let searched = remember name (
      union_causes (root_causes not_loaded fuel (trail ++ name ∷ [])) trail
        (list_or_empty (Dict.get name not_loaded)) [] cache) in
    with_cached (Dict.get name cache) cache
      (if not (Dict.has name not_loaded) then (name ∷ [], cache) else searched)

-- The modules, neither missing nor set aside, that some module is blocked by.
abbrev pub blocking_names : NotLoaded → List Text
blocking_names [] = []
blocking_names ((name, blocked_by) ∷ rest) = blocked_by ++ blocking_names rest

unfoldable pub unknown_modules : Database → NotLoaded → List Text
unknown_modules b not_loaded =
    filter (λ d. not (contains b.missing d))
      (union [] (filter (λ d. not (Dict.has d not_loaded)) (blocking_names not_loaded)))

abbrev pub is_required : Database → List Text → Text → Bool
is_required b unknown dependency = contains b.missing dependency || contains unknown dependency

abbrev pub add_required : Text → Text → Causes → Causes
add_required dependency name required_by =
    Dict.put dependency (add_member name (list_or_empty (Dict.get dependency required_by)))
      required_by

unfoldable pub require_all : Database → List Text → Text → List Text → Causes → Causes
require_all b unknown name [] required_by = required_by
require_all b unknown name (dependency ∷ dependencies) required_by =
    require_all b unknown name dependencies (
      if is_required b unknown dependency
      then add_required dependency name required_by
      else required_by)

unfoldable pub required_by_modules : Database → List Text → List Text → Causes → Causes
required_by_modules b unknown [] required_by = required_by
required_by_modules b unknown (name ∷ names) required_by = required_by_modules b unknown names (
    if contains b.missing name
    then required_by
    else require_all b unknown name (depends_of (Dict.get name b.graph)) required_by)

pub data Reason : Type 0 where
  not_installable code_absent : Reason

pub record MissingRow : Type 0 where
  pub name : Text
  -- `none`: absent from the database
  pub state : Option Text
  pub reason : Reason
  pub required_by : List Text
  pub excluded : Bool

pub record NotLoadedRow : Type 0 where
  pub name : Text
  pub blocked_by : List Text
  pub root_causes : List Text

pub record Report : Type 0 where
  pub ok : Bool
  pub missing : List MissingRow
  pub not_loaded : List NotLoadedRow

abbrev pub missing_row : Database → Dict Text Text → List Text → Causes → Text → MissingRow
missing_row b states excluded required_by name = record {
  name = name;
  state = Dict.get name states;
  reason = if Dict.has name b.graph then not_installable else code_absent;
  required_by = sort_texts (list_or_empty (Dict.get name required_by));
  excluded = contains excluded name;
}

-- The rows, in order, with the cache going from one to the next.
unfoldable pub not_loaded_rows : NotLoaded → List Text → Causes → List NotLoadedRow
not_loaded_rows not_loaded [] cache = []
not_loaded_rows not_loaded (name ∷ names) cache =
    let (causes, cache') = root_causes not_loaded (1 + 2 * length not_loaded) [] name cache in
    record {
      name = name;
      blocked_by = list_or_empty (Dict.get name not_loaded);
      root_causes = sort_texts causes;
    }
    ∷ not_loaded_rows not_loaded names cache'

abbrev pub is_empty {ℓ} : {A : Type ℓ} → List A → Bool
is_empty [] = true
is_empty (x ∷ xs) = false

abbrev pub report_of : Database → Dict Text Text → List Text → NotLoaded → Report
report_of b states excluded not_loaded =
    let unknown = unknown_modules b not_loaded in
    let required_by = required_by_modules b unknown b.active [] in
    let missing =
      map (missing_row b states excluded required_by) (sort_texts (union b.missing unknown)) in
    let rows = not_loaded_rows not_loaded (sort_texts (keys not_loaded)) [] in
    record { ok = is_empty missing && is_empty rows; missing = missing; not_loaded = rows }

unfoldable pub dependency_report : Graph → Dict Text Text → List Text → List Text → Report
dependency_report graph states excluded database_only =
    let b = database graph states database_only in
    report_of b states excluded (not_loaded_modules b)
