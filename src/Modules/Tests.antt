-- ===== src/Modules/Tests.antt =====
-- A small graph of modules, and the theorem of the installation plan at it.
use sdk_local_manager.Prelude.{◌≡◌, refl, true, false, List, [], ◌∷◌, contains, Eq_ℕ, Eq_List}
use sdk_local_manager.Prelude.Text.{Text, txt}
use sdk_local_manager.Prelude.Dict
use sdk_local_manager.Prelude.Dict.{Dict, keys}
use sdk_local_manager.Prelude.Sorting.{sort_texts, insert_text}
use sdk_local_manager.Modules.{
  GraphEntry, Graph, set_default, visit_module, extend_stack, resolve, add, add_all, is_candidate,
  candidates, is_triggered, is_due, auto_pass, auto_loop, resolution_of, installed_names, plan_of,
  described, without_repeats, module_install_plan, active_names,
}
use sdk_local_manager.Modules.Closure.{IsClosed, handled}
use sdk_local_manager.Modules.Automatic.{resolution_of-IsClosed}

abbrev entry : List Text → List Text → GraphEntry
entry depends triggers = record {
  title = [];
  depends = depends;
  auto_install = true;
  auto_install_triggers = triggers;
  installable = true;
  application = false;
  country_restricted = false;
}

-- `link` installs itself with `sale`, which needs `account` and a module that is missing.
abbrev graph : Graph
graph =
    (txt "account", entry (txt "base" ∷ []) [])
    ∷ (txt "link", entry (txt "sale" ∷ []) (txt "sale" ∷ []))
    ∷ (txt "sale", entry (txt "account" ∷ txt "lost" ∷ []) [])
    ∷ []

abbrev requested : List Text
requested = txt "sale" ∷ txt "base" ∷ txt "sale" ∷ []

plan_example : module_install_plan graph [] requested ≡ record {
  requested = txt "sale" ∷ [];
  already_installed = txt "base" ∷ [];
  dependencies = (txt "account", txt "account") ∷ [];
  auto_installed = (txt "link", txt "link") ∷ [];
  applications = [];
  missing = (txt "lost", txt "sale") ∷ [];
  uninstallable = [];
  total = 3;
}
unfolding module_install_plan plan_of described installed_names active_names without_repeats
    resolution_of auto_loop auto_pass is_due is_triggered candidates is_candidate add_all add
    resolve visit_module extend_stack set_default sort_texts insert_text Dict.get Dict.put
plan_example = refl

resolution_of-IsClosed_example :
    IsClosed (txt "base" ∷ []) graph (resolution_of (txt "base" ∷ []) graph requested).resolution
    × ((x : Text)
        → contains requested x ≡ true
        → handled (txt "base" ∷ []) (resolution_of (txt "base" ∷ []) graph requested).resolution x
          ≡ true)
    × ((x : Text)
        → contains (candidates graph) x ≡ true
        → is_due
            (txt "base" ∷ [])
            graph
            (resolution_of (txt "base" ∷ []) graph requested).resolution
            x
          ≡ false)
resolution_of-IsClosed_example = resolution_of-IsClosed (txt "base" ∷ []) graph requested
