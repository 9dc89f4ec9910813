-- ===== src/Dependencies/Tests.antt =====
-- A small database, and the theorem of its modules that are not loaded.
use sdk_local_manager.Prelude.{◌≡◌, ◌↔◌, refl, true, false, none, List, [], ◌∷◌, Eq_ℕ, Eq_List}
use sdk_local_manager.Prelude.Text.{Text, txt}
use sdk_local_manager.Prelude.Dict
use sdk_local_manager.Prelude.Dict.{Dict}
use sdk_local_manager.Prelude.Sorting.{sort_texts, insert_text}
use sdk_local_manager.Modules.{GraphEntry, active_names}
use sdk_local_manager.Dependencies.{
  Database, database, active_modules, missing_modules, is_blocking, blocking, one_round, loadable,
  rounds, not_loaded_modules,
}
use sdk_local_manager.Dependencies.Report.{
  code_absent, not_loaded_rows, root_causes, union_causes, union, add_member, dependency_report,
  unknown_modules, required_by_modules, require_all,
}
use sdk_local_manager.Dependencies.Unloadable.{Unloadable}
use sdk_local_manager.Dependencies.Complete.{not_loaded_modules_iff}

abbrev entry : List Text → GraphEntry
entry depends = record {
  title = [];
  depends = depends;
  auto_install = false;
  auto_install_triggers = [];
  installable = true;
  application = false;
  country_restricted = false;
}

-- The code of `lost` is absent: `sale` needs it, and `link` needs `sale`.
abbrev shop : Database
shop =
    database
      ((txt "base", entry [])
        ∷ (txt "link", entry (txt "sale" ∷ []))
        ∷ (txt "sale", entry (txt "lost" ∷ []))
        ∷ [])
      ((txt "base", txt "installed")
        ∷ (txt "link", txt "installed")
        ∷ (txt "sale", txt "to upgrade")
        ∷ (txt "lost", txt "installed")
        ∷ [])
      []

not_loaded_example :
    not_loaded_modules shop ≡ (txt "sale", txt "lost" ∷ []) ∷ (txt "link", txt "sale" ∷ []) ∷ []
unfolding not_loaded_modules rounds one_round loadable blocking is_blocking active_modules
    missing_modules active_names sort_texts insert_text Dict.get Dict.put
not_loaded_example = refl

not_loaded_modules_iff_example :
    (Dict.has (txt "link") (not_loaded_modules shop) ≡ true) ↔ Unloadable shop (txt "link")
not_loaded_modules_iff_example = not_loaded_modules_iff shop (txt "link")

-- Two modules that depend on each other, the first on a module that is absent: the causes of the
-- second are found while the first is on the trail, and stay empty.
rows_of_a_cycle :
    not_loaded_rows
      ((txt "a", txt "b" ∷ txt "gone" ∷ []) ∷ (txt "b", txt "a" ∷ []) ∷ [])
      (txt "a" ∷ txt "b" ∷ [])
      []
    ≡ record {
      name = txt "a";
      blocked_by = txt "b" ∷ txt "gone" ∷ [];
      root_causes = txt "gone" ∷ [];
    }
      ∷ record { name = txt "b"; blocked_by = txt "a" ∷ []; root_causes = [] }
      ∷ []
unfolding not_loaded_rows root_causes union_causes union add_member sort_texts insert_text Dict.get
    Dict.put
rows_of_a_cycle = refl

report_of_shop :
    dependency_report
      ((txt "sale", entry (txt "lost" ∷ [])) ∷ [])
      ((txt "sale", txt "installed") ∷ [])
      (txt "lost" ∷ [])
      []
    ≡ record {
      ok = false;
      missing =
          record {
            name = txt "lost";
            state = none;
            reason = code_absent;
            required_by = txt "sale" ∷ [];
            excluded = true;
          }
          ∷ [];
      not_loaded =
          record { name = txt "sale"; blocked_by = txt "lost" ∷ []; root_causes = txt "lost" ∷ [] }
          ∷ [];
    }
unfolding dependency_report not_loaded_rows root_causes union_causes union add_member
    unknown_modules required_by_modules require_all not_loaded_modules rounds one_round loadable
    blocking is_blocking active_modules missing_modules active_names sort_texts insert_text Dict.get
    Dict.put
report_of_shop = refl
