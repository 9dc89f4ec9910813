-- ===== src/Retention/Tests.antt =====
-- A small registry, and the theorems of the retention at it.
use sdk_local_manager.Prelude.{
  ℕ, ◌≤◌, ◌≡◌, refl, true, none, some, [], ◌∷◌, contains, Eq_ℕ, Eq_List,
}
use sdk_local_manager.Prelude.Text.{Text, txt}
use sdk_local_manager.Prelude.Dict
use sdk_local_manager.Prelude.Dict.{Dict, keys}
use sdk_local_manager.Retention.{
  Entry, RetentionStore, created, restored, project_state, find_project, set_project, reconcile,
  inventory, align, without_system, drop_stale, is_stale, add_found, found, extend,
  expired_databases, is_expired,
}
use sdk_local_manager.Prelude.Sorting.{sort_texts, insert_text}
use sdk_local_manager.Retention.Alignment.{aligned, live_oid, reconcile_lem}
use sdk_local_manager.Retention.Deadlines.{Extended, extend-Extended, expired_databases-reconcile}

-- Of the databases, `a` is over, `b` stays, `c` was created again.
abbrev registry : RetentionStore
registry = record {
  workspaces =
      (
        txt "w",
        (
          txt "client",
          record {
            inventoried_at = some 5;
            databases =
                (
                  txt "a",
                  record { oid = 1; origin = restored; arrived_at = 0; expires_at = some 7 },
                )
                ∷ (txt "b", record { oid = 2; origin = created; arrived_at = 0; expires_at = none })
                ∷ (
                  txt "c",
                  record { oid = 3; origin = restored; arrived_at = 0; expires_at = some 7 },
                )
                ∷ [];
          },
        )
            ∷ [],
      )
      ∷ [];
  written = none;
}

abbrev live : Dict Text ℕ
live = (txt "a", 1) ∷ (txt "b", 2) ∷ (txt "c", 4) ∷ (txt "postgres", 0) ∷ []

reconcile_lem_example :
    Dict.get
      (txt "c")
      (project_state
        (txt "w")
        (txt "client")
        (reconcile 9 (txt "w") (txt "client") live registry).1).databases
    ≡ aligned 9
        (live_oid live (txt "c"))
        (Dict.get (txt "c") (project_state (txt "w") (txt "client") registry).databases)
reconcile_lem_example = reconcile_lem 9 (txt "w") (txt "client") live registry (txt "c")

a_expired :
    contains
      (expired_databases
        (project_state
          (txt "w")
          (txt "client")
          (reconcile 9 (txt "w") (txt "client") live registry).1)
        9)
      (txt "a")
    ≡ true
unfolding expired_databases is_expired sort_texts insert_text project_state find_project set_project
    reconcile inventory align without_system drop_stale is_stale add_found found Dict.get Dict.put
    Dict.remove
a_expired = refl

expired_databases-reconcile_example :
    (e : Entry) × (t : ℕ) × (Dict.get
        (txt "a")
        (project_state (txt "w") (txt "client") registry).databases
      ≡ some e)
    × (live_oid live (txt "a") ≡ some e.oid)
    × (e.expires_at ≡ some t)
    × (t ≤ 9)
expired_databases-reconcile_example =
    expired_databases-reconcile 9 (txt "w") (txt "client") live registry (txt "a") a_expired

extend-Extended_example :
    Extended 9
      (txt "a")
      (project_state (txt "w") (txt "client") registry).databases
      (project_state
        (txt "w")
        (txt "client")
        (extend 9 (txt "w") (txt "client") (txt "a") registry).1).databases
      (extend 9 (txt "w") (txt "client") (txt "a") registry).0
extend-Extended_example = extend-Extended 9 (txt "w") (txt "client") (txt "a") registry
