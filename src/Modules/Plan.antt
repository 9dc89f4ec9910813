-- ===== src/Modules/Plan.antt =====
-- The resolution of an installation: it ends, and what it installs is closed under dependencies.
use sdk_local_manager.Prelude.{
  ℕ, zero, suc, ◌+◌, ◌≤◌, ◌≡◌, refl, false, ◌||◌, some, List, [], ◌∷◌, arith, length, if◌then◌else◌,
  ◌==◌, eq_iff, Eq_ℕ, Eq_List, Bool-cases, Option-cases, inl, inr,
}
use sdk_local_manager.Prelude.Text.{Text}
use sdk_local_manager.Prelude.Dict
use sdk_local_manager.Prelude.Dict.{Dict, get-put}
use sdk_local_manager.Modules.{
  GraphEntry, Graph, Resolution, settled, set_default, extend_stack, visit_module, resolve,
  depends_count, add,
}

-- The dependencies of the modules that are not yet to be installed.
abbrev weight : Graph → Resolution → ℕ
weight [] r = 0
weight ((name, e) ∷ graph) r =
    (if Dict.has name r.to_install then 0 else length e.depends) + weight graph r

pub has-put :
    (k j v : Text) (d : Dict Text Text) → Dict.has j (Dict.put k v d) ≡ ((k == j) || Dict.has j d)
has-put k j v d = ground (arith, get-put k j v d)

weight-same :
    (graph : Graph) (r : Resolution) (missing uninstallable : Dict Text Text)
    → weight graph (record r { missing = missing; uninstallable = uninstallable }) ≡ weight graph r
weight-same [] r missing uninstallable = refl
weight-same ((name, e) ∷ graph) r missing uninstallable =
    ground (arith, weight-same graph r missing uninstallable)

weight-put-le :
    (current parent : Text) (graph : Graph) (r : Resolution)
    → weight graph (record r { to_install = Dict.put current parent r.to_install }) ≤ weight graph r
weight-put-le current parent [] r = omega arith
weight-put-le current parent ((name, e) ∷ graph) r =
    ground (arith, has-put current name parent r.to_install, weight-put-le current parent graph r)

weight-put :
    (current parent : Text) (graph : Graph) (r : Resolution) (e : GraphEntry)
    → Dict.get current graph ≡ some e
    → Dict.has current r.to_install ≡ false
    → weight graph (record r { to_install = Dict.put current parent r.to_install })
        + length e.depends
      ≤ weight graph r
unfolding Dict.get
weight-put current parent [] r e f h = cc
weight-put current parent ((name, x) ∷ graph) r e f h = elim (Bool-cases (name == current)) [
  | inl s ↦
      let same : name ≡ current = (eq_iff name current).0 s in
      ground (
        arith,
        has-put current name parent r.to_install,
        weight-put-le current parent graph r,
        same,
        s,
      )
  | inr s ↦
      ground
        (arith, has-put current name parent r.to_install, weight-put current parent graph r e, s)
]

length-extend_stack :
    (current : Text) (ds : List Text) (stack : List (Text × Text))
    → length (extend_stack current ds stack) ≡ length ds + length stack
unfolding extend_stack
length-extend_stack current [] stack = omega arith
length-extend_stack current (d ∷ ds) stack =
    omega (arith, length-extend_stack current ds ((d, current) ∷ stack))

-- A turn of the loop pushes no more than it takes from the weight.
visit_module-weight :
    (installed : List Text) (graph : Graph) (current parent : Text) (stack : List (Text × Text))
    (r : Resolution)
    → length (visit_module installed graph current parent stack r).0
        + weight graph (visit_module installed graph current parent stack r).1
      ≤ length stack + weight graph r
unfolding visit_module
visit_module-weight installed graph current parent stack r =
    elim (Bool-cases (settled installed r current)) [
      | inl s ↦ rw s (omega arith)
      | inr s ↦ elim (Option-cases (Dict.get current graph)) [
        | inl f ↦
            rw (s, f)
              (omega
                (arith, weight-same graph r (set_default current parent r.missing) r.uninstallable))
        | inr (e, f) ↦ elim (Bool-cases e.installable) [
          | inl i ↦
              rw (s, f, i)
                (omega (
                  arith,
                  length-extend_stack current e.depends stack,
                  weight-put current parent graph r e f (ground arith),
                ))
          | inr i ↦
              rw (s, f, i)
                (omega (
                  arith,
                  weight-same graph r r.missing (set_default current parent r.uninstallable),
                ))
        ]
      ]
    ]

weight-le : (graph : Graph) (r : Resolution) → weight graph r ≤ depends_count graph
weight-le [] r = omega arith
weight-le ((name, e) ∷ graph) r = ground (arith, weight-le graph r)

resolve-some :
    (installed : List Text) (graph : Graph) (fuel : ℕ) (stack : List (Text × Text)) (r : Resolution)
    → length stack + weight graph r ≤ fuel
    → (r' : Resolution) × (resolve installed graph fuel stack r ≡ some r')
unfolding resolve
resolve-some installed graph fuel [] r h = (r, refl)
resolve-some installed graph zero (x ∷ stack) r h = absurd (omega arith)
resolve-some installed graph (suc fuel) ((current, parent) ∷ stack) r h =
    let v = visit_module installed graph current parent stack r in
    resolve-some installed graph fuel v.0 v.1
      (omega (arith, h, visit_module-weight installed graph current parent stack r))

-- The loop of `add` ends: the fuel that the number of declared dependencies gives is enough.
pub add-resolve :
    (installed : List Text) (graph : Graph) (name required_by : Text) (r : Resolution)
    → resolve installed graph (1 + depends_count graph) ((name, required_by) ∷ []) r
      ≡ some (add installed graph name required_by r)
unfolding add
add-resolve installed graph name required_by r =
    let (r', e) =
      resolve-some installed graph (1 + depends_count graph) ((name, required_by) ∷ []) r
        (omega (arith, weight-le graph r)) in
    rw e refl
