-- ===== src/Modules/Progress.antt =====
-- Each pass that installs something settles a candidate, so the passes end.
use sdk_local_manager.Prelude.{
  ℕ, zero, suc, ◌+◌, ◌≤◌, ◌<◌, ◌≡◌, sym, true, false, not, some, List, [], ◌∷◌, filter, arith,
  length, contains, ◌==◌, eq_iff, Eq_ℕ, Eq_List, Bool-cases, Option-cases, inl, inr,
  length-filter-le,
}
use sdk_local_manager.Prelude.Text.{Text}
use sdk_local_manager.Prelude.Dict
use sdk_local_manager.Prelude.Dict.{Dict, keys}
use sdk_local_manager.Modules.{
  GraphEntry, Graph, Resolution, settled, visit_module, resolve, depends_count, add, is_candidate,
}
use sdk_local_manager.Modules.Plan.{has-put, add-resolve}

module _ (installed : List Text) (graph : Graph) where
  visit_module-settled :
      (current parent : Text) (stack : List (Text × Text)) (r : Resolution) (x : Text)
      → settled installed r x ≡ true
      → settled installed (visit_module installed graph current parent stack r).1 x ≡ true
  unfolding visit_module
  visit_module-settled current parent stack r x h =
      elim (Bool-cases (settled installed r current)) [
        | inl s ↦ rw s h
        | inr s ↦ elim (Option-cases (Dict.get current graph)) [
          | inl f ↦ rw (s, f) h
          | inr (e, f) ↦ elim (Bool-cases e.installable) [
            | inl i ↦ rw (s, f, i) (ground (arith, has-put current x parent r.to_install))
            | inr i ↦ rw (s, f, i) h
          ]
        ]
      ]

  visit_module-takes :
      (current parent : Text) (stack : List (Text × Text)) (r : Resolution) (e : GraphEntry)
      → Dict.get current graph ≡ some e
      → e.installable ≡ true
      → settled installed (visit_module installed graph current parent stack r).1 current ≡ true
  unfolding visit_module
  visit_module-takes current parent stack r e f i =
      elim (Bool-cases (settled installed r current)) [
        | inl s ↦ rw s s
        | inr s ↦
            rw (s, f, i)
              (ground (arith, has-put current current parent r.to_install, eq_iff current current))
      ]

  resolve-settled :
      (fuel : ℕ) (stack : List (Text × Text)) (r r' : Resolution) (x : Text)
      → resolve installed graph fuel stack r ≡ some r'
      → settled installed r x ≡ true
      → settled installed r' x ≡ true
  unfolding resolve
  resolve-settled fuel [] r r' x h s = let same : r ≡ r' = ground arith in rw (sym same) s
  resolve-settled zero (t ∷ stack) r r' x h s = cc
  resolve-settled (suc fuel) ((current, parent) ∷ stack) r r' x h s =
      let v = visit_module installed graph current parent stack r in
      resolve-settled fuel v.0 v.1 r' x h (visit_module-settled current parent stack r x s)

  pub add-settled :
      (name : Text) (r : Resolution) (x : Text)
      → settled installed r x ≡ true
      → settled installed (add installed graph name [] r) x ≡ true
  add-settled name r x s =
      resolve-settled (1 + depends_count graph) ((name, []) ∷ []) r _ x
        (add-resolve installed graph name [] r) s

  resolve-takes :
      (fuel : ℕ) (current parent : Text) (stack : List (Text × Text)) (r r' : Resolution)
      (e : GraphEntry)
      → resolve installed graph fuel ((current, parent) ∷ stack) r ≡ some r'
      → Dict.get current graph ≡ some e
      → e.installable ≡ true
      → settled installed r' current ≡ true
  unfolding resolve
  resolve-takes zero current parent stack r r' e h f i = cc
  resolve-takes (suc fuel) current parent stack r r' e h f i =
      let v = visit_module installed graph current parent stack r in
      resolve-settled fuel v.0 v.1 r' current h (visit_module-takes current parent stack r e f i)

  pub add-takes :
      (name : Text) (r : Resolution)
      → is_candidate (Dict.get name graph) ≡ true
      → settled installed (add installed graph name [] r) name ≡ true
  unfolding is_candidate
  add-takes name r c = elim (Option-cases (Dict.get name graph)) [
    | inl f ↦ absurd (ground arith)
    | inr (e, f) ↦
        resolve-takes (1 + depends_count graph) name [] [] r _ e
          (add-resolve installed graph name [] r) f (ground arith)
  ]

  pub unsettled : Resolution → List Text → ℕ
  unsettled r cs = length (filter (λ x. not (settled installed r x)) cs)

  unsettled-le :
      (r r' : Resolution) (cs : List Text)
      → ((x : Text) → settled installed r x ≡ true → settled installed r' x ≡ true)
      → unsettled r' cs ≤ unsettled r cs
  unfolding unsettled
  unsettled-le r r' [] g = omega arith
  unsettled-le r r' (c ∷ cs) g = ground (arith, g c, unsettled-le r r' cs g)

  pub unsettled-lt :
      (r r' : Resolution) (cs : List Text) (x : Text)
      → ((y : Text) → settled installed r y ≡ true → settled installed r' y ≡ true)
      → contains cs x ≡ true
      → settled installed r x ≡ false
      → settled installed r' x ≡ true
      → unsettled r' cs < unsettled r cs
  unfolding unsettled
  unsettled-lt r r' [] x g c s t = cc
  unsettled-lt r r' (c ∷ cs) x g m s t = elim (Bool-cases (c == x)) [
    | inl e ↦ let same : c ≡ x = (eq_iff c x).0 e in ground (arith, unsettled-le r r' cs g, same)
    | inr e ↦ ground (arith, g c, unsettled-lt r r' cs x g (ground arith) s t)
  ]

  pub unsettled_bound : (r : Resolution) (cs : List Text) → unsettled r cs ≤ length cs
  unfolding unsettled
  unsettled_bound r cs = length-filter-le (λ x. not (settled installed r x)) cs
