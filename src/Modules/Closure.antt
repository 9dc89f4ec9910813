-- ===== src/Modules/Closure.antt =====
-- What an installation adds is closed under the dependencies.
use mathlib.Core.Path.{subst}
use sdk_local_manager.Prelude.{
  ℕ, zero, suc, ◌+◌, ◌≡◌, refl, Bool, true, ◌||◌, some, List, [], ◌∷◌, map, arith, contains, ◌==◌,
  eq_iff, Eq_ℕ, Eq_List, Bool-cases, Option-cases, inl, inr,
}
use sdk_local_manager.Prelude.Text.{Text}
use sdk_local_manager.Prelude.Dict
use sdk_local_manager.Prelude.Dict.{Dict, get-put}
use sdk_local_manager.Modules.{
  GraphEntry, Graph, Resolution, settled, set_default, visit_module, extend_stack, resolve,
  depends_count, add, add_all,
}
use sdk_local_manager.Modules.Plan.{has-put, add-resolve}

-- Nothing is left to do for this name: it is there, it will be installed, or it is reported.
abbrev pub handled : List Text → Resolution → Text → Bool
handled installed r name =
    settled installed r name || Dict.has name r.missing || Dict.has name r.uninstallable

abbrev on_stack : List (Text × Text) → Text → Bool
on_stack stack name = contains (map (λ x. x.0) stack) name

-- Each dependency of a module to install is handled, or is on the stack.
record Pending (installed : List Text) (graph : Graph) (stack : List (Text × Text)) (r : Resolution)
    : Type 0 where
  pending :
      (name d : Text) (e : GraphEntry)
      → Dict.has name r.to_install ≡ true
      → Dict.get name graph ≡ some e
      → contains e.depends d ≡ true
      → (handled installed r d || on_stack stack d) ≡ true

-- What is handled stays handled.
record Grows (installed : List Text) (r r' : Resolution) : Type 0 where
  grows : (name : Text) → handled installed r name ≡ true → handled installed r' name ≡ true

has-set_default :
    (k v j : Text) (d : Dict Text Text)
    → Dict.has j (set_default k v d) ≡ ((k == j) || Dict.has j d)
unfolding set_default
has-set_default k v j d = elim (Bool-cases (k == j)) [
  | inl h ↦ let same : k ≡ j = (eq_iff k j).0 h in ground (arith, has-put k j v d, same, h)
  | inr h ↦ ground (arith, has-put k j v d, h)
]

on_stack-extend_stack :
    (current : Text) (ds : List Text) (stack : List (Text × Text)) (x : Text)
    → on_stack (extend_stack current ds stack) x ≡ (contains ds x || on_stack stack x)
unfolding extend_stack
on_stack-extend_stack current [] stack x = refl
on_stack-extend_stack current (d ∷ ds) stack x =
    ground (arith, on_stack-extend_stack current ds ((d, current) ∷ stack) x)

module _ (installed : List Text) (graph : Graph) where
  -- A turn of the loop keeps what is pending, grows, and handles the module taken.
  record LoopTurn (current parent : Text) (before : Resolution) (after : Resolution)
      (stack stack' : List (Text × Text)) : Type 0 where
    keeps :
        Pending installed graph ((current, parent) ∷ stack) before
        → Pending installed graph stack' after
    growth : Grows installed before after
    taken : handled installed after current ≡ true
    below : (name : Text) → on_stack stack name ≡ true → on_stack stack' name ≡ true

  LoopTurn-missing :
      (current parent : Text) (stack : List (Text × Text)) (r : Resolution)
      → LoopTurn current parent r
          (record r { missing = set_default current parent r.missing })
          stack
          stack
  LoopTurn-missing current parent stack r = record {
    keeps = λ p. record {
      pending = λ name d e h f c.
          ground (arith, p.pending name d e h f c, has-set_default current parent d r.missing);
    };
    growth = record {
      grows = λ name h. ground (arith, has-set_default current parent name r.missing);
    };
    taken =
        ground (arith, has-set_default current parent current r.missing, eq_iff current current);
    below = λ name h. h;
  }

  LoopTurn-uninstallable :
      (current parent : Text) (stack : List (Text × Text)) (r : Resolution)
      → LoopTurn current parent r
          (record r { uninstallable = set_default current parent r.uninstallable })
          stack
          stack
  LoopTurn-uninstallable current parent stack r = record {
    keeps = λ p. record {
      pending = λ name d e h f c.
          ground
            (arith, p.pending name d e h f c, has-set_default current parent d r.uninstallable);
    };
    growth = record {
      grows = λ name h. ground (arith, has-set_default current parent name r.uninstallable);
    };
    taken =
        ground
          (arith, has-set_default current parent current r.uninstallable, eq_iff current current);
    below = λ name h. h;
  }

  LoopTurn-install :
      (current parent : Text) (x : GraphEntry) (stack : List (Text × Text)) (r : Resolution)
      → Dict.get current graph ≡ some x
      → LoopTurn current parent r
          (record r { to_install = Dict.put current parent r.to_install })
          stack
          (extend_stack current x.depends stack)
  LoopTurn-install current parent x stack r g = record {
    keeps = λ p. record {
      pending = λ name d e h f c. elim (Bool-cases (current == name)) [
        | inl s ↦
            let same : current ≡ name = (eq_iff current name).0 s in
            let entry : x ≡ e = ground (arith, g, f, same) in
            rw (on_stack-extend_stack current x.depends stack d) (ground (arith, entry, c))
        | inr s ↦ rw (on_stack-extend_stack current x.depends stack d) (
            ground (
              arith,
              p.pending name d e (ground (arith, has-put current name parent r.to_install, s)) f c,
              has-put current d parent r.to_install,
            ))
      ];
    };
    growth = record { grows = λ name h. ground (arith, has-put current name parent r.to_install) };
    taken = ground (arith, has-put current current parent r.to_install, eq_iff current current);
    below = λ name h. ground (arith, on_stack-extend_stack current x.depends stack name);
  }

  visit_module-LoopTurn :
      (current parent : Text) (stack : List (Text × Text)) (r : Resolution)
      → LoopTurn current parent r
          (visit_module installed graph current parent stack r).1
          stack
          (visit_module installed graph current parent stack r).0
  unfolding visit_module
  visit_module-LoopTurn current parent stack r = elim (Bool-cases (settled installed r current)) [
    | inl s ↦ rw s (record {
      keeps = λ p. record {
        pending = λ name d e h f c. elim (Bool-cases (current == d)) [
          | inl t ↦ let same : current ≡ d = (eq_iff current d).0 t in ground (arith, rw same at s)
          | inr t ↦ ground (arith, p.pending name d e h f c, t)
        ];
      };
      growth = record { grows = λ name h. h };
      taken = ground arith;
      below = λ name h. h;
    })
    | inr s ↦ elim (Option-cases (Dict.get current graph)) [
      | inl f ↦ rw (s, f) (LoopTurn-missing current parent stack r)
      | inr (e, f) ↦ elim (Bool-cases e.installable) [
        | inl i ↦ rw (s, f, i) (LoopTurn-install current parent e stack r f)
        | inr i ↦ rw (s, f, i) (LoopTurn-uninstallable current parent stack r)
      ]
    ]
  ]

  -- What the whole loop does.
  record Resolved (stack : List (Text × Text)) (r r' : Resolution) : Type 0 where
    keeps : Pending installed graph stack r → Pending installed graph [] r'
    growth : Grows installed r r'
    taken : (name : Text) → on_stack stack name ≡ true → handled installed r' name ≡ true

  resolve-Resolved :
      (fuel : ℕ) (stack : List (Text × Text)) (r r' : Resolution)
      → resolve installed graph fuel stack r ≡ some r'
      → Resolved stack r r'
  unfolding resolve
  resolve-Resolved fuel [] r r' h =
      let same : r ≡ r' = ground arith in
      subst (λ x. Resolved [] r x) same
        (record { keeps = λ p. p; growth = record { grows = λ name g. g }; taken = λ name g. cc })
  resolve-Resolved zero (x ∷ stack) r r' h = cc
  resolve-Resolved (suc fuel) ((current, parent) ∷ stack) r r' h =
      let v = visit_module installed graph current parent stack r in
      let turn = visit_module-LoopTurn current parent stack r in
      let rest = resolve-Resolved fuel v.0 v.1 r' h in
      record {
        keeps = λ p. rest.keeps (turn.keeps p);
        growth = record { grows = λ name g. rest.growth.grows name (turn.growth.grows name g) };
        taken = λ name g. elim (Bool-cases (current == name)) [
          | inl t ↦
              rest.growth.grows name
                (subst (λ y. handled installed v.1 y ≡ true) ((eq_iff current name).0 t) turn.taken)
          | inr t ↦ rest.taken name (turn.below name (ground arith))
        ];
      }

-- What is to be installed is closed: each dependency of a module to install is there, will be
-- installed, or is reported as missing or as not installable.
pub record IsClosed (installed : List Text) (graph : Graph) (r : Resolution) : Type 0 where
  pub closed :
      (name d : Text) (e : GraphEntry)
      → Dict.has name r.to_install ≡ true
      → Dict.get name graph ≡ some e
      → contains e.depends d ≡ true
      → handled installed r d ≡ true

pub add-Grows :
    (installed : List Text) (graph : Graph) (name parent : Text) (r : Resolution) (x : Text)
    → handled installed r x ≡ true
    → handled installed (add installed graph name parent r) x ≡ true
add-Grows installed graph name parent r x h =
    (resolve-Resolved installed graph (1 + depends_count graph) ((name, parent) ∷ []) r _
        (add-resolve installed graph name parent r)).growth.grows
      x h

pub add-handled :
    (installed : List Text) (graph : Graph) (name parent : Text) (r : Resolution)
    → handled installed (add installed graph name parent r) name ≡ true
add-handled installed graph name parent r =
    (resolve-Resolved installed graph (1 + depends_count graph) ((name, parent) ∷ []) r _
        (add-resolve installed graph name parent r)).taken
      name (ground (arith, eq_iff name name))

pub add-IsClosed :
    (installed : List Text) (graph : Graph) (name parent : Text) (r : Resolution)
    → IsClosed installed graph r
    → IsClosed installed graph (add installed graph name parent r)
add-IsClosed installed graph name parent r c =
    let p =
      (resolve-Resolved installed graph (1 + depends_count graph) ((name, parent) ∷ []) r _
          (add-resolve installed graph name parent r)).keeps
        (record { pending = λ n d e h f g. ground (arith, c.closed n d e h f g) }) in
    record { closed = λ n d e h f g. ground (arith, p.pending n d e h f g) }

-- Of the modules that are asked for, each is there already, will be installed, or is reported; and
-- what is to be installed stays closed under dependencies.
pub add_all-IsClosed :
    (installed : List Text) (graph : Graph) (names : List Text) (r : Resolution)
    → IsClosed installed graph r
    → IsClosed installed graph (add_all installed graph names r)
      × ((x : Text)
          → (contains names x || handled installed r x) ≡ true
          → handled installed (add_all installed graph names r) x ≡ true)
unfolding add_all
add_all-IsClosed installed graph [] r c = (c, λ x h. h)
add_all-IsClosed installed graph (name ∷ names) r c =
    let r1 = add installed graph name [] r in
    let rest =
      add_all-IsClosed installed graph names r1 (add-IsClosed installed graph name [] r c) in
    (
      rest.0,
      λ x h. rest.1 x (elim (Bool-cases (name == x)) [
        | inl t ↦
            let same : name ≡ x = (eq_iff name x).0 t in
            ground (arith, rw same at (add-handled installed graph name [] r))
        | inr t ↦ ground (arith, add-Grows installed graph name [] r x)
      ]),
    )
