-- ===== src/Modules/Automatic.antt =====
-- The modules that install themselves: the loop over the candidates ends, and leaves none due.
use mathlib.Core.Path.{subst}
use sdk_local_manager.Prelude.{if-cases, if-some}
use sdk_local_manager.Prelude.{
  ℕ, zero, suc, ◌+◌, ◌≤◌, ◌<◌, ◌≡◌, refl, sym, Bool, true, false, some, List, [], ◌∷◌, ◌++◌, filter,
  arith, length, contains, ◌==◌, eq_iff, Eq_ℕ, Eq_List, Bool-cases, inl, inr, ◌⊎◌,
}
use sdk_local_manager.Prelude.Text.{Text}
use sdk_local_manager.Prelude.Dict
use sdk_local_manager.Modules.{
  Graph, Resolution, AutoPass, settled, add, add_all, candidates, is_due, auto_pass, auto_loop,
  resolution_of, nothing_found, or_pass, is_candidate,
}
use sdk_local_manager.Modules.Progress.{
  unsettled, unsettled-lt, unsettled_bound, add-settled, add-takes,
}
use sdk_local_manager.Prelude.Sorting.{contains-sort_texts}
use sdk_local_manager.Prelude.Dict.{keys}
use sdk_local_manager.Modules.Closure.{IsClosed, handled, add-IsClosed, add_all-IsClosed, add-Grows}

some-eq : (p q : AutoPass) → some p ≡ some q → p ≡ q
some-eq p q h = cc

contains-filter :
    (p : Text → Bool) (x : Text) (ts : List Text) → contains (filter p ts) x ≡ true → p x ≡ true
contains-filter p x [] h = cc
contains-filter p x (t ∷ ts) h = elim (Bool-cases (t == x)) [
  | inl e ↦ let same : t ≡ x = (eq_iff t x).0 e in ground (arith, contains-filter p x ts, same)
  | inr e ↦ ground (arith, contains-filter p x ts)
]

module _ (installed : List Text) (graph : Graph) where
  auto_pass-IsClosed :
      (names : List Text) (p : AutoPass)
      → IsClosed installed graph p.resolution
      → IsClosed installed graph (auto_pass installed graph names p).resolution
  unfolding auto_pass
  auto_pass-IsClosed [] p c = c
  auto_pass-IsClosed (name ∷ names) p c =
      elim (Bool-cases (is_due installed graph p.resolution name)) [
        | inl d ↦
            rw d (auto_pass-IsClosed names _ (add-IsClosed installed graph name [] p.resolution c))
        | inr d ↦ rw d (auto_pass-IsClosed names p c)
      ]

  auto_loop-IsClosed :
      (fuel : ℕ) (p q : AutoPass)
      → IsClosed installed graph p.resolution
      → auto_loop installed graph fuel p ≡ some q
      → IsClosed installed graph q.resolution
  unfolding auto_loop
  auto_loop-IsClosed zero p q c h = cc
  auto_loop-IsClosed (suc fuel) p q c h =
      let p' = auto_pass installed graph (candidates graph) (record p { changed = false }) in
      let c' = auto_pass-IsClosed (candidates graph) (record p { changed = false }) c in
      elim (if-cases p'.changed (auto_loop installed graph fuel p') (some p') (some q) h) [
        | inl (d, e) ↦ auto_loop-IsClosed fuel p' q c' e
        | inr (d, e) ↦
            subst (λ (x : AutoPass). IsClosed installed graph x.resolution) (some-eq p' q e) c'
      ]

  auto_pass-handled :
      (names : List Text) (p : AutoPass) (x : Text)
      → handled installed p.resolution x ≡ true
      → handled installed (auto_pass installed graph names p).resolution x ≡ true
  unfolding auto_pass
  auto_pass-handled [] p x h = h
  auto_pass-handled (name ∷ names) p x h =
      elim (Bool-cases (is_due installed graph p.resolution name)) [
        | inl d ↦
            rw d (auto_pass-handled names _ x (add-Grows installed graph name [] p.resolution x h))
        | inr d ↦ rw d (auto_pass-handled names p x h)
      ]

  auto_loop-handled :
      (fuel : ℕ) (p q : AutoPass) (x : Text)
      → handled installed p.resolution x ≡ true
      → auto_loop installed graph fuel p ≡ some q
      → handled installed q.resolution x ≡ true
  unfolding auto_loop
  auto_loop-handled zero p q x c h = cc
  auto_loop-handled (suc fuel) p q x c h =
      let p' = auto_pass installed graph (candidates graph) (record p { changed = false }) in
      let c' = auto_pass-handled (candidates graph) (record p { changed = false }) x c in
      elim (if-cases p'.changed (auto_loop installed graph fuel p') (some p') (some q) h) [
        | inl (d, e) ↦ auto_loop-handled fuel p' q x c' e
        | inr (d, e) ↦
            subst (λ (y : AutoPass). handled installed y.resolution x ≡ true) (some-eq p' q e) c'
      ]

  -- A pass that changes nothing met no candidate that is due.
  auto_pass-unchanged :
      (names : List Text) (p : AutoPass) (x : Text)
      → (auto_pass installed graph names p).changed ≡ false
      → (p.changed ≡ false)
        × ((auto_pass installed graph names p).resolution ≡ p.resolution)
        × (contains names x ≡ true → is_due installed graph p.resolution x ≡ false)
  unfolding auto_pass
  auto_pass-unchanged [] p x h = (h, refl, λ e. cc)
  auto_pass-unchanged (name ∷ names) p x h =
      elim (Bool-cases (is_due installed graph p.resolution name)) [
        | inl d ↦
            let after : AutoPass = record {
              resolution = add installed graph name [] p.resolution;
              auto_installed = p.auto_installed ++ name ∷ [];
              changed = true;
            } in
            let rest = auto_pass-unchanged names after x (rw d at h) in
            absurd (let e : true ≡ false = rest.0 in cc)
        | inr d ↦
            let rest = auto_pass-unchanged names p x (rw d at h) in
            (
              rest.0,
              rw d rest.1,
              λ e. elim (Bool-cases (name == x)) [
                | inl t ↦
                    subst (λ y. is_due installed graph p.resolution y ≡ false) ((eq_iff name x).0 t)
                      d
                | inr t ↦ rest.2 (ground arith)
              ],
            )
      ]

  -- When the loop ends, no candidate is due.
  auto_loop_complete :
      (fuel : ℕ) (p q : AutoPass) (x : Text)
      → auto_loop installed graph fuel p ≡ some q
      → contains (candidates graph) x ≡ true
      → is_due installed graph q.resolution x ≡ false
  unfolding auto_loop
  auto_loop_complete zero p q x h m = cc
  auto_loop_complete (suc fuel) p q x h m =
      let p1 : AutoPass = record p { changed = false } in
      let p' = auto_pass installed graph (candidates graph) p1 in
      elim (if-cases p'.changed (auto_loop installed graph fuel p') (some p') (some q) h) [
        | inl (d, e) ↦ auto_loop_complete fuel p' q x e m
        | inr (d, e) ↦
            let same = auto_pass-unchanged (candidates graph) p1 x d in
            subst (λ (y : AutoPass). is_due installed graph y.resolution x ≡ false) (some-eq p' q e)
              (subst (λ (r : Resolution). is_due installed graph r x ≡ false) (sym same.1)
                (same.2 m))
      ]

  contains-tail :
      (c : Text) (names cs : List Text)
      → ((x : Text) → contains (c ∷ names) x ≡ true → contains cs x ≡ true)
      → (x : Text) → contains names x ≡ true
      → contains cs x ≡ true
  contains-tail c names cs h x m = h x (ground arith)

  candidate-found :
      (x : Text) → contains (candidates graph) x ≡ true → is_candidate (Dict.get x graph) ≡ true
  unfolding candidates
  candidate-found x h =
      contains-filter (λ name. is_candidate (Dict.get name graph)) x (keys graph)
        (ground (
          arith,
          contains-sort_texts x (filter (λ name. is_candidate (Dict.get name graph)) (keys graph)),
        ))

  due-unsettled :
      (r : Resolution) (x : Text)
      → is_due installed graph r x ≡ true
      → settled installed r x ≡ false
  unfolding is_due
  due-unsettled r x e = ground arith

  -- A pass settles no fewer candidates than before it, and more if it changes something.
  auto_pass-unsettled :
      (names : List Text) (p : AutoPass)
      → ((x : Text) → contains names x ≡ true → contains (candidates graph) x ≡ true)
      → (unsettled installed graph (auto_pass installed graph names p).resolution (candidates graph)
          ≤ unsettled installed graph p.resolution (candidates graph))
        × ((auto_pass installed graph names p).changed ≡ true
            → (p.changed ≡ true)
              ⊎ (unsettled installed graph
                    (auto_pass installed graph names p).resolution
                    (candidates graph)
                  < unsettled installed graph p.resolution (candidates graph)))
  unfolding auto_pass
  auto_pass-unsettled [] p h = (omega arith, λ e. inl e)
  auto_pass-unsettled (name ∷ names) p h =
      elim (Bool-cases (is_due installed graph p.resolution name)) [
        | inl d ↦
            let after : AutoPass = record {
              resolution = add installed graph name [] p.resolution;
              auto_installed = p.auto_installed ++ name ∷ [];
              changed = true;
            } in
            let m = h name (ground (arith, eq_iff name name)) in
            let less =
              unsettled-lt installed graph p.resolution after.resolution (candidates graph) name
                (add-settled installed graph name p.resolution) m
                (due-unsettled p.resolution name d)
                (add-takes installed graph name p.resolution (candidate-found name m)) in
            let rest =
              auto_pass-unsettled names after (contains-tail name names (candidates graph) h) in
            rw d (omega (arith, less, rest.0), λ e. inr (omega (arith, less, rest.0)))
        | inr d ↦ rw d (auto_pass-unsettled names p (contains-tail name names (candidates graph) h))
      ]

  auto_loop-some :
      (fuel : ℕ) (p : AutoPass)
      → unsettled installed graph p.resolution (candidates graph) < fuel
      → (q : AutoPass) × (auto_loop installed graph fuel p ≡ some q)
  unfolding auto_loop
  auto_loop-some zero p h = absurd (omega arith)
  auto_loop-some (suc fuel) p h =
      let p1 : AutoPass = record p { changed = false } in
      let p' = auto_pass installed graph (candidates graph) p1 in
      let c = auto_pass-unsettled (candidates graph) p1 (λ x m. m) in
      if-some p'.changed (auto_loop installed graph fuel p') p' (λ d.
        auto_loop-some fuel p' (elim (c.1 d) [ inl e ↦ absurd (cc) | inr l ↦ omega (arith, h, l) ]))

nothing : (name : Text) → Dict.has name nothing_found.to_install ≡ true → ⊥
unfolding Dict.get
nothing name h = cc

-- The plan of an installation is complete and closed. Each dependency of a module to install is
-- there, will be installed, or is reported as missing or not installable; so is each module that is
-- asked for; and no candidate is left whose triggers are all there, one of them newly.
pub resolution_of-IsClosed :
    (installed : List Text) (graph : Graph) (requested : List Text)
    → IsClosed installed graph (resolution_of installed graph requested).resolution
      × ((x : Text)
          → contains requested x ≡ true
          → handled installed (resolution_of installed graph requested).resolution x ≡ true)
      × ((x : Text)
          → contains (candidates graph) x ≡ true
          → is_due installed graph (resolution_of installed graph requested).resolution x ≡ false)
unfolding resolution_of
resolution_of-IsClosed installed graph requested =
    let first : AutoPass = record {
      resolution = add_all installed graph requested nothing_found;
      auto_installed = [];
      changed = false;
    } in
    let c =
      add_all-IsClosed installed graph requested nothing_found
        (record { closed = λ name d e h f m. absurd (nothing name h) }) in
    let (q, e) =
      auto_loop-some installed graph (1 + length (candidates graph)) first
        (omega (arith, unsettled_bound installed graph first.resolution (candidates graph))) in
    let same : or_pass first (auto_loop installed graph (1 + length (candidates graph)) first) ≡ q =
      rw e refl in
    rw same (
      auto_loop-IsClosed installed graph (1 + length (candidates graph)) first q c.0 e,
      λ x m.
          auto_loop-handled installed graph (1 + length (candidates graph)) first q x
            (c.1 x (ground (arith, m))) e,
      λ x m. auto_loop_complete installed graph (1 + length (candidates graph)) first q x e m,
    )
