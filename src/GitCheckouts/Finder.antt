-- ===== src/GitCheckouts/Finder.antt =====
-- A finder that remembers the directories it examined answers as one that examines them each time.
use mathlib.Core.Path.{subst}
use sdk_local_manager.Prelude.{
  ℕ, zero, suc, ◌≡◌, refl, sym, ap, ◌∙◌, Bool, true, false, ◌&&◌, ◌||◌, Option, none, some, List,
  [], ◌∷◌, map, arith, if◌then◌else◌, ◌==◌, Eq_ℕ, Eq_List, contains, eq_iff, Bool-cases, inl, inr,
}
use sdk_local_manager.Prelude.Dict
use sdk_local_manager.Prelude.Dict.{Dict, get-put}
use sdk_local_manager.Prelude.Text.{Text}
use sdk_local_manager.GitCheckouts.{
  Disk, CheckoutFinder, new_finder, holds_checkout, looked_up, is_checkout, climb, root, root_from,
}

module _ (disk : Disk) where
  -- The search without a memory.
  unfoldable pub climb_again : ℕ → List Text → Text → Text
  climb_again zero boundaries directory = []
  climb_again (suc n) boundaries directory =
      let parent = disk.dirname directory in
      let above = climb_again n boundaries parent in
      if parent == directory || contains boundaries (disk.normalized parent)
      then []
      else if holds_checkout disk boundaries (disk.normalized parent)
      then parent
      else above

  unfoldable pub root_again : List Text → ℕ → Text → Bool → Text
  root_again boundaries levels module_dir check_module =
      if check_module && holds_checkout disk boundaries (disk.normalized module_dir)
      then module_dir
      else climb_again levels boundaries module_dir

  -- Every remembered answer is that of the disk.
  abbrev pub IsTrue : CheckoutFinder → Type 0
  IsTrue f =
      (key : Text) (b : Bool)
      → Dict.get key f.checkouts ≡ some b
      → b ≡ holds_checkout disk f.boundaries key

  -- The same answer, and a memory that is as true.
  abbrev Agrees {ℓ} : {A : Type ℓ} → CheckoutFinder → A → A × CheckoutFinder → Type ℓ
  Agrees f a r = (r.0 ≡ a) × (r.1.boundaries ≡ f.boundaries) × (r.1.levels ≡ f.levels) × IsTrue r.1

  looked_up-Agrees :
      (f : CheckoutFinder) (key : Text) (o : Option Bool)
      → Dict.get key f.checkouts ≡ o
      → IsTrue f
      → Agrees f (holds_checkout disk f.boundaries key) (looked_up disk f key o)
  looked_up-Agrees f key (some b) e h = (h key b e, refl, refl, h)
  looked_up-Agrees f key none e h = (
    refl,
    refl,
    refl,
    λ k b g. ground (
      arith,
      get-put key k (holds_checkout disk f.boundaries key) f.checkouts,
      eq_iff key k,
      h k b,
      g,
    ),
  )

  is_checkout-Agrees :
      (f : CheckoutFinder) (d : Text)
      → IsTrue f
      → Agrees f (holds_checkout disk f.boundaries (disk.normalized d)) (is_checkout disk f d)
  unfolding is_checkout
  is_checkout-Agrees f d h =
      looked_up-Agrees f (disk.normalized d) (Dict.get (disk.normalized d) f.checkouts) refl h

  pick-Agrees :
      (f f' : CheckoutFinder) (stop found : Bool) (parent a : Text) (r : Text × CheckoutFinder)
      → IsTrue f
      → Agrees f parent (parent, f')
      → Agrees f a r
      → Agrees f
          (if stop then [] else if found then parent else a)
          (if stop then ([], f) else if found then (parent, f') else r)
  pick-Agrees f f' true found parent a r h k g = (refl, refl, refl, h)
  pick-Agrees f f' false true parent a r h k g = k
  pick-Agrees f f' false false parent a r h k g = g

  climb-Agrees :
      (n : ℕ) (f : CheckoutFinder) (d : Text)
      → IsTrue f
      → Agrees f (climb_again n f.boundaries d) (climb disk n f d)
  unfolding climb climb_again
  climb-Agrees zero f d h = (refl, refl, refl, h)
  climb-Agrees (suc n) f d h =
      let parent = disk.dirname d in
      let c = is_checkout-Agrees f parent h in
      let f' = (is_checkout disk f parent).1 in
      let up = climb-Agrees n f' parent c.3 in
      let stop = parent == d || contains f.boundaries (disk.normalized parent) in
      subst
        (λ b.
          Agrees f (if stop then [] else if b then parent else climb_again n f.boundaries parent) (
            if stop
            then ([], f)
            else if (is_checkout disk f parent).0
            then (parent, f')
            else climb disk n f' parent))
        c.0
        (pick-Agrees f f' stop (is_checkout disk f parent).0 parent
          (climb_again n f.boundaries parent) (climb disk n f' parent) h (refl, c.1, c.2, c.3)
          (up.0 ∙ ap (λ b. climb_again n b parent) c.1, up.1 ∙ c.1, up.2 ∙ c.2, up.3))

  root_from-Agrees :
      (f f' : CheckoutFinder) (b : Bool) (d : Text)
      → Agrees f b (b, f')
      → Agrees f (if b then d else climb_again f.levels f.boundaries d) (root_from disk d (b, f'))
  root_from-Agrees f f' true d h = (refl, h.1, h.2, h.3)
  root_from-Agrees f f' false d h =
      let up = climb-Agrees f'.levels f' d h.3 in
      (
        up.0 ∙ ap (λ l. climb_again l f'.boundaries d) h.2 ∙ ap (λ b. climb_again f.levels b d) h.1,
        up.1 ∙ h.1,
        up.2 ∙ h.2,
        up.3,
      )

  root-Agrees :
      (f : CheckoutFinder) (d : Text) (check_module : Bool)
      → IsTrue f
      → Agrees f (root_again f.boundaries f.levels d check_module) (root disk f d check_module)
  unfolding root root_again
  root-Agrees f d false h = climb-Agrees f.levels f d h
  root-Agrees f d true h =
      let c = is_checkout-Agrees f d h in
      subst
        (λ b.
          Agrees f (if b then d else climb_again f.levels f.boundaries d)
            (root_from disk d (is_checkout disk f d)))
        c.0
        (root_from-Agrees f (is_checkout disk f d).1 (is_checkout disk f d).0 d
          (refl, c.1, c.2, c.3))

  -- The answers of one finder, asked in turn.
  unfoldable pub roots : CheckoutFinder → List (Text × Bool) → List Text
  roots f [] = []
  roots f ((d, check_module) ∷ calls) =
      let (answer, f') = root disk f d check_module in answer ∷ roots f' calls

  roots-again :
      (f : CheckoutFinder) (calls : List (Text × Bool))
      → IsTrue f
      → roots f calls ≡ map (λ c. root_again f.boundaries f.levels c.0 c.1) calls
  unfolding roots
  roots-again f [] h = refl
  roots-again f ((d, b) ∷ calls) h =
      let r = root-Agrees f d b h in
      let f' = (root disk f d b).1 in
      ap (λ a. a ∷ roots f' calls) r.0
      ∙ ap (◌∷◌ (root_again f.boundaries f.levels d b)) (
          roots-again f' calls r.3
          ∙ ap (λ x. map (λ c. root_again x f'.levels c.0 c.1) calls) r.1
          ∙ ap (λ l. map (λ c. root_again f.boundaries l c.0 c.1) calls) r.2)

  -- Asked for the repositories of any modules in any order, a new finder answers for each what
  -- examining the disk again would answer.
  pub roots-new_finder :
      (boundaries : List Text) (levels : ℕ) (calls : List (Text × Bool))
      → roots (new_finder disk boundaries levels) calls
        ≡ map (λ c. root_again (map disk.normalized boundaries) levels c.0 c.1) calls
  unfolding Dict.get
  roots-new_finder boundaries levels calls =
      roots-again (new_finder disk boundaries levels) calls (λ key b h. absurd (ground (arith, h)))

  -- What a search finds is a copy and no boundary.
  abbrev pub IsRoot : List Text → Text → Type 0
  IsRoot boundaries [] = Unit
  IsRoot boundaries (c ∷ t) = holds_checkout disk boundaries (disk.normalized (c ∷ t)) ≡ true

  IsRoot-of :
      (boundaries : List Text) (t : Text)
      → holds_checkout disk boundaries (disk.normalized t) ≡ true
      → IsRoot boundaries t
  IsRoot-of boundaries [] h = tt
  IsRoot-of boundaries (c ∷ t) h = h

  climb_again-IsRoot :
      (n : ℕ) (boundaries : List Text) (d : Text) → IsRoot boundaries (climb_again n boundaries d)
  unfolding climb_again
  climb_again-IsRoot zero boundaries d = tt
  climb_again-IsRoot (suc n) boundaries d =
      let parent = disk.dirname d in
      let rest = climb_again-IsRoot n boundaries parent in
      let stop = parent == d || contains boundaries (disk.normalized parent) in
      choose stop (holds_checkout disk boundaries (disk.normalized parent)) boundaries parent
        (climb_again n boundaries parent) (IsRoot-of boundaries parent) rest
    where
      choose :
          (stop found : Bool) (bs : List Text) (p a : Text)
          → (found ≡ true → IsRoot bs p)
          → IsRoot bs a
          → IsRoot bs (if stop then [] else if found then p else a)
      choose true found bs p a h k = tt
      choose false true bs p a h k = h refl
      choose false false bs p a h k = k

  -- The folder that a finder answers is that of a copy, and never one of the boundaries.
  pub root-IsRoot :
      (boundaries : List Text) (levels : ℕ) (d : Text) (check_module : Bool)
      → IsRoot
          (map disk.normalized boundaries)
          (root disk (new_finder disk boundaries levels) d check_module).0
  unfolding Dict.get root_again
  root-IsRoot boundaries levels d check_module =
      let bs = map disk.normalized boundaries in
      subst (IsRoot bs)
        (sym
          (root-Agrees (new_finder disk boundaries levels) d check_module
            (λ key b h. absurd (ground (arith, h)))).0)
        (elim (Bool-cases (check_module && holds_checkout disk bs (disk.normalized d))) [
          | inl e ↦
              subst (λ b. IsRoot bs (if b then d else climb_again levels bs d)) (sym e)
                (IsRoot-of bs d (ground (arith, e)))
          | inr e ↦
              subst (λ b. IsRoot bs (if b then d else climb_again levels bs d)) (sym e)
                (climb_again-IsRoot levels bs d)
        ])
