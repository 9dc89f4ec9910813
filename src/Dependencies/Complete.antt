-- ===== src/Dependencies/Complete.antt =====
-- The rounds end, and none of the modules that are unloadable is left out.
use mathlib.Core.Path.{subst}
use sdk_local_manager.Prelude.{
  ℕ, zero, suc, ◌+◌, ◌≤◌, ◌<◌, ◌≡◌, ◌↔◌, refl, sym, Bool, true, false, not, none, some, List, [],
  ◌∷◌, filter, arith, length, contains, ◌==◌, eq_iff, Eq_ℕ, Eq_List, Bool-cases, inl, inr, ◌⊎◌,
  length-filter-le,
}
use sdk_local_manager.Prelude.Text.{Text}
use sdk_local_manager.Prelude.Dict
use sdk_local_manager.Prelude.{if-cases, if-some}
use sdk_local_manager.Dependencies.{
  Database, NotLoaded, Round, is_blocking, blocking, set_aside, one_round, loadable, rounds,
  not_loaded_modules, or_empty,
}
use sdk_local_manager.Dependencies.Unloadable.{
  Unloadable, misses, follows, has-put, contains-blocking, contains-loadable, Sound,
  one_round-Sound,
}

length-filter-lt :
    (f g : Text → Bool) (cs : List Text) (x : Text)
    → ((y : Text) → g y ≡ true → f y ≡ true)
    → contains cs x ≡ true
    → f x ≡ true
    → g x ≡ false
    → length (filter g cs) < length (filter f cs)
length-filter-lt f g [] x h m a c = cc
length-filter-lt f g (t ∷ ts) x h m a c = elim (Bool-cases (t == x)) [
  | inl e ↦ let same : t ≡ x = (eq_iff t x).0 e in ground (arith, fewer ts, same)
  | inr e ↦ ground (arith, h t, length-filter-lt f g ts x h (ground arith) a c)
]
  where
    fewer : (ts : List Text) → length (filter g ts) ≤ length (filter f ts)
    fewer [] = omega arith
    fewer (t ∷ ts) = ground (arith, h t, fewer ts)

List-cases {ℓ} : {A : Type ℓ} (xs : List A) → (xs ≡ []) ⊎ ((y : A) × (ys : List A) × (xs ≡ y ∷ ys))
List-cases [] = inl refl
List-cases (y ∷ ys) = inr (y, ys, refl)

some-eq {ℓ} : {A : Type ℓ} (p q : A) → some p ≡ some q → p ≡ q
some-eq p q h = cc

none-has : (x : Text) → Dict.has x (or_empty none) ≡ true → ⊥
unfolding Dict.get
none-has x h = cc

module _ (b : Database) where
  left_over : NotLoaded → ℕ
  left_over n = length (filter (λ x. not (Dict.has x n)) b.active)

  abbrev Within : NotLoaded → NotLoaded → Type 0
  Within n m = (x : Text) → Dict.has x n ≡ true → Dict.has x m ≡ true

  set_aside-Within :
      (name : Text) (ds : List Text) (p : Round)
      → Within p.not_loaded (set_aside name ds p).not_loaded
  set_aside-Within name [] p x h = h
  set_aside-Within name (d ∷ ds) p x h = ground (arith, has-put name x (d ∷ ds) p.not_loaded)

  one_round-Within :
      (names : List Text) (p : Round) → Within p.not_loaded (one_round b names p).not_loaded
  unfolding one_round
  one_round-Within [] p x h = h
  one_round-Within (name ∷ names) p x h =
      one_round-Within names (set_aside name (blocking b p.not_loaded name) p) x
        (set_aside-Within name (blocking b p.not_loaded name) p x h)

  set_aside-changed :
      (name : Text) (ds : List Text) (p : Round)
      → (set_aside name ds p).changed ≡ true
      → (p.changed ≡ true) ⊎ (Dict.has name (set_aside name ds p).not_loaded ≡ true)
  set_aside-changed name [] p h = inl h
  set_aside-changed name (d ∷ ds) p h =
      inr (ground (arith, has-put name name (d ∷ ds) p.not_loaded, eq_iff name name))

  -- A round that changes something sets aside a module that was not set aside before it.
  one_round-progress :
      (n : NotLoaded) (names : List Text) (p : Round)
      → ((x : Text)
          → contains names x ≡ true
          → (contains b.active x ≡ true) × (Dict.has x n ≡ false))
      → Within n p.not_loaded
      → (one_round b names p).changed ≡ true
      → (p.changed ≡ true) ⊎ (left_over (one_round b names p).not_loaded < left_over n)
  unfolding one_round left_over
  one_round-progress n [] p h w c = inl c
  one_round-progress n (name ∷ names) p h w c =
      let q = set_aside name (blocking b p.not_loaded name) p in
      let end = one_round b names q in
      let w' : Within n q.not_loaded =
        λ x e. set_aside-Within name (blocking b p.not_loaded name) p x (w x e) in
      elim (one_round-progress n names q (λ x m. h x (ground (arith, m))) w' c) [
        | inr l ↦ inr l
        | inl k ↦ elim (set_aside-changed name (blocking b p.not_loaded name) p k) [
          | inl k' ↦ inl k'
          | inr t ↦
              let (a, f) = h name (ground (arith, eq_iff name name)) in
              inr (
                length-filter-lt (λ x. not (Dict.has x n)) (λ x. not (Dict.has x end.not_loaded))
                  b.active name
                  (λ y g. elim (Bool-cases (Dict.has y n)) [
                    | inl e ↦
                        absurd (let r = one_round-Within names q y (w' y e) in ground (arith, r, g))
                    | inr e ↦ ground (arith, e)
                  ])
                  a (ground (arith, f)) (ground (arith, one_round-Within names q name t)))
        ]
      ]

  loadable-parts :
      (n : NotLoaded) (x : Text)
      → contains (loadable b n) x ≡ true
      → (contains b.active x ≡ true) × (contains b.missing x ≡ false) × (Dict.has x n ≡ false)
  loadable-parts n x h =
      let c = contains-loadable b n x in (ground (arith, c), ground (arith, c), ground (arith, c))

  one_round-unchanged :
      (names : List Text) (p : Round) (x : Text)
      → (one_round b names p).changed ≡ false
      → (p.changed ≡ false)
        × ((one_round b names p).not_loaded ≡ p.not_loaded)
        × (contains names x ≡ true → blocking b p.not_loaded x ≡ [])
  unfolding one_round
  one_round-unchanged [] p x h = (h, refl, λ e. cc)
  one_round-unchanged (name ∷ names) p x h = elim (List-cases (blocking b p.not_loaded name)) [
    | inl e ↦
        let rest = one_round-unchanged names p x (rw (e, one_round) at h) in
        (
          rest.0,
          rw (e, one_round) rest.1,
          λ m. elim (Bool-cases (name == x)) [
            | inl t ↦ subst (λ y. blocking b p.not_loaded y ≡ []) ((eq_iff name x).0 t) e
            | inr t ↦ rest.2 (ground arith)
          ],
        )
    | inr (d, ds, e) ↦
        let rest =
          one_round-unchanged names (set_aside name (d ∷ ds) p) x (rw (e, one_round) at h) in
        absurd (let f : true ≡ false = rest.0 in cc)
  ]

  -- Every module that is left has nothing that blocks it.
  abbrev IsComplete : NotLoaded → Type 0
  IsComplete n =
      (x : Text)
      → contains b.active x ≡ true
      → contains b.missing x ≡ false
      → Dict.has x n ≡ false
      → blocking b n x ≡ []

  record Result (n : NotLoaded) : Type 0 where
    sound : Sound b n
    complete : IsComplete n

  rounds-Result :
      (fuel : ℕ) (p : Round) (n : NotLoaded)
      → Sound b p.not_loaded
      → rounds b fuel p ≡ some n
      → Result n
  unfolding rounds
  rounds-Result zero p n s h = cc
  rounds-Result (suc fuel) p n s h =
      let p1 : Round = record p { changed = false } in
      let p' = one_round b (loadable b p.not_loaded) p1 in
      let s' =
        one_round-Sound b (loadable b p.not_loaded) p1 s
          (λ x m. ((loadable-parts p.not_loaded x m).0, (loadable-parts p.not_loaded x m).1)) in
      elim (if-cases p'.changed (rounds b fuel p') (some p'.not_loaded) (some n) h) [
        | inl (d, e) ↦ rounds-Result fuel p' n s' e
        | inr (d, e) ↦ subst Result (some-eq p'.not_loaded n e) (record {
          sound = s';
          complete = λ x a m f.
              let same = one_round-unchanged (loadable b p.not_loaded) p1 x d in
              subst (λ k. blocking b k x ≡ []) (sym same.1)
                (same.2 (ground (arith, contains-loadable b p.not_loaded x, a, m, rw same.1 at f)));
        })
      ]

  rounds-some :
      (fuel : ℕ) (p : Round)
      → left_over p.not_loaded < fuel
      → (n : NotLoaded) × (rounds b fuel p ≡ some n)
  unfolding rounds
  rounds-some zero p h = absurd (omega arith)
  rounds-some (suc fuel) p h =
      let p1 : Round = record p { changed = false } in
      let p' = one_round b (loadable b p.not_loaded) p1 in
      if-some p'.changed (rounds b fuel p') p'.not_loaded (λ d.
        rounds-some fuel p'
          (elim (one_round-progress p.not_loaded (loadable b p.not_loaded) p1
            (λ x m. ((loadable-parts p.not_loaded x m).0, (loadable-parts p.not_loaded x m).2))
            (λ x e. e) d) [
              | inl e ↦ absurd (let f : false ≡ true = e in cc)
              | inr l ↦ omega (arith, h, l)
            ]))

  left_over_bound : (n : NotLoaded) → left_over n ≤ length b.active
  unfolding left_over
  left_over_bound n = length-filter-le (λ x. not (Dict.has x n)) b.active

  not_loaded_modules-Result : Result (not_loaded_modules b)
  unfolding not_loaded_modules
  not_loaded_modules-Result =
      let start : Round = record { not_loaded = []; changed = false } in
      let (n, e) = rounds-some (1 + length b.active) start (omega (arith, left_over_bound [])) in
      rw e (rounds-Result (1 + length b.active) start n (λ x h. absurd (none-has x h)) e)

  Unloadable-has : (n : NotLoaded) (x : Text) → IsComplete n → Unloadable b x → Dict.has x n ≡ true
  unfolding is_blocking
  Unloadable-has n x c (misses name d a m g o u) = elim (Bool-cases (Dict.has x n)) [
    | inl e ↦ e
    | inr e ↦ absurd (let q = c x a m e in ground (arith, contains-blocking b n x d, g, o, u, q))
  ]
  Unloadable-has n x c (follows name d a m g o u) = elim (Bool-cases (Dict.has x n)) [
    | inl e ↦ e
    | inr e ↦ absurd (
        let q = c x a m e in
        let r = Unloadable-has n d c u in ground (arith, contains-blocking b n x d, g, o, r, q))
  ]

-- The modules that are reported as not loaded are exactly the unloadable ones: an active module
-- whose code is there is reported if and only if a dependency of it, not among those that only the
-- database has, is missing or is itself unloadable.
pub not_loaded_modules_iff :
    (b : Database) (name : Text) → (Dict.has name (not_loaded_modules b) ≡ true) ↔ Unloadable b name
not_loaded_modules_iff b name =
    let r = not_loaded_modules-Result b in
    (r.sound name, Unloadable-has b (not_loaded_modules b) name r.complete)
