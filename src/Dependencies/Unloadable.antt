-- ===== src/Dependencies/Unloadable.antt =====
-- The modules set aside are exactly those that miss something, directly or not.
use mathlib.Core.Path.{subst}
use sdk_local_manager.Prelude.{
  ◌≡◌, ◌∙◌, Bool, true, false, not, ◌&&◌, ◌||◌, List, [], ◌∷◌, filter, arith, contains, ◌==◌,
  eq_iff, Eq_ℕ, Eq_List, Bool-cases, inl, inr,
}
use sdk_local_manager.Prelude.Text.{Text}
use sdk_local_manager.Prelude.Sorting.{contains-sort_texts}
use sdk_local_manager.Prelude.Dict
use sdk_local_manager.Prelude.Dict.{Dict, get-put}
use sdk_local_manager.Dependencies.{
  Database, NotLoaded, Round, depends_of, is_unavailable, is_blocking, blocking, set_aside,
  one_round, loadable,
}

-- The specification: an active module whose code is there is unloadable if a dependency that counts
-- is missing, or is itself unloadable.
pub data Unloadable (b : Database) : Text → Type 0 where
  misses :
      (name d : Text)
      → contains b.active name ≡ true
      → contains b.missing name ≡ false
      → contains (depends_of (Dict.get name b.graph)) d ≡ true
      → contains b.database_only d ≡ false
      → (contains b.missing d || is_unavailable b.graph d) ≡ true
      → Unloadable b name
  follows :
      (name d : Text)
      → contains b.active name ≡ true
      → contains b.missing name ≡ false
      → contains (depends_of (Dict.get name b.graph)) d ≡ true
      → contains b.database_only d ≡ false
      → Unloadable b d
      → Unloadable b name

contains-filter :
    (p : Text → Bool) (x : Text) (ts : List Text)
    → contains (filter p ts) x ≡ (p x && contains ts x)
contains-filter p x [] = ground arith
contains-filter p x (t ∷ ts) = elim (Bool-cases (t == x)) [
  | inl e ↦ let same : t ≡ x = (eq_iff t x).0 e in ground (arith, contains-filter p x ts, same, e)
  | inr e ↦ ground (arith, contains-filter p x ts, e)
]

pub has-put :
    (k j : Text) (v : List Text) (d : NotLoaded)
    → Dict.has j (Dict.put k v d) ≡ ((k == j) || Dict.has j d)
has-put k j v d = ground (arith, get-put k j v d)

pub contains-blocking :
    (b : Database) (n : NotLoaded) (name d : Text)
    → contains (blocking b n name) d
      ≡ (is_blocking b n d && contains (depends_of (Dict.get name b.graph)) d)
unfolding blocking
contains-blocking b n name d =
    contains-sort_texts d (filter (is_blocking b n) (depends_of (Dict.get name b.graph)))
    ∙ contains-filter (is_blocking b n) d (depends_of (Dict.get name b.graph))

pub contains-loadable :
    (b : Database) (n : NotLoaded) (x : Text)
    → contains (loadable b n) x
      ≡ (not (contains b.missing x) && not (Dict.has x n) && contains b.active x)
unfolding loadable
contains-loadable b n x = ground (
  arith,
  contains-sort_texts x
      (filter (λ name. not (contains b.missing name) && not (Dict.has name n)) b.active),
  contains-filter (λ name. not (contains b.missing name) && not (Dict.has name n)) x b.active,
)

module _ (b : Database) where
  -- What was set aside so far is unloadable.
  abbrev pub Sound : NotLoaded → Type 0
  Sound n = (x : Text) → Dict.has x n ≡ true → Unloadable b x

  blocked-Unloadable :
      (n : NotLoaded) (name d : Text)
      → Sound n
      → contains b.active name ≡ true
      → contains b.missing name ≡ false
      → contains (blocking b n name) d ≡ true
      → Unloadable b name
  unfolding is_blocking
  blocked-Unloadable n name d s a m h =
      let c = contains-blocking b n name d in
      elim (Bool-cases (Dict.has d n)) [
        | inl e ↦ follows name d a m (ground (arith, c)) (ground (arith, c)) (s d e)
        | inr e ↦ misses name d a m (ground (arith, c)) (ground (arith, c)) (ground (arith, c))
      ]

  set_aside-Sound :
      (name : Text) (ds : List Text) (p : Round)
      → Sound p.not_loaded
      → ((d : Text) → contains ds d ≡ true → Unloadable b name)
      → Sound (set_aside name ds p).not_loaded
  set_aside-Sound name [] p s u = s
  set_aside-Sound name (d ∷ ds) p s u = λ x h. elim (Bool-cases (name == x)) [
    | inl e ↦ subst (Unloadable b) ((eq_iff name x).0 e) (u d (ground (arith, eq_iff d d)))
    | inr e ↦ s x (ground (arith, has-put name x (d ∷ ds) p.not_loaded))
  ]

  pub one_round-Sound :
      (names : List Text) (p : Round)
      → Sound p.not_loaded
      → ((x : Text)
          → contains names x ≡ true
          → (contains b.active x ≡ true) × (contains b.missing x ≡ false))
      → Sound (one_round b names p).not_loaded
  unfolding one_round
  one_round-Sound [] p s h = s
  one_round-Sound (name ∷ names) p s h =
      let (a, m) = h name (ground (arith, eq_iff name name)) in
      one_round-Sound names (set_aside name (blocking b p.not_loaded name) p)
        (set_aside-Sound name (blocking b p.not_loaded name) p s
          (λ d c. blocked-Unloadable p.not_loaded name d s a m c))
        (λ x c. h x (ground (arith, c)))
