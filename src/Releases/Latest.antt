-- ===== src/Releases/Latest.antt =====
-- The release that is offered is the latest of those published.
use mathlib.Core.Path.{subst}
use sdk_local_manager.Prelude.{
  ℕ, ◌≡◌, refl, sym, ap, Bool, true, false, Option, none, some, List, [], ◌∷◌, arith, if◌then◌else◌,
  ◌==◌, eq_iff, Eq_ℕ, Eq_List, Bool-cases, inl, inr, ◌⊎◌, All, Option-cases,
}
use sdk_local_manager.Prelude.Text.{Text}
use sdk_local_manager.Prelude.Sorting.{
  text_leb, text_leb_refl, text_leb_total, text_leb_trans, text_leb_antisym,
}
use sdk_local_manager.Releases.{
  Release, release_leb, max_release, best_of, latest_release, releases_of, version_key, or_key,
  newer, release_update, ReleaseUpdate, update_of,
}

release_leb_refl : (a : Release) → release_leb a a ≡ true
unfolding release_leb
release_leb_refl a = ground (arith, eq_iff a.key a.key, eq_iff a.tag a.tag, text_leb_refl a.version)

release_leb_total : (a b : Release) → release_leb a b ≡ false → release_leb b a ≡ true
unfolding release_leb
release_leb_total a b h = ground (
  arith,
  eq_iff a.key b.key,
  eq_iff b.key a.key,
  eq_iff a.tag b.tag,
  eq_iff b.tag a.tag,
  text_leb_total a.version b.version,
  text_leb_total a.tag b.tag,
  text_leb_total a.key b.key,
)

-- One level of the order of tuples.
abbrev first_then : Text → Text → Bool → Bool
first_then a b rest = if a == b then rest else text_leb a b

first_then_trans :
    (a b c : Text) (ab bc ac : Bool)
    → (ab ≡ true → bc ≡ true → ac ≡ true)
    → first_then a b ab ≡ true
    → first_then b c bc ≡ true
    → first_then a c ac ≡ true
first_then_trans a b c ab bc ac f h k = elim (Bool-cases (a == b)) [
  | inl e ↦ let same : a ≡ b = (eq_iff a b).0 e in ground (arith, f, same, eq_iff a c, eq_iff b c)
  | inr e ↦ elim (Bool-cases (b == c)) [
    | inl g ↦
        let same : b ≡ c = (eq_iff b c).0 g in ground (arith, f, same, e, eq_iff a b, eq_iff a c)
    | inr g ↦ ground (
      arith,
      f,
      eq_iff a b,
      eq_iff b c,
      eq_iff a c,
      text_leb_trans a b c,
      text_leb_antisym a b,
      text_leb_antisym b c,
      e,
      g,
    )
  ]
]

release_leb_trans :
    (a b c : Release) → release_leb a b ≡ true → release_leb b c ≡ true → release_leb a c ≡ true
unfolding release_leb
release_leb_trans a b c h k =
    first_then_trans a.key b.key c.key _ _ _
      (first_then_trans a.tag b.tag c.tag _ _ _ (text_leb_trans a.version b.version c.version)) h k

-- A release of the list, as late as every one of them.
abbrev pub Among : Release → List Release → Type 0
Among r [] = ⊥
Among r (s ∷ rs) = (r ≡ s) ⊎ Among r rs

abbrev pub IsLatest : List Release → Option Release → Type 0
IsLatest rs none = rs ≡ []
IsLatest rs (some r) = Among r rs × All (λ s. release_leb s r ≡ true) rs

abbrev IsMax : Release → List Release → Release → Type 0
IsMax best rs m =
    ((m ≡ best) ⊎ Among m rs) × (release_leb best m ≡ true) × All (λ s. release_leb s m ≡ true) rs

max_release-IsMax : (best : Release) (rs : List Release) → IsMax best rs (max_release best rs)
unfolding max_release
max_release-IsMax best [] = (inl refl, release_leb_refl best, tt)
max_release-IsMax best (r ∷ rs) = elim (Bool-cases (release_leb r best)) [
  | inl h ↦
      let m = max_release-IsMax best rs in
      subst (IsMax best (r ∷ rs)) (ap (λ b. max_release (if b then best else r) rs) (sym h)) (
        elim m.0 [ inl e ↦ inl e | inr a ↦ inr (inr a) ],
        m.1,
        (release_leb_trans r best (max_release best rs) h m.1, m.2),
      )
  | inr h ↦
      let m = max_release-IsMax r rs in
      subst (IsMax best (r ∷ rs)) (ap (λ b. max_release (if b then best else r) rs) (sym h)) (
        elim m.0 [ inl e ↦ inr (inl e) | inr a ↦ inr (inr a) ],
        release_leb_trans best r (max_release r rs) (release_leb_total r best h) m.1,
        (m.1, m.2),
      )
]

best_of-IsLatest : (rs : List Release) → IsLatest rs (best_of rs)
best_of-IsLatest [] = refl
best_of-IsLatest (r ∷ rs) =
    let m = max_release-IsMax r rs in (elim m.0 [ inl e ↦ inl e | inr a ↦ inr a ], (m.1, m.2))

-- Among the releases that are read of the server's list, the one offered is as late as every other in
-- the order of their keys, tags and versions; none is offered exactly if none is read.
pub latest_release-IsLatest :
    (output : Text) → IsLatest (releases_of output) (latest_release output)
unfolding latest_release
latest_release-IsLatest output = best_of-IsLatest (releases_of output)

-- An update that is offered is published, as late as every other release, and its version is later
-- than the current one.
pub release_update-newer :
    (current output : Text) (key : List ℕ) (u : ReleaseUpdate)
    → version_key current ≡ some key
    → release_update current output ≡ some u
    → u.update_available ≡ true
    → (r : Release) × IsLatest (releases_of output) (some r)
      × (u.latest ≡ r.version)
      × (u.tag ≡ r.tag)
      × (newer (or_key (version_key r.version)) key ≡ true)
unfolding release_update
release_update-newer current output key u c h a = elim (Option-cases (latest_release output)) [
  | inl e ↦ absurd (ground (arith, c, h, a, e))
  | inr (r, e) ↦
      let same : u ≡ update_of current key (some r) = ground (arith, c, h, e) in
      (
        r,
        subst (IsLatest (releases_of output)) e (latest_release-IsLatest output),
        ground (arith, same),
        ground (arith, same),
        ground (arith, same, a),
      )
]
