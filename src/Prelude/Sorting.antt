-- ===== src/Prelude/Sorting.antt =====
-- Python's `sorted` on texts.
use mathlib.Core.Path.{◌≡◌, refl}
use mathlib.Core.Bool.{Bool, true, false, ◌||◌}
use mathlib.Core.List.{List, [], ◌∷◌}
use native.Mathlib.Omega.{arith}
use sdk_local_manager.Prelude.Tests.{leb, if◌then◌else◌, nat_eq_iff}
use sdk_local_manager.Prelude.Equality.{◌==◌, contains, Eq_ℕ, Eq_List}
use sdk_local_manager.Prelude.Text.{Text}

-- `a <= b`
abbrev pub text_leb : Text → Text → Bool
text_leb [] t = true
text_leb (c ∷ s) [] = false
text_leb (c ∷ s) (d ∷ t) = let rest = text_leb s t in if c == d then rest else leb c d

unfoldable pub insert_text : Text → List Text → List Text
insert_text t [] = t ∷ []
insert_text t (u ∷ us) =
    let rest = insert_text t us in if text_leb t u then t ∷ u ∷ us else u ∷ rest

unfoldable pub sort_texts : List Text → List Text
unfolding insert_text
sort_texts [] = []
sort_texts (t ∷ ts) = insert_text t (sort_texts ts)

contains-insert_text :
    (t x : Text) (us : List Text) → contains (insert_text t us) x ≡ ((t == x) || contains us x)
unfolding insert_text
contains-insert_text t x [] = refl
contains-insert_text t x (u ∷ us) = ground (arith, contains-insert_text t x us)

pub contains-sort_texts : (x : Text) (ts : List Text) → contains (sort_texts ts) x ≡ contains ts x
unfolding sort_texts
contains-sort_texts x [] = refl
contains-sort_texts x (t ∷ ts) =
    ground (arith, contains-insert_text t x (sort_texts ts), contains-sort_texts x ts)

pub text_leb_refl : (t : Text) → text_leb t t ≡ true
text_leb_refl [] = refl
text_leb_refl (c ∷ t) = ground (arith, text_leb_refl t, nat_eq_iff c c)

pub text_leb_total : (s t : Text) → text_leb s t ≡ false → text_leb t s ≡ true
text_leb_total [] t h = cc
text_leb_total (c ∷ s) [] h = refl
text_leb_total (c ∷ s) (d ∷ t) h = ground (arith, text_leb_total s t)

pub text_leb_trans :
    (s t u : Text) → text_leb s t ≡ true → text_leb t u ≡ true → text_leb s u ≡ true
text_leb_trans [] t u h k = refl
text_leb_trans (c ∷ s) [] u h k = cc
text_leb_trans (c ∷ s) (d ∷ t) [] h k = cc
text_leb_trans (c ∷ s) (d ∷ t) (e ∷ u) h k = ground (arith, text_leb_trans s t u)

pub text_leb_antisym : (s t : Text) → text_leb s t ≡ true → text_leb t s ≡ true → s ≡ t
text_leb_antisym [] [] h k = refl
text_leb_antisym [] (d ∷ t) h k = cc
text_leb_antisym (c ∷ s) [] h k = cc
text_leb_antisym (c ∷ s) (d ∷ t) h k = ground (arith, text_leb_antisym s t)
