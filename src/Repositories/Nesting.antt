-- ===== src/Repositories/Nesting.antt =====
-- The modules of a repository lie apart: none in the folder of another.
use mathlib.Core.Path.{subst}
use sdk_local_manager.Prelude.{
  ℕ, ◌≤◌, ◌<◌, ◌≡◌, refl, sym, ap, ◌∙◌, Bool, true, false, List, [], ◌∷◌, map, arith, ◌⊎◌,
  if◌then◌else◌, ◌==◌, Eq_ℕ, Eq_List, contains, any, All, All-map, Bool-cases, inl, inr, eq_iff,
}
use sdk_local_manager.Prelude.Dict
use sdk_local_manager.Prelude.Dict.{Dict, get-put}
use sdk_local_manager.Prelude.Text.{Text}
use sdk_local_manager.Prelude.Lines.{split_lines}
use sdk_local_manager.Repositories.{
  ancestors, slashes, depth, directory_leb, insert_directory, sort_directories, visit_directory,
  visit_directories, Modules, is_skipped, module_name, repository_modules_from_tree, read_tree,
}

contains-map_nil : (c : ℕ) (l : List Text) → contains (map (λ p. c ∷ p) l) [] ≡ false
contains-map_nil c [] = refl
contains-map_nil c (p ∷ l) = contains-map_nil c l

contains-map_cons :
    (c d : ℕ) (y : Text) (l : List Text)
    → contains (map (λ p. c ∷ p) l) (d ∷ y) ≡ true
    → (c ≡ d) × (contains l y ≡ true)
contains-map_cons c d y [] h = absurd (ground (arith, h))
contains-map_cons c d y (p ∷ l) h = ground (arith, h, contains-map_cons c d y l, eq_iff p y)

slashes-ancestors : (t x : Text) → contains (ancestors t) x ≡ true → slashes x < slashes t
unfolding ancestors slashes
slashes-ancestors [] x h = absurd (ground (arith, h))
slashes-ancestors (c ∷ t) [] h = ground (arith, h, contains-map_nil c (ancestors t))
slashes-ancestors (c ∷ t) (d ∷ y) h =
    ground (arith, h, contains-map_cons c d y (ancestors t), slashes-ancestors t y)

depth-ancestors : (t x : Text) → contains (ancestors t) x ≡ true → depth x < depth t
unfolding slashes ancestors
depth-ancestors [] x h = absurd (ground (arith, h))
depth-ancestors (c ∷ t) [] h = omega arith
depth-ancestors (c ∷ t) (d ∷ y) h = let s = slashes-ancestors (c ∷ t) (d ∷ y) h in omega arith

-- The shallowest first.
abbrev Ascending : List Text → Type 0
Ascending [] = Unit
Ascending (d ∷ ds) = All (λ e. depth d ≤ depth e) ds × Ascending ds

All-insert_directory :
    (n : ℕ) (d : Text) (es : List Text)
    → n ≤ depth d
    → All (λ e. n ≤ depth e) es
    → All (λ e. n ≤ depth e) (insert_directory d es)
unfolding insert_directory
All-insert_directory n d [] h k = (h, tt)
All-insert_directory n d (e ∷ es) h k = elim (Bool-cases (directory_leb d e)) [
  | inl b ↦
      subst (λ x. All (λ e. n ≤ depth e) (if x then d ∷ e ∷ es else e ∷ insert_directory d es))
        (sym b) (h, k)
  | inr b ↦
      subst (λ x. All (λ e. n ≤ depth e) (if x then d ∷ e ∷ es else e ∷ insert_directory d es))
        (sym b) (k.0, All-insert_directory n d es h k.1)
]

directory_leb-le : (d e : Text) → directory_leb d e ≡ true → depth d ≤ depth e
unfolding slashes
directory_leb-le d e h = ground (arith, h)

directory_leb-ge : (d e : Text) → directory_leb d e ≡ false → depth e ≤ depth d
directory_leb-ge d e h = ground (arith, h)

insert_directory-Ascending :
    (d : Text) (es : List Text) → Ascending es → Ascending (insert_directory d es)
unfolding insert_directory
insert_directory-Ascending d [] h = (tt, tt)
insert_directory-Ascending d (e ∷ es) h = elim (Bool-cases (directory_leb d e)) [
  | inl b ↦
      subst (λ x. Ascending (if x then d ∷ e ∷ es else e ∷ insert_directory d es)) (sym b)
        (
          (
            directory_leb-le d e b,
            All-map (λ f. depth e ≤ depth f) (λ f. depth d ≤ depth f)
                (λ f k. let l = directory_leb-le d e b in omega arith) es h.0,
          ),
          h,
        )
  | inr b ↦
      subst (λ x. Ascending (if x then d ∷ e ∷ es else e ∷ insert_directory d es)) (sym b)
        (
          All-insert_directory (depth e) d es (directory_leb-ge d e b) h.0,
          insert_directory-Ascending d es h.1,
        )
]

sort_directories-Ascending : (ds : List Text) → Ascending (sort_directories ds)
unfolding sort_directories
sort_directories-Ascending [] = tt
sort_directories-Ascending (d ∷ ds) =
    insert_directory-Ascending d (sort_directories ds) (sort_directories-Ascending ds)

-- No module in the folder of another, and the root alone when it is one.
abbrev pub AreApart : Modules → Type 0
AreApart m =
    ((d e : Text) → Dict.has d m ≡ true → Dict.has e m ≡ true → contains (ancestors d) e ≡ false)
    × (Dict.has [] m ≡ true → (e : Text) → Dict.has e m ≡ true → e ≡ [])

-- The modules found lie no deeper than the directories to come.
abbrev AreAbove : Modules → List Text → Type 0
AreAbove m ds = (e : Text) → Dict.has e m ≡ true → All (λ d. depth e ≤ depth d) ds

has-put :
    (d e : Text) (v : Text) (m : Modules)
    → Dict.has e (Dict.put d v m) ≡ true
    → (d ≡ e) ⊎ (Dict.has e m ≡ true)
has-put d e v m h = elim (Bool-cases (d == e)) [
  | inl x ↦ inl ((eq_iff d e).0 x)
  | inr x ↦ inr (ground (arith, h, get-put d e v m, x))
]

any-none :
    (p : Text → Bool) (l : List Text) (x : Text)
    → any p l ≡ false
    → contains l x ≡ true
    → p x ≡ false
any-none p [] x h k = absurd (ground (arith, k))
any-none p (y ∷ l) x h k = elim (Bool-cases (y == x)) [
  | inl e ↦ let same : y ≡ x = (eq_iff y x).0 e in ground (arith, h, ap p same)
  | inr e ↦ any-none p l x (ground (arith, h)) (ground (arith, k, e))
]

depth-zero : (t : Text) → depth t ≤ 0 → t ≡ []
depth-zero [] h = refl
depth-zero (c ∷ t) h = absurd (omega arith)

-- A directory that has none of its ancestors among the modules, and lies no higher than any of them.
put-AreApart :
    (d v : Text) (m : Modules)
    → AreApart m
    → ((e : Text) → Dict.has e m ≡ true → depth e ≤ depth d)
    → Dict.has [] m ≡ false
    → any (λ above. Dict.has above m) (ancestors d) ≡ false
    → AreApart (Dict.put d v m)
put-AreApart d v m h above root none_above = (
  λ x y hx hy. apart x y (has-put d x v m hx) (has-put d y v m hy),
  λ r e he. alone r e (has-put d [] v m r) (has-put d e v m he),
)
  where
    apart :
        (x y : Text)
        → (d ≡ x) ⊎ (Dict.has x m ≡ true)
        → (d ≡ y) ⊎ (Dict.has y m ≡ true)
        → contains (ancestors x) y ≡ false
    apart x y (inr hx) (inr hy) = h.0 x y hx hy
    apart x y (inl ex) (inl ey) = elim (Bool-cases (contains (ancestors x) y)) [
      | inl c ↦ absurd (
          let l = depth-ancestors x y c in
          let same : x ≡ y = sym ex ∙ ey in ground (arith, l, same))
      | inr c ↦ c
    ]
    apart x y (inl ex) (inr hy) = elim (Bool-cases (contains (ancestors x) y)) [
      | inl c ↦ absurd (
          ground (
            arith,
            any-none (λ a. Dict.has a m) (ancestors d) y none_above
                (subst (λ k. contains (ancestors k) y ≡ true) (sym ex) c),
            hy,
          ))
      | inr c ↦ c
    ]
    apart x y (inr hx) (inl ey) = elim (Bool-cases (contains (ancestors x) y)) [
      | inl c ↦ absurd (
          let l = depth-ancestors x y c in
          let k : depth x ≤ depth y = subst (λ t. depth x ≤ depth t) ey (above x hx) in omega arith)
      | inr c ↦ c
    ]

    alone :
        Dict.has [] (Dict.put d v m) ≡ true
        → (e : Text) → (d ≡ []) ⊎ (Dict.has [] m ≡ true)
        → (d ≡ e) ⊎ (Dict.has e m ≡ true)
        → e ≡ []
    alone r e (inr x) y = absurd (ground (arith, x, root))
    alone r e (inl x) (inl y) = sym y ∙ x
    alone r e (inl x) (inr y) = depth-zero e (subst (λ t. depth e ≤ depth t) x (above e y))

-- What one turn keeps, for the directories to come.
abbrev IsOrdered : Modules → List Text → Type 0
IsOrdered m ds = AreApart m × AreAbove m ds

one_of-IsOrdered :
    (a b c : Bool) (m m' : Modules) (ds : List Text)
    → IsOrdered m ds
    → (b ≡ false → c ≡ false → IsOrdered m' ds)
    → IsOrdered (if a then m else if b then m else if c then m else m') ds
one_of-IsOrdered true b c m m' ds h k = h
one_of-IsOrdered false true c m m' ds h k = h
one_of-IsOrdered false false true m m' ds h k = h
one_of-IsOrdered false false false m m' ds h k = k refl refl

put-AreAbove :
    (d v : Text) (ds : List Text) (m : Modules)
    → All (λ e. depth d ≤ depth e) ds
    → AreAbove m ds
    → AreAbove (Dict.put d v m) ds
put-AreAbove d v ds m later above e he = elim (has-put d e v m he) [
  | inl x ↦ subst (λ k. All (λ f. depth k ≤ depth f) ds) x later
  | inr y ↦ above e y
]

visit_directory-IsOrdered :
    (name d : Text) (ds : List Text) (m : Modules)
    → All (λ e. depth d ≤ depth e) ds
    → IsOrdered m (d ∷ ds)
    → IsOrdered (visit_directory name d m) ds
unfolding visit_directory
visit_directory-IsOrdered name d ds m later h =
    one_of-IsOrdered (is_skipped d) (Dict.has [] m) (any (λ above. Dict.has above m) (ancestors d))
      m (Dict.put d (module_name name d) m) ds (h.0, λ e he. (h.1 e he).1)
      (λ b c. (
        put-AreApart d (module_name name d) m h.0 (λ e he. (h.1 e he).0) b c,
        put-AreAbove d (module_name name d) ds m later (λ e he. (h.1 e he).1),
      ))

visit_directories-AreApart :
    (name : Text) (ds : List Text) (m : Modules)
    → Ascending ds
    → IsOrdered m ds
    → AreApart (visit_directories name ds m)
unfolding visit_directories
visit_directories-AreApart name [] m s h = h.0
visit_directories-AreApart name (d ∷ ds) m s h =
    visit_directories-AreApart name ds (visit_directory name d m) s.1
      (visit_directory-IsOrdered name d ds m s.0 h)

-- Whatever Git lists, no module that is found lies in the folder of another, and a repository whose
-- root is a module has no other.
pub repository_modules_from_tree-AreApart :
    (tree_output repository_name : Text)
    → AreApart (repository_modules_from_tree tree_output repository_name).0
unfolding repository_modules_from_tree Dict.get
repository_modules_from_tree-AreApart tree_output repository_name =
    let tree =
      read_tree (split_lines tree_output) (record { manifest_dirs = []; has_symlinks = false }) in
    visit_directories-AreApart repository_name (sort_directories tree.manifest_dirs) []
      (sort_directories-Ascending tree.manifest_dirs)
      (
        (λ d e hd he. absurd (ground (arith, hd)), λ r e he. absurd (ground (arith, r))),
        λ e he. absurd (ground (arith, he)),
      )
