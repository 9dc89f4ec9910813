-- ===== src/DiskUsage/Images.antt =====
-- The form of an image's name that is compared is reached at once, and an image that is declared under
-- that form is not among the unused ones.
use mathlib.Core.Path.{subst}
use mathlib.Core.List.{reverse, reverse-cons, reverse-reverse}
use sdk_local_manager.Prelude.{
  none, some, ℕ, ◌≡◌, ◌≢◌, refl, sym, ap, ◌∙◌, Bool, any, any-append, ◌==◌, eq_iff, true, false,
  ◌||◌, List, [], ◌∷◌, ◌++◌, map, arith, if◌then◌else◌, Eq_ℕ, Eq_List, contains, Bool-cases, ◌⊎◌,
  inl, inr, All,
}
use sdk_local_manager.Prelude.Text.{Text, txt, strip, skip_spaces, is_space}
use sdk_local_manager.DiskUsage.{
  last_part, normalize_stripped, normalize_image_reference, Image, UnusedImage, unused_images,
  unused_among, is_kept, is_dangling, reference_of,
}

contains-append : (t u : Text) (c : ℕ) → contains (t ++ u) c ≡ (contains t c || contains u c)
contains-append [] u c = refl
contains-append (d ∷ t) u c = ground (arith, contains-append t u c)

last_part-tagged : (t : Text) → contains (last_part (t ++ txt ":latest")) b':' ≡ true
unfolding last_part
last_part-tagged [] = refl
last_part-tagged (c ∷ t) =
    ground (arith, last_part-tagged t, contains-append t (txt ":latest") b':')

tagged-normalize_stripped :
    (t : Text)
    → contains t b'@' ≡ false
    → normalize_stripped (t ++ txt ":latest") ≡ t ++ txt ":latest"
unfolding normalize_stripped
tagged-normalize_stripped t h =
    ground (arith, h, contains-append t (txt ":latest") b'@', last_part-tagged t)

-- Twice is as once.
pub normalize_stripped_idem :
    (t : Text) → normalize_stripped (normalize_stripped t) ≡ normalize_stripped t
unfolding normalize_stripped
normalize_stripped_idem t = elim (Bool-cases (contains t b'@')) [
  | inl e ↦ ground (arith, e)
  | inr e ↦ ground (arith, e, tagged-normalize_stripped t e)
]

-- A name of which what stands after its last slash has no colon.
abbrev pub IsUntagged : Text → Type 0
IsUntagged t =
    (name : Text) × ((t ≡ name) ⊎ ((host : Text) × (t ≡ host ++ b'/' ∷ name)))
    × (contains name b'/' ≡ false)
    × (contains name b':' ≡ false)

-- A name with no space, no digest and no tag.
abbrev pub IsRepository : Text → Type 0
IsRepository t = (any is_space t ≡ false) × (contains t b'@' ≡ false) × IsUntagged t

last_part-name : (t : Text) → contains t b'/' ≡ false → last_part t ≡ t
unfolding last_part
last_part-name [] h = refl
last_part-name (c ∷ t) h = ap (λ b. if b then last_part t else c ∷ t) h

contains-slash : (host name : Text) → contains (host ++ b'/' ∷ name) b'/' ≡ true
contains-slash [] name = refl
contains-slash (c ∷ host) name = ground (arith, contains-slash host name)

last_part-host :
    (host name : Text) → contains name b'/' ≡ false → last_part (host ++ b'/' ∷ name) ≡ name
unfolding last_part
last_part-host [] name h = last_part-name name h
last_part-host (c ∷ host) name h =
    ap (λ b. if b then last_part (host ++ b'/' ∷ name) else c ∷ (host ++ b'/' ∷ name))
      (contains-slash (c ∷ host) name)
    ∙ last_part-host host name h

last_part-IsUntagged : (t : Text) → IsUntagged t → contains (last_part t) b':' ≡ false
last_part-IsUntagged t (name, inl e, f, g) =
    ap (λ x. contains (last_part x) b':') e ∙ ap (λ x. contains x b':') (last_part-name name f) ∙ g
last_part-IsUntagged t (name, inr (host, e), f, g) =
    ap (λ x. contains (last_part x) b':') e
    ∙ ap (λ x. contains x b':') (last_part-host host name f)
    ∙ g

-- What is offered for removal: in use by no container, and, unless it is an orphan, declared by no
-- project, under its name and tag or, with the tag `latest`, under its name only.
abbrev pub IsUnused : List Text → List Text → UnusedImage → Type 0
IsUnused used referenced u =
    (contains used u.image.id ≡ false)
    × (u.image.repository ≢ txt "<none>"
        → u.image.tag ≢ txt "<none>"
        → (contains referenced (u.image.repository ++ b':' ∷ u.image.tag) ≡ false)
          × (u.image.tag ≡ txt "latest"
              → IsRepository u.image.repository
              → contains referenced u.image.repository ≡ false))

not-dangling :
    (i : Image) → i.repository ≢ txt "<none>" → i.tag ≢ txt "<none>" → is_dangling i ≡ false
not-dangling i h k =
    ground (arith, eq_iff i.repository (txt "<none>"), eq_iff i.tag (txt "<none>"), h, k)

contains-map :
    (f : Text → Text) (x : Text) (ts : List Text)
    → contains ts x ≡ true
    → contains (map f ts) (f x) ≡ true
contains-map f x [] h = absurd (cc h)
contains-map f x (t ∷ ts) h = elim (Bool-cases (t == x)) [
  | inl e ↦
      ap (λ b. b || contains (map f ts) (f x)) ((eq_iff (f t) (f x)).1 (ap f ((eq_iff t x).0 e)))
  | inr e ↦ ground (arith, e, h, contains-map f x ts)
]

skip_spaces-plain : (t : Text) → any is_space t ≡ false → skip_spaces t ≡ t
skip_spaces-plain [] h = refl
skip_spaces-plain (c ∷ t) h = elim (Bool-cases (is_space c)) [
  | inl e ↦ absurd (cc (h, ap (λ b. b || any is_space t) e))
  | inr e ↦ ap (λ b. if b then skip_spaces t else c ∷ t) e
]

any-reverse : (t : Text) → any is_space t ≡ false → any is_space (reverse t) ≡ false
any-reverse [] h = refl
any-reverse (c ∷ t) h =
    let k = or-false (is_space c) (any is_space t) h in
    ap (any is_space) (reverse-cons c t)
    ∙ any-append is_space (reverse t) (c ∷ [])
    ∙ ap (λ b. b || (is_space c || false)) (any-reverse t k.1)
    ∙ ap (λ b. b || false) k.0
  where
    or-false : (a b : Bool) → (a || b) ≡ false → (a ≡ false) × (b ≡ false)
    or-false a b e = ground arith

strip-plain : (t : Text) → any is_space t ≡ false → strip t ≡ t
unfolding strip
strip-plain t h =
    ap (λ x. reverse (skip_spaces (reverse x))) (skip_spaces-plain t h)
    ∙ ap reverse (skip_spaces-plain (reverse t) (any-reverse t h))
    ∙ reverse-reverse t

-- The name of a repository stands for its tag `latest`.
normalize-latest :
    (t : Text)
    → IsRepository t
    → normalize_image_reference t ≡ normalize_image_reference (t ++ txt ":latest")
unfolding normalize_image_reference
normalize-latest t h =
    ap normalize_stripped (strip-plain t h.0)
    ∙ named t h.1 (last_part-IsUntagged t h.2)
    ∙ sym (tagged-normalize_stripped t h.1)
    ∙ ap normalize_stripped (
        sym (
          strip-plain (t ++ txt ":latest")
            (any-append is_space t (txt ":latest") ∙ ap (λ b. b || false) h.0)))
  where
    named :
        (u : Text)
        → contains u b'@' ≡ false
        → contains (last_part u) b':' ≡ false
        → normalize_stripped u ≡ u ++ txt ":latest"
    named u e f = unfold normalize_stripped in ground (arith, e, f)

not-contained : (b : Bool) → (b ≡ true → ⊥) → b ≡ false
not-contained true h = absurd (h refl)
not-contained false h = refl

-- What is not declared in the form that is compared is declared in none.
undeclared :
    (i : Image) (referenced : List Text)
    → contains
        (map normalize_image_reference referenced)
        (normalize_image_reference (reference_of i))
      ≡ false
    → (contains referenced (i.repository ++ b':' ∷ i.tag) ≡ false)
      × (i.tag ≡ txt "latest"
          → IsRepository i.repository
          → contains referenced i.repository ≡ false)
undeclared i referenced h = (
  not-contained _
      (λ e. absurd (cc (h, contains-map normalize_image_reference (reference_of i) referenced e))),
  λ latest named. not-contained _ (λ e.
      let same =
        normalize-latest i.repository named
        ∙ ap (λ t. normalize_image_reference (i.repository ++ b':' ∷ t)) (sym latest) in
      absurd (
        cc (
          h,
          sym (ap (contains (map normalize_image_reference referenced)) same)
              ∙ contains-map normalize_image_reference i.repository referenced e,
        ))),
)

abbrev offered : Image → UnusedImage
offered image = record {
  image = image;
  reference = if is_dangling image then none else some (reference_of image);
}

unused_among-IsUnused :
    (used referenced : List Text) (images : List Image)
    → All
        (IsUnused used referenced)
        (unused_among used (map normalize_image_reference referenced) images)
unfolding is_kept
unused_among-IsUnused used referenced [] = tt
unused_among-IsUnused used referenced (image ∷ images) =
    let refs = map normalize_image_reference referenced in
    let rest = unused_among-IsUnused used referenced images in
    elim (Bool-cases (is_kept used refs image)) [
      | inl e ↦
          subst
            (λ b. All (IsUnused used referenced) (
              if b
              then unused_among used refs images
              else offered image ∷ unused_among used refs images))
            (sym e) rest
      | inr e ↦
          subst
            (λ b. All (IsUnused used referenced) (
              if b
              then unused_among used refs images
              else offered image ∷ unused_among used refs images))
            (sym e)
            (
              (
                ground (arith, e),
                λ h k. undeclared image referenced (ground (arith, e, not-dangling image h k)),
              ),
              rest,
            )
    ]

-- An image is offered for removal only if no container uses it and, unless its name or its tag is
-- `<none>`, no project declares its name and tag, nor, when its tag is `latest`, its name only (a name
-- with no space, no digest and no colon after its last slash).
pub unused_images-IsUnused :
    (images : List Image) (used referenced : List Text)
    → All (IsUnused used referenced) (unused_images images used referenced)
unfolding unused_images
unused_images-IsUnused images used referenced = unused_among-IsUnused used referenced images
