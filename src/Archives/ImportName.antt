-- ===== src/Archives/ImportName.antt =====
-- The name that an imported archive is given is one of a plain folder.
use mathlib.Core.Path.{subst}
use sdk_local_manager.Prelude.{
  ℕ, ◌≡◌, ◌≢◌, refl, sym, ap, ◌∙◌, ◌&&◌, ◌||◌, leb, ◌==◌, contains, eq_iff, and-true, Bool, true,
  false, not, [], ◌∷◌, arith, all, if◌then◌else◌, Bool-cases, inl, inr, Eq_ℕ,
}
use sdk_local_manager.Prelude.Text.{Text, txt}
use sdk_local_manager.Archives.{
  is_import_char, sub_unsafe, is_outer, lstrip_outer, rstrip_outer, end_outer, or_modules,
  safe_import_name, stem,
}

-- A letter, a digit, `_`, `.` or `-`.
abbrev pub is_plain : ℕ → Bool
is_plain c =
    (leb b'A' c && leb c b'Z')
    || (leb b'a' c && leb c b'z')
    || (leb b'0' c && leb c b'9')
    || c == b'_'
    || c == b'.'
    || c == b'-'

-- At least one character, each of them plain, the first neither a dot nor an underscore, and neither
-- separator.
abbrev pub IsFolderName : Text → Type 0
IsFolderName [] = ⊥
IsFolderName (c ∷ t) =
    (all is_plain (c ∷ t) ≡ true)
    × (c ≢ b'.')
    × (c ≢ b'_')
    × (contains (c ∷ t) b'/' ≡ false)
    × (contains (c ∷ t) 92 ≡ false)

underscore-safe : is_import_char b'_' ≡ true
unfolding is_import_char
underscore-safe = refl

sub_unsafe-safe : (b : Bool) (t : Text) → all is_import_char (sub_unsafe b t) ≡ true
unfolding sub_unsafe
sub_unsafe-safe b [] = refl
sub_unsafe-safe b (c ∷ t) =
    ground (arith, underscore-safe, sub_unsafe-safe (not (is_import_char c)) t)

end_outer-safe :
    (c : ℕ) (t : Text)
    → all is_import_char (c ∷ t) ≡ true
    → all is_import_char (end_outer c t) ≡ true
end_outer-safe c [] h = ground arith
end_outer-safe c (d ∷ t) h = h

rstrip_outer-safe :
    (t : Text) → all is_import_char t ≡ true → all is_import_char (rstrip_outer t) ≡ true
rstrip_outer-safe [] h = refl
rstrip_outer-safe (c ∷ t) h =
    end_outer-safe c (rstrip_outer t) (ground (arith, rstrip_outer-safe t))

-- Nothing that is left begins with a character that is stripped.
abbrev IsStripped : Text → Type 0
IsStripped [] = Unit
IsStripped (c ∷ t) = (all is_import_char (c ∷ t) ≡ true) × (is_outer c ≡ false)

lstrip_outer-IsStripped : (t : Text) → all is_import_char t ≡ true → IsStripped (lstrip_outer t)
lstrip_outer-IsStripped [] h = tt
lstrip_outer-IsStripped (c ∷ t) h = elim (Bool-cases (is_outer c)) [
  | inl e ↦
      subst IsStripped (ap (λ b. if b then lstrip_outer t else c ∷ t) (sym e))
        (lstrip_outer-IsStripped t (ground arith))
  | inr e ↦ subst IsStripped (ap (λ b. if b then lstrip_outer t else c ∷ t) (sym e)) (h, e)
]

import_char-plain : (c : ℕ) → is_import_char c ≡ true → is_plain c ≡ true
unfolding is_import_char
import_char-plain c h = ground arith

plain-other : (c d : ℕ) → is_plain d ≡ false → is_plain c ≡ true → (c == d) ≡ false
plain-other c d f h = elim (Bool-cases (c == d)) [
  | inl e ↦ absurd (cc (ap is_plain ((eq_iff c d).0 e), f, h))
  | inr e ↦ e
]

all-plain : (t : Text) → all is_import_char t ≡ true → all is_plain t ≡ true
all-plain [] h = refl
all-plain (c ∷ t) h =
    let k = and-true (is_import_char c) (all is_import_char t) h in
    ap (λ b. b && all is_plain t) (import_char-plain c k.0) ∙ all-plain t k.1

plain-contains :
    (d : ℕ) (t : Text) → is_plain d ≡ false → all is_plain t ≡ true → contains t d ≡ false
plain-contains d [] f h = refl
plain-contains d (c ∷ t) f h =
    let k = and-true (is_plain c) (all is_plain t) h in
    ap (λ b. b || contains t d) (plain-other c d f k.0) ∙ plain-contains d t f k.1

folder_name :
    (c : ℕ) (t : Text)
    → all is_import_char (c ∷ t) ≡ true
    → is_outer c ≡ false
    → IsFolderName (c ∷ t)
folder_name c t h o =
    let plain = all-plain (c ∷ t) h in
    (
      plain,
      λ e. ground (arith, o, e),
      λ e. ground (arith, o, e),
      plain-contains b'/' (c ∷ t) refl plain,
      plain-contains 92 (c ∷ t) refl plain,
    )

or_modules-IsFolderName : (t : Text) → IsStripped t → IsFolderName (or_modules t)
unfolding is_import_char
or_modules-IsFolderName [] h = folder_name b'm' (txt "odules") refl refl
or_modules-IsFolderName (c ∷ t) h = folder_name c t h.0 h.1

-- Whatever name an uploaded file has, the module folder made from it has a name of letters, digits,
-- `_`, `.` and `-`, with neither `/` nor a backslash, that begins with neither a dot nor an underscore:
-- it is never empty, hidden, `.` nor `..`.
pub safe_import_name-IsFolderName : (filename : Text) → IsFolderName (safe_import_name filename)
unfolding safe_import_name
safe_import_name-IsFolderName filename =
    let clean = sub_unsafe false (or_modules (stem (or_modules filename))) in
    or_modules-IsFolderName (lstrip_outer (rstrip_outer clean)) (
      lstrip_outer-IsStripped (rstrip_outer clean)
        (rstrip_outer-safe clean (sub_unsafe-safe false (or_modules (stem (or_modules filename))))))
