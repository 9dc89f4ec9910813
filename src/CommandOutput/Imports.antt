-- ===== src/CommandOutput/Imports.antt =====
-- The package that is installed for a missing import is never a part of Odoo.
use mathlib.Core.Path.{subst}
use sdk_local_manager.Prelude.{
  Bool-cases, inl, inr, ℕ, ◌≡◌, refl, sym, false, List, [], ◌∷◌, arith, if◌then◌else◌, Option, none,
  some, ◌==◌, Eq_ℕ, Eq_List, contains,
}
use sdk_local_manager.Prelude.Text.{Text}
use sdk_local_manager.Prelude.Regex.{Place, split_on, cons_first, search_re}
use sdk_local_manager.CommandOutput.Errors.{
  missing_python_import, missing_python_import_re, import_root, is_odoo, first_part, imported,
}

-- A name without a dot that is none of Odoo's packages.
abbrev pub IsPackage : Text → Type 0
IsPackage root = (contains root b'.' ≡ false) × (is_odoo root ≡ false)

first_part-cons_first :
    (c : ℕ) (ps : List Text)
    → (c == b'.') ≡ false
    → contains (first_part ps) b'.' ≡ false
    → contains (first_part (cons_first c ps)) b'.' ≡ false
first_part-cons_first c [] h k = ground arith
first_part-cons_first c (p ∷ ps) h k = ground arith

split_on-first : (t : Text) → contains (first_part (split_on b'.' t)) b'.' ≡ false
unfolding split_on
split_on-first [] = refl
split_on-first (c ∷ t) = ground (arith, split_on-first t, first_part-cons_first c (split_on b'.' t))

unless_odoo :
    (root : Text) → contains root b'.' ≡ false → IsPackage (if is_odoo root then [] else root)
unless_odoo root h = elim (Bool-cases (is_odoo root)) [
  | inl e ↦ subst (λ b. IsPackage (if b then [] else root)) (sym e) (refl, refl)
  | inr e ↦ subst (λ b. IsPackage (if b then [] else root)) (sym e) (h, e)
]

import_root-IsPackage : (name : Text) → IsPackage (import_root name)
import_root-IsPackage name = unless_odoo (first_part (split_on b'.' name)) (split_on-first name)

imported-IsPackage : (o : Option Place) → IsPackage (imported o)
imported-IsPackage none = (refl, refl)
imported-IsPackage (some m) = import_root-IsPackage _

-- The import that an error is read to miss has no dot, and is not Odoo's own: a module of Odoo whose
-- code is missing is never taken for a package to install.
pub missing_python_import-IsPackage : (message : Text) → IsPackage (missing_python_import message)
unfolding missing_python_import
missing_python_import-IsPackage message =
    imported-IsPackage (search_re missing_python_import_re message)
