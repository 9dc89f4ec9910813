-- ===== src/CommandOutput/Errors.antt =====
-- command_output.py, the reading of errors: what a module, a database or a view is missing.
--
-- A pattern that ignores case compares ASCII letters by their lower case, and é with É.
use sdk_local_manager.Prelude.{
  ℕ, Bool, not, ◌&&◌, ◌||◌, Option, none, some, List, [], ◌∷◌, ◌++◌, if◌then◌else◌, ◌==◌, Eq_ℕ,
  Eq_List, contains, leb,
}
use sdk_local_manager.Prelude.Dict
use sdk_local_manager.Prelude.Dict.{Dict}
use sdk_local_manager.Prelude.Text.{Text, txt, lower, lower_char, is_digit}
use sdk_local_manager.Prelude.Regex.{
  Re, Place, one, empty, seq, alt, many, many_lazy, group, lit, many1, maybe, digit, space,
  not_space, is_word, search_re, fullmatch, group_of, split_on,
}

-- A text whatever its case.
abbrev ilit : Text → Re
ilit [] = empty
ilit (c ∷ t) = seq (one (λ d. lower_char d == lower_char c)) (ilit t)

abbrev e_acute : Re
e_acute = one (λ d. d == b'e' || d == b'E' || d == 233 || d == 201)

abbrev word : Re
word = one is_word

-- `[\w.\-]`, `[\w.]`, `[\w-]`
abbrev word_or : Text → Re
word_or others = one (λ d. is_word d || contains others d)

abbrev spaces_colon : Re
spaces_colon = seq (many space) (seq (lit (txt ":")) (many space))

unfoldable pub missing_python_import_re : Re
missing_python_import_re =
    alt
      (seq (ilit (txt "d")) (
        seq e_acute (
          seq (ilit (txt "pendance externe non trouv")) (
            seq e_acute
              (seq (ilit (txt "e")) (seq spaces_colon (group 1 (many1 (word_or (txt ".-"))))))))))
      (alt
        (seq (ilit (txt "external dependenc")) (
          seq (many word) (
            seq (lit (txt " ")) (
              seq (maybe (alt (ilit (txt "is ")) (ilit (txt "are ")))) (
                seq (ilit (txt "not ")) (
                  seq (alt (ilit (txt "met")) (ilit (txt "found")))
                    (seq spaces_colon (group 2 (many1 (word_or (txt ".-")))))))))))
        (seq (alt (ilit (txt "ModuleNotFoundError")) (ilit (txt "ImportError"))) (
          seq spaces_colon (
            seq (ilit (txt "No module named ")) (
              seq (maybe (one (λ d. d == 39 || d == 34))) (group 3 (many1 (word_or (txt ".")))))))))

unfoldable pub pip_package_aliases : Dict Text Text
pip_package_aliases =
    (txt "pil", txt "Pillow")
    ∷ (txt "cv2", txt "opencv-python")
    ∷ (txt "yaml", txt "PyYAML")
    ∷ (txt "crypto", txt "pycryptodome")
    ∷ (txt "usb", txt "pyusb")
    ∷ (txt "serial", txt "pyserial")
    ∷ (txt "bs4", txt "beautifulsoup4")
    ∷ (txt "dateutil", txt "python-dateutil")
    ∷ (txt "openssl", txt "pyOpenSSL")
    ∷ (txt "jwt", txt "PyJWT")
    ∷ (txt "ldap", txt "python-ldap")
    ∷ (txt "magic", txt "python-magic")
    ∷ (txt "docx", txt "python-docx")
    ∷ (txt "barcode", txt "python-barcode")
    ∷ (txt "slugify", txt "python-slugify")
    ∷ (txt "stdnum", txt "python-stdnum")
    ∷ (txt "sklearn", txt "scikit-learn")
    ∷ (txt "levenshtein", txt "python-Levenshtein")
    ∷ []

abbrev or_text : Option Text → Text → Text
or_text none t = t
or_text (some u) t = u

-- `group or other`: an empty group counts as none
abbrev pub group_or : Option Text → Text → Text
group_or none t = t
group_or (some []) t = t
group_or (some (c ∷ u)) t = c ∷ u

abbrev pub first_part : List Text → Text
first_part [] = []
first_part (p ∷ ps) = p

abbrev pub is_odoo : Text → Bool
is_odoo root = lower root == txt "odoo" || lower root == txt "openerp"

abbrev pub import_root : Text → Text
import_root name = let root = first_part (split_on b'.' name) in if is_odoo root then [] else root

abbrev pub imported : Option Place → Text
imported none = []
imported (some m) =
    import_root (group_or (group_of 1 m) (group_or (group_of 2 m) (or_text (group_of 3 m) [])))

unfoldable pub missing_python_import : Text → Text
missing_python_import message = imported (search_re missing_python_import_re message)

unfoldable pub python_package_for_import : Text → Text
python_package_for_import import_name =
    or_text (Dict.get (lower import_name) pip_package_aliases) import_name

abbrev hint_for : Text → Text
hint_for [] = []
hint_for (c ∷ name) =
    txt "Cause probable : le paquet Python « "
    ++ python_package_for_import (c ∷ name)
    ++ txt
        " » (dépendance externe du module) n'a pas pu être installé automatiquement dans le conteneur Odoo de ce projet (réseau, nom de paquet PyPI différent…). Ajoute-le manuellement à init/requirements_pip.txt à la racine du projet, puis relance."

unfoldable pub external_dependency_failure_hint : Text → Text
external_dependency_failure_hint message = hint_for (missing_python_import message)

unfoldable pub missing_postgres_extension_re : Re
missing_postgres_extension_re =
    seq (lit (txt "permission denied to create extension \""))
      (seq (group 1 (many1 (word_or (txt "-")))) (lit (txt "\"")))

unfoldable pub undefined_postgres_type_re : Re
undefined_postgres_type_re = seq (lit (txt "type \"")) (
    seq (maybe (seq (many1 word) (lit (txt "."))))
      (seq (group 1 (many1 word)) (lit (txt "\" does not exist"))))

unfoldable pub postgres_type_extensions : Dict Text Text
postgres_type_extensions =
    (txt "vector", txt "vector")
    ∷ (txt "halfvec", txt "vector")
    ∷ (txt "sparsevec", txt "vector")
    ∷ []

abbrev extension_of_type : Option Place → Text
extension_of_type none = []
extension_of_type (some m) =
    or_text (Dict.get (or_text (group_of 1 m) []) postgres_type_extensions) []

abbrev extension_in : Option Place → Text → Text
extension_in (some m) message = or_text (group_of 1 m) []
extension_in none message = extension_of_type (search_re undefined_postgres_type_re message)

unfoldable pub missing_postgres_extension : Text → Text
missing_postgres_extension message =
    extension_in (search_re missing_postgres_extension_re message) message

unfoldable pub report_expression_duplicate_re : Re
report_expression_duplicate_re = lit (txt "account_report_expression_line_label_uniq")

unfoldable pub parsed_data_file_re : Re
parsed_data_file_re = seq (lit (txt "while parsing ")) (
    seq (group 1 (seq not_space (seq (many_lazy not_space) (lit (txt ".xml")))))
      (seq (lit (txt ":")) (many1 digit)))

abbrev is_lower_letter : ℕ → Bool
is_lower_letter c = leb b'a' c && leb c b'z'

unfoldable pub module_name_re : Re
module_name_re =
    seq (one is_lower_letter) (many (one (λ c. is_lower_letter c || is_digit c || c == b'_')))

-- The parts that are not empty.
unfoldable pub parts_of : ℕ → List Text → List Text
parts_of sep [] = []
parts_of sep ([] ∷ ps) = parts_of sep ps
parts_of sep ((c ∷ p) ∷ ps) = (c ∷ p) ∷ parts_of sep ps

-- `parts[-3]`, when there are three
unfoldable pub third_last : List Text → Option Text
third_last [] = none
third_last (a ∷ []) = none
third_last (a ∷ b ∷ []) = none
third_last (a ∷ b ∷ c ∷ []) = some a
third_last (a ∷ b ∷ c ∷ d ∷ ps) = third_last (b ∷ c ∷ d ∷ ps)

abbrev named_module : Option Text → Text
named_module none = []
named_module (some part) = elim (fullmatch module_name_re part) [ none ↦ [] | some m ↦ part ]

abbrev module_of_file : Option Place → Text
module_of_file none = []
module_of_file (some m) =
    named_module (third_last (parts_of b'/' (split_on b'/' (or_text (group_of 1 m) []))))

unfoldable pub report_expression_duplicate_module : Text → Text
report_expression_duplicate_module message =
    elim (search_re report_expression_duplicate_re message) [
      | none ↦ []
      | some m ↦ module_of_file (search_re parsed_data_file_re message)
    ]

unfoldable pub partial_module_import_re : Re
partial_module_import_re = seq (lit (txt "cannot import name '")) (
    seq (group 1 (many1 word)) (
      seq (lit (txt "' from partially initialized module 'odoo.addons.")) (
        seq (group 2 (many1 word)) (
          seq (group 3 (many (seq (lit (txt ".")) (many1 word)))) (
            seq (lit (txt "'")) (
              seq (many_lazy (one (λ c. not (c == 10)))) (
                seq (lit (txt "(")) (
                  seq
                    (group 4 (
                      seq (lit (txt "/"))
                        (many1 (one (λ c. not (c == b'(' || c == b')' || c == 10))))))
                    (lit (txt "/__init__.py)"))))))))))

pub record PartialImport : Type 0 where
  pub module_name : Text
  pub name : Text
  pub file : Text
  pub init : Text
  pub directory : Text

-- `"/".join(parts)`, and a slash when there is one at all
abbrev folder_prefix : List Text → Text
folder_prefix [] = []
folder_prefix (p ∷ ps) = p ++ b'/' ∷ folder_prefix ps

abbrev partial_import_of : Place → PartialImport
partial_import_of m =
    let prefix = folder_prefix (parts_of b'.' (split_on b'.' (or_text (group_of 3 m) []))) in
    record {
      module_name = or_text (group_of 2 m) [];
      name = or_text (group_of 1 m) [];
      file = prefix ++ or_text (group_of 1 m) [] ++ txt ".py";
      init = prefix ++ txt "__init__.py";
      directory = or_text (group_of 4 m) [];
    }

unfoldable pub partially_initialized_import : Text → Option PartialImport
partially_initialized_import message = elim (search_re partial_module_import_re message) [
  | none ↦ none
  | some m ↦ some (partial_import_of m)
]

-- `[`"'«]`, and with `»`
abbrev quote : ℕ → Re
quote other = one (λ c. c == 96 || c == 34 || c == 39 || c == other)

unfoldable pub missing_view_field_re : Re
missing_view_field_re = seq (alt (ilit (txt "Le champ")) (ilit (txt "Field"))) (
    seq (many1 space) (
      seq (quote 171) (
        seq (many space) (
          seq (group 1 (many1 word)) (
            seq (many space) (
              seq (quote 187) (
                seq (many1 space)
                  (alt (ilit (txt "n'existe pas")) (ilit (txt "does not exist"))))))))))

unfoldable pub missing_view_field : Text → Text
missing_view_field message = elim (search_re missing_view_field_re message) [
  | none ↦ []
  | some m ↦ or_text (group_of 1 m) []
]
