-- ===== src/Archives.antt =====
-- odoo_manager_core/archives.py: what is uploaded, and what an archive may hold.
--
-- An archive is the list of its entries, as zipfile lists them. What the file system makes of a
-- name (`Path.resolve`) is a parameter, and a path is the list of its parts, those of POSIX.
pub mod Backups
pub mod Extract
pub mod ImportName
pub mod Uploads
pub mod Multipart
pub mod Form
pub mod Tests
use sdk_local_manager.Prelude.{
  ℕ, zero, suc, ◌+◌, ◌-◌, ◌*◌, ◌/◌, ◌%◌, min, Bool, true, false, not, ◌&&◌, ◌||◌, Option, none,
  some, List, [], ◌∷◌, ◌++◌, if◌then◌else◌, ◌==◌, Eq_ℕ, Eq_List, any, all, length, leb, ltb, nat_eq,
  drop, take, map,
}
use sdk_local_manager.Prelude.Text.{Text, txt, has_prefix, is_digit}
use sdk_local_manager.Prelude.Regex.{split_on}

unfoldable pub max_zip_entries : ℕ
max_zip_entries = 100000

unfoldable pub max_zip_uncompressed_bytes : ℕ
max_zip_uncompressed_bytes = 2147483648

pub record ZipInfo : Type 0 where
  pub filename : Text
  pub file_size : ℕ
  pub external_attr : ℕ
  pub flag_bits : ℕ

pub data ZipError : Type 0 where
  too_many_entries too_large : ZipError
  invalid_path dangerous_path unsupported_type outside : Text → ZipError

-- What comes of an archive: a refusal, or the entries extracted and the names of the links skipped.
pub data Extraction : Type 0 where
  refused : ZipError → Extraction
  extracted : List ZipInfo → List Text → Extraction

-- `Path(name).parts` of a relative name
abbrev is_named : Text → Bool
is_named [] = false
is_named (c ∷ t) = not ((c ∷ t) == txt ".")

abbrev named_only : List Text → List Text
named_only [] = []
named_only (p ∷ ps) = let rest = named_only ps in if is_named p then p ∷ rest else rest

unfoldable pub path_parts : Text → List Text
path_parts name = named_only (split_on b'/' name)

abbrev pub has_root : Text → Bool
has_root [] = true
has_root (c ∷ t) = c == b'/' || c == 92

abbrev is_letter : ℕ → Bool
is_letter c = (leb b'A' c && leb c b'Z') || (leb b'a' c && leb c b'z')

abbrev pub has_drive : Text → Bool
has_drive (c ∷ d ∷ t) = is_letter c && d == b':'
has_drive _ = false

-- A backslash or a zero byte
abbrev pub is_forbidden : ℕ → Bool
is_forbidden c = c == 92 || c == 0

abbrev pub is_parent : Text → Bool
is_parent part = part == txt ".."

abbrev pub type_link : ℕ
type_link = 40960

abbrev pub type_file : ℕ
type_file = 32768

abbrev pub type_directory : ℕ
type_directory = 16384

-- `(info.external_attr >> 16) & 0o170000`
unfoldable pub file_type : ZipInfo → ℕ
file_type info = info.external_attr / 65536 / 4096 % 16 * 4096

abbrev pub is_plain : ℕ → Bool
is_plain mode = nat_eq mode 0 || nat_eq mode type_file || nat_eq mode type_directory

-- `base == target or base in target.parents`
unfoldable pub is_under : List Text → List Text → Bool
is_under [] target = true
is_under (p ∷ base) [] = false
is_under (p ∷ base) (q ∷ target) = p == q && is_under base target

-- What the loop over the entries makes of one: nothing, a link to skip, or a refusal.
pub data Check : Type 0 where
  accepted skipped : Check
  rejected : ZipError → Check

unfoldable pub total_size : List ZipInfo → ℕ
total_size [] = 0
total_size (info ∷ infos) = info.file_size + total_size infos

abbrev pub is_skipped : List Text → ZipInfo → Bool
is_skipped skipped_links info = any (λ name. name == info.filename) skipped_links

unfoldable pub extract_all : List Text → List ZipInfo → List ZipInfo
extract_all skipped_links [] = []
extract_all skipped_links (info ∷ infos) =
    let rest = extract_all skipped_links infos in
    if is_skipped skipped_links info then rest else info ∷ rest

-- The names of the links, or the first refusal.
pub data Checked : Type 0 where
  fine : List Text → Checked
  wrong : ZipError → Checked

abbrev pub add_check : Text → Check → Checked → Checked
add_check name (rejected e) rest = wrong e
add_check name accepted rest = rest
add_check name skipped (fine names) = fine (name ∷ names)
add_check name skipped (wrong e) = wrong e

abbrev pub finish_extract : List ZipInfo → Checked → Extraction
finish_extract infos (wrong e) = refused e
finish_extract infos (fine names) = extracted (extract_all names infos) names

-- The folder, and where the file system puts each name in it.
module _ (base : List Text) (resolve : Text → List Text) where
  unfoldable pub check_entry : ZipInfo → Check
  check_entry info =
      if has_root info.filename
      then rejected (invalid_path info.filename)
      else if any is_forbidden info.filename || has_drive info.filename
      then rejected (invalid_path info.filename)
      else if any is_parent (path_parts info.filename)
      then rejected (dangerous_path info.filename)
      else if nat_eq (file_type info) type_link
      then skipped
      else if not (is_plain (file_type info))
      then rejected (unsupported_type info.filename)
      else if not (is_under base (resolve info.filename))
      then rejected (outside info.filename)
      else accepted

  unfoldable pub check_entries : List ZipInfo → Checked
  check_entries [] = fine []
  check_entries (info ∷ infos) = add_check info.filename (check_entry info) (check_entries infos)

  unfoldable pub safe_extract_zip : List ZipInfo → Extraction
  safe_extract_zip infos =
      if ltb max_zip_entries (length infos)
      then refused too_many_entries
      else if ltb max_zip_uncompressed_bytes (total_size infos)
      then refused too_large
      else finish_extract infos (check_entries infos)

-- `Path(filename or "modules").stem`: the last part of the path, less what follows its last dot.
abbrev pub last_part : List Text → Text
last_part [] = []
last_part (p ∷ []) = p
last_part (p ∷ q ∷ ps) = last_part (q ∷ ps)

-- The text before the last dot, when there is one.
abbrev before_dot : Text → Option Text
before_dot [] = none
before_dot (c ∷ t) =
    let later = before_dot t in
    elim later [ some u ↦ some (c ∷ u) | none ↦ if c == b'.' then some [] else none ]

abbrev ends_with_dot : Text → Bool
ends_with_dot [] = false
ends_with_dot (c ∷ []) = c == b'.'
ends_with_dot (c ∷ d ∷ t) = ends_with_dot (d ∷ t)

abbrev stem_of : Text → Option Text → Text
stem_of name none = name
stem_of name (some []) = name
stem_of name (some (c ∷ t)) = if ends_with_dot name then name else c ∷ t

unfoldable pub stem : Text → Text
unfolding path_parts
stem filename = let name = last_part (path_parts filename) in stem_of name (before_dot name)

unfoldable pub is_import_char : ℕ → Bool
is_import_char c = is_letter c || is_digit c || c == b'_' || c == b'.' || c == b'-'

-- `SAFE_IMPORT_NAME_RE.sub("_", text)`: a run of other characters becomes one underscore. The
-- Boolean tells that the character before is such a one.
unfoldable pub sub_unsafe : Bool → Text → Text
sub_unsafe in_run [] = []
sub_unsafe in_run (c ∷ t) =
    let rest = sub_unsafe (not (is_import_char c)) t in
    if is_import_char c then c ∷ rest else if in_run then rest else b'_' ∷ rest

abbrev pub is_outer : ℕ → Bool
is_outer c = c == b'.' || c == b'_'

abbrev pub lstrip_outer : Text → Text
lstrip_outer [] = []
lstrip_outer (c ∷ t) = let rest = lstrip_outer t in if is_outer c then rest else c ∷ t

abbrev end_outer : ℕ → Text → Text
end_outer c [] = if is_outer c then [] else c ∷ []
end_outer c (d ∷ t) = c ∷ d ∷ t

abbrev pub rstrip_outer : Text → Text
rstrip_outer [] = []
rstrip_outer (c ∷ t) = end_outer c (rstrip_outer t)

abbrev pub or_modules : Text → Text
or_modules [] = txt "modules"
or_modules (c ∷ t) = c ∷ t

unfoldable pub safe_import_name : Text → Text
unfolding stem
safe_import_name filename =
    or_modules
      (lstrip_outer (rstrip_outer (sub_unsafe false (or_modules (stem (or_modules filename))))))
