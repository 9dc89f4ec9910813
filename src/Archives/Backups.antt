-- ===== src/Archives/Backups.antt =====
-- archives.py, `validate_odoo_backup_archive` and `backup_odoo_version`: what a database's backup
-- must be, and the version of Odoo that made it.
--
-- The archive is what zipfile gives of it: `none` when it is no readable archive. What the manifest
-- holds is what json.loads makes of its text, its values as `str` gives them.
use sdk_local_manager.Prelude.{
  ℕ, suc, ◌%◌, ◌≤◌, ◌≡◌, refl, Bool, true, false, not, ◌||◌, Option, none, some, List, [], ◌∷◌,
  ◌++◌, if◌then◌else◌, ◌==◌, Eq_ℕ, Eq_List, map, length, any, contains, ltb, nat_eq, All, arith,
  if-cases, inl, inr,
}
use sdk_local_manager.Prelude.Dict
use sdk_local_manager.Prelude.Dict.{Dict, keys}
use sdk_local_manager.Prelude.Text.{Text, txt, has_prefix}
use sdk_local_manager.Prelude.Regex.{
  Re, Place, seq, lit, many1, maybe, digit, group, match_re, group_of, split_on,
}
use sdk_local_manager.Archives.{ZipInfo, is_parent}

unfoldable pub max_database_backup_entries : ℕ
max_database_backup_entries = 2000000

unfoldable pub max_backup_manifest_bytes : ℕ
max_backup_manifest_bytes = 4194304

-- The fields of the manifest that are read; `modules` when it is an object.
pub record Manifest : Type 0 where
  pub major_version : Text
  pub version : Text
  pub modules : Option (Dict Text Text)

-- What reading `manifest.json` gives: an error (KeyError, OSError, BadZipFile, or no JSON), a value
-- that is no object, or an object.
pub data Loaded : Type 0 where
  unreadable other_value : Loaded
  object : Manifest → Loaded

-- Its announced size, the bytes that are read (one more than the limit at most), and their value.
pub record ManifestFile : Type 0 where
  pub file_size : ℕ
  pub read_bytes : ℕ
  pub loaded : Loaded

pub data BackupError : Type 0 where
  not_a_zip damaged too_many_files dump_absent dangerous_path encrypted manifest_too_large :
      BackupError

pub data Checked {ℓ} (A : Type ℓ) : Type ℓ where
  valid : A → Checked A
  invalid : BackupError → Checked A

-- `(?:saas~)?(\d+)\.(\d+)`, and `(\d+)\.(\d+)\.\d+`
unfoldable pub version_re : Re
version_re =
    seq (maybe (lit (txt "saas~")))
      (seq (group 1 (many1 digit)) (seq (lit (txt ".")) (group 2 (many1 digit))))

unfoldable pub module_version_re : Re
module_version_re =
    seq (group 1 (many1 digit))
      (seq (lit (txt ".")) (seq (group 2 (many1 digit)) (seq (lit (txt ".")) (many1 digit))))

abbrev or_text : Option Text → Text
or_text none = []
or_text (some t) = t

abbrev series_of : Option Place → Option Text
series_of none = none
series_of (some m) = some (or_text (group_of 1 m) ++ b'.' ∷ or_text (group_of 2 m))

-- `series[name] += 1`, and `series.most_common(1)`: the first of those counted most
abbrev one_more : Option ℕ → ℕ
one_more none = 1
one_more (some n) = suc n

unfoldable pub most_common : Dict Text ℕ → Option (Text × ℕ)
most_common [] = none
most_common ((name, n) ∷ counts) = elim (most_common counts) [
  | none ↦ some (name, n)
  | some (other, m) ↦ if ltb n m then some (other, m) else some (name, n)
]

abbrev common_series : Option (Text × ℕ) → Text
common_series none = []
common_series (some (name, n)) = name

unfoldable pub modules_series : Dict Text Text → Dict Text ℕ → Text
modules_series [] counts = common_series (most_common counts)
modules_series ((name, module_version) ∷ modules) counts =
    elim (series_of (match_re module_version_re module_version)) [
      | none ↦ modules_series modules counts
      | some series ↦
          if name == txt "base"
          then series
          else modules_series modules (Dict.put series (one_more (Dict.get series counts)) counts)
    ]

abbrev first_series : Option Text → Option Text → Option (Dict Text Text) → Text
first_series (some series) other modules = series
first_series none (some series) modules = series
first_series none none none = []
first_series none none (some modules) = modules_series modules []

abbrev loaded_version : Loaded → Text
loaded_version unreadable = []
loaded_version other_value = []
loaded_version (object manifest) =
    first_series (series_of (match_re version_re manifest.major_version))
      (series_of (match_re version_re manifest.version)) manifest.modules

unfoldable pub backup_odoo_version : ManifestFile → Checked Text
backup_odoo_version file =
    if ltb max_backup_manifest_bytes file.file_size
    then invalid manifest_too_large
    else if ltb max_backup_manifest_bytes file.read_bytes
    then invalid manifest_too_large
    else valid (loaded_version file.loaded)

-- `filename.replace("\\", "/")`
abbrev pub slash_char : ℕ → ℕ
slash_char c = if c == 92 then b'/' else c

abbrev pub normalized : ZipInfo → Text
normalized entry = map slash_char entry.filename

abbrev pub is_restored : Text → Bool
is_restored name = name == txt "dump.sql" || has_prefix (txt "filestore/") name

abbrev pub first_char : ℕ → Text → Bool
first_char c [] = false
first_char c (d ∷ t) = d == c

-- The refusal of an entry, if any.
unfoldable pub entry_error : ZipInfo → Option BackupError
entry_error entry =
    let name = normalized entry in
    if not (is_restored name)
    then none
    else if first_char b'/' name || any is_parent (split_on b'/' name)
    then some dangerous_path
    else if nat_eq (entry.flag_bits % 2) 1
    then some encrypted
    else none

unfoldable pub first_error : List ZipInfo → Option BackupError
first_error [] = none
first_error (entry ∷ entries) =
    let later = first_error entries in elim (entry_error entry) [ some e ↦ some e | none ↦ later ]

pub record Backup : Type 0 where
  pub entries : ℕ
  pub has_filestore : Bool
  pub has_manifest : Bool
  pub odoo_version : Text

abbrev backup_of : List ZipInfo → Bool → Checked Text → Checked Backup
backup_of entries has_manifest (invalid e) = invalid e
backup_of entries has_manifest (valid version) = valid (record {
  entries = length entries;
  has_filestore = any (λ entry. has_prefix (txt "filestore/") (normalized entry)) entries;
  has_manifest = has_manifest;
  odoo_version = version;
})

abbrev named : Text → List ZipInfo → Bool
named name entries = contains (map normalized entries) name

abbrev validated : List ZipInfo → ManifestFile → Option BackupError → Checked Backup
validated entries file (some e) = invalid e
validated entries file none =
    backup_of entries (named (txt "manifest.json") entries)
      (if named (txt "manifest.json") entries then backup_odoo_version file else valid [])

-- The entries when they can be listed, and the manifest that the archive may hold.
abbrev listed : Option (List ZipInfo) → ManifestFile → Checked Backup
listed none file = invalid damaged
listed (some entries) file =
    if ltb max_database_backup_entries (length entries)
    then invalid too_many_files
    else if not (named (txt "dump.sql") entries)
    then invalid dump_absent
    else validated entries file (first_error entries)

unfoldable pub validate_odoo_backup_archive :
    Bool → Option (List ZipInfo) → ManifestFile → Checked Backup
validate_odoo_backup_archive is_zipfile entries file =
    if not is_zipfile then invalid not_a_zip else listed entries file

-- What a restore takes of an archive: a dump or a file of the store, without a way up, in the clear.
abbrev pub IsRestorable : ZipInfo → Type 0
IsRestorable entry =
    is_restored (normalized entry) ≡ true
    → (any is_parent (split_on b'/' (normalized entry)) ≡ false)
      × (nat_eq (entry.flag_bits % 2) 1 ≡ false)

entry_error-IsRestorable : (entry : ZipInfo) → entry_error entry ≡ none → IsRestorable entry
unfolding entry_error
entry_error-IsRestorable entry h r = (ground arith, ground arith)

first_error-IsRestorable :
    (entries : List ZipInfo) → first_error entries ≡ none → All IsRestorable entries
unfolding first_error
first_error-IsRestorable [] h = tt
first_error-IsRestorable (entry ∷ entries) h =
    (entry_error-IsRestorable entry (ground arith), first_error-IsRestorable entries (ground arith))

validated-first_error :
    (entries : List ZipInfo) (file : ManifestFile) (o : Option BackupError) (b : Backup)
    → validated entries file o ≡ valid b
    → o ≡ none
validated-first_error entries file none b h = refl
validated-first_error entries file (some e) b h = absurd (ground (arith, h))

-- A backup that is accepted has a dump, is within the limit, and of what a restore takes from it
-- nothing has a path with a way up, and nothing is encrypted.
pub validate_odoo_backup_archive-IsRestorable :
    (is_zipfile : Bool) (entries : List ZipInfo) (file : ManifestFile) (b : Backup)
    → validate_odoo_backup_archive is_zipfile (some entries) file ≡ valid b
    → (is_zipfile ≡ true)
      × (length entries ≤ max_database_backup_entries)
      × (contains (map normalized entries) (txt "dump.sql") ≡ true)
      × All IsRestorable entries
unfolding validate_odoo_backup_archive
validate_odoo_backup_archive-IsRestorable false entries file b h = absurd (ground (arith, h))
validate_odoo_backup_archive-IsRestorable true entries file b h =
    let small = if-cases (ltb max_database_backup_entries (length entries)) _ _ _ h in
    elim small [
      | inl x ↦ absurd (ground (arith, x.1))
      | inr x ↦ elim (if-cases (not (named (txt "dump.sql") entries)) _ _ _ x.1) [
        | inl y ↦ absurd (ground (arith, y.1))
        | inr y ↦ (
          refl,
          ground (arith, x.0),
          ground (arith, y.0),
          first_error-IsRestorable entries
              (validated-first_error entries file (first_error entries) b y.1),
        )
      ]
    ]
