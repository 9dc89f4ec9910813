-- ===== src/Archives/Tests.antt =====
-- Small archives and bodies, and the theorems of the component at them.
use sdk_local_manager.Prelude.{
  contains, map, true, some, ℕ, ◌*◌, ◌≤◌, ◌≡◌, refl, List, [], ◌∷◌, ◌++◌, All, Eq_ℕ, Eq_List, arith,
}
use sdk_local_manager.Prelude.Text.{Text, txt}
use sdk_local_manager.Prelude.Regex.{split_on, match_re}
use sdk_local_manager.Prelude.Dict
use sdk_local_manager.Archives.{
  ZipInfo, extracted, refused, safe_extract_zip, check_entries, check_entry, extract_all, is_under,
  file_type, path_parts, total_size, max_zip_entries, max_zip_uncompressed_bytes, dangerous_path,
  safe_import_name, stem, sub_unsafe, is_import_char,
}
use sdk_local_manager.Archives.Backups.{
  object, ManifestFile, Backup, valid, invalid, encrypted, validate_odoo_backup_archive,
  first_error, entry_error, max_database_backup_entries, backup_odoo_version,
  max_backup_manifest_bytes, version_re, module_version_re, modules_series, most_common,
  IsRestorable, normalized, validate_odoo_backup_archive-IsRestorable,
}
use sdk_local_manager.Archives.Extract.{IsSafe, safe_extract_zip-IsSafe}
use sdk_local_manager.Archives.ImportName.{IsFolderName, safe_import_name-IsFolderName}
use sdk_local_manager.Archives.Uploads.{
  Stream, save_request_body_to_file, save_request_body_to_file-at_once, save_at_once, bytes,
}

abbrev base : List Text
base = txt "work" ∷ txt "addons" ∷ []

-- A folder without links: a name lands where its parts say.
abbrev place_of : Text → List Text
place_of name = base ++ path_parts name

abbrev entry : Text → ℕ → ZipInfo
entry name mode = record {
  filename = name;
  file_size = 10;
  external_attr = mode * 65536;
  flag_bits = 0;
}

abbrev manifest : ZipInfo
manifest = entry (txt "sale/__manifest__.py") 33188

abbrev link : ZipInfo
link = entry (txt "sale/lib") 41471

with_link :
    safe_extract_zip base place_of (manifest ∷ link ∷ [])
    ≡ extracted (manifest ∷ []) (link.filename ∷ [])
unfolding safe_extract_zip check_entries check_entry extract_all is_under file_type path_parts
    total_size max_zip_entries max_zip_uncompressed_bytes split_on
with_link = refl

way_up :
    safe_extract_zip base place_of (entry (txt "sale/../../x") 33188 ∷ [])
    ≡ refused (dangerous_path (txt "sale/../../x"))
unfolding safe_extract_zip check_entries check_entry extract_all is_under file_type path_parts
    total_size max_zip_entries max_zip_uncompressed_bytes split_on
way_up = refl

import_name : safe_import_name (txt "My module (2).v1.zip") ≡ txt "My_module_2_.v1"
unfolding safe_import_name stem sub_unsafe is_import_char path_parts split_on
import_name = refl

safe_extract_zip-IsSafe_example :
    (2 ≤ max_zip_entries)
    × (20 ≤ max_zip_uncompressed_bytes)
    × All (IsSafe base place_of) (manifest ∷ [])
unfolding total_size
safe_extract_zip-IsSafe_example =
    safe_extract_zip-IsSafe base place_of (manifest ∷ link ∷ []) (manifest ∷ [])
      (link.filename ∷ []) with_link

safe_import_name-IsFolderName_example : IsFolderName (safe_import_name (txt "../.."))
safe_import_name-IsFolderName_example = safe_import_name-IsFolderName (txt "../..")

abbrev body : Stream
body = txt "abc" ∷ txt "de" ∷ []

save_request_body_to_file-at_once_example :
    save_request_body_to_file body 4 2 ≡ save_at_once (bytes body) 4
save_request_body_to_file-at_once_example =
    save_request_body_to_file-at_once body 4 2 (omega arith) (omega arith, (omega arith, tt))

-- The manifest names no version: that of most of the modules is taken.
abbrev old_manifest : ManifestFile
old_manifest = record {
  file_size = 100;
  read_bytes = 100;
  loaded = object (record {
    major_version = [];
    version = [];
    modules = some (
        (txt "crm", txt "14.0.1.0")
        ∷ (txt "sale", txt "15.0.1.2")
        ∷ (txt "stock", txt "15.0.1.0")
        ∷ []);
  });
}

abbrev dump : List ZipInfo
dump = entry (txt "dump.sql") 0 ∷ entry (txt "filestore\\ab") 0 ∷ entry (txt "manifest.json") 0 ∷ []

abbrev backup : Backup
backup = record {
  entries = 3;
  has_filestore = true;
  has_manifest = true;
  odoo_version = txt "15.0";
}

dump_valid : validate_odoo_backup_archive true (some dump) old_manifest ≡ valid backup
unfolding validate_odoo_backup_archive first_error entry_error max_database_backup_entries
    backup_odoo_version max_backup_manifest_bytes version_re module_version_re modules_series
    most_common split_on match_re Dict.get Dict.put
dump_valid = refl

encrypted_dump :
    validate_odoo_backup_archive true
      (some (record (entry (txt "dump.sql") 0) { flag_bits = 9 } ∷ []))
      old_manifest
    ≡ invalid encrypted
unfolding validate_odoo_backup_archive first_error entry_error max_database_backup_entries split_on
encrypted_dump = refl

validate_odoo_backup_archive-IsRestorable_example :
    (true ≡ true)
    × (3 ≤ max_database_backup_entries)
    × (contains (map normalized dump) (txt "dump.sql") ≡ true)
    × All IsRestorable dump
validate_odoo_backup_archive-IsRestorable_example =
    validate_odoo_backup_archive-IsRestorable true dump old_manifest backup dump_valid
