-- ===== src/Repositories.antt =====
-- odoo_manager_core/repositories.py: the modules of a Git repository, its branches, the patterns of
-- a sparse checkout, and what a failed clone says.
--
-- `casefold` is taken for `lower`, over ASCII.
pub mod Branches
pub mod Nesting
pub mod Tests
use sdk_local_manager.Prelude.{
  ℕ, zero, suc, ◌+◌, Bool, true, false, not, ◌&&◌, ◌||◌, Option, none, some, List, [], ◌∷◌, ◌++◌,
  map, if◌then◌else◌, ◌==◌, Eq_ℕ, Eq_List, contains, any, leb, ltb, nat_eq, length, take,
}
use sdk_local_manager.Prelude.Dict
use sdk_local_manager.Prelude.Dict.{Dict, keys}
use sdk_local_manager.Prelude.Text.{Text, txt, is_digit, strip, lower, has_text, span, to_number}
use sdk_local_manager.Prelude.Lines.{split_lines}
use sdk_local_manager.Prelude.Sorting.{text_leb}
use sdk_local_manager.Prelude.Regex.{
  Re, Place, one, seq, at_start, at_end, group, lit, many, many1, times, space, not_space, match_re,
  group_of, partition, split_on,
}

unfoldable pub repository_skipped_dirs : List Text
repository_skipped_dirs = txt ".git" ∷ txt "__pycache__" ∷ txt "node_modules" ∷ []

abbrev pub manifest_filenames : List Text
manifest_filenames = txt "__manifest__.py" ∷ txt "__openerp__.py" ∷ []

-- The parts of a path before and after its last slash.
unfoldable pub basename : Text → Text
basename [] = []
basename (c ∷ t) = let rest = basename t in if contains (c ∷ t) b'/' then rest else c ∷ t

abbrev is_empty : Text → Bool
is_empty [] = true
is_empty (c ∷ t) = false

-- The text up to its last slash, which it keeps.
abbrev pub up_to_slash : Text → Text
up_to_slash [] = []
up_to_slash (c ∷ t) = let rest = up_to_slash t in if contains (c ∷ t) b'/' then c ∷ rest else []

-- `head.rstrip("/")`
abbrev pub without_slashes : Text → Text
without_slashes [] = []
without_slashes (c ∷ t) =
    let rest = without_slashes t in if c == b'/' && is_empty rest then [] else c ∷ rest

-- `posixpath.dirname(path)`: slashes alone are kept.
unfoldable pub dirname : Text → Text
dirname path =
    let head = up_to_slash path in
    if is_empty (without_slashes head) then head else without_slashes head

-- The path of a line of `git ls-tree -r`, and whether it is a link.
pub record TreeLine : Type 0 where
  pub is_link : Bool
  pub path : Text

unfoldable pub tree_line : Text → TreeLine
tree_line line =
    let (meta, path) = partition 9 line in
    record { is_link = (partition b' ' meta).0 == txt "120000"; path = path }

abbrev add_member : Text → List Text → List Text
add_member x s = if contains s x then s else s ++ x ∷ []

pub record Tree : Type 0 where
  pub manifest_dirs : List Text
  pub has_symlinks : Bool

abbrev add_tree_line : TreeLine → Tree → Tree
add_tree_line l tree = if is_empty l.path then tree else record {
  manifest_dirs =
      if contains manifest_filenames (basename l.path)
      then add_member (dirname l.path) tree.manifest_dirs
      else tree.manifest_dirs;
  has_symlinks = tree.has_symlinks || l.is_link;
}

unfoldable pub read_tree : List Text → Tree → Tree
read_tree [] tree = tree
read_tree (line ∷ lines) tree = read_tree lines (add_tree_line (tree_line line) tree)

-- How deep a directory lies, the root first, and the order of the key (depth, directory).
unfoldable pub slashes : Text → ℕ
slashes [] = 0
slashes (c ∷ t) = let n = slashes t in if c == b'/' then suc n else n

abbrev pub depth : Text → ℕ
depth [] = 0
depth (c ∷ t) = suc (slashes (c ∷ t))

abbrev pub directory_leb : Text → Text → Bool
directory_leb d e = if nat_eq (depth d) (depth e) then text_leb d e else ltb (depth d) (depth e)

unfoldable pub insert_directory : Text → List Text → List Text
insert_directory d [] = d ∷ []
insert_directory d (e ∷ es) =
    let rest = insert_directory d es in if directory_leb d e then d ∷ e ∷ es else e ∷ rest

unfoldable pub sort_directories : List Text → List Text
sort_directories [] = []
sort_directories (d ∷ ds) = insert_directory d (sort_directories ds)

-- The directories above one, below the root: what stands before each of its slashes.
unfoldable pub ancestors : Text → List Text
ancestors [] = []
ancestors (c ∷ t) =
    let rest = map (λ p. c ∷ p) (ancestors t) in if c == b'/' then [] ∷ rest else rest

abbrev pub Modules : Type 0
Modules = Dict Text Text

abbrev last_part : List Text → Text
last_part [] = []
last_part (p ∷ []) = p
last_part (p ∷ q ∷ ps) = last_part (q ∷ ps)

abbrev pub module_name : Text → Text → Text
module_name repository_name [] = repository_name
module_name repository_name (c ∷ t) = last_part (split_on b'/' (c ∷ t))

abbrev path_parts_of : Text → List Text
path_parts_of [] = []
path_parts_of (c ∷ t) = split_on b'/' (c ∷ t)

abbrev pub is_skipped : Text → Bool
is_skipped directory = any (contains repository_skipped_dirs) (path_parts_of directory)

-- One turn of the loop. Once the root is a module, the turns that follow leave everything as it is,
-- as the `break` of the code does.
unfoldable pub visit_directory : Text → Text → Modules → Modules
visit_directory repository_name directory modules =
    if is_skipped directory
    then modules
    else if Dict.has [] modules
    then modules
    else if any (λ above. Dict.has above modules) (ancestors directory)
    then modules
    else Dict.put directory (module_name repository_name directory) modules

unfoldable pub visit_directories : Text → List Text → Modules → Modules
visit_directories repository_name [] modules = modules
visit_directories repository_name (d ∷ ds) modules =
    visit_directories repository_name ds (visit_directory repository_name d modules)

unfoldable pub repository_modules_from_tree : Text → Text → Modules × Bool
repository_modules_from_tree tree_output repository_name =
    let tree =
      read_tree (split_lines tree_output) (record { manifest_dirs = []; has_symlinks = false }) in
    (visit_directories repository_name (sort_directories tree.manifest_dirs) [], tree.has_symlinks)

-- `repository_tree_modules`: the file of each module's manifest, and the links.
pub record Files : Type 0 where
  pub manifest_files : Dict Text Text
  pub symlinks : List Text

abbrev set_manifest : Modules → Text → Dict Text Text → Dict Text Text
set_manifest found path files =
    let directory = dirname path in
    if contains manifest_filenames (basename path)
      && Dict.has directory found
      && not (Dict.has directory files)
    then Dict.put directory (basename path) files
    else files

abbrev add_file : Modules → TreeLine → Files → Files
add_file found l files = if is_empty l.path then files else record {
  manifest_files = set_manifest found l.path files.manifest_files;
  symlinks = if l.is_link then files.symlinks ++ l.path ∷ [] else files.symlinks;
}

unfoldable pub read_files : Modules → List Text → Files → Files
read_files found [] files = files
read_files found (line ∷ lines) files =
    read_files found lines (add_file found (tree_line line) files)

pub record TreeModule : Type 0 where
  pub path : Text
  pub name : Text
  pub manifest : Text

abbrev or_manifest : Option Text → Text
or_manifest none = txt "__manifest__.py"
or_manifest (some file) = file

unfoldable pub repository_tree_modules : Text → Text → List TreeModule × List Text
repository_tree_modules tree_output repository_name =
    let found = (repository_modules_from_tree tree_output repository_name).0 in
    let files =
      read_files found (split_lines tree_output) (record { manifest_files = []; symlinks = [] }) in
    (
      map
          (λ e. record {
            path = e.0;
            name = e.1;
            manifest = or_manifest (Dict.get e.0 files.manifest_files);
          })
          found,
      files.symlinks,
    )

-- The characters that a pattern of sparse-checkout reads in its own way.
abbrev is_special : ℕ → Bool
is_special c = c == b'*' || c == b'?' || c == b'[' || c == 92

unfoldable pub escaped : Text → Text
escaped [] = []
escaped (c ∷ t) = let rest = escaped t in if is_special c then 92 ∷ c ∷ rest else c ∷ rest

unfoldable pub sparse_checkout_pattern : Text → Text
sparse_checkout_pattern path = b'/' ∷ (escaped path ++ 10 ∷ [])

pub data CloneError : Type 0 where
  key_refused host_unverified branch_missing server_unreachable clone_failed : CloneError

abbrev mentions : List Text → Text → Bool
mentions markers details = any (λ marker. has_text marker details) markers

-- Which of its messages `repository_clone_error` gives; branch_missing is RepositoryBranchMissing.
unfoldable pub repository_clone_error : Text → CloneError
repository_clone_error stderr =
    let details = lower stderr in
    if mentions
      (txt "permission denied (publickey)"
        ∷ txt "no such identity"
        ∷ txt "sign_and_send_pubkey"
        ∷ [])
      details
    then key_refused
    else if has_text (txt "host key verification failed") details
    then host_unverified
    else if mentions
        (txt "remote branch"
          ∷ txt "couldn't find remote ref"
          ∷ txt "could not find remote branch"
          ∷ txt "not found in upstream origin"
          ∷ [])
        details
    then branch_missing
    else if mentions
        (txt "could not resolve hostname"
          ∷ txt "failed to connect"
          ∷ txt "connection timed out"
          ∷ txt "connection refused"
          ∷ [])
        details
    then server_unreachable
    else clone_failed
