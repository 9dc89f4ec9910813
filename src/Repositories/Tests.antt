-- ===== src/Repositories/Tests.antt =====
-- A small repository, and the theorem of the modules at it.
use sdk_local_manager.Prelude.{◌≡◌, refl, true, false, [], ◌∷◌, ◌++◌, Eq_ℕ, Eq_List}
use sdk_local_manager.Prelude.Dict
use sdk_local_manager.Prelude.Text.{Text, txt, has_text, strip, to_number, has_suffix}
use sdk_local_manager.Prelude.Lines.{split_lines}
use sdk_local_manager.Prelude.Regex.{partition, split_on, match_re}
use sdk_local_manager.Repositories.{
  repository_modules_from_tree, read_tree, tree_line, basename, dirname, visit_directories,
  visit_directory, sort_directories, insert_directory, slashes, ancestors, repository_skipped_dirs,
  repository_tree_modules, read_files, sparse_checkout_pattern, escaped, repository_clone_error,
  branch_missing,
}
use sdk_local_manager.Repositories.Branches.{
  remote_branches, remote_lines, remote_head_re, remote_branch_re, natural_key, key_leb, sort_by,
  max_remote_branches, repository_search_sources, search_sources, gather_sources, branches_of,
  distinct_names, max_search_branches,
}
use sdk_local_manager.GitCheckouts.Addresses.{
  remote_label, scheme_re, short_re, without_credentials, credentials_re,
}
use sdk_local_manager.Repositories.Nesting.{AreApart, repository_modules_from_tree-AreApart}

abbrev file : Text → Text
file path = txt "100644 blob 0123" ++ 9 ∷ path ++ 10 ∷ []

-- `pos/tests/fixture` lies in `pos`, and `node_modules` is left aside.
abbrev tree_listing : Text
tree_listing =
    file (txt "pos/tests/fixture/__manifest__.py")
    ++ file (txt "pos/__openerp__.py")
    ++ file (txt "node_modules/x/__manifest__.py")
    ++ file (txt "README.md")

tree_modules :
    (repository_tree_modules tree_listing (txt "repo")).0
    ≡ record { path = txt "pos"; name = txt "pos"; manifest = txt "__openerp__.py" } ∷ []
unfolding repository_tree_modules read_files repository_modules_from_tree read_tree tree_line
    basename dirname visit_directories visit_directory sort_directories insert_directory slashes
    ancestors repository_skipped_dirs split_lines partition split_on Dict.get Dict.put
tree_modules = refl

pattern : sparse_checkout_pattern (txt "a[1]") ≡ txt "/a\\[1]" ++ 10 ∷ []
unfolding sparse_checkout_pattern escaped
pattern = refl

no_branch : repository_clone_error (txt "fatal: Remote branch x not found") ≡ branch_missing
unfolding repository_clone_error has_text
no_branch = refl

repository_modules_from_tree-AreApart_example :
    AreApart (repository_modules_from_tree tree_listing (txt "repo")).0
repository_modules_from_tree-AreApart_example =
    repository_modules_from_tree-AreApart tree_listing (txt "repo")

abbrev commit : Text
commit = txt "0123456789012345678901234567890123456789"

abbrev remote : Text
remote =
    txt "ref: refs/heads/17.0 HEAD"
    ++ 10 ∷ commit
    ++ txt " refs/heads/10.0"
    ++ 10 ∷ commit
    ++ txt " refs/heads/8.0"
    ++ 10 ∷ commit
    ++ txt " refs/heads/17.0"

-- The default branch first, then 8.0 before 10.0.
branches_remote :
    remote_branches remote
    ≡ record { name = txt "17.0"; is_default = true; commit = commit }
      ∷ record { name = txt "8.0"; is_default = false; commit = commit }
      ∷ record { name = txt "10.0"; is_default = false; commit = commit }
      ∷ []
unfolding remote_branches remote_lines remote_head_re remote_branch_re natural_key key_leb sort_by
    max_remote_branches match_re split_lines strip to_number Dict.get Dict.put
branches_remote = refl

abbrev pos_address : Text
pos_address = txt "git@h:o/pos.git"

sources_pos :
    repository_search_sources
      (record { project = txt "p"; version = txt "16.0"; url = pos_address; branch = txt "work" }
        ∷ record {
          project = txt "q";
          version = txt "17.0";
          url = txt "git@h:O/pos";
          branch = txt "fix";
        }
        ∷ [])
      (txt "q")
      (txt "17.0")
    ≡ record {
      url = pos_address;
      label = txt "h/o/pos";
      branches = txt "fix" ∷ txt "17.0" ∷ [];
      in_project = true;
    }
      ∷ []
unfolding repository_search_sources search_sources gather_sources branches_of distinct_names
    max_search_branches natural_key key_leb sort_by remote_label scheme_re short_re
    without_credentials credentials_re match_re strip has_suffix Dict.get Dict.put
sources_pos = refl
