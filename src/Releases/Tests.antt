-- ===== src/Releases/Tests.antt =====
-- The tags of a small repository, and the theorems of the releases at them.
use sdk_local_manager.Prelude.{◌≡◌, refl, true, some, [], ◌∷◌, ◌++◌, Eq_ℕ, Eq_List}
use sdk_local_manager.Prelude.Text.{Text, txt, strip, has_text, to_number}
use sdk_local_manager.Prelude.Lines.{split_lines}
use sdk_local_manager.Prelude.Regex.{search_re, split_on}
use sdk_local_manager.Releases.{
  ReleaseUpdate, release_tag_re, version_key, releases_of, release_leb, max_release, latest_release,
  release_update, release_check_error, releases_page, unreachable, refused_key,
}

abbrev line : Text → Text
line tag = txt "0123456789 refs/tags/app-v" ++ tag ++ 10 ∷ []

abbrev tags : Text
tags =
    line (txt "1.2.0-build4")
    ++ line (txt "1.10.0")
    ++ line (txt "1.9.9-build7")
    ++ line (txt "1.x")

abbrev update : ReleaseUpdate
update = record {
  current = txt "1.9.0";
  latest = txt "1.10.0";
  tag = txt "app-v1.10.0";
  update_available = true;
  url = txt "https://gitlab.sudokeys.com/cdp/sdk-local-manager/-/releases/app-v1.10.0";
}

-- 1.10.0 is later than 1.9.9.
update-tags : release_update (txt "1.9.0") tags ≡ some update
unfolding release_update latest_release releases_of max_release release_leb version_key
    release_tag_re search_re split_on split_lines strip to_number releases_page
update-tags = refl

errors :
    (release_check_error 124 [] ≡ unreachable)
    × (release_check_error 1 (txt "git@host: Permission denied") ≡ refused_key)
unfolding release_check_error has_text
errors = (refl, refl)

key_current : version_key (txt "1.9.0") ≡ some (1 ∷ 9 ∷ 0 ∷ [])
unfolding version_key split_on to_number
key_current = refl
