-- ===== src/Releases.antt =====
-- odoo_manager_core/releases.py: the published versions of the application, read from Git tags.
--
-- `str.lower` is that of ASCII, and the numbers are decimal digits.
pub mod Latest
pub mod Tests
use sdk_local_manager.Prelude.{
  ℕ, zero, suc, Bool, true, false, not, ◌&&◌, ◌||◌, Option, none, some, List, [], ◌∷◌, ◌++◌, map,
  if◌then◌else◌, ◌==◌, Eq_ℕ, Eq_List, any, all, nat_eq, length, leb,
}
use sdk_local_manager.Prelude.Text.{Text, txt, strip, is_digit, to_number, lower, has_text}
use sdk_local_manager.Prelude.Sorting.{text_leb}
use sdk_local_manager.Prelude.Regex.{
  Re, one, seq, group, at_end, lit, many1, maybe, digit, search_re, group_of, split_on, Place,
}
use sdk_local_manager.Prelude.Lines.{split_lines}
use sdk_local_manager.Prelude.Decimal.{int_of}

unfoldable pub releases_page : Text
releases_page = txt "https://gitlab.sudokeys.com/cdp/sdk-local-manager/-/releases"

-- RELEASE_TAG_RE: the groups are the tag, the version and the build.
abbrev dot : Re
dot = lit (txt ".")

abbrev number : Re
number = many1 digit

unfoldable pub release_tag_re : Re
release_tag_re = seq (lit (txt "refs/tags/")) (
    seq
      (group 1 (
        seq (lit (txt "app-v")) (
          seq (group 2 (seq number (seq dot (seq number (seq dot number)))))
            (maybe (seq (lit (txt "-build")) (group 3 number))))))
      at_end)

abbrev pub add_part : Option ℕ → Option (List ℕ) → Option (List ℕ)
add_part (some n) (some ns) = some (n ∷ ns)
add_part _ _ = none

abbrev pub ints_of : List Text → Option (List ℕ)
ints_of [] = some []
ints_of (p ∷ ps) = add_part (int_of p) (ints_of ps)

-- `none`: the text is no version, and the code raises.
unfoldable pub version_key : Text → Option (List ℕ)
unfolding int_of
version_key version = ints_of (split_on b'.' version)

pub record Release : Type 0 where
  pub key : List ℕ
  pub tag : Text
  pub version : Text

-- The order of the tuples (key, tag, version).
unfoldable pub release_leb : Release → Release → Bool
release_leb a b =
    if a.key == b.key
    then (if a.tag == b.tag then text_leb a.version b.version else text_leb a.tag b.tag)
    else text_leb a.key b.key

abbrev pub or_text : Option Text → Text → Text
or_text none t = t
or_text (some u) t = u

abbrev pub or_key : Option (List ℕ) → List ℕ
or_key none = []
or_key (some k) = k

abbrev pub build_of : Option Text → ℕ
build_of none = 0
build_of (some t) = to_number t

abbrev pub release_of : Option Place → Option Release
release_of none = none
release_of (some m) = some (record {
  key = or_key (version_key (or_text (group_of 2 m) [])) ++ build_of (group_of 3 m) ∷ [];
  tag = or_text (group_of 1 m) [];
  version = or_text (group_of 2 m) [];
})

abbrev pub add_release : Option Release → List Release → List Release
add_release none rs = rs
add_release (some r) rs = r ∷ rs

abbrev releases_in : List Text → List Release
releases_in [] = []
releases_in (line ∷ lines) =
    add_release (release_of (search_re release_tag_re (strip line))) (releases_in lines)

unfoldable pub releases_of : Text → List Release
releases_of output = releases_in (split_lines output)

-- `max(releases)`, the best so far first
unfoldable pub max_release : Release → List Release → Release
unfolding release_leb
max_release best [] = best
max_release best (r ∷ rs) = max_release (if release_leb r best then best else r) rs

abbrev pub best_of : List Release → Option Release
best_of [] = none
best_of (r ∷ rs) = some (max_release r rs)

unfoldable pub latest_release : Text → Option Release
latest_release output = best_of (releases_of output)

pub record ReleaseUpdate : Type 0 where
  pub current : Text
  pub latest : Text
  pub tag : Text
  pub update_available : Bool
  pub url : Text

-- `a > b`, for tuples of numbers
abbrev pub newer : List ℕ → List ℕ → Bool
newer a b = not (text_leb a b)

abbrev pub update_of : Text → List ℕ → Option Release → ReleaseUpdate
update_of current key none = record {
  current = current;
  latest = [];
  tag = [];
  update_available = false;
  url = releases_page;
}
update_of current key (some r) = record {
  current = current;
  latest = r.version;
  tag = r.tag;
  update_available = newer (or_key (version_key r.version)) key;
  url = releases_page ++ b'/' ∷ r.tag;
}

-- `none` when the current version is no version and there is a release to compare it with.
abbrev pub update_with : Text → Option (List ℕ) → Option Release → Option ReleaseUpdate
update_with current none (some r) = none
update_with current none none = some (update_of current [] none)
update_with current (some key) latest = some (update_of current key latest)

unfoldable pub release_update : Text → Text → Option ReleaseUpdate
release_update current output = update_with current (version_key current) (latest_release output)

pub data CheckError : Type 0 where
  unreachable wrong_host refused_key unknown_error : CheckError

abbrev unreachable_marks : List Text
unreachable_marks =
    txt "could not resolve hostname"
    ∷ txt "connection timed out"
    ∷ txt "operation timed out"
    ∷ txt "connection refused"
    ∷ txt "network is unreachable"
    ∷ txt "no route to host"
    ∷ []

-- Which of its four messages `release_check_error` gives.
unfoldable pub release_check_error : ℕ → Text → CheckError
release_check_error code output =
    let text = lower output in
    if nat_eq code 124 || any (λ mark. has_text mark text) unreachable_marks
    then unreachable
    else if has_text (txt "host key verification failed") text
        || has_text (txt "remote host identification has changed") text
    then wrong_host
    else if has_text (txt "permission denied") text || has_text (txt "publickey") text
    then refused_key
    else unknown_error
