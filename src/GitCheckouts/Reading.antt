-- ===== src/GitCheckouts/Reading.antt =====
-- git_checkouts.py, `tag_for_commit`, `read_sdk_info` and `read_checkout`: what is told of a copy.
--
-- What json.loads makes of info.sdk, and what `Path.rglob` lists, are parameters beside the disk.
use mathlib.Core.Path.{subst}
use sdk_local_manager.Prelude.{
  ℕ, Bool, true, false, ◌&&◌, Option, none, some, List, [], ◌∷◌, ◌++◌, if◌then◌else◌, ◌==◌, Eq_ℕ,
  Eq_List, take, ◌≡◌, refl, arith, Bool-cases, inl, inr, ◌⊎◌,
}
use sdk_local_manager.Prelude.Dict
use sdk_local_manager.Prelude.Dict.{Dict}
use sdk_local_manager.Prelude.Text.{Text, txt, strip, has_prefix}
use sdk_local_manager.Prelude.Sorting.{sort_texts, text_leb}
use sdk_local_manager.GitCheckouts.{Disk, join, sdk_info_file}
use sdk_local_manager.GitCheckouts.Refs.{
  packed_refs, tag_names, remove_prefix, is_sha, git_directory, common_directory, resolve_ref,
}
use sdk_local_manager.GitCheckouts.Addresses.{remote_url, without_credentials, remote_label}

unfoldable pub max_loose_tags : ℕ
max_loose_tags = 500

-- info.sdk, when it is an object; its fields when they are texts, `remotes` when it is an object.
pub record SdkInfo : Type 0 where
  pub remotes : Dict Text Text
  pub commit : Text
  pub active_branch : Text

pub data Source : Type 0 where
  git sdk : Source

pub record Checkout : Type 0 where
  pub source : Source
  pub branch : Text
  pub tag : Text
  pub commit : Text
  pub remote : Text
  pub remote_label : Text

-- The order of paths is that of their parts.
abbrev parts_leb : List Text → List Text → Bool
parts_leb [] q = true
parts_leb (a ∷ p) [] = false
parts_leb (a ∷ p) (b ∷ q) = let rest = parts_leb p q in if a == b then rest else text_leb a b

unfoldable pub insert_path : List Text → List (List Text) → List (List Text)
insert_path p [] = p ∷ []
insert_path p (q ∷ qs) =
    let rest = insert_path p qs in if parts_leb p q then p ∷ q ∷ qs else q ∷ rest

unfoldable pub sort_paths : List (List Text) → List (List Text)
sort_paths [] = []
sort_paths (p ∷ ps) = insert_path p (sort_paths ps)

abbrev slashed : List Text → Text
slashed [] = []
slashed (p ∷ []) = p
slashed (p ∷ q ∷ ps) = p ++ b'/' ∷ slashed (q ∷ ps)

abbrev holds : Option Text → Text → Bool
holds none commit = false
holds (some text) commit = strip text == commit

abbrev first_or : List Text → Text → Text
first_or [] other = other
first_or (t ∷ ts) other = remove_prefix (txt "refs/tags/") t

abbrev url_among : Dict Text Text → Text
url_among [] = []
url_among ((name, url) ∷ remotes) = url

abbrev origin_or : Option Text → Text → Text
origin_or none other = other
origin_or (some []) other = other
origin_or (some (c ∷ t)) other = c ∷ t

unfoldable pub sdk_checkout : SdkInfo → Checkout
sdk_checkout info =
    let url = origin_or (Dict.get (txt "origin") info.remotes) (url_among info.remotes) in
    record {
      source = sdk;
      branch = info.active_branch;
      tag = [];
      commit = if is_sha info.commit then info.commit else [];
      remote = without_credentials url;
      remote_label = remote_label url;
    }

-- No tag, or one of a commit outside every branch.
abbrev pub IsDetached : Text → Text → Text → Type 0
IsDetached branch tag commit = (tag ≡ []) ⊎ ((branch ≡ []) × (is_sha commit ≡ true))

module _ (disk : Disk) (rglob : Text → Option (List (List Text)))
    (loads : Text → Option SdkInfo) where
  unfoldable pub loose_tag : Text → Text → List (List Text) → Text
  loose_tag tags commit [] = []
  loose_tag tags commit (path ∷ paths) =
      let rest = loose_tag tags commit paths in
      let file = join tags (slashed path) in
      if disk.is_file file && holds (disk.read_text file) commit then slashed path else rest

  abbrev loose_among : Text → Text → Option (List (List Text)) → Text
  loose_among tags commit none = []
  loose_among tags commit (some paths) =
      loose_tag tags commit (sort_paths (take max_loose_tags paths))

  unfoldable pub tag_for_commit : Text → Text → Text
  tag_for_commit common commit =
      let tags = join common (txt "refs/tags") in
      first_or (sort_texts (tag_names commit (packed_refs disk common)))
        (loose_among tags commit (rglob tags))

  abbrev loaded : Option Text → Option SdkInfo
  loaded none = none
  loaded (some text) = loads text

  unfoldable pub read_sdk_info : Text → Option Checkout
  read_sdk_info root = elim (loaded (disk.read_text (join root sdk_info_file))) [
    | some info ↦ some (sdk_checkout info)
    | none ↦ none
  ]

  -- The branch, the tag and the commit that HEAD names.
  abbrev pub Place : Type 0
  Place = Text × Text × Text

  unfoldable pub head_place : Text → Text → Text → Place
  head_place git_dir common head =
      if has_prefix (txt "ref:") head
      then (
        remove_prefix (txt "refs/heads/") (strip (remove_prefix (txt "ref:") head)),
        [],
        resolve_ref disk git_dir common (strip (remove_prefix (txt "ref:") head)),
      )
      else if is_sha head
      then ([], tag_for_commit common head, head)
      else ([], [], [])

  abbrev git_checkout : Text → Place → Checkout
  git_checkout url (branch, tag, commit) = record {
    source = git;
    branch = branch;
    tag = tag;
    commit = commit;
    remote = without_credentials url;
    remote_label = remote_label url;
  }

  abbrev pub with_head : Text → Text → Option Text → Option Checkout
  with_head root git_dir none = read_sdk_info root
  with_head root git_dir (some text) =
      let common = common_directory disk git_dir in
      some (
        git_checkout (remote_url disk common (txt "origin"))
          (head_place git_dir common (strip text)))

  abbrev pub with_directory : Text → Option Text → Option Checkout
  with_directory root none = read_sdk_info root
  with_directory root (some git_dir) =
      with_head root git_dir (disk.read_text (join git_dir (txt "HEAD")))

  unfoldable pub read_checkout : Text → Option Checkout
  read_checkout root = with_directory root (git_directory disk root)

  abbrev IsPlaced : Place → Type 0
  IsPlaced p = IsDetached p.0 p.1 p.2

  head_place-IsDetached : (git_dir common head : Text) → IsPlaced (head_place git_dir common head)
  unfolding head_place
  head_place-IsDetached git_dir common head = elim (Bool-cases (has_prefix (txt "ref:") head)) [
    | inl e ↦ rw e (inl refl)
    | inr e ↦ elim (Bool-cases (is_sha head)) [
      | inl s ↦ rw e (rw s (inr (refl, s)))
      | inr s ↦ rw e (rw s (inl refl))
    ]
  ]

  elim-IsDetached :
      (o : Option SdkInfo) (c : Checkout)
      → (elim o [ some info ↦ some (sdk_checkout info) | none ↦ none ]) ≡ some c
      → c.tag ≡ []
  unfolding sdk_checkout
  elim-IsDetached none c h = absurd (ground (arith, h))
  elim-IsDetached (some info) c h = ground (arith, h)

  read_sdk_info-tag : (root : Text) (c : Checkout) → read_sdk_info root ≡ some c → c.tag ≡ []
  unfolding read_sdk_info
  read_sdk_info-tag root c h =
      elim-IsDetached (loaded (disk.read_text (join root sdk_info_file))) c h

  with_head-IsDetached :
      (root git_dir : Text) (o : Option Text) (c : Checkout)
      → with_head root git_dir o ≡ some c
      → IsDetached c.branch c.tag c.commit
  with_head-IsDetached root git_dir none c h = inl (read_sdk_info-tag root c h)
  with_head-IsDetached root git_dir (some text) c h =
      let common = common_directory disk git_dir in
      let place = head_place git_dir common (strip text) in
      let same : git_checkout (remote_url disk common (txt "origin")) place ≡ c =
        ground (arith, h) in
      subst (λ k. IsDetached k.branch k.tag k.commit) same
        (head_place-IsDetached git_dir common (strip text))

  with_directory-IsDetached :
      (root : Text) (o : Option Text) (c : Checkout)
      → with_directory root o ≡ some c
      → IsDetached c.branch c.tag c.commit
  with_directory-IsDetached root none c h = inl (read_sdk_info-tag root c h)
  with_directory-IsDetached root (some git_dir) c h =
      with_head-IsDetached root git_dir (disk.read_text (join git_dir (txt "HEAD"))) c h

  -- A copy that is told to be at a tag is on no branch, and its commit is a whole one.
  pub read_checkout-IsDetached :
      (root : Text) (c : Checkout)
      → read_checkout root ≡ some c
      → IsDetached c.branch c.tag c.commit
  unfolding read_checkout
  read_checkout-IsDetached root c h = with_directory-IsDetached root (git_directory disk root) c h
