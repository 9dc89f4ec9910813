-- ===== src/GitCheckouts/Refs.antt =====
-- git_checkouts.py, the files of a Git directory: where it is, its references, the commit of one and
-- the tag of a commit.
use mathlib.Core.List.{reverse}
use sdk_local_manager.Prelude.{
  ℕ, Bool, true, false, ◌&&◌, ◌||◌, Option, none, some, List, [], ◌∷◌, if◌then◌else◌, ◌==◌, Eq_ℕ,
  Eq_List, drop, length, leb,
}
use sdk_local_manager.Prelude.Text.{Text, txt, has_prefix, is_digit, strip, skip_spaces}
use sdk_local_manager.Prelude.Lines.{split_lines}
use sdk_local_manager.Prelude.Regex.{Re, one, seq, at_start, at_end, times, match_re, partition}
use sdk_local_manager.GitCheckouts.{Disk, join}

abbrev is_hexadecimal : ℕ → Bool
is_hexadecimal c = is_digit c || (leb b'a' c && leb c b'f')

unfoldable pub sha_re : Re
sha_re = seq at_start (seq (times 40 (one is_hexadecimal)) at_end)

unfoldable pub is_sha : Text → Bool
is_sha t = elim (match_re sha_re t) [ some m ↦ true | none ↦ false ]

-- `text.removeprefix(prefix)`
unfoldable pub remove_prefix : Text → Text → Text
remove_prefix prefix t = if has_prefix prefix t then drop (length prefix) t else t

-- A reference and its commit, the commit first.
abbrev pub Ref : Type 0
Ref = Text × Text

-- One line of packed-refs; the references so far, the last one first.
abbrev pub starts_with : ℕ → Text → Bool
starts_with c [] = false
starts_with c (d ∷ t) = d == c

abbrev add_ref : Text × Text → List Ref → List Ref
add_ref (sha, ref) refs = (strip sha, strip ref) ∷ refs

abbrev ordinary_line : Text → List Ref → List Ref
ordinary_line [] refs = refs
ordinary_line (c ∷ t) refs = if c == b'#' then refs else add_ref (partition b' ' (c ∷ t)) refs

unfoldable pub packed_line : Text → List Ref → List Ref
packed_line line [] = ordinary_line line []
packed_line line ((sha, ref) ∷ refs) =
    if starts_with b'^' line
    then (strip (drop 1 line), ref) ∷ refs
    else ordinary_line line ((sha, ref) ∷ refs)

unfoldable pub packed_lines : List Text → List Ref → List Ref
packed_lines [] refs = reverse refs
packed_lines (line ∷ lines) refs = packed_lines lines (packed_line line refs)

abbrev refs_in : Option Text → List Ref
refs_in none = []
refs_in (some text) = packed_lines (split_lines text) []

-- `next((sha for sha, name in refs if name == ref), "")`
unfoldable pub packed_sha : Text → List Ref → Text
packed_sha ref [] = []
packed_sha ref ((sha, name) ∷ refs) = if name == ref then sha else packed_sha ref refs

unfoldable pub tag_names : Text → List Ref → List Text
tag_names commit [] = []
tag_names commit ((sha, name) ∷ refs) =
    let rest = tag_names commit refs in
    if sha == commit && has_prefix (txt "refs/tags/") name then name ∷ rest else rest

module _ (disk : Disk) where
  unfoldable pub packed_refs : Text → List Ref
  packed_refs common = refs_in (disk.read_text (join common (txt "packed-refs")))

  -- The text of the first file that holds a commit.
  abbrev loose_sha : Option Text → Option Text
  loose_sha none = none
  loose_sha (some text) = if is_sha (strip text) then some (strip text) else none

  abbrev first_sha : Option Text → Option Text → Text → Text
  first_sha (some sha) other packed = sha
  first_sha none (some sha) packed = sha
  first_sha none none packed = packed

  unfoldable pub resolve_ref : Text → Text → Text → Text
  resolve_ref git_dir common ref =
      first_sha (loose_sha (disk.read_text (join git_dir ref)))
        (loose_sha (disk.read_text (join common ref))) (packed_sha ref (packed_refs common))

  abbrev pointed_to : Text → Text → Text
  pointed_to root target = if disk.is_absolute target then target else join root target

  -- `re.match(r"gitdir:\s*(.+)", text)`: what a `.git` file points to
  abbrev first_line : Text → Text
  first_line [] = []
  first_line (c ∷ t) = let rest = first_line t in if c == 10 then [] else c ∷ rest

  abbrev some_text : Text → Option Text
  some_text [] = none
  some_text (c ∷ t) = some (c ∷ t)

  unfoldable pub gitdir_target : Text → Option Text
  gitdir_target text =
      if has_prefix (txt "gitdir:") text
      then some_text (strip (first_line (skip_spaces (drop 7 text))))
      else none

  abbrev git_file : Text → Option Text → Option Text
  git_file root none = none
  git_file root (some text) = elim (gitdir_target (strip text)) [
    | some target ↦ some (pointed_to root target)
    | none ↦ none
  ]

  unfoldable pub git_directory : Text → Option Text
  git_directory root =
      let dot_git = join root (txt ".git") in
      if disk.is_dir dot_git then some dot_git else git_file root (disk.read_text dot_git)

  abbrev shared : Text → Option Text → Text
  shared git_dir none = git_dir
  shared git_dir (some text) = pointed_to git_dir (strip text)

  unfoldable pub common_directory : Text → Text
  common_directory git_dir = shared git_dir (disk.read_text (join git_dir (txt "commondir")))
