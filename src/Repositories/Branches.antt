-- ===== src/Repositories/Branches.antt =====
-- repositories.py, the branches of a repository, and where to search for missing modules.
use sdk_local_manager.Prelude.{
  ℕ, suc, ◌+◌, Bool, true, false, not, ◌&&◌, ◌||◌, Option, none, some, List, [], ◌∷◌, ◌++◌, map,
  if◌then◌else◌, ◌==◌, Eq_ℕ, Eq_List, contains, leb, ltb, nat_eq, take,
}
use sdk_local_manager.Prelude.Dict
use sdk_local_manager.Prelude.Dict.{Dict, keys}
use sdk_local_manager.Prelude.Text.{Text, txt, is_digit, strip, lower, to_number}
use sdk_local_manager.Prelude.Lines.{split_lines}
use sdk_local_manager.Prelude.Sorting.{text_leb}
use sdk_local_manager.Prelude.Regex.{
  Re, Place, one, seq, at_start, at_end, group, lit, many, many1, times, space, not_space, match_re,
  group_of,
}
use sdk_local_manager.GitCheckouts.Addresses.{remote_label}

unfoldable pub max_remote_branches : ℕ
max_remote_branches = 2000

abbrev is_hexadecimal : ℕ → Bool
is_hexadecimal c = is_digit c || (leb b'a' c && leb c b'f')

unfoldable pub remote_head_re : Re
remote_head_re = seq at_start (
    seq (lit (txt "ref:")) (
      seq (many space) (
        seq (lit (txt "refs/heads/"))
          (seq (group 1 (many1 not_space)) (seq (many1 space) (seq (lit (txt "HEAD")) at_end))))))

unfoldable pub remote_branch_re : Re
remote_branch_re = seq at_start (
    seq (group 1 (times 40 (one is_hexadecimal)))
      (seq (many1 space) (seq (lit (txt "refs/heads/")) (seq (group 2 (many1 not_space)) at_end))))

-- A piece of a name: letters, or digits. A key alternates them, letters first.
pub data Piece : Type 0 where
  word number : Text → Piece

abbrev add_letter : ℕ → List Piece → List Piece
add_letter c (word w ∷ ps) = word (c ∷ w) ∷ ps
add_letter c ps = word (c ∷ []) ∷ ps

abbrev add_digit : ℕ → List Piece → List Piece
add_digit c (word [] ∷ number ds ∷ ps) = word [] ∷ number (c ∷ ds) ∷ ps
add_digit c ps = word [] ∷ number (c ∷ []) ∷ ps

unfoldable pub natural_key : Text → List Piece
natural_key [] = word [] ∷ []
natural_key (c ∷ t) =
    let rest = natural_key t in
    if is_digit c then add_digit c rest else add_letter (lower_first c) rest
  where
    lower_first : ℕ → ℕ
    lower_first d = if leb b'A' d && leb d b'Z' then d + 32 else d

abbrev piece_eq : Piece → Piece → Bool
piece_eq (word a) (word b) = a == b
piece_eq (number a) (number b) = nat_eq (to_number a) (to_number b)
piece_eq _ _ = false

abbrev piece_leb : Piece → Piece → Bool
piece_leb (word a) (word b) = text_leb a b
piece_leb (number a) (number b) = leb (to_number a) (to_number b)
piece_leb _ _ = false

unfoldable pub key_leb : List Piece → List Piece → Bool
key_leb [] q = true
key_leb (a ∷ p) [] = false
key_leb (a ∷ p) (b ∷ q) = let rest = key_leb p q in if piece_eq a b then rest else piece_leb a b

-- A stable sort by any order.
module _ {ℓ} {A : Type ℓ} (before : A → A → Bool) where
  insert_by : A → List A → List A
  insert_by x [] = x ∷ []
  insert_by x (y ∷ ys) = let rest = insert_by x ys in if before x y then x ∷ y ∷ ys else y ∷ rest

  unfoldable pub sort_by : List A → List A
  unfolding insert_by
  sort_by [] = []
  sort_by (x ∷ xs) = insert_by x (sort_by xs)

-- The order of a pair of a Boolean and a key, false first.
abbrev flagged_leb : Bool → Bool → Bool → Bool
flagged_leb false true rest = true
flagged_leb true false rest = false
flagged_leb _ _ rest = rest

abbrev or_text : Option Text → Text
or_text none = []
or_text (some t) = t

-- The default branch, and the commit of each branch.
pub record Remote : Type 0 where
  pub default : Text
  pub commits : Dict Text Text

abbrev branch_line : Option Place → Remote → Remote
branch_line none r = r
branch_line (some m) r = record r {
  commits = Dict.put (or_text (group_of 2 m)) (or_text (group_of 1 m)) r.commits;
}

abbrev remote_line : Option Place → Text → Remote → Remote
remote_line (some m) line r = record r { default = or_text (group_of 1 m) }
remote_line none line r = branch_line (match_re remote_branch_re line) r

unfoldable pub remote_lines : List Text → Remote → Remote
remote_lines [] r = r
remote_lines (line ∷ lines) r =
    remote_lines lines (remote_line (match_re remote_head_re (strip line)) (strip line) r)

pub record Branch : Type 0 where
  pub name : Text
  pub is_default : Bool
  pub commit : Text

abbrev branch_leb : Text → Text → Text → Bool
branch_leb default a b =
    flagged_leb (not (a == default)) (not (b == default)) (key_leb (natural_key a) (natural_key b))

unfoldable pub remote_branches : Text → List Branch
remote_branches ls_remote_output =
    let r = remote_lines (split_lines ls_remote_output) (record { default = []; commits = [] }) in
    map
      (λ name. record {
        name = name;
        is_default = name == r.default;
        commit = or_text (Dict.get name r.commits);
      })
      (take max_remote_branches (sort_by (branch_leb r.default) (keys r.commits)))

abbrev commit_of : Option Place → Text → Text → Text
commit_of none branch rest = rest
commit_of (some m) branch rest =
    if or_text (group_of 2 m) == branch then or_text (group_of 1 m) else rest

unfoldable pub commit_among : List Text → Text → Text
commit_among [] branch = []
commit_among (line ∷ lines) branch =
    let rest = commit_among lines branch in
    commit_of (match_re remote_branch_re (strip line)) branch rest

unfoldable pub remote_branch_commit : Text → Text → Text
remote_branch_commit ls_remote_output branch = commit_among (split_lines ls_remote_output) branch

unfoldable pub max_search_branches : ℕ
max_search_branches = 3

-- (project, its version of Odoo, address, branch)
pub record SearchEntry : Type 0 where
  pub project : Text
  pub version : Text
  pub url : Text
  pub branch : Text

pub record Source : Type 0 where
  pub url : Text
  pub label : Text
  pub own : Text
  pub same : Dict Text ℕ
  pub mine : Bool

abbrev is_empty : Text → Bool
is_empty [] = true
is_empty (c ∷ t) = false

abbrev one_more : Option ℕ → ℕ
one_more none = 1
one_more (some n) = suc n

-- `sources.setdefault(key, …)`
abbrev source_or_new : Option Source → Text → Text → Source
source_or_new (some s) url label = s
source_or_new none url label = record {
  url = url;
  label = label;
  own = [];
  same = [];
  mine = false;
}

abbrev marked_own : Text → SearchEntry → Source → Source
marked_own project entry s =
    if entry.project == project
    then record s { mine = true; own = if is_empty s.own then entry.branch else s.own }
    else s

abbrev counted : Text → SearchEntry → Source → Source
counted odoo_version entry s =
    if not (is_empty entry.branch) && not (is_empty odoo_version) && entry.version == odoo_version
    then record s { same = Dict.put entry.branch (one_more (Dict.get entry.branch s.same)) s.same }
    else s

abbrev add_entry : Text → Text → SearchEntry → Dict Text Source → Dict Text Source
add_entry project odoo_version entry sources =
    let label = remote_label entry.url in
    if is_empty label
    then sources
    else Dict.put (lower label)
        (counted odoo_version entry (
          marked_own project entry
            (source_or_new (Dict.get (lower label) sources) entry.url label)))
        sources

unfoldable pub gather_sources : Text → Text → List SearchEntry → Dict Text Source → Dict Text Source
gather_sources project odoo_version [] sources = sources
gather_sources project odoo_version (entry ∷ entries) sources =
    gather_sources project odoo_version entries (add_entry project odoo_version entry sources)

abbrev count_of : Option ℕ → ℕ
count_of none = 0
count_of (some n) = n

-- The most used first.
abbrev used_leb : Dict Text ℕ → Text → Text → Bool
used_leb same a b =
    let m = count_of (Dict.get a same) in
    let n = count_of (Dict.get b same) in
    if nat_eq m n then key_leb (natural_key a) (natural_key b) else ltb n m

-- `dict.fromkeys(name for name in names if name)`
unfoldable pub distinct_names : List Text → List Text → List Text
distinct_names seen [] = seen
distinct_names seen (name ∷ names) =
    distinct_names (if is_empty name || contains seen name then seen else seen ++ name ∷ []) names

unfoldable pub branches_of : Text → Source → List Text
branches_of odoo_version s =
    distinct_names [] (s.own ∷ odoo_version ∷ sort_by (used_leb s.same) (keys s.same))

pub record SearchSource : Type 0 where
  pub url : Text
  pub label : Text
  pub branches : List Text
  pub in_project : Bool

abbrev add_source : Source → List Text → List SearchSource → List SearchSource
add_source s [] rest = rest
add_source s (b ∷ bs) rest =
    record {
      url = s.url;
      label = s.label;
      branches = take max_search_branches (b ∷ bs);
      in_project = s.mine;
    }
    ∷ rest

unfoldable pub search_sources : Text → Dict Text Source → List SearchSource
search_sources odoo_version [] = []
search_sources odoo_version ((key, s) ∷ sources) =
    add_source s (branches_of odoo_version s) (search_sources odoo_version sources)

abbrev source_leb : SearchSource → SearchSource → Bool
source_leb a b =
    flagged_leb (not a.in_project) (not b.in_project) (text_leb (lower a.label) (lower b.label))

unfoldable pub repository_search_sources : List SearchEntry → Text → Text → List SearchSource
repository_search_sources entries project odoo_version =
    sort_by source_leb
      (search_sources odoo_version (gather_sources project odoo_version entries []))
