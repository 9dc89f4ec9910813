-- ===== src/DiskUsage.antt =====
-- odoo_manager_core/disk_usage.py: what `du` and Docker print, and the images that nothing uses.
--
-- Sizes are read exactly: a decimal is its digits and how many of them stand after the point, where
-- the code has a float before it truncates. Digits are ASCII.
pub mod Images
pub mod Tests
use sdk_local_manager.Prelude.{
  ℕ, zero, suc, ◌+◌, ◌*◌, ◌/◌, Bool, true, false, not, ◌&&◌, ◌||◌, Option, none, some, List, [],
  ◌∷◌, ◌++◌, map, if◌then◌else◌, ◌==◌, Eq_ℕ, Eq_List, contains, all, leb, length, take, drop,
}
use sdk_local_manager.Prelude.Dict
use sdk_local_manager.Prelude.Dict.{Dict}
use sdk_local_manager.Prelude.Text.{Text, txt, is_digit, strip, to_number}
use sdk_local_manager.Prelude.Lines.{split_lines}
use sdk_local_manager.Prelude.Regex.{
  Re, Place, one, seq, alt, many, many1, maybe, times, group, at_start, at_end, lit, digit, space,
  match_re, group_of, partition,
}

-- `size.strip().isdigit()`
abbrev is_number : Text → Bool
is_number [] = false
is_number (c ∷ t) = all is_digit (c ∷ t)

abbrev is_empty : Text → Bool
is_empty [] = true
is_empty (c ∷ t) = false

-- `path.rstrip("/")`
unfoldable pub rstrip_slash : Text → Text
rstrip_slash [] = []
rstrip_slash (c ∷ t) =
    let rest = rstrip_slash t in if c == b'/' && is_empty rest then [] else c ∷ rest

abbrev add_size : Text × Text → Dict Text ℕ → Dict Text ℕ
add_size (size, path) sizes =
    if is_number (strip size) && not (is_empty path)
    then Dict.put (rstrip_slash path) (to_number (strip size) * 1024) sizes
    else sizes

unfoldable pub du_lines : List Text → Dict Text ℕ → Dict Text ℕ
du_lines [] sizes = sizes
du_lines (line ∷ lines) sizes = du_lines lines (add_size (partition 9 line) sizes)

unfoldable pub parse_du_output : Text → Dict Text ℕ
parse_du_output output = du_lines (split_lines output) []

abbrev one_of : Text → Re
one_of chars = one (contains chars)

unfoldable pub docker_size_re : Re
docker_size_re = seq at_start (
    seq (many space) (
      seq (seq (group 1 (many1 digit)) (maybe (seq (lit (txt ".")) (group 2 (many1 digit))))) (
        seq (many space) (
          seq
            (group 3
              (seq (maybe (one_of (txt "kKMGT"))) (seq (maybe (lit (txt "i"))) (lit (txt "B")))))
            (seq (many space) at_end)))))

abbrev or_text : Option Text → Text
or_text none = []
or_text (some t) = t

-- The unit, by its first letter, in bytes.
unfoldable pub docker_unit : Text → ℕ
docker_unit [] = 1
docker_unit (c ∷ t) =
    if c == b'k' || c == b'K'
    then 1000
    else if c == b'M'
    then 1000000
    else if c == b'G'
    then 1000000000
    else if c == b'T'
    then 1000000000000
    else 1

abbrev pub power_of_ten : Text → ℕ
power_of_ten [] = 1
power_of_ten (c ∷ t) = 10 * power_of_ten t

abbrev pub quotient : ℕ → ℕ → ℕ
quotient n zero = 0
quotient n (suc d) = n / suc d

abbrev size_of : Option Place → ℕ
size_of none = 0
size_of (some m) =
    let decimals = or_text (group_of 2 m) in
    quotient (to_number (or_text (group_of 1 m) ++ decimals) * docker_unit (or_text (group_of 3 m)))
      (power_of_ten decimals)

unfoldable pub parse_docker_size : Text → ℕ
parse_docker_size text = size_of (match_re docker_size_re (partition b'(' text).0)

pub record TrashEntry : Type 0 where
  pub name : Text
  pub project : Text
  pub deleted_at : Text

abbrev is_alphanumeric : ℕ → Bool
is_alphanumeric d = is_digit d || (leb b'A' d && leb d b'Z') || (leb b'a' d && leb d b'z')

abbrev is_project_char : ℕ → Bool
is_project_char c = is_alphanumeric c || c == b'_' || c == b'.' || c == b'-'

unfoldable pub trash_entry_re : Re
trash_entry_re = seq at_start (
    seq (group 1 (times 8 digit)) (
      seq (lit (txt "_")) (
        seq (group 2 (times 6 digit)) (
          seq (lit (txt "_"))
            (seq (group 3 (seq (one is_alphanumeric) (many (one is_project_char)))) at_end)))))

abbrev entry_of : Text → Option Place → Option TrashEntry
entry_of name none = none
entry_of name (some m) =
    let date = or_text (group_of 1 m) in
    let clock = or_text (group_of 2 m) in
    some (record {
      name = name;
      project = or_text (group_of 3 m);
      deleted_at =
          take 4 date
          ++ b'-'
            ∷ (take 2 (drop 4 date)
                ++ b'-' ∷ (drop 6 date ++ b' ' ∷ (take 2 clock ++ b':' ∷ take 2 (drop 2 clock))));
    })

unfoldable pub trash_entry : Text → Option TrashEntry
trash_entry name = entry_of name (match_re trash_entry_re name)

-- `reference.rsplit("/", 1)[-1]`
unfoldable pub last_part : Text → Text
last_part [] = []
last_part (c ∷ t) = let rest = last_part t in if contains (c ∷ t) b'/' then rest else c ∷ t

-- What follows the strip.
unfoldable pub normalize_stripped : Text → Text
normalize_stripped reference =
    if contains reference b'@'
    then reference
    else if contains (last_part reference) b':'
    then reference
    else reference ++ txt ":latest"

unfoldable pub normalize_image_reference : Text → Text
normalize_image_reference reference = normalize_stripped (strip reference)

pub record Image : Type 0 where
  pub id : Text
  pub repository : Text
  pub tag : Text

-- `reference`: `none` for an orphan
pub record UnusedImage : Type 0 where
  pub image : Image
  pub reference : Option Text

abbrev pub is_dangling : Image → Bool
is_dangling image = image.repository == txt "<none>" || image.tag == txt "<none>"

abbrev pub reference_of : Image → Text
reference_of image = image.repository ++ b':' ∷ image.tag

unfoldable pub is_kept : List Text → List Text → Image → Bool
is_kept used_image_ids referenced image =
    contains used_image_ids image.id
    || (not (is_dangling image)
        && contains referenced (normalize_image_reference (reference_of image)))

abbrev pub unused_among : List Text → List Text → List Image → List UnusedImage
unused_among used_image_ids referenced [] = []
unused_among used_image_ids referenced (image ∷ images) =
    let rest = unused_among used_image_ids referenced images in
    if is_kept used_image_ids referenced image
    then rest
    else record {
      image = image;
      reference = if is_dangling image then none else some (reference_of image);
    }
      ∷ rest

unfoldable pub unused_images : List Image → List Text → List Text → List UnusedImage
unused_images images used_image_ids referenced =
    unused_among used_image_ids (map normalize_image_reference referenced) images
