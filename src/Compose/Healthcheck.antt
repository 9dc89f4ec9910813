-- ===== src/Compose/Healthcheck.antt =====
-- project_service.py, `add_postgres_healthcheck_start_period`.
use sdk_local_manager.Prelude.{
  ℕ, zero, suc, Bool, false, not, ◌&&◌, ◌||◌, List, [], ◌∷◌, ◌++◌, length, min, any, filter, leb,
  if◌then◌else◌, ◌==◌, Eq_ℕ, Eq_List,
}
use sdk_local_manager.Prelude.Text.{Text, txt, has_prefix, has_suffix, has_text, skip_spaces, strip}
use sdk_local_manager.Compose.{indent, has_content, is_entry, join_lines, keep_lines}

-- The lines that follow a `healthcheck:` of an indentation, until one that is not under it.
abbrev pub is_below : ℕ → Text → Bool
is_below n line = not (has_content line && leb (indent line) n)

unfoldable pub block_of : ℕ → List Text → List Text × List Text
block_of n [] = ([], [])
block_of n (line ∷ ls) =
    let (block, after) = block_of n ls in
    if is_below n line then (line ∷ block, after) else ([], line ∷ ls)

abbrev pub starts_period : Text → Bool
starts_period line = has_prefix (txt "start_period:") (skip_spaces line)

-- Whether a healthcheck runs `pg_isready` and has no `start_period`.
unfoldable pub needs_start_period : List Text → Bool
needs_start_period block =
    let keys = filter is_entry block in
    any (has_text (txt "pg_isready")) keys && not (any starts_period keys)

-- The smallest indentation of the keys.
unfoldable pub child_indent : List Text → ℕ
child_indent [] = 0
child_indent (line ∷ []) = indent line
child_indent (line ∷ key ∷ keys) = min (indent line) (child_indent (key ∷ keys))

unfoldable pub newline_of : Text → Text
newline_of line = if has_suffix (txt "\r\n") line then txt "\r\n" else txt "\n"

unfoldable pub with_end : Text → Text
with_end line =
    if has_suffix (txt "\n") line || has_suffix (txt "\r") line
    then line
    else line ++ newline_of line

-- `" " * n`
abbrev pub spaces : ℕ → Text
spaces zero = []
spaces (suc n) = 32 ∷ spaces n

unfoldable pub start_period_line : ℕ → Text → Text
start_period_line n last = spaces n ++ (txt "start_period: 120s" ++ newline_of last)

-- The line is put after the last key of the block.
unfoldable pub insert_after_last : ℕ → List Text → List Text
insert_after_last n [] = []
insert_after_last n (line ∷ ls) =
    let rest = insert_after_last n ls in
    if any is_entry ls
    then line ∷ rest
    else if is_entry line
    then with_end line ∷ start_period_line n line ∷ ls
    else line ∷ ls

unfoldable pub amended : List Text → List Text
amended block =
    if needs_start_period block
    then insert_after_last (child_indent (filter is_entry block)) block
    else block

unfoldable pub opens_healthcheck : Text → Bool
opens_healthcheck line = strip line == txt "healthcheck:"

-- The block of a line that opens a healthcheck, and the lines after it; another line has no block.
unfoldable pub opened : Text → List Text → List Text × List Text
opened line ls = if opens_healthcheck line then block_of (indent line) ls else ([], ls)

-- Each round of the outer loop takes one line at least, so that as many rounds as lines are enough.
unfoldable pub edited : ℕ → List Text → List Text × Bool
edited zero ls = ([], false)
edited (suc fuel) [] = ([], false)
edited (suc fuel) (line ∷ ls) =
    let (block, after) = opened line ls in
    let (rest, changed) = edited fuel after in
    (line ∷ amended block ++ rest, needs_start_period block || changed)

unfoldable pub add_postgres_healthcheck_start_period : Text → Text × Bool
add_postgres_healthcheck_start_period content =
    let lines = keep_lines content in
    let (result, changed) = edited (length lines) lines in (join_lines result, changed)
