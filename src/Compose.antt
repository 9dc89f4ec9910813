-- ===== src/Compose.antt =====
-- project_service.py, the functions that edit a project's compose file as text: what they share.
use sdk_local_manager.Prelude.{
  ℕ, zero, suc, ◌-◌, ◌≡◌, refl, ap, ◌∙◌, Bool, true, false, not, ◌&&◌, List, [], ◌∷◌, ◌++◌, length,
  if◌then◌else◌, ◌==◌, Eq_ℕ, Eq_List,
}
use sdk_local_manager.Prelude.Text.{Text, txt, has_prefix, skip_spaces, strip}
use sdk_local_manager.Prelude.Lines.{is_line_break}
pub mod Healthcheck
pub mod Indents
pub mod Settled
pub mod Blocks
pub mod Edition
pub mod Added
mod Tests
pub mod Kept

-- A character before the rest of the line that it begins.
abbrev pub before_line : ℕ → List Text → List Text
before_line c [] = (c ∷ []) ∷ []
before_line c (l ∷ ls) = (c ∷ l) ∷ ls

-- Whether a line ends at a character: `\r\n` is one line break.
unfoldable pub ends_at : ℕ → Text → Bool
ends_at c t = is_line_break c && not (c == 13 && has_prefix (txt "\n") t)

-- `content.splitlines(keepends=True)`
unfoldable pub keep_lines : Text → List Text
keep_lines [] = []
keep_lines (c ∷ t) =
    let rest = keep_lines t in if ends_at c t then (c ∷ []) ∷ rest else before_line c rest

-- `"".join(lines)`
abbrev pub join_lines : List Text → Text
join_lines [] = []
join_lines (l ∷ ls) = l ++ join_lines ls

-- `len(line) - len(line.lstrip())`
abbrev pub indent : Text → ℕ
indent line = length line - length (skip_spaces line)

-- `line.strip()` as a condition
abbrev pub has_content : Text → Bool
has_content line = not (strip line == [])

-- `line.strip() and not line.lstrip().startswith("#")`
abbrev pub is_entry : Text → Bool
is_entry line = has_content line && not (has_prefix (txt "#") (skip_spaces line))

joined-before_line : (c : ℕ) (ls : List Text) → join_lines (before_line c ls) ≡ c ∷ join_lines ls
joined-before_line c [] = refl
joined-before_line c (l ∷ ls) = refl

if-joined :
    (b : Bool) (c : ℕ) (t : Text) (ls : List Text)
    → join_lines ls ≡ t
    → join_lines (if b then (c ∷ []) ∷ ls else before_line c ls) ≡ c ∷ t
if-joined true c t ls h = ap (◌∷◌ c) h
if-joined false c t ls h = joined-before_line c ls ∙ ap (◌∷◌ c) h

-- Joining the lines of a text gives the text back.
pub joined-keep_lines : (t : Text) → join_lines (keep_lines t) ≡ t
unfolding keep_lines
joined-keep_lines [] = refl
joined-keep_lines (c ∷ t) = if-joined (ends_at c t) c t (keep_lines t) (joined-keep_lines t)
