-- ===== src/Prelude/Text.antt =====
-- Python's `str` as the list of its code points, so that `len`, slices and `+` are those of lists.
use Prim.Native.Nat.{ℕ, ◌+◌, ◌-◌, ◌*◌}
use Prim.Native.Char.{code}
use Prim.Native.String.{String}
use mathlib.Core.Bool.{Bool, true, false, ◌&&◌, ◌||◌}
use mathlib.Core.List.{List, [], ◌∷◌, reverse}
use sdk_local_manager.Prelude.Tests.{leb, if◌then◌else◌}
use sdk_local_manager.Prelude.Equality.{◌==◌, Eq_ℕ}

abbrev pub Text : Type 0
Text = List ℕ

abbrev pub txt : String → Text
txt String.[] = []
txt (String.◌∷◌ c s) = code c ∷ txt s

-- `text.startswith(prefix)`, the prefix first
abbrev pub has_prefix : Text → Text → Bool
has_prefix [] t = true
has_prefix (c ∷ p) [] = false
has_prefix (c ∷ p) (d ∷ t) = (c == d) && has_prefix p t

-- `str.isspace`, and `\s` of a pattern
abbrev pub is_space : ℕ → Bool
is_space c =
    (leb 9 c && leb c 13)
    || (leb 28 c && leb c 32)
    || c == 133
    || c == 160
    || c == 5760
    || (leb 8192 c && leb c 8202)
    || c == 8232
    || c == 8233
    || c == 8239
    || c == 8287
    || c == 12288

abbrev pub is_digit : ℕ → Bool
is_digit c = leb b'0' c && leb c b'9'

-- The longest beginning of which every character passes, and the rest.
unfoldable pub span : (ℕ → Bool) → Text → Text × Text
span p [] = ([], [])
span p (c ∷ t) = let (a, b) = span p t in if p c then (c ∷ a, b) else ([], c ∷ t)

abbrev pub skip_spaces : Text → Text
skip_spaces [] = []
skip_spaces (c ∷ t) = let rest = skip_spaces t in if is_space c then rest else c ∷ t

-- `text.strip()`, `text.rstrip("\n")`, `text.endswith(suffix)`
unfoldable pub strip : Text → Text
strip t = reverse (skip_spaces (reverse (skip_spaces t)))

abbrev pub skip_newlines : Text → Text
skip_newlines [] = []
skip_newlines (c ∷ t) = let rest = skip_newlines t in if c == 10 then rest else c ∷ t

unfoldable pub rstrip_newlines : Text → Text
rstrip_newlines t = reverse (skip_newlines (reverse t))

unfoldable pub has_suffix : Text → Text → Bool
has_suffix s t = has_prefix (reverse s) (reverse t)

-- The number that decimal digits write.
abbrev pub number_from : ℕ → Text → ℕ
number_from acc [] = acc
number_from acc (c ∷ t) = number_from (acc * 10 + (c - b'0')) t

unfoldable pub to_number : Text → ℕ
to_number t = number_from 0 t

-- `text.lower()`, over ASCII
abbrev pub lower_char : ℕ → ℕ
lower_char c = if leb b'A' c && leb c b'Z' then c + 32 else c

abbrev pub lower : Text → Text
lower [] = []
lower (c ∷ t) = lower_char c ∷ lower t

-- `part in text`
unfoldable pub has_text : Text → Text → Bool
has_text part [] = has_prefix part []
has_text part (c ∷ t) = has_prefix part (c ∷ t) || has_text part t

-- `text.split()`: its words. The first of the pair is the word that the text begins in.
abbrev pub add_word : Text → List Text → List Text
add_word [] ws = ws
add_word (c ∷ w) ws = (c ∷ w) ∷ ws

abbrev pub split_word : Text → Text × List Text
split_word [] = ([], [])
split_word (c ∷ t) =
    let (w, ws) = split_word t in if is_space c then ([], add_word w ws) else (c ∷ w, ws)

unfoldable pub words : Text → List Text
words t = let (w, ws) = split_word t in add_word w ws
