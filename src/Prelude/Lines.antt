-- ===== src/Prelude/Lines.antt =====
-- `text.splitlines()`.
use Prim.Native.Nat.{ℕ}
use mathlib.Core.Bool.{Bool, false, ◌&&◌, ◌||◌}
use mathlib.Core.List.{List, [], ◌∷◌, ◌++◌}
use sdk_local_manager.Prelude.Tests.{if◌then◌else◌, leb, nat_eq}
use sdk_local_manager.Prelude.Text.{Text}

-- The characters at which `text.splitlines()` ends a line; `\r\n` ends one line.
unfoldable pub is_line_break : ℕ → Bool
is_line_break c =
    (leb 10 c && leb c 13)
    || (leb 28 c && leb c 30)
    || nat_eq c 133
    || nat_eq c 8232
    || nat_eq c 8233

-- `after_cr`: the character before was `\r`.
split_lines_from : Bool → Text → Text → List Text
unfolding is_line_break
split_lines_from after_cr [] [] = []
split_lines_from after_cr (d ∷ line) [] = (d ∷ line) ∷ []
split_lines_from after_cr line (c ∷ t) =
    let skipped = split_lines_from false line t in
    let ended = split_lines_from (nat_eq c 13) [] t in
    let same = split_lines_from false (line ++ c ∷ []) t in
    if after_cr && nat_eq c 10 then skipped else if is_line_break c then line ∷ ended else same

unfoldable pub split_lines : Text → List Text
unfolding split_lines_from
split_lines t = split_lines_from false [] t
