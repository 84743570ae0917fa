-- ===== src/Text/Lines.antt =====
-- `splitlines` of Python's `bytes` and `str`, whose breaks differ, and the last line.
use mathlib.Core.List.{reverse}
use deepseek_as_subagent.Prelude.{
  ℕ, Bool, false, not, ◌&&◌, ◌||◌, Option, none, some, List, [], ◌∷◌, leb, ◌==◌, if◌then◌else◌,
  is_empty,
}
use deepseek_as_subagent.Text.{Text}

abbrev pub byte_break : ℕ → Bool
byte_break c = c == 10 || c == 13

abbrev pub text_break : ℕ → Bool
text_break c =
    (leb 10 c && leb c 13) || (leb 28 c && leb c 30) || c == 0x85 || c == 0x2028 || c == 0x2029

-- The line so far is in reverse. A line feed behind a carriage return belongs to the same break.
lines_from : (ℕ → Bool) → Bool → Text → Text → List Text
lines_from break after_cr line [] = if is_empty line then [] else reverse line ∷ []
lines_from break after_cr line (c ∷ s) =
    let skipped = after_cr && c == 10 in
    let ends = not skipped && break c in
    let rest = lines_from break (ends && c == 13) (if skipped || ends then [] else c ∷ line) s in
    if ends then reverse line ∷ rest else rest

unfoldable pub split_lines : (ℕ → Bool) → Text → List Text
unfolding lines_from
split_lines break text = lines_from break false [] text

unfoldable pub last_line : List Text → Option Text
last_line [] = none
last_line (t ∷ []) = some t
last_line (t ∷ u ∷ ts) = last_line (u ∷ ts)
