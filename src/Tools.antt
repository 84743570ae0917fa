-- ===== src/Tools.antt =====
-- src/deepseek_mcp/tools.py: what the file tools do with the arguments of a call and the text of a file.
-- Reading and writing of workspace files are answers of the host; the texts of results and errors are
-- constructors.
pub mod Edit
use deepseek_as_subagent.Prelude.{
  ℕ, zero, suc, ◌+◌, ◌-◌, ◌*◌, Bool, true, false, not, ◌&&◌, ◌||◌, Option, none, some, List, [],
  ◌∷◌, ◌++◌, ltb, leb, ◌==◌, if◌then◌else◌, length, is_empty,
}
use deepseek_as_subagent.Prelude.Results.{Result, ok, err, ◌>>=◌, ◌>>◌, raise_if}
use deepseek_as_subagent.Text.{Text, codes, starts_with, take, join}
use deepseek_as_subagent.Text.Lines.{text_break, split_lines}
use deepseek_as_subagent.Json.{pos, Value, null, bool, int, str, Fields, get}
use deepseek_as_subagent.Json.Size.{decimal}
use deepseek_as_subagent.Agent.State.{reserve}
use deepseek_as_subagent.FileIdentity.{ToolInputError, bounded_integer}

abbrev pub max_tool_output : ℕ
max_tool_output = 50_000

abbrev pub max_write_bytes : ℕ
max_write_bytes = 5_000_000

unfoldable pub truncate : Text → Text
unfolding take decimal
truncate text =
    if ltb max_tool_output (length text)
    then take max_tool_output text
      ++ (codes "\n... [truncated, total "
          ++ (decimal (length text)
              ++ (codes " chars, showing first " ++ (decimal max_tool_output ++ codes "]"))))
    else text

-- The bytes of a code point under `errors="replace"`: a surrogate becomes a question mark.
unfoldable pub char_size : ℕ → ℕ
char_size c =
    if ltb c 0x80
    then 1
    else if ltb c 0x800
    then 2
    else if leb 0xd800 c && leb c 0xdfff
    then 1
    else if ltb c 0x10000
    then 3
    else 4

-- `len(text.encode("utf-8", errors="replace"))`
unfoldable pub encoded_size : Text → ℕ
unfolding char_size
encoded_size [] = 0
encoded_size (c ∷ s) = char_size c + encoded_size s

-- `_utf8_size`
unfoldable pub clamped_size : Text → ℕ
unfolding encoded_size
clamped_size text =
    if ltb max_write_bytes (length text) then max_write_bytes + 1 else encoded_size text

drop_lines : ℕ → List Text → List Text
drop_lines zero ts = ts
drop_lines (suc n) [] = []
drop_lines (suc n) (t ∷ ts) = drop_lines n ts

take_lines : ℕ → List Text → List Text
take_lines zero ts = []
take_lines (suc n) [] = []
take_lines (suc n) (t ∷ ts) = t ∷ take_lines n ts

optional_limit : Option Value → Result ToolInputError (Option ℕ)
unfolding bounded_integer
optional_limit none = ok none
optional_limit (some null) = ok none
optional_limit (some v) = do n ← bounded_integer v 0 none; ok (some n)

sliced : Text → Option Value → Option Value → Result ToolInputError Text
unfolding bounded_integer optional_limit drop_lines take_lines split_lines join
sliced text none none = ok text
sliced text offset limit = do
  first ← bounded_integer (elim offset [ none ↦ int (pos 0) | some v ↦ v ]) 0 none
  count ← optional_limit limit
  let rest = drop_lines first (split_lines text_break text)
  ok (join (codes "\n") (elim count [ none ↦ rest | some n ↦ take_lines n rest ]))

unfoldable pub slice_lines : Text → Fields → Result ToolInputError Text
unfolding sliced get
slice_lines text args = sliced text (get (codes "offset") args) (get (codes "limit") args)

-- The errors of the file tools.
pub data ToolFailure : Type 0 where
  missing_path : ToolFailure
  missing_old_string : ToolFailure
  not_a_string : Text → ToolFailure
  replace_all_not_a_boolean : ToolFailure
  content_too_large : ToolFailure
  not_found : Text → ToolFailure
  unreadable : Text → Text → ToolFailure
  old_string_not_found : Text → ToolFailure
  not_unique : ℕ → Text → ToolFailure
  already_exists : Text → ToolFailure
  write_failed : Text → Text → ToolFailure
  -- `ResourceBudgetExceeded`, which the tools raise on.
  budget_exceeded : ToolFailure

-- The occurrences of a text that is not empty, from left to right and without overlap, at most as many
-- as the limit. `skip` code points belong to the last occurrence.
abbrev pub wanted : Option ℕ → Bool
wanted none = true
wanted (some zero) = false
wanted (some (suc n)) = true

abbrev pub one_less : Option ℕ → Option ℕ
one_less none = none
one_less (some n) = some (n - 1)

abbrev pub is_hit : Text → Option ℕ → Text → Bool
is_hit old limit s = wanted limit && starts_with old s

unfoldable pub occurrences : Text → Option ℕ → ℕ → Text → ℕ
unfolding starts_with
occurrences old limit skip [] = 0
occurrences old limit (suc skip) (c ∷ s) = occurrences old limit skip s
occurrences old limit zero (c ∷ s) =
    let hit = is_hit old limit (c ∷ s) in
    let rest =
      occurrences old (if hit then one_less limit else limit) (if hit then length old - 1 else 0)
        s in
    if hit then suc rest else rest

-- `text.count(old)`
unfoldable pub count : Text → Text → ℕ
unfolding occurrences
count text old = occurrences old none 0 text

unfoldable pub replaced_from : Text → Text → Option ℕ → ℕ → Text → Text
unfolding starts_with
replaced_from old new limit skip [] = []
replaced_from old new limit (suc skip) (c ∷ s) = replaced_from old new limit skip s
replaced_from old new limit zero (c ∷ s) =
    let hit = is_hit old limit (c ∷ s) in
    let rest =
      replaced_from old new (if hit then one_less limit else limit)
        (if hit then length old - 1 else 0) s in
    if hit then new ++ rest else c ∷ rest

-- `text.replace(old, new)`, or `text.replace(old, new, n)`
unfoldable pub replace : Text → Text → Text → Option ℕ → Text
unfolding replaced_from
replace text old new limit = replaced_from old new limit 0 text

-- The size of the new text is compared with the sizes of what is taken away on the other side.
unfoldable pub build_replacement : Text → Text → Text → Bool → Text → Result ToolFailure (Text × ℕ)
unfolding count clamped_size replace
build_replacement text old new replace_all path =
    let n = count text old in
    let replacements = if replace_all then n else 1 in
    do
      raise_if (n == 0) (old_string_not_found path)
      raise_if (ltb 1 n && not replace_all) (not_unique n path)
      raise_if
          (ltb (max_write_bytes + replacements * clamped_size old)
            (clamped_size text + replacements * clamped_size new))
          content_too_large
      ok (replace text old new (if replace_all then none else some 1), replacements)
