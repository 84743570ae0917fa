-- ===== src/Agent/Bash.antt =====
-- src/deepseek_mcp/bash_outcome.py: the outcome of a Bash call, read off the first line of its text.
use mathlib.Core.List.{reverse}
use deepseek_as_subagent.Prelude.{
  ℕ, zero, suc, ◌+◌, ◌-◌, ◌*◌, Bool, true, false, not, ◌&&◌, Option, none, some, [], ◌∷◌, ◌++◌, leb,
  ◌==◌, if◌then◌else◌, is_empty,
}
use deepseek_as_subagent.Text.{Text, codes, starts_with}
use deepseek_as_subagent.Json.{ℤ, pos, negsuc, int}
use deepseek_as_subagent.Agent.State.{AgentState}

-- `output.partition("\n")[0]`
unfoldable pub first_line : Text → Text
first_line [] = []
first_line (c ∷ s) = elim (c == 10) [ true ↦ [] | false ↦ c ∷ first_line s ]

-- ASCII digits. (`\d` also takes the digits of other scripts.)
is_digit : ℕ → Bool
is_digit c = leb 48 c && leb c 57

digits_value : ℕ → Text → ℕ
digits_value n [] = n
digits_value n (c ∷ s) = digits_value (n * 10 + (c - 48)) s

-- `(\d+)\]` up to the end of the line: the number, or none.
digits_then_bracket : Text → Text → Option ℕ
unfolding is_digit digits_value
digits_then_bracket seen [] = none
digits_then_bracket seen (c ∷ s) =
    let rest = digits_then_bracket (c ∷ seen) s in
    if is_digit c
    then rest
    else if c == 93 && (is_empty s && not (is_empty seen))
    then some (digits_value 0 (reverse seen))
    else none

negated : ℕ → ℤ
negated zero = pos 0
negated (suc n) = negsuc n

signed : Text → Option ℤ
unfolding digits_then_bracket negated
signed [] = none
signed (c ∷ s) =
    if c == 45
    then elim (digits_then_bracket [] s) [ none ↦ none | some n ↦ some (negated n) ]
    else elim (digits_then_bracket [] (c ∷ s)) [ none ↦ none | some n ↦ some (pos n) ]

-- The text behind a prefix, or none.
after_prefix : Text → Text → Option Text
after_prefix [] s = some s
after_prefix (p ∷ ps) [] = none
after_prefix (p ∷ ps) (c ∷ s) = if p == c then after_prefix ps s else none

-- `re.fullmatch(r"\[exit (-?\d+)\]", line)` with its number.
unfoldable pub exit_code : Text → Option ℤ
unfolding signed after_prefix
exit_code line = elim (after_prefix (codes "[exit ") line) [ none ↦ none | some rest ↦ signed rest ]

-- The statuses are texts in the source.
pub data BashStatus : Type 0 where
  success nonzero_exit tool_error unknown : BashStatus

status_of_code : ℤ → BashStatus
status_of_code (pos zero) = success
status_of_code _ = nonzero_exit

unfoldable pub bash_status : Text → BashStatus
unfolding exit_code first_line status_of_code starts_with
bash_status output = elim (exit_code (first_line output)) [
  | some n ↦ status_of_code n
  | none ↦ if starts_with (codes "ERROR:") output then tool_error else unknown
]

abbrev pub status_text : BashStatus → Text
status_text success = codes "success"
status_text nonzero_exit = codes "nonzero_exit"
status_text tool_error = codes "tool_error"
status_text unknown = codes "unknown"

abbrev pub is_success : BashStatus → Bool
is_success success = true
is_success _ = false

unfoldable pub record_bash_result : ℕ → Text → AgentState → AgentState
unfolding bash_status exit_code first_line
record_bash_result turn output s =
    let st = bash_status output in
    record s {
      bash_calls = s.bash_calls + 1;
      last_bash_status = some (status_text st);
      bash_failures =
          (if is_success st
            then s.bash_failures
            else s.bash_failures
              ++ record {
                turn = turn + 1;
                status = status_text st;
                exit_code = elim (exit_code (first_line output)) [
                  | none ↦ none
                  | some n ↦ some (int n)
                ];
              }
                ∷ []);
    }
