-- ===== src/Examples/Calls.antt =====
-- Calls of tools in child processes at concrete inputs
-- (src/deepseek_mcp/tool_process.py and bash_tool.py).
use deepseek_as_subagent.Prelude.{
  ℕ, suc, zero, ◌≤◌, ◌≡◌, refl, true, false, Option, some, List, [], ◌∷◌, length, arith,
}
use deepseek_as_subagent.Prelude.Results.{ok, err}
use deepseek_as_subagent.Text.{Text, codes, take, is_blank, strip, member}
use deepseek_as_subagent.Json.{pos, Value, int, str, obj, Fields, end, field, get}
use deepseek_as_subagent.Safety.Commands.{check_command}
use deepseek_as_subagent.Agent.Errors.{loop_error, raised}
use deepseek_as_subagent.ToolCall.{ChildRun, mutation_tools, mutation_digest, execute_in_subprocess}
use deepseek_as_subagent.ToolCall.Accounted.{Accounted, execute_in_subprocess-Accounted}
use deepseek_as_subagent.ToolCall.Charged.{execute_in_subprocess_budget}
use deepseek_as_subagent.ToolCall.Announced.{Announced, execute_in_subprocess-Announced}
use deepseek_as_subagent.BashTool.{
  max_bash_timeout, max_stream_bytes, no_capture, drain, command_request,
}
use deepseek_as_subagent.BashTool.Capture.{concat, drain_lem, Within, command_request_lem}

abbrev hex_digest : Text
hex_digest = codes "0000000000000000000000000000000000000000000000000000000000000001"

abbrev zeros : ℕ → List ℕ → List ℕ
zeros zero xs = xs
zeros (suc n) xs = 0 ∷ zeros n xs

abbrev digest : List ℕ
digest = zeros 31 (1 ∷ [])

-- Every line announces the same mutation.
abbrev announcement : Text → Option Value
announcement line = some (
    obj (
      field (codes "kind") (str (codes "mutation_ready"))
        (field (codes "sha256") (str hex_digest) end)))

abbrev transaction : Text
transaction = codes "0123456789abcdef0123456789abcdef"

-- A write that announced itself, was committed, and was then cut off.
abbrev cut_off : ChildRun
cut_off = record {
  time_left = 10;
  launched = ok transaction;
  waited = err (raised loop_error (codes "tool process timed out"));
  pipe_error = false;
  exit_status = pos 0;
  output = codes "line";
  cleaned = ok tt;
  found = some digest;
}

abbrev path_arguments : Fields
path_arguments = field (codes "path") (str (codes "a.txt")) end

announced : mutation_digest announcement cut_off.output ≡ some digest
unfolding mutation_digest
announced = refl

execute_in_subprocess-Accounted_example :
    let e = execute_in_subprocess announcement (codes "Write") path_arguments 100 7 cut_off in
    Accounted (codes "Write") e.reported e.outcome
execute_in_subprocess-Accounted_example =
    execute_in_subprocess-Accounted announcement (codes "Write") path_arguments 100 7 cut_off

execute_in_subprocess_budget_example :
    let e = execute_in_subprocess announcement (codes "Write") path_arguments 100 7 cut_off in
    (7 ≤ e.used) × (e.used ≤ 100)
execute_in_subprocess_budget_example =
    execute_in_subprocess_budget announcement (codes "Write") path_arguments 100 7 cut_off
      (omega arith)

write_mutates : member (codes "Write") mutation_tools ≡ true
unfolding member
write_mutates = refl

execute_in_subprocess-Announced_example :
    Announced announcement
      (codes "Write")
      transaction
      cut_off
      digest
      (execute_in_subprocess announcement (codes "Write") path_arguments 100 7 cut_off).reported
execute_in_subprocess-Announced_example =
    execute_in_subprocess-Announced announcement (codes "Write") path_arguments 100 7 cut_off
      transaction digest (omega arith) refl announced write_mutates

abbrev two_chunks : List (List ℕ)
two_chunks = codes "ab" ∷ codes "c" ∷ []

drain_lem_example :
    ((drain two_chunks true no_capture).captured ≡ take max_stream_bytes (concat two_chunks))
    × ((drain two_chunks true no_capture).total_bytes ≡ length (concat two_chunks))
    × ((drain two_chunks true no_capture).failed ≡ true)
drain_lem_example = drain_lem two_chunks true

abbrev lower_text : Text → Text
lower_text t = t

abbrev one_token : Text → List Text
one_token t = t ∷ []

abbrev list_files : Fields
list_files = field (codes "command") (str (codes "ls")) (field (codes "timeout") (int (pos 90)) end)

ls_accepted : command_request lower_text one_token list_files (some 30) ≡ ok (codes "ls", 30)
unfolding command_request strip
ls_accepted = refl

command_request_lem_example :
    (get (codes "command") list_files ≡ some (str (codes "ls")))
    × (is_blank (codes "ls") ≡ false)
    × (check_command lower_text one_token (codes "ls") ≡ ok tt)
    × (1 ≤ 30)
    × (30 ≤ max_bash_timeout)
    × Within 30 (some 30)
command_request_lem_example =
    command_request_lem lower_text one_token list_files (some 30) ls_accepted
