-- ===== src/ToolCall.antt =====
-- src/deepseek_mcp/tool_process.py: what the parent makes of one tool call in a child process. What the
-- processes, pipes and files do is a record: the launch, the wait, the output, the cleanup, and what the
-- target holds after it. JSON decoding is a parameter. A budget error is the `AgentLoopError` that
-- `_execute_one_tool` of src/deepseek_mcp/agent_loop.py makes of it.
pub mod Accounted
pub mod Charged
pub mod Announced
use deepseek_as_subagent.Prelude.{
  ℕ, zero, suc, ◌+◌, ◌-◌, ◌*◌, Bool, true, false, not, ◌&&◌, ◌||◌, Option, none, some, List, [],
  ◌∷◌, ◌++◌, leb, ◌==◌, if◌then◌else◌, is_empty, length,
}
use deepseek_as_subagent.Prelude.Results.{Result, ok, err, ◌>>=◌, ◌>>◌, raise_if}
use deepseek_as_subagent.Text.{Text, codes, text_eq, starts_with, member, join}
use deepseek_as_subagent.Text.Lines.{split_lines, byte_break, last_line}
use deepseek_as_subagent.Json.{ℤ, pos, negsuc, Value, null, int, str, obj, Fields, get_or_null}
use deepseek_as_subagent.Json.Size.{decimal}
use deepseek_as_subagent.Mutation.{MutationRecord, mutation_record, summary}
use deepseek_as_subagent.Agent.Errors.{
  AgentError, raised, loop_error, mutation_outcome, mutation_cancelled, is_cancelled,
}
use deepseek_as_subagent.Agent.Host.{ToolEnd}

abbrev pub mutation_tools : List Text
mutation_tools = codes "Write" ∷ codes "Edit" ∷ codes "NotebookEdit" ∷ []

-- `found` is the digest of the target after the call, or none where it cannot be read. The launch
-- gives the transaction id.
pub record ChildRun : Type 0 where
  pub time_left : ℕ
  pub launched : Result AgentError Text
  pub waited : Result AgentError (Unit {0})
  pub pipe_error : Bool
  pub exit_status : ℤ
  pub output : Text
  pub cleaned : Result AgentError (Unit {0})
  pub found : Option (List ℕ)

unfoldable pub is_text : Value → Text → Bool
unfolding text_eq
is_text (str s) t = text_eq s t
is_text _ t = false

abbrev pub failed : Text → AgentError
failed t = raised loop_error t

-- The fields "result" and "mutation_used" of a response of kind "ok".
unfoldable pub decoded_result : ℕ → ℕ → Value → Value → Result AgentError (Text × ℕ)
decoded_result limit used (str result) (int (pos n)) =
    if leb used n && leb n limit
    then ok (result, n)
    else err (failed (codes "tool process returned an invalid budget"))
decoded_result limit used (str result) _ =
    err (failed (codes "tool process returned an invalid budget"))
decoded_result limit used _ _ = err (failed (codes "tool process failed"))

unfoldable pub decoded_fields : ℕ → ℕ → Fields → Result AgentError (Text × ℕ)
unfolding decoded_result is_text decimal get_or_null
decoded_fields limit used fs = do
  raise_if (is_text (get_or_null (codes "kind") fs) (codes "budget")) (
      failed
        (codes "mutation output budget exceeded (" ++ (decimal limit ++ codes " bytes per run)")))
  raise_if (not (is_text (get_or_null (codes "kind") fs) (codes "ok")))
      (failed (codes "tool process failed"))
  decoded_result limit used (get_or_null (codes "result") fs)
      (get_or_null (codes "mutation_used") fs)

unfoldable pub decoded_payload : ℕ → ℕ → Option Value → Result AgentError (Text × ℕ)
unfolding decoded_fields
decoded_payload limit used (some (obj fs)) = decoded_fields limit used fs
decoded_payload limit used _ = err (failed (codes "tool process returned an invalid response"))

hex_digit : ℕ → Option ℕ
hex_digit c =
    if leb 48 c && leb c 57
    then some (c - 48)
    else if leb 97 c && leb c 102
    then some (c - 87)
    else if leb 65 c && leb c 70
    then some (c - 55)
    else none

byte_of : Option ℕ → Option ℕ → Option (List ℕ) → Option (List ℕ)
byte_of (some a) (some b) (some bs) = some ((a * 16 + b) ∷ bs)
byte_of _ _ _ = none

abbrev hex_space : ℕ → Bool
hex_space c = (leb 9 c && leb c 13) || c == 32

-- `bytes.fromhex`, which skips white space between bytes.
unfoldable pub from_hex : Text → Option (List ℕ)
unfolding hex_digit byte_of
from_hex [] = some []
from_hex (c ∷ []) = if hex_space c then some [] else none
from_hex (c ∷ d ∷ s) = elim (hex_space c) [
  | true ↦ from_hex (d ∷ s)
  | false ↦ byte_of (hex_digit c) (hex_digit d) (from_hex s)
]

-- The digest of a line that announces a mutation, or none where the loop goes on.
digest_of_text : Value → Option (List ℕ)
unfolding from_hex
digest_of_text (str s) = if length s == 64 then from_hex s else none
digest_of_text _ = none

unfoldable pub digest_of : Option Value → Option (List ℕ)
unfolding digest_of_text is_text get_or_null
digest_of (some (obj fs)) =
    if is_text (get_or_null (codes "kind") fs) (codes "mutation_ready")
    then digest_of_text (get_or_null (codes "sha256") fs)
    else none
digest_of _ = none

detail_of_text : Value → Option Text
detail_of_text (str s) = some s
detail_of_text _ = none

unfoldable pub detail_of : Option Value → Option Text
unfolding detail_of_text is_text get_or_null
detail_of (some (obj fs)) =
    if is_text (get_or_null (codes "kind") fs) (codes "mutation_warning")
    then detail_of_text (get_or_null (codes "detail") fs)
    else none
detail_of _ = none

add_detail : Option Text → List Text → List Text
unfolding member
add_detail none ws = ws
add_detail (some w) ws = if member w ws then ws else ws ++ w ∷ []

-- `"; ".join(warnings) or None`
unfoldable pub joined : List Text → Option Text
unfolding join
joined ws = if is_empty (join (codes "; ") ws) then none else some (join (codes "; ") ws)

present_texts : Option Text → List Text
present_texts none = []
present_texts (some []) = []
present_texts (some (c ∷ w)) = (c ∷ w) ∷ []

-- `"; ".join(filter(None, (warning, extra)))`
unfoldable pub with_warning : Option Text → Text → Option Text
unfolding present_texts join
with_warning warning extra =
    some (join (codes "; ") (present_texts warning ++ present_texts (some extra)))

same_bytes : List ℕ → List ℕ → Bool
same_bytes [] [] = true
same_bytes (a ∷ as') (b ∷ bs) = a == b && same_bytes as' bs
same_bytes _ _ = false

found_state : Option (List ℕ) → List ℕ → Text
unfolding same_bytes
found_state none digest = codes "uncertain"
found_state (some d) digest = if same_bytes d digest then codes "committed" else codes "uncertain"

-- An empty or missing path is not read.
labelled_state : Value → Option (List ℕ) → List ℕ → Text
unfolding found_state
labelled_state (str []) found digest = codes "uncertain"
labelled_state (str (c ∷ path)) found digest = found_state found digest
labelled_state _ found digest = codes "uncertain"

mutation_state : Text → Fields → Option (List ℕ) → Option (List ℕ) → Option Text
unfolding labelled_state get_or_null member
mutation_state name arguments found none = none
mutation_state name arguments found (some digest) =
    if member name mutation_tools
    then some (labelled_state (get_or_null (codes "path") arguments) found digest)
    else none

unfoldable pub record_of : Text → Text → Option Text → Text → Option MutationRecord
unfolding mutation_record
record_of transaction_id name warning status =
    elim (mutation_record transaction_id name status warning) [ ok r ↦ some r | err _ ↦ none ]

-- `_interrupted_error`
unfoldable pub interrupted_error : AgentError → MutationRecord → AgentError
unfolding summary
interrupted_error failure r = record {
  class = if is_cancelled failure.class then mutation_cancelled else mutation_outcome;
  message =
      codes "mutation outcome requires review; "
      ++ (summary r
          ++ codes
              "; call get_deepseek_recovery, verify the file, then call acknowledge_deepseek_mutations; DO NOT RETRY");
  records = r ∷ [];
}

unfoldable pub is_ok_text : Text → Bool
unfolding starts_with
is_ok_text result = starts_with (codes "OK:") result

-- A cleanup that fails is forgiven behind a mutation that returned: the result is kept, with `false`.
unfoldable pub cleanup_after_result :
    Text → Result AgentError Text → Result AgentError (Unit {0}) → Result AgentError Bool
unfolding is_ok_text member
cleanup_after_result name result (ok _) = ok true
cleanup_after_result name (ok result) (err e) =
    if member name mutation_tools && is_ok_text result then ok false else err e
cleanup_after_result name (err _) (err e) = err e

abbrev pub cleanup_failed : AgentError → Text
cleanup_failed e = codes "cleanup failed: " ++ e.message

unfoldable pub completed_warning : Result AgentError Bool → Option Text → Option Text
unfolding with_warning
completed_warning (err e) warning = with_warning warning (cleanup_failed e)
completed_warning (ok false) warning = with_warning warning (codes "artifact cleanup failed")
completed_warning (ok true) warning = warning

no_warning : Option Text → Bool
no_warning none = true
no_warning (some w) = false

is_clean : Result AgentError Bool → Bool
is_clean (ok b) = b
is_clean (err e) = false

-- What is reported, and what is returned or raised.
abbrev pub Completion : Type 0
Completion = List MutationRecord × Result AgentError Text

unfoldable pub finish_interrupted :
    AgentError → Result AgentError Bool → Option MutationRecord → Completion
unfolding interrupted_error
finish_interrupted failure cleanup (some r) = (r ∷ [], err (interrupted_error failure r))
finish_interrupted failure (err e) none = ([], err e)
finish_interrupted failure (ok _) none = ([], err failure)

unfoldable pub finish_completed :
    Text → Text → Result AgentError Bool → Option MutationRecord → Completion
unfolding interrupted_error is_ok_text no_warning is_clean text_eq member
finish_completed name result cleanup (some r) =
    if is_clean cleanup
      && (is_ok_text result && (text_eq r.status (codes "committed") && no_warning r.warning))
    then (r ∷ [], ok result)
    else (r ∷ [], err (interrupted_error (failed (codes "mutation did not complete cleanly")) r))
finish_completed name result (err e) none = ([], err e)
finish_completed name result (ok _) none =
    if member name mutation_tools && is_ok_text result
    then (
      [],
      err (record {
        class = mutation_outcome;
        message =
            codes
              "workspace mutation completed without a verified intent event; call get_deepseek_recovery before any retry; DO NOT RETRY";
        records = [];
      }),
    )
    else ([], ok result)

module _ (loads : Text → Option Value) where
  first_digest : List Text → Option (List ℕ)
  unfolding digest_of
  first_digest [] = none
  first_digest (t ∷ ts) = elim (digest_of (loads t)) [ some d ↦ some d | none ↦ first_digest ts ]

  unfoldable pub mutation_digest : Text → Option (List ℕ)
  unfolding first_digest split_lines
  mutation_digest raw = first_digest (split_lines byte_break raw)

  details : List Text → List Text → List Text
  unfolding detail_of add_detail
  details ws [] = ws
  details ws (t ∷ ts) = details (add_detail (detail_of (loads t)) ws) ts

  unfoldable pub mutation_warning : Text → Option Text
  unfolding details joined split_lines
  mutation_warning raw = joined (details [] (split_lines byte_break raw))

  -- `_interrupted_mutation_state`
  unfoldable pub interrupted_mutation_state : Text → Fields → ChildRun → Option Text
  unfolding mutation_digest mutation_state
  interrupted_mutation_state name arguments c =
      mutation_state name arguments c.found (mutation_digest c.output)

  loaded : Option Text → Option Value
  loaded none = none
  loaded (some line) = loads line

  unfoldable pub decode : ℕ → ℕ → Text → Result AgentError (Text × ℕ)
  unfolding decoded_payload loaded split_lines last_line
  decode limit used raw =
      decoded_payload limit used (loaded (last_line (split_lines byte_break raw)))

  is_zero : ℤ → Bool
  is_zero (pos zero) = true
  is_zero _ = false

  -- `_receive_tool_result`
  unfoldable pub receive_tool_result : ℕ → ℕ → ChildRun → Result AgentError (Text × ℕ)
  unfolding decode is_zero
  receive_tool_result limit used c = do
    c.waited
    raise_if (c.pipe_error || not (is_zero c.exit_status)) (failed (codes "tool process failed"))
    decode limit used c.output

  unfoldable pub recorded : Text → Text → Option Text → Option Text → Option MutationRecord
  unfolding record_of
  recorded transaction_id name warning none = none
  recorded transaction_id name warning (some status) = record_of transaction_id name warning status

  interrupted_warning : Result AgentError Bool → Option Text → Option Text
  unfolding with_warning
  interrupted_warning (err e) warning = with_warning warning (cleanup_failed e)
  interrupted_warning (ok _) warning = warning

  -- `_complete_tool_call`
  unfoldable pub complete_tool_call :
      Text → Fields → Text → ChildRun → Result AgentError Text → Result AgentError Bool → Completion
  unfolding recorded interrupted_mutation_state mutation_warning interrupted_warning
      completed_warning finish_interrupted finish_completed
  complete_tool_call name arguments transaction_id c (err failure) cleanup =
      finish_interrupted failure cleanup (
        recorded transaction_id name (interrupted_warning cleanup (mutation_warning c.output))
          (interrupted_mutation_state name arguments c))
  complete_tool_call name arguments transaction_id c (ok result) cleanup =
      finish_completed name result cleanup (
        recorded transaction_id name (completed_warning cleanup (mutation_warning c.output))
          (interrupted_mutation_state name arguments c))

  ended : ℕ → Completion → ToolEnd
  ended used (reported, outcome) = record { used = used; reported = reported; outcome = outcome }

  returned : Result AgentError (Text × ℕ) → Result AgentError Text
  returned (ok (result, n)) = ok result
  returned (err e) = err e

  used_after : ℕ → Result AgentError (Text × ℕ) → ℕ
  used_after used (ok (result, n)) = n
  used_after used (err e) = used

  unfoldable pub finish_call :
      Text → Fields → Text → ℕ → ChildRun → Result AgentError (Text × ℕ) → ToolEnd
  unfolding cleanup_after_result complete_tool_call ended returned used_after
  finish_call name arguments transaction_id used c received = ended (used_after used received) (
      complete_tool_call name arguments transaction_id c (returned received)
        (cleanup_after_result name (returned received) c.cleaned))

  launched_call : Text → Fields → ℕ → ℕ → ChildRun → Result AgentError Text → ToolEnd
  unfolding finish_call receive_tool_result ended
  launched_call name arguments limit used c (err e) = ended used ([], err e)
  launched_call name arguments limit used c (ok transaction_id) =
      finish_call name arguments transaction_id used c (receive_tool_result limit used c)

  unfoldable pub execute_in_subprocess : Text → Fields → ℕ → ℕ → ChildRun → ToolEnd
  unfolding launched_call ended
  execute_in_subprocess name arguments limit used c =
      if c.time_left == 0
      then ended used ([], err (failed (codes "run time budget exceeded")))
      else launched_call name arguments limit used c c.launched
