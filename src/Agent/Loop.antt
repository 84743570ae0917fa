-- ===== src/Agent/Loop.antt =====
-- src/deepseek_mcp/agent_loop.py: one turn of a run.
use deepseek_as_subagent.Prelude.{
  ℕ, suc, ◌+◌, ◌-◌, max, false, Option, none, some, List, [], ◌∷◌, ◌++◌, map, ltb, if◌then◌else◌,
  length,
}
use deepseek_as_subagent.Prelude.Results.{Result, ok, err}
use deepseek_as_subagent.Text.{Text, codes, text_eq, join}
use deepseek_as_subagent.Json.{str, null, obj, Fields, end, field, get_or_null}
use deepseek_as_subagent.Json.Size.{encoded_size, decimal}
use deepseek_as_subagent.Mutation.{MutationRecord, add, recovery_notice, warning_notice}
use deepseek_as_subagent.Provider.{
  ProviderResponse, ProviderUsage, ProviderToolCall, ProviderMessage, dumped_message, model_dump,
}
use deepseek_as_subagent.Agent.Errors.{AgentError, raised, loop_error, budget_exceeded, other}
use deepseek_as_subagent.Agent.State.{
  Message, user, assistant, tool, AgentState, BashFailure, max_tool_calls_per_turn,
  max_tool_calls_per_run, max_total_tokens_per_run, estimate_tokens, metered,
  enforce_history_budget,
}

pub record AgentResult : Type 0 where
  pub final_message : Text
  pub turns_used : ℕ
  pub prompt : ℕ
  pub completion : ℕ
  pub total : ℕ
  pub tool_calls : ℕ
  pub bash_calls : ℕ
  pub bash_failure_count : ℕ
  pub last_bash_status : Option Text
  pub bash_failures : List BashFailure
  pub duration : ℕ
  pub mutations : List MutationRecord

-- The part of a steering update for one message.
update_text : ℕ → Text → Text
update_text n t = codes "Update " ++ (decimal n ++ (codes ":\n" ++ t))

update_texts : ℕ → List Text → List Text
update_texts n [] = []
update_texts n (t ∷ ts) = update_text n t ∷ update_texts (suc n) ts

unfoldable pub steering_content : List Text → Text
unfolding update_texts update_text join
steering_content updates =
    codes
      "# Parent agent steering update\nThe parent sent newer instructions. Apply them from this point; they override conflicting earlier task details.\n\n"
    ++ join (codes "\n\n") (update_texts 1 updates)

unfoldable pub append_steering_update : List Message → List Text → List Message
append_steering_update messages [] = messages
append_steering_update messages (u ∷ us) = messages ++ user (steering_content (u ∷ us)) ∷ []

unfoldable pub append_skipped_tool_responses : List Message → List ProviderToolCall → List Message
append_skipped_tool_responses messages [] = messages
append_skipped_tool_responses messages (c ∷ cs) =
    append_skipped_tool_responses
      (messages
        ++ tool c.id (
            codes
              "SKIPPED: the parent sent a newer steering instruction before this tool ran. Re-plan using the latest instruction.")
          ∷ [])
      cs

abbrev pub calls_of : ProviderMessage → List ProviderToolCall
calls_of m = elim m.tool_calls [ none ↦ [] | some cs ↦ cs ]

-- `assistant_message["content"] = ""` where the content is missing or null.
set_content : Fields → Fields
set_content end = field (codes "content") (str []) end
set_content (field k v fs) =
    if text_eq k (codes "content") then field k (str []) fs else field k v (set_content fs)

unfoldable pub with_content : Fields → Fields
unfolding set_content get_or_null
with_content fs = elim (get_or_null (codes "content") fs) [ null ↦ set_content fs | _ ↦ fs ]

-- The charge of one request: the estimates, raised to what the provider reported.
unfoldable pub charge : Option ProviderUsage → ℕ → ℕ → AgentState → AgentState
charge none prompt completion s = record s {
  budget_tokens = s.budget_tokens + prompt + completion;
  last_prompt_tokens = prompt;
}
charge (some u) prompt completion s =
    let p = max prompt u.prompt_tokens in
    record s {
      prompt_tokens = s.prompt_tokens + u.prompt_tokens;
      completion_tokens = s.completion_tokens + u.completion_tokens;
      budget_tokens = s.budget_tokens + p + max completion u.completion_tokens;
      last_prompt_tokens = p;
    }

unfoldable pub record_message :
    ProviderResponse → ℕ → Fields → AgentState → Result AgentError ProviderMessage × AgentState
record_message response request_bytes dumped s =
    let message = with_content dumped in
    let charged =
      record (charge response.usage (estimate_tokens request_bytes)
        (estimate_tokens (encoded_size false (obj message))) s) {
          last_request_bytes = request_bytes;
        } in
    let appended = record charged {
      messages =
          charged.messages
          ++ assistant message (map (λ (c : ProviderToolCall). c.id) (calls_of response.message))
            ∷ [];
    } in
    if ltb max_total_tokens_per_run (metered charged)
    then (err (raised budget_exceeded (codes "run token budget exceeded")), charged)
    else elim (enforce_history_budget appended.messages) [
      | err e ↦ (err e, appended)
      | ok _ ↦ (ok response.message, appended)
    ]

-- A dump without a message would be a `KeyError`.
unfoldable pub record_response :
    ProviderResponse → ℕ → AgentState → Result AgentError ProviderMessage × AgentState
record_response response request_bytes s = elim (dumped_message (model_dump response)) [
  | none ↦ (err (raised other (codes "KeyError")), s)
  | some dumped ↦ record_message response request_bytes dumped s
]

-- The checks on a whole batch of tool calls, before any of them runs.
unfoldable pub validate_tool_batch :
    AgentState → List ProviderToolCall → Result AgentError (Unit {0})
validate_tool_batch s calls =
    if ltb max_tool_calls_per_turn (length calls)
    then err (raised loop_error (codes "tool call batch exceeds 32 per turn"))
    else if ltb max_tool_calls_per_run (s.tool_calls + length calls)
    then err (raised loop_error (codes "tool call budget exceeds 128 per run"))
    else ok tt

-- `state.mutations.add` for each reported record; a full accumulator raises `RuntimeError`.
unfoldable pub add_all :
    List MutationRecord → List MutationRecord → Result AgentError (List MutationRecord)
add_all records [] = ok records
add_all records (r ∷ rs) = elim (add records r) [
  | err _ ↦ err (raised other (codes "mutation record capacity exceeded"))
  | ok more ↦ add_all more rs
]

notice_parts : Option Text → List Text
notice_parts none = []
notice_parts (some t) = t ∷ []

unfoldable pub build_result : ℕ → ℕ → Text → AgentState → AgentResult
unfolding notice_parts join
build_result turn ended content s = record {
  final_message = join (codes "\n\n") (
      notice_parts (recovery_notice s.mutations)
      ++ (notice_parts (warning_notice s.mutations) ++ content ∷ []));
  turns_used = turn + 1;
  prompt = s.prompt_tokens;
  completion = s.completion_tokens;
  total = s.prompt_tokens + s.completion_tokens;
  tool_calls = s.tool_calls;
  bash_calls = s.bash_calls;
  bash_failure_count = length s.bash_failures;
  last_bash_status = s.last_bash_status;
  bash_failures = s.bash_failures;
  duration = ended - s.started;
  mutations = s.mutations;
}
