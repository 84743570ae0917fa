-- ===== src/Examples/Agents.antt =====
-- A run of the agent against a provider that asks for one write and then answers, and for which
-- every other request would be answered the same way (src/deepseek_mcp/agent_loop.py).
use deepseek_as_subagent.Prelude.{ℕ, zero, suc, ◌≤◌, ◌≡◌, refl, false, none, some, [], ◌∷◌}
use deepseek_as_subagent.Prelude.Results.{ok}
use deepseek_as_subagent.Text.{codes, text_eq, is_blank, strip}
use deepseek_as_subagent.Json.{Value, null, str, obj, arr, nil, cons, Fields, field, end}
use deepseek_as_subagent.Mutation.{MutationRecord, add}
use deepseek_as_subagent.Provider.{ProviderResponse, dumped_message, model_dump, without_none}
use deepseek_as_subagent.Agent.Host.{Host, Answer, responds}
use deepseek_as_subagent.Agent.Retry.{
  remaining_seconds, check_cancel, call_with_retry, retry_loop, fresh_retries,
}
use deepseek_as_subagent.Agent.Retry.Bounds.{Counts, call_with_retry-bounded}
use deepseek_as_subagent.Agent.State.{
  Config, ensure_token_budget_available, enforce_history_budget, ensure_request_budget,
  request_size, estimate_tokens, create_agent_state,
}
use deepseek_as_subagent.Agent.Loop.{
  append_steering_update, record_response, record_message, charge, with_content,
  validate_tool_batch, add_all, build_result,
}
use deepseek_as_subagent.Agent.Bash.{record_bash_result}
use deepseek_as_subagent.Json.Size.{encoded_size}
use deepseek_as_subagent.Agent.Turn.{
  Run, run_agent, run_turn, execute_tools, execute_and_record_tool,
}
use deepseek_as_subagent.Agent.Conversation.{owed}
use deepseek_as_subagent.Agent.Outcome.{
  WithinBudgets, KeepsRecords, created, run_agent-WithinBudgets, run_agent-KeepsRecords,
  turn_conversation,
}

abbrev settings : Config
settings = record {
  max_turns = 3;
  max_run_seconds = 60;
  max_output_tokens = 100;
  allowed_tools = codes "Write" ∷ [];
  workspace = codes "/w";
  tools = null;
  has_poll = false;
  has_finalize = false;
}

abbrev message_of_write : Fields
message_of_write =
    field (codes "role") (str (codes "assistant")) (field (codes "content") (str []) end)

abbrev payload_of : Fields → Value
payload_of message =
    obj (
      field (codes "choices") (arr (cons (obj (field (codes "message") (obj message) end)) nil))
        end)

abbrev asks_write : ProviderResponse
asks_write = record {
  raw = payload_of message_of_write;
  usage = none;
  message = record {
    content = none;
    tool_calls =
        some (record { id = codes "c1"; name = codes "Write"; arguments = codes "{}" } ∷ []);
  };
  finish_reason = codes "tool_calls";
}

abbrev message_of_answer : Fields
message_of_answer =
    field (codes "role") (str (codes "assistant"))
      (field (codes "content") (str (codes "done")) end)

abbrev answers : ProviderResponse
answers = record {
  raw = payload_of message_of_answer;
  usage = none;
  message = record { content = some (codes "done"); tool_calls = none };
  finish_reason = codes "stop";
}

abbrev written : MutationRecord
written = record {
  transaction_id = codes "t1";
  tool = codes "Write";
  status = codes "committed";
  warning = none;
}

abbrev answer_to : ℕ → Answer
answer_to zero = responds asks_write
answer_to (suc w) = responds answers

-- The world counts the requests.
abbrev host : Host
host = record {
  World = ℕ;
  is_set = λ w. (false, w);
  wait = λ n w. (false, w);
  remaining = λ w. (5000, w);
  now = λ w. (1, w);
  poll = λ w. (none, w);
  finalize = λ w. (none, w);
  request = λ body w. (answer_to w, suc w);
  loads = λ arguments. ok (obj end);
  execute = λ name args used timeout w.
      (record { used = used; reported = written ∷ []; outcome = ok (codes "ok") }, w);
}

run_agent-WithinBudgets_example :
    WithinBudgets host settings (run_agent host settings (codes "fix") 0)
run_agent-WithinBudgets_example = run_agent-WithinBudgets host settings (codes "fix") 0

run_records : (run_agent host settings (codes "fix") 0).1.state.mutations ≡ written ∷ []
unfolding run_agent remaining_seconds ensure_token_budget_available create_agent_state check_cancel
    enforce_history_budget append_steering_update ensure_request_budget request_size call_with_retry
    record_response dumped_message model_dump record_message charge with_content validate_tool_batch
    execute_tools execute_and_record_tool add_all encoded_size text_eq estimate_tokens
    record_bash_result build_result is_blank strip without_none add
run_records = refl

run_agent-KeepsRecords_example :
    KeepsRecords host settings (run_agent host settings (codes "fix") 0) written []
run_agent-KeepsRecords_example =
    run_agent-KeepsRecords host settings (codes "fix") 0 written [] run_records

abbrev start_run : Run ℕ
start_run = record { state = create_agent_state (codes "fix") settings 1; world = 0 }

abbrev next_run : Run ℕ
next_run = (run_turn host settings 0 start_run).1

goes_on : run_turn host settings 0 start_run ≡ (ok none, next_run)
unfolding run_turn remaining_seconds ensure_token_budget_available create_agent_state check_cancel
    enforce_history_budget append_steering_update ensure_request_budget request_size call_with_retry
    record_response dumped_message model_dump record_message charge with_content validate_tool_batch
    execute_tools execute_and_record_tool add_all encoded_size text_eq estimate_tokens
    record_bash_result build_result is_blank strip without_none add
goes_on = refl

turn_conversation_example : owed next_run.state.messages ≡ some []
turn_conversation_example =
    turn_conversation host settings 0 start_run (created (codes "fix") settings 1) goes_on

Counts-requests : Counts host (λ w. w)
Counts-requests = record {
  by_request = λ body w. refl;
  by_is_set = λ w. refl;
  by_wait = λ n w. refl;
  by_remaining = λ w. refl;
}

call_with_retry-bounded_example :
    (retry_loop host 4 60 0 null fresh_retries 0 ≡ some (call_with_retry host 60 0 null 0))
    × ((call_with_retry host 60 0 null 0).1 ≤ 4)
call_with_retry-bounded_example = call_with_retry-bounded host (λ w. w) Counts-requests 60 0 null 0
