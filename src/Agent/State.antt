-- ===== src/Agent/State.antt =====
-- The state of a run: src/deepseek_mcp/agent_loop.py, resource_budget.py and bash_outcome.py.
use deepseek_as_subagent.Prelude.{
  ℕ, ◌+◌, ◌-◌, ◌*◌, ◌/◌, max, Bool, true, false, Option, none, some, List, [], ◌∷◌, ◌++◌, ltb, leb,
  if◌then◌else◌,
}
use deepseek_as_subagent.Prelude.Results.{Result, ok, err}
use deepseek_as_subagent.Text.{Text, codes, join}
use deepseek_as_subagent.Json.{Value, str, obj, arr, Items, nil, cons, Fields, end, field}
use deepseek_as_subagent.Json.Size.{encoded_size}
use deepseek_as_subagent.Mutation.{MutationRecord}
use deepseek_as_subagent.Agent.Errors.{AgentError, raised, budget_exceeded}

abbrev pub max_tool_calls_per_turn : ℕ
max_tool_calls_per_turn = 32

abbrev pub max_tool_calls_per_run : ℕ
max_tool_calls_per_run = 128

abbrev pub max_mutation_bytes_per_run : ℕ
max_mutation_bytes_per_run = 64 * 1024 * 1024

abbrev pub max_total_tokens_per_run : ℕ
max_total_tokens_per_run = 1_000_000

abbrev pub max_provider_history_bytes : ℕ
max_provider_history_bytes = 12 * 1024 * 1024

abbrev pub estimated_bytes_per_token : ℕ
estimated_bytes_per_token = 4

-- What the loop reads of the configuration. `tools` is what `build_tool_schemas` made of it.
pub record Config : Type 0 where
  pub max_turns : ℕ
  pub max_run_seconds : ℕ
  pub max_output_tokens : ℕ
  pub allowed_tools : List Text
  pub workspace : Text
  pub tools : Value
  pub has_poll : Bool
  pub has_finalize : Bool

-- An assistant message is the dict of the response, with the ids of its tool calls beside it.
pub data Message : Type 0 where
  system user : Text → Message
  assistant : Fields → List Text → Message
  tool : Text → Text → Message

unfoldable pub to_value : Message → Value
to_value (system t) =
    obj (field (codes "role") (str (codes "system")) (field (codes "content") (str t) end))
to_value (user t) =
    obj (field (codes "role") (str (codes "user")) (field (codes "content") (str t) end))
to_value (assistant fs calls) = obj fs
to_value (tool i t) = obj (
    field (codes "role") (str (codes "tool"))
      (field (codes "tool_call_id") (str i) (field (codes "content") (str t) end)))

unfoldable pub to_items : List Message → Items
unfolding to_value
to_items [] = nil
to_items (m ∷ ms) = cons (to_value m) (to_items ms)

pub record BashFailure : Type 0 where
  pub turn : ℕ
  pub status : Text
  pub exit_code : Option Value

pub record AgentState : Type 0 where
  pub messages : List Message
  pub started : ℕ
  pub prompt_tokens : ℕ
  pub completion_tokens : ℕ
  pub budget_tokens : ℕ
  pub last_prompt_tokens : ℕ
  pub last_request_bytes : ℕ
  pub tool_calls : ℕ
  pub empty_final_attempts : ℕ
  pub bash_calls : ℕ
  pub last_bash_status : Option Text
  pub bash_failures : List BashFailure
  pub mutation_used : ℕ
  pub mutations : List MutationRecord

-- The prompt with the names of the tools and the workspace in their places.
unfoldable pub system_prompt : Config → Text
unfolding join
system_prompt c =
    codes
      "You are a coding sub-agent working for a parent coding agent.\n\nYou're given a focused task to complete autonomously within a workspace.\nYou have local tools: "
    ++ (join (codes ", ") c.allowed_tools
        ++ (codes "\n\nRules:\n1. Stay strictly within the workspace: "
            ++ (c.workspace
                ++ codes
                    "\n2. Read before editing. Don't guess file contents.\n3. For batch tasks (translating, extracting, refactoring many files), iterate file-by-file.\n4. When done, return a final message summarizing:\n   - What you did (file paths affected)\n   - Any issues / files you couldn't process\n   - A brief summary the parent agent can use without re-reading everything\n5. Don't ask clarifying questions back to the parent. Make reasonable assumptions\n   and document them in your final message.\n6. If a tool returns \"ERROR: ...\", read the error and decide: retry with fixed input,\n   skip the file, or report and stop. Don't blindly loop on the same error.\n")))

unfoldable pub create_agent_state : Text → Config → ℕ → AgentState
unfolding system_prompt
create_agent_state task c started = record {
  messages = system (system_prompt c) ∷ (user task ∷ []);
  started = started;
  prompt_tokens = 0;
  completion_tokens = 0;
  budget_tokens = 0;
  last_prompt_tokens = 0;
  last_request_bytes = 0;
  tool_calls = 0;
  empty_final_attempts = 0;
  bash_calls = 0;
  last_bash_status = none;
  bash_failures = [];
  mutation_used = 0;
  mutations = [];
}

-- `MutationBudget.reserve`: the bytes that are used after it, or none where it raises. A reservation
-- is never given back.
unfoldable pub reserve : ℕ → ℕ → ℕ → Option ℕ
reserve limit used byte_count =
    if ltb limit (used + byte_count) then none else some (used + byte_count)

unfoldable pub estimate_tokens : ℕ → ℕ
estimate_tokens byte_count =
    (byte_count + estimated_bytes_per_token - 1) / estimated_bytes_per_token

-- The tokens that are charged: what the provider reported, or the estimate if that is more.
abbrev pub metered : AgentState → ℕ
metered s = max (s.prompt_tokens + s.completion_tokens) s.budget_tokens

unfoldable pub ensure_token_budget_available : AgentState → Result AgentError (Unit {0})
ensure_token_budget_available s =
    if leb max_total_tokens_per_run (metered s)
    then err (raised budget_exceeded (codes "run token budget exhausted"))
    else ok tt

abbrev pub next_prompt : AgentState → ℕ → ℕ
next_prompt s request_bytes =
    max (estimate_tokens request_bytes)
      (s.last_prompt_tokens + estimate_tokens (request_bytes - s.last_request_bytes))

-- The budget left is compared as an integer: it is negative when more is used than allowed.
unfoldable pub ensure_request_budget : Config → AgentState → ℕ → Result AgentError (Unit {0})
unfolding estimate_tokens
ensure_request_budget c s request_bytes =
    if ltb max_total_tokens_per_run (next_prompt s request_bytes + c.max_output_tokens + metered s)
    then err
        (raised budget_exceeded (codes "run token budget cannot cover another provider request"))
    else ok tt

unfoldable pub enforce_history_budget : List Message → Result AgentError (Unit {0})
unfolding to_items encoded_size
enforce_history_budget messages =
    if ltb max_provider_history_bytes (encoded_size true (arr (to_items messages)))
    then err (raised budget_exceeded (codes "provider conversation history budget exceeded"))
    else ok tt

unfoldable pub request_body : Config → List Message → Value
unfolding to_items
request_body c messages =
    obj (field (codes "messages") (arr (to_items messages)) (field (codes "tools") c.tools end))

unfoldable pub request_size : Config → List Message → ℕ
unfolding request_body encoded_size
request_size c messages = encoded_size false (request_body c messages)
