-- ===== src/Agent/Host.antt =====
-- What a run meets outside the modules that are modelled: the provider child, the tool child, the
-- clocks, the cancellation signal and the parent's messages. Each use may change the world.
use deepseek_as_subagent.Prelude.{ℕ, Bool, Option, List}
use deepseek_as_subagent.Prelude.Results.{Result}
use deepseek_as_subagent.Text.{Text}
use deepseek_as_subagent.Json.{Value, Fields}
use deepseek_as_subagent.Mutation.{MutationRecord}
use deepseek_as_subagent.Provider.{ProviderResponse}
use deepseek_as_subagent.Agent.Errors.{AgentError}

-- What `request_in_subprocess` returns or raises. An error has its redacted category, and whether
-- it may be retried.
pub data Answer : Type 0 where
  responds : ProviderResponse → Answer
  fails : Text → Bool → Answer
  request_cancelled request_deadline : Answer

-- What `execute_in_subprocess` did: the mutation bytes that are used after it, the records that it
-- handed to the outcome reporter, and its text or what it raised.
pub record ToolEnd : Type 0 where
  pub used : ℕ
  pub reported : List MutationRecord
  pub outcome : Result AgentError Text

-- Times are in milliseconds, and time left is 0 once a deadline has passed.
pub record Host : Type 1 where
  pub World : Type 0
  pub is_set : World → Bool × World
  pub wait : ℕ → World → Bool × World
  pub remaining : World → ℕ × World
  pub now : World → ℕ × World
  pub poll : World → Option (List Text) × World
  pub finalize : World → Option (List Text) × World
  pub request : Value → World → Answer × World
  pub loads : Text → Result Text Value
  pub execute : Text → Fields → ℕ → ℕ → World → ToolEnd × World
