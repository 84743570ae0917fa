-- ===== src/Agent/Errors.antt =====
-- The exceptions of a run: src/deepseek_mcp/provider_retry.py and agent_loop.py.
use deepseek_as_subagent.Prelude.{Bool, true, false, List, []}
use deepseek_as_subagent.Text.{Text, codes}
use deepseek_as_subagent.Mutation.{MutationRecord}

-- `other` is any exception that is not an `AgentLoopError`.
pub data ErrorClass : Type 0 where
  loop_error budget_exceeded output_error incomplete_response : ErrorClass
  loop_cancelled mutation_outcome mutation_cancelled other : ErrorClass

pub record AgentError : Type 0 where
  pub class : ErrorClass
  pub message : Text
  pub records : List MutationRecord

abbrev pub raised : ErrorClass → Text → AgentError
raised c t = record { class = c; message = t; records = [] }

-- `isinstance(error, AgentLoopCancelled)`
abbrev pub is_cancelled : ErrorClass → Bool
is_cancelled loop_cancelled = true
is_cancelled mutation_cancelled = true
is_cancelled _ = false

-- `isinstance(error, AgentLoopError)`
abbrev pub is_loop_error : ErrorClass → Bool
is_loop_error other = false
is_loop_error _ = true

abbrev pub is_mutation : ErrorClass → Bool
is_mutation mutation_outcome = true
is_mutation mutation_cancelled = true
is_mutation _ = false

abbrev pub cancelled_by_parent : AgentError
cancelled_by_parent = raised loop_cancelled (codes "DeepSeek job cancelled by parent agent")
