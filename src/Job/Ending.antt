-- ===== src/Job/Ending.antt =====
-- How a job ends: an accepted cancellation wins, and what the run mutated stays visible.
use deepseek_as_subagent.Prelude.{ℕ, ◌≡◌, refl, true, false, none, some, List, [], ◌∷◌, arith, All}
use deepseek_as_subagent.Text.{Text, codes}
use deepseek_as_subagent.Json.{Value, obj, Fields, get}
use deepseek_as_subagent.Mutation.{
  MutationRecord, payload, records_from_result, mutation_failure_message,
}
use deepseek_as_subagent.Mutation.Records.{IsReportable, records_from_result-payload}
use deepseek_as_subagent.Mutation.Messages.{Infix, mutation_failure_message-names}
use deepseek_as_subagent.Job.Record.{JobRecord, cancelled, cancelled_error}
use deepseek_as_subagent.Job.Lifecycle.{present}
use deepseek_as_subagent.Job.Worker.{
  AgentEnd, returned, run_background_agent, finish_record, cancelled_message,
}

cancelled_message-present :
    (v : Value) (rs : List MutationRecord)
    → present (cancelled_message (run_background_agent (returned v)) rs) ≡ true
unfolding cancelled_message run_background_agent
cancelled_message-present v [] = refl
cancelled_message-present v (r ∷ rs) = refl

-- However the agent ends, a job whose cancellation was accepted is cancelled, has no result, says
-- why, and is closed.
pub finish_record-cancelled :
    (end : AgentEnd) (now : ℕ) (j : JobRecord)
    → j.cancel_event ≡ true
    → ((finish_record (run_background_agent end) now j).status ≡ cancelled)
      × ((finish_record (run_background_agent end) now j).result ≡ none)
      × (present (finish_record (run_background_agent end) now j).error ≡ true)
      × ((finish_record (run_background_agent end) now j).accepting_messages ≡ false)
      × ((finish_record (run_background_agent end) now j).finished_event ≡ true)
unfolding finish_record run_background_agent
finish_record-cancelled (returned v) now j c =
    ground (arith, cancelled_message-present v (records_from_result v))
finish_record-cancelled _ now j c = ground arith

-- If the agent returned a result that reports mutations, each of a known status and with a warning
-- within bounds, and the job was cancelled before it could be committed, the job's error is the message
-- of the failure, and it holds the transaction id of every one of those records.
pub finish_record-keeps_records :
    (fs : Fields) (r : MutationRecord) (rs : List MutationRecord) (now : ℕ) (j : JobRecord)
    → j.cancel_event ≡ true
    → All IsReportable (r ∷ rs)
    → get (codes "mutations") fs ≡ some (payload (r ∷ rs))
    → (message : Text) × ((finish_record (run_background_agent (returned (obj fs))) now j).error
        ≡ some message)
      × (message ≡ mutation_failure_message (r ∷ rs) cancelled_error)
      × All (λ (m : MutationRecord). Infix m.transaction_id message) (r ∷ rs)
unfolding finish_record run_background_agent
finish_record-keeps_records fs r rs now j c ok_records e = (
  mutation_failure_message (r ∷ rs) cancelled_error,
  ground (arith, records_from_result-payload (r ∷ rs) fs ok_records e),
  refl,
  mutation_failure_message-names (r ∷ rs) cancelled_error,
)
