-- ===== src/ToolCall/Accounted.antt =====
-- Every mutation of a tool call is accounted for (src/deepseek_mcp/tool_process.py).
use deepseek_as_subagent.Prelude.{
  ℕ, ◌≡◌, refl, Bool, true, false, ◌&&◌, Option, none, some, List, [], ◌∷◌, arith, ◌==◌, if_cases,
}
use deepseek_as_subagent.Prelude.Results.{Result, ok, err}
use deepseek_as_subagent.Text.{Text, codes, text_eq_iff, member}
use deepseek_as_subagent.Json.{Value, Fields}
use deepseek_as_subagent.Mutation.{MutationRecord, mutation_record}
use deepseek_as_subagent.Mutation.Records.{IsReportable, mutation_record-IsReportable}
use deepseek_as_subagent.Agent.Errors.{AgentError, is_mutation}
use deepseek_as_subagent.Agent.Host.{ToolEnd}
use deepseek_as_subagent.ToolCall.{
  mutation_tools, ChildRun, is_ok_text, mutation_state, record_of, finish_interrupted,
  finish_completed, no_warning, cleanup_after_result, recorded, mutation_digest,
  interrupted_mutation_state, complete_tool_call, finish_call, launched_call, execute_in_subprocess,
  receive_tool_result, returned,
}

-- What a call reports and how it ends. A mutating tool that says "OK:" has one record, committed and
-- without a warning; a call that raises behind a record raises the error that carries it.
abbrev pub Accounted : Text → List MutationRecord → Result AgentError Text → Type 0
Accounted name [] (ok t) = (member name mutation_tools && is_ok_text t) ≡ false
Accounted name [] (err e) = Unit
Accounted name (r ∷ []) (ok t) =
    (r.tool ≡ name)
    × (r.status ≡ codes "committed")
    × (r.warning ≡ none)
    × (is_ok_text t ≡ true)
    × (member name mutation_tools ≡ true)
Accounted name (r ∷ []) (err e) =
    (r.tool ≡ name)
    × (e.records ≡ r ∷ [])
    × (is_mutation e.class ≡ true)
    × (member name mutation_tools ≡ true)
Accounted name (_ ∷ (_ ∷ _)) _ = ⊥

made_lem :
    (transaction_id name status : Text) (warning : Option Text) {r : MutationRecord}
    → mutation_record transaction_id name status warning ≡ ok r
    → (r.transaction_id ≡ transaction_id) × (r.tool ≡ name) × (r.status ≡ status)
unfolding mutation_record
made_lem transaction_id name status warning h = ground arith

-- The record made of a state, of the tool and under the transaction.
pub record_of_lem :
    (transaction_id name : Text) (warning : Option Text) (status : Text) {r : MutationRecord}
    → record_of transaction_id name warning status ≡ some r
    → (r.transaction_id ≡ transaction_id) × (r.tool ≡ name) × (r.status ≡ status) × IsReportable r
unfolding record_of
record_of_lem transaction_id name warning status {r} h =
    let made : mutation_record transaction_id name status warning ≡ ok r = ground arith in
    let (i, t, s) = made_lem transaction_id name status warning made in
    (i, t, s, mutation_record-IsReportable transaction_id name status warning made)

mutation_state-member :
    (name : Text) (arguments : Fields) (found digest : Option (List ℕ)) {status : Text}
    → mutation_state name arguments found digest ≡ some status
    → member name mutation_tools ≡ true
unfolding mutation_state
mutation_state-member name arguments found none h = cc
mutation_state-member name arguments found (some d) h = ground arith

-- A record is of the tool, which is a mutating one.
abbrev IsOwn : Text → Option MutationRecord → Type 0
IsOwn name none = Unit {0}
IsOwn name (some r) = (r.tool ≡ name) × (member name mutation_tools ≡ true)

interrupted-Accounted :
    (name : Text) (failure : AgentError) (cleanup : Result AgentError Bool)
    (o : Option MutationRecord)
    → IsOwn name o
    → Accounted name
        (finish_interrupted failure cleanup o).0
        (finish_interrupted failure cleanup o).1
unfolding finish_interrupted
interrupted-Accounted name failure (ok b) none own = tt
interrupted-Accounted name failure (err e) none own = tt
interrupted-Accounted name failure cleanup (some r) own = ground arith

no_warning_lem : (w : Option Text) → no_warning w ≡ true → w ≡ none
unfolding no_warning
no_warning_lem none h = refl
no_warning_lem (some w) h = cc

completed-Accounted :
    (name result : Text) (cleanup : Result AgentError Bool) (o : Option MutationRecord)
    → IsOwn name o
    → Accounted name
        (finish_completed name result cleanup o).0
        (finish_completed name result cleanup o).1
unfolding finish_completed
completed-Accounted name result (err e) none own = tt
completed-Accounted name result (ok b) none own = ground arith
completed-Accounted name result cleanup (some r) own =
    ground (arith, text_eq_iff r.status (codes "committed"), no_warning_lem r.warning)

module _ (loads : Text → Option Value) where
  recorded-IsOwn :
      (transaction_id name : Text) (warning : Option Text) (arguments : Fields) (c : ChildRun)
      → IsOwn name (
          recorded loads transaction_id name warning
            (interrupted_mutation_state loads name arguments c))
  unfolding recorded interrupted_mutation_state
  recorded-IsOwn transaction_id name warning arguments c =
      made (mutation_state name arguments c.found (mutation_digest loads c.output)) (λ status e.
        mutation_state-member name arguments c.found (mutation_digest loads c.output) e)
    where
      own :
          (status : Text) (o : Option MutationRecord)
          → record_of transaction_id name warning status ≡ o
          → member name mutation_tools ≡ true
          → IsOwn name o
      own status none e m = tt
      own status (some r) e m = ((record_of_lem transaction_id name warning status e).1, m)

      made :
          (o : Option Text)
          → ((status : Text) → o ≡ some status → member name mutation_tools ≡ true)
          → IsOwn name (recorded loads transaction_id name warning o)
      made none m = tt
      made (some status) m =
          own status (record_of transaction_id name warning status) refl (m status refl)

  complete-Accounted :
      (name : Text) (arguments : Fields) (transaction_id : Text) (c : ChildRun)
      (x : Result AgentError Text) (cleanup : Result AgentError Bool)
      → Accounted name
          (complete_tool_call loads name arguments transaction_id c x cleanup).0
          (complete_tool_call loads name arguments transaction_id c x cleanup).1
  unfolding complete_tool_call
  complete-Accounted name arguments transaction_id c (err failure) cleanup =
      interrupted-Accounted name failure cleanup _
        (recorded-IsOwn transaction_id name _ arguments c)
  complete-Accounted name arguments transaction_id c (ok result) cleanup =
      completed-Accounted name result cleanup _ (recorded-IsOwn transaction_id name _ arguments c)

  abbrev EndAccounted : Text → ToolEnd → Type 0
  EndAccounted name e = Accounted name e.reported e.outcome

  launched-Accounted :
      (name : Text) (arguments : Fields) (limit used : ℕ) (c : ChildRun)
      (l : Result AgentError Text)
      → EndAccounted name (launched_call loads name arguments limit used c l)
  unfolding launched_call finish_call
  launched-Accounted name arguments limit used c (err e) = tt
  launched-Accounted name arguments limit used c (ok transaction_id) =
      let received = receive_tool_result loads limit used c in
      complete-Accounted name arguments transaction_id c (returned loads received)
        (cleanup_after_result name (returned loads received) c.cleaned)

  -- However the launch, the wait, the output and the cleanup of a call turn out: a text that a mutating
  -- tool returns with "OK:" comes with one report, of a committed mutation without a warning, and a
  -- call that reports nothing and returns was not such a text. A call that reports a mutation and
  -- raises, raises an error that hosts must not retry and that carries just that report. No call
  -- reports two, and none of another tool reports one.
  pub execute_in_subprocess-Accounted :
      (name : Text) (arguments : Fields) (limit used : ℕ) (c : ChildRun)
      → Accounted name
          (execute_in_subprocess loads name arguments limit used c).reported
          (execute_in_subprocess loads name arguments limit used c).outcome
  unfolding execute_in_subprocess
  execute_in_subprocess-Accounted name arguments limit used c =
      if_cases (EndAccounted name) (c.time_left == 0) _ _ (λ _. tt)
        (λ _. launched-Accounted name arguments limit used c c.launched)
