-- ===== src/Agent/Budgets.antt =====
-- The budgets of a run and the order of its conversation, through every action of a turn.
use deepseek_as_subagent.Prelude.{
  ℕ, ◌+◌, ◌≤◌, ◌≡◌, refl, ap, false, Option, none, some, List, [], ◌∷◌, ◌++◌, arith, length,
  Option-cases, inl, inr, ◌⊎◌, length-append,
}
use deepseek_as_subagent.Prelude.Results.{ok, err}
use deepseek_as_subagent.Text.{Text}
use deepseek_as_subagent.Json.{Fields, obj}
use deepseek_as_subagent.Json.Size.{encoded_size}
use deepseek_as_subagent.Mutation.{MutationRecord, max_mutation_records, add, capacity_exceeded}
use deepseek_as_subagent.Provider.{
  ProviderResponse, ProviderMessage, ProviderUsage, dumped_message, model_dump,
}
use deepseek_as_subagent.Agent.Errors.{AgentError}
use deepseek_as_subagent.Agent.State.{
  AgentState, max_tool_calls_per_run, max_total_tokens_per_run, metered, estimate_tokens,
}
use deepseek_as_subagent.Agent.Loop.{
  calls_of, charge, with_content, record_message, record_response, add_all,
}
use deepseek_as_subagent.Agent.Conversation.{owed, ids_of, owed-assistant}

-- What holds also where the run raises: the hard caps on tool calls and on reported mutations.
pub record Capped (s : AgentState) : Type 0 where
  pub calls : s.tool_calls ≤ max_tool_calls_per_run
  pub records : length s.mutations ≤ max_mutation_records

-- Between two messages of a turn: the ids of the tool calls still to be answered, room for the calls
-- that are left in their budget, and tokens within the budget of the run.
pub record Pending (ids : List Text) (left : ℕ) (s : AgentState) : Type 0 where
  pub conversation : owed s.messages ≡ some ids
  pub room : s.tool_calls + left ≤ max_tool_calls_per_run
  pub tokens : metered s ≤ max_total_tokens_per_run
  pub records : length s.mutations ≤ max_mutation_records

-- None of the calls that are owed has been counted.
abbrev pub Owing : List Text → AgentState → Type 0
Owing ids = Pending ids (length ids)

pub Pending-Capped : (ids : List Text) (left : ℕ) (s : AgentState) → Pending ids left s → Capped s
Pending-Capped ids left s o = omega arith

pub Owing-Capped : (ids : List Text) (s : AgentState) → Owing ids s → Capped s
Owing-Capped ids s o = Pending-Capped ids (length ids) s o

add_cases :
    (records : List MutationRecord) (r : MutationRecord)
    → length records ≤ max_mutation_records
    → ((add records r ≡ ok (records ++ r ∷ []))
        × (length (records ++ r ∷ []) ≤ max_mutation_records))
      ⊎ (add records r ≡ err capacity_exceeded)
unfolding add
add_cases records r h = ground (arith, length-append records (r ∷ []))

pub add_all-records :
    (records rs more : List MutationRecord)
    → length records ≤ max_mutation_records
    → add_all records rs ≡ ok more
    → length more ≤ max_mutation_records
unfolding add_all
add_all-records records [] more h e = ground arith
add_all-records records (r ∷ rs) more h e =
    ground (arith, add_cases records r h, add_all-records (records ++ r ∷ []) rs more)

charge-same :
    (u : Option ProviderUsage) (p c : ℕ) (s : AgentState)
    → ((charge u p c s).messages ≡ s.messages)
      × ((charge u p c s).tool_calls ≡ s.tool_calls)
      × ((charge u p c s).mutations ≡ s.mutations)
unfolding charge
charge-same none p c s = (refl, refl, refl)
charge-same (some u) p c s = (refl, refl, refl)

record_message-owed :
    (response : ProviderResponse) (bytes : ℕ) (dumped : Fields) (s t : AgentState)
    (m : ProviderMessage)
    → Owing [] s
    → record_message response bytes dumped s ≡ (ok m, t)
    → (m ≡ response.message)
      × (owed t.messages ≡ some (ids_of (calls_of response.message)))
      × (t.tool_calls ≡ s.tool_calls)
      × (metered t ≤ max_total_tokens_per_run)
      × (t.mutations ≡ s.mutations)
unfolding record_message
record_message-owed response bytes dumped s t m o h =
    let p = estimate_tokens bytes in
    let c = estimate_tokens (encoded_size false (obj (with_content dumped))) in
    let same = charge-same response.usage p c s in
    let ids = ids_of (calls_of response.message) in
    ground (arith, same, owed-assistant s.messages (with_content dumped) ids o.conversation)

record_message-Capped :
    (response : ProviderResponse) (bytes : ℕ) (dumped : Fields) (s t : AgentState) (e : AgentError)
    → Capped s
    → record_message response bytes dumped s ≡ (err e, t)
    → Capped t
unfolding record_message
record_message-Capped response bytes dumped s t e o h =
    let p = estimate_tokens bytes in
    let c = estimate_tokens (encoded_size false (obj (with_content dumped))) in
    ground (arith, charge-same response.usage p c s)

-- After an accepted response the assistant message stands last and its calls are owed.
pub record_response-owed :
    (response : ProviderResponse) (bytes : ℕ) (s t : AgentState) (m : ProviderMessage)
    → Owing [] s
    → record_response response bytes s ≡ (ok m, t)
    → (owed t.messages ≡ some (ids_of (calls_of m)))
      × (t.tool_calls ≡ s.tool_calls)
      × (metered t ≤ max_total_tokens_per_run)
      × (t.mutations ≡ s.mutations)
unfolding record_response
record_response-owed response bytes s t m o h =
    elim (Option-cases (dumped_message (model_dump response))) [
      | inl missing ↦ absurd (ground arith)
      | inr (dumped, e) ↦
          let made = record_message-owed response bytes dumped s t m o (ground arith) in
          ground (arith, made, ap (λ x. ids_of (calls_of x)) made.0)
    ]

pub record_response-Capped :
    (response : ProviderResponse) (bytes : ℕ) (s t : AgentState) (e : AgentError)
    → Capped s
    → record_response response bytes s ≡ (err e, t)
    → Capped t
unfolding record_response
record_response-Capped response bytes s t e o h =
    elim (Option-cases (dumped_message (model_dump response))) [
      | inl missing ↦ ground arith
      | inr (dumped, x) ↦ record_message-Capped response bytes dumped s t e o (ground arith)
    ]
