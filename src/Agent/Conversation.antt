-- ===== src/Agent/Conversation.antt =====
-- Which tool results a conversation still owes to the tool calls of its last assistant message. A
-- provider accepts a conversation only where none is owed.
use deepseek_as_subagent.Prelude.{
  ℕ, ◌≡◌, refl, ap, ◌∙◌, Option, none, some, List, [], ◌∷◌, ◌++◌, map, arith, if◌then◌else◌,
}
use deepseek_as_subagent.Text.{Text, text_eq, text_eq_refl}
use deepseek_as_subagent.Json.{Fields}
use deepseek_as_subagent.Provider.{ProviderToolCall}
use deepseek_as_subagent.Agent.State.{
  Config, Message, system, user, assistant, tool, create_agent_state,
}
use deepseek_as_subagent.Agent.Loop.{append_steering_update, append_skipped_tool_responses}

answers : List Text → Text → Option (List Text)
answers [] i = none
answers (j ∷ js) i = if text_eq j i then some js else none

speaks : List Text → List Text → Option (List Text)
speaks [] next = some next
speaks (j ∷ js) next = none

-- One message more: `none` once the conversation is broken. A result must answer the first call
-- that is owed, and nobody else speaks before all calls are answered.
pub owed_after : Option (List Text) → Message → Option (List Text)
unfolding answers speaks
owed_after none m = none
owed_after (some owed) (tool i _) = answers owed i
owed_after (some owed) (assistant _ calls) = speaks owed calls
owed_after (some owed) (system _) = speaks owed []
owed_after (some owed) (user _) = speaks owed []

pub owed_from : Option (List Text) → List Message → Option (List Text)
owed_from o [] = o
owed_from o (m ∷ ms) = owed_from (owed_after o m) ms

-- `some []` of a whole conversation says that it is complete.
abbrev pub owed : List Message → Option (List Text)
owed = owed_from (some [])

pub owed_from-append :
    (o : Option (List Text)) (ms ns : List Message)
    → owed_from o (ms ++ ns) ≡ owed_from (owed_from o ms) ns
unfolding owed_from
owed_from-append o [] ns = refl
owed_from-append o (m ∷ ms) ns = owed_from-append (owed_after o m) ms ns

pub owed-snoc :
    (ms : List Message) (m : Message) {o : Option (List Text)}
    → owed ms ≡ o
    → owed (ms ++ m ∷ []) ≡ owed_after o m
unfolding owed_from
owed-snoc ms m e = owed_from-append (some []) ms (m ∷ []) ∙ ap (λ x. owed_after x m) e

pub owed-user :
    (ms : List Message) (t : Text) → owed ms ≡ some [] → owed (ms ++ user t ∷ []) ≡ some []
unfolding owed_after
owed-user ms t e = owed-snoc ms (user t) e

pub owed-assistant :
    (ms : List Message) (fs : Fields) (ids : List Text)
    → owed ms ≡ some []
    → owed (ms ++ assistant fs ids ∷ []) ≡ some ids
unfolding owed_after
owed-assistant ms fs ids e = owed-snoc ms (assistant fs ids) e

pub owed-tool :
    (ms : List Message) (i t : Text) (ids : List Text)
    → owed ms ≡ some (i ∷ ids)
    → owed (ms ++ tool i t ∷ []) ≡ some ids
unfolding owed_after
owed-tool ms i t ids e = owed-snoc ms (tool i t) e ∙ ground (arith, text_eq_refl i)

pub owed-steering :
    (ms : List Message) (updates : List Text)
    → owed ms ≡ some []
    → owed (append_steering_update ms updates) ≡ some []
unfolding append_steering_update
owed-steering ms [] e = e
owed-steering ms (u ∷ us) e = owed-user ms _ e

abbrev pub ids_of : List ProviderToolCall → List Text
ids_of = map (λ (c : ProviderToolCall). c.id)

-- The skipped answers settle all that is owed.
pub owed-skipped :
    (ms : List Message) (calls : List ProviderToolCall)
    → owed ms ≡ some (ids_of calls)
    → owed (append_skipped_tool_responses ms calls) ≡ some []
unfolding append_skipped_tool_responses
owed-skipped ms [] e = e
owed-skipped ms (c ∷ cs) e = owed-skipped _ cs (owed-tool ms c.id _ (ids_of cs) e)

pub owed-create :
    (task : Text) (c : Config) (started : ℕ)
    → owed (create_agent_state task c started).messages ≡ some []
unfolding create_agent_state owed_from owed_after
owed-create task c started = refl
