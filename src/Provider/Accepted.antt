-- ===== src/Provider/Accepted.antt =====
-- What an accepted provider response satisfies.
use deepseek_as_subagent.Prelude.{
  ℕ, ◌<◌, ◌≡◌, refl, sym, ap, ◌∙◌, false, Option, none, some, List, [], ◌∷◌, arith, All, inl, inr,
  Option-cases, Bool-cases,
}
use deepseek_as_subagent.Prelude.Results.{ok, Result-cases}
use deepseek_as_subagent.Text.{Text, codes, text_eq, text_eq_iff, utf8_size}
use deepseek_as_subagent.Json.{
  Value, str, arr, obj, Items, nil, cons, Fields, end, field, get, get_or_null,
}
use deepseek_as_subagent.Provider.{
  ProviderResponse, ProviderUsage, ProviderMessage, ProviderToolCall, from_payload, usage_of,
  message_of, finish_reason_of, expected_reason, choice_of, first_choice, choices_of, calls_of,
  optional_text, strict_text, tool_call, tool_calls_of, tool_call_of, function_of, both_counters,
  without_none, without_none_fields, model_dump, dumped_message, is_null,
}

-- The parts of a payload from which a response was made.
record IsMade (payload : Value) (fs : Fields) (r : ProviderResponse) (message : Fields)
    (reason : Value) : Type 0 where
  raw : r.raw ≡ payload
  made_message : message_of message ≡ ok r.message
  made_reason : finish_reason_of reason r.message ≡ ok r.finish_reason
  made_usage : usage_of (get_or_null (codes "usage") fs) ≡ ok r.usage

choice_of_lem :
    (payload : Value) (fs message : Fields) (reason : Value) {r : ProviderResponse}
    → choice_of payload fs message reason ≡ ok r
    → IsMade payload fs r message reason
unfolding choice_of
choice_of_lem payload fs message reason h = ground arith

record IsAccepted (fs : Fields) (r : ProviderResponse) : Type 0 where
  first : Fields
  rest : Items
  message : Fields
  choices_are : get_or_null (codes "choices") fs ≡ arr (cons (obj first) rest)
  message_is : get_or_null (codes "message") first ≡ obj message
  made : IsMade (obj fs) fs r message (get_or_null (codes "finish_reason") first)

first_choice_lem :
    (payload : Value) (fs : Fields) (v reason : Value) {r : ProviderResponse}
    → first_choice payload fs v reason ≡ ok r
    → (message : Fields) × (v ≡ obj message) × (choice_of payload fs message reason ≡ ok r)
unfolding first_choice
first_choice_lem payload fs (obj message) reason h = (message, refl, h)
first_choice_lem payload fs _ reason h = cc

choices_of_lem :
    (fs : Fields) (c : Value) {r : ProviderResponse}
    → get_or_null (codes "choices") fs ≡ c
    → choices_of (obj fs) fs c ≡ ok r
    → IsAccepted fs r
unfolding choices_of
choices_of_lem fs (arr (cons (obj first) rest)) e h =
    let (message, m, made) =
      first_choice_lem (obj fs) fs (get_or_null (codes "message") first)
        (get_or_null (codes "finish_reason") first) h in
    record {
      first = first;
      rest = rest;
      message = message;
      choices_are = e;
      message_is = m;
      made = choice_of_lem (obj fs) fs message (get_or_null (codes "finish_reason") first) made;
    }
choices_of_lem fs _ e h = cc

accepted :
    (v : Value) {r : ProviderResponse}
    → from_payload v ≡ ok r
    → (fs : Fields) × (v ≡ obj fs) × IsAccepted fs r
unfolding from_payload
accepted (obj fs) h = (fs, refl, choices_of_lem fs (get_or_null (codes "choices") fs) refl h)
accepted _ h = cc

finish_reason_lem :
    (v : Value) (m : ProviderMessage) {r : Text}
    → finish_reason_of v m ≡ ok r
    → r ≡ expected_reason m
unfolding finish_reason_of
finish_reason_lem (str s) m h = ground (arith, text_eq_iff s (expected_reason m))
finish_reason_lem _ m h = cc

abbrev pub PositivePrompt : Option ProviderUsage → Type 0
PositivePrompt none = Unit
PositivePrompt (some u) = 0 < u.prompt_tokens

both_counters_lem :
    (p c : Option Value) (u : Option ProviderUsage) → both_counters p c ≡ ok u → PositivePrompt u
unfolding both_counters
both_counters_lem p c none h = tt
both_counters_lem p c (some u) h = ground arith

usage_of_lem : (v : Value) (u : Option ProviderUsage) → usage_of v ≡ ok u → PositivePrompt u
unfolding usage_of
usage_of_lem (obj fs) u h =
    both_counters_lem (get (codes "prompt_tokens") fs) (get (codes "completion_tokens") fs) u h
usage_of_lem v none h = tt
usage_of_lem v (some u) h = ground arith

-- `str.encode("utf-8")` succeeds.
abbrev pub Encodable : Text → Type 0
Encodable s = (n : ℕ) × (utf8_size s ≡ some n)

abbrev pub CallEncodable : ProviderToolCall → Type 0
CallEncodable c = Encodable c.id × Encodable c.name × Encodable c.arguments

strict_text_lem : (v : Value) (label : Text) {s : Text} → strict_text v label ≡ ok s → Encodable s
unfolding strict_text
strict_text_lem (str s) label h = elim (Option-cases (utf8_size s)) [
  | inl broken ↦ ground arith
  | inr (n, e) ↦ (n, ground arith)
]
strict_text_lem _ label h = cc

Encodable-eq : {s t : Text} → s ≡ t → Encodable t → Encodable s
Encodable-eq e (n, p) = (n, ap utf8_size e ∙ p)

tool_call_of_lem :
    (i : Value) (fs : Fields) {c : ProviderToolCall} → tool_call_of i fs ≡ ok c → CallEncodable c
unfolding tool_call_of
tool_call_of_lem i fs {c} h =
    let name : Value = get_or_null (codes "name") fs in
    let arguments : Value = get_or_null (codes "arguments") fs in
    elim (Result-cases (strict_text i (codes "provider tool call id"))) [
      | inr (_, e) ↦ absurd (ground arith)
      | inl (a, ea) ↦ elim (Result-cases (strict_text name (codes "provider tool name"))) [
        | inr (_, e) ↦ absurd (ground arith)
        | inl (b, eb) ↦
            elim (Result-cases (strict_text arguments (codes "provider tool arguments"))) [
              | inr (_, e) ↦ absurd (ground arith)
              | inl (d, ed) ↦ (
                Encodable-eq {s = c.id} {t = a} (ground arith) (strict_text_lem i _ ea),
                Encodable-eq {s = c.name} {t = b} (ground arith) (strict_text_lem name _ eb),
                Encodable-eq {s = c.arguments} {t = d} (ground arith)
                    (strict_text_lem arguments _ ed),
              )
            ]
      ]
    ]

function_of_lem : (i v : Value) {c : ProviderToolCall} → function_of i v ≡ ok c → CallEncodable c
unfolding function_of
function_of_lem i (obj fs) h = tool_call_of_lem i fs h
function_of_lem i _ h = absurd (cc)

tool_call_lem : (v : Value) {c : ProviderToolCall} → tool_call v ≡ ok c → CallEncodable c
unfolding tool_call
tool_call_lem (obj fs) h =
    function_of_lem (get_or_null (codes "id") fs) (get_or_null (codes "function") fs) h
tool_call_lem _ h = absurd (cc)

tool_calls_of_lem :
    (vs : Items) (cs : List ProviderToolCall) → tool_calls_of vs ≡ ok cs → All CallEncodable cs
unfolding tool_calls_of
tool_calls_of_lem vs [] h = tt
tool_calls_of_lem nil (c ∷ cs) h = absurd (ground arith)
tool_calls_of_lem (cons v vs) (c ∷ cs) h = elim (Result-cases (tool_call v)) [
  | inr (_, e) ↦ absurd (ground arith)
  | inl (a, ea) ↦ elim (Result-cases (tool_calls_of vs)) [
    | inr (_, e) ↦ absurd (ground arith)
    | inl (as', eas) ↦ (
      tool_call_lem v {c = c} (ea ∙ ap ok (ground arith)),
      tool_calls_of_lem vs cs (eas ∙ ap ok (ground arith)),
    )
  ]
]

abbrev pub calls {ℓ} : {A : Type ℓ} → Option (List A) → List A
calls none = []
calls (some cs) = cs

calls_of_lem :
    (content : Option Text) (v : Value) (m : ProviderMessage) (cs : Option (List ProviderToolCall))
    → m.tool_calls ≡ cs
    → calls_of content v ≡ ok m
    → All CallEncodable (calls cs)
unfolding calls_of
calls_of_lem content (arr vs) m none e h = tt
calls_of_lem content (arr vs) m (some cs) e h = tool_calls_of_lem vs cs (ground arith)
calls_of_lem content _ m none e h = tt
calls_of_lem content _ m (some cs) e h = absurd (ground arith)

message_of-encodable :
    (fs : Fields) (m : ProviderMessage)
    → message_of fs ≡ ok m
    → All CallEncodable (calls m.tool_calls)
unfolding message_of
message_of-encodable fs m h =
    elim (Result-cases
      (optional_text (get_or_null (codes "content") fs) (codes "provider message content"))) [
        | inr (_, e) ↦ absurd (ground arith)
        | inl (content, e) ↦
            calls_of_lem content (get_or_null (codes "tool_calls") fs) m m.tool_calls refl
              (ground arith)
      ]

-- Every tool call of an accepted response has an id, a name and arguments that are valid Unicode.
pub from_payload-encodable :
    (v : Value) {r : ProviderResponse}
    → from_payload v ≡ ok r
    → All CallEncodable (calls r.message.tool_calls)
from_payload-encodable v {r} h =
    let (fs, e, a) = accepted v h in message_of-encodable a.message r.message a.made.made_message

-- The message that `dumped_message` finds.
get-without_none :
    (k : Text) (fs : Fields) (v : Value)
    → get k fs ≡ some v
    → is_null v ≡ false
    → get k (without_none_fields fs) ≡ some (without_none v)
unfolding get without_none
get-without_none k end v h n = cc
get-without_none k (field j x fs) v h n = elim (Bool-cases (text_eq j k)) [
  | inl hit ↦ let e : x ≡ v = ground arith in ground (arith, ap is_null e, ap without_none e)
  | inr miss ↦ elim (Bool-cases (is_null x)) [
    | inl null_here ↦ rw (null_here, without_none_fields) (get-without_none k fs v (ground arith) n)
    | inr kept ↦ ground (arith, get-without_none k fs v (ground arith) n)
  ]
]

get_or_null_lem :
    (k : Text) (fs : Fields) {v : Value}
    → get_or_null k fs ≡ v
    → is_null v ≡ false
    → get k fs ≡ some v
unfolding get_or_null is_null
get_or_null_lem k fs h n = ground arith

-- An accepted response keeps the payload, has positive prompt usage if it has usage, ends for the
-- reason that its tool calls call for, and its dump without nulls still holds the message of the
-- first choice where the agent reads it.
pub from_payload_lem :
    (v : Value) {r : ProviderResponse}
    → from_payload v ≡ ok r
    → (r.raw ≡ v)
      × PositivePrompt r.usage
      × (r.finish_reason ≡ expected_reason r.message)
      × (message : Fields) × (message_of message ≡ ok r.message)
      × (dumped_message (model_dump r) ≡ some (without_none_fields message))
unfolding dumped_message model_dump without_none
from_payload_lem v h =
    let (fs, e, a) = accepted v h in
    let choices =
      get-without_none (codes "choices") fs (arr (cons (obj a.first) a.rest))
        (get_or_null_lem (codes "choices") fs a.choices_are refl) refl in
    let message =
      get-without_none (codes "message") a.first (obj a.message)
        (get_or_null_lem (codes "message") a.first a.message_is refl) refl in
    (
      a.made.raw ∙ sym e,
      usage_of_lem _ _ a.made.made_usage,
      finish_reason_lem _ _ a.made.made_reason,
      a.message,
      a.made.made_message,
      ground (arith, choices, message, a.made.raw),
    )
