-- ===== src/Provider.antt =====
-- src/deepseek_mcp/provider_response.py: the validation of a provider's response.
pub mod Accepted
use deepseek_as_subagent.Prelude.{
  ℕ, zero, suc, Bool, true, false, not, ◌&&◌, ◌||◌, Option, none, some, List, [], ◌∷◌,
  if◌then◌else◌, is_empty,
}
use deepseek_as_subagent.Prelude.Results.{Result, ok, err, ◌>>=◌, ◌>>◌, raise_if}
use deepseek_as_subagent.Text.{Text, codes, text_eq, member, utf8_size}
use deepseek_as_subagent.Json.{
  ℤ, pos, negsuc, Value, null, bool, int, real, str, arr, obj, Items, nil, cons, Fields, end, field,
  get, get_or_null,
}

-- The exceptions of the module, and the message of the plain one.
pub data ProviderError : Type 0 where
  response_error : Text → ProviderError
  retryable output_truncated content_filtered : ProviderError

pub record ProviderUsage : Type 0 where
  pub prompt_tokens : ℕ
  pub completion_tokens : ℕ

pub record ProviderToolCall : Type 0 where
  pub id : Text
  pub name : Text
  pub arguments : Text

pub record ProviderMessage : Type 0 where
  pub content : Option Text
  pub tool_calls : Option (List ProviderToolCall)

-- `choices` has one entry, its message.
pub record ProviderResponse : Type 0 where
  pub raw : Value
  pub usage : Option ProviderUsage
  pub message : ProviderMessage
  pub finish_reason : Text

unfoldable pub strict_text : Value → Text → Result ProviderError Text
unfolding utf8_size
strict_text (str s) label = elim (utf8_size s) [ none ↦ err (response_error label) | some _ ↦ ok s ]
strict_text _ label = err (response_error label)

pub counters : Value → Value → Result ProviderError (Option ProviderUsage)
counters (int (pos (suc p))) (int (pos c)) =
    ok (some (record { prompt_tokens = suc p; completion_tokens = c }))
counters _ _ = err (response_error (codes "provider usage counters are invalid"))

pub both_counters : Option Value → Option Value → Result ProviderError (Option ProviderUsage)
unfolding counters
both_counters (some p) (some c) = counters p c
both_counters _ _ = ok none

unfoldable pub usage_of : Value → Result ProviderError (Option ProviderUsage)
unfolding both_counters get
usage_of null = ok none
usage_of (obj fs) =
    both_counters (get (codes "prompt_tokens") fs) (get (codes "completion_tokens") fs)
usage_of _ = err (response_error (codes "provider usage is invalid"))

pub tool_call_of : Value → Fields → Result ProviderError ProviderToolCall
unfolding strict_text get_or_null
tool_call_of identifier function = do
  i ← strict_text identifier (codes "provider tool call id")
  n ← strict_text (get_or_null (codes "name") function) (codes "provider tool name")
  a ← strict_text (get_or_null (codes "arguments") function) (codes "provider tool arguments")
  ok (record { id = i; name = n; arguments = a })

pub function_of : Value → Value → Result ProviderError ProviderToolCall
unfolding tool_call_of
function_of identifier (obj function) = tool_call_of identifier function
function_of _ _ = err (response_error (codes "provider tool call is invalid"))

unfoldable pub tool_call : Value → Result ProviderError ProviderToolCall
unfolding function_of get_or_null
tool_call (obj fs) = function_of (get_or_null (codes "id") fs) (get_or_null (codes "function") fs)
tool_call _ = err (response_error (codes "provider tool call is invalid"))

unfoldable pub tool_calls_of : Items → Result ProviderError (List ProviderToolCall)
unfolding tool_call
tool_calls_of nil = ok []
tool_calls_of (cons v vs) = do c ← tool_call v; cs ← tool_calls_of vs; ok (c ∷ cs)

pub calls_of : Option Text → Value → Result ProviderError ProviderMessage
unfolding tool_calls_of
calls_of content null = ok (record { content = content; tool_calls = none })
calls_of content (arr items) = do
  cs ← tool_calls_of items
  ok (record { content = content; tool_calls = some cs })
calls_of content _ = err (response_error (codes "provider tool calls are invalid"))

pub optional_text : Value → Text → Result ProviderError (Option Text)
unfolding strict_text
optional_text null label = ok none
optional_text v label = do s ← strict_text v label; ok (some s)

unfoldable pub message_of : Fields → Result ProviderError ProviderMessage
unfolding calls_of optional_text get_or_null
message_of fs = do
  content ← optional_text (get_or_null (codes "content") fs) (codes "provider message content")
  _ ←
      optional_text (get_or_null (codes "reasoning_content") fs)
        (codes "provider reasoning content")
  calls_of content (get_or_null (codes "tool_calls") fs)

-- `bool(message.tool_calls)`
abbrev pub has_calls : Option (List ProviderToolCall) → Bool
has_calls none = false
has_calls (some cs) = not (is_empty cs)

abbrev pub expected_reason : ProviderMessage → Text
expected_reason m = if has_calls m.tool_calls then codes "tool_calls" else codes "stop"

abbrev allowed_reasons : List Text
allowed_reasons = codes "stop" ∷ codes "length" ∷ codes "content_filter" ∷ codes "tool_calls" ∷ []

unfoldable pub finish_reason_of : Value → ProviderMessage → Result ProviderError Text
unfolding text_eq member
finish_reason_of (str r) m = do
  raise_if (not (member r allowed_reasons))
      (response_error (codes "provider finish reason is missing or invalid"))
  raise_if (text_eq r (codes "length")) output_truncated
  raise_if (text_eq r (codes "content_filter")) content_filtered
  raise_if (not (text_eq r (expected_reason m))) (response_error (codes "provider response ended"))
  ok r
finish_reason_of _ m = err (response_error (codes "provider finish reason is missing or invalid"))

is_insufficient : Value → Bool
unfolding text_eq
is_insufficient (str r) = text_eq r (codes "insufficient_system_resource")
is_insufficient _ = false

pub choice_of : Value → Fields → Fields → Value → Result ProviderError ProviderResponse
unfolding is_insufficient message_of finish_reason_of usage_of
choice_of payload payload_fields message reason = do
  raise_if (is_insufficient reason) retryable
  m ← message_of message
  r ← finish_reason_of reason m
  u ← usage_of (get_or_null (codes "usage") payload_fields)
  ok (record { raw = payload; usage = u; message = m; finish_reason = r })

pub first_choice : Value → Fields → Value → Value → Result ProviderError ProviderResponse
unfolding choice_of
first_choice payload fs (obj message) reason = choice_of payload fs message reason
first_choice payload fs _ reason =
    err (response_error (codes "provider response message is invalid"))

pub choices_of : Value → Fields → Value → Result ProviderError ProviderResponse
unfolding first_choice get_or_null
choices_of payload fs (arr (cons (obj first) rest)) =
    first_choice payload fs (get_or_null (codes "message") first)
      (get_or_null (codes "finish_reason") first)
choices_of payload fs (arr (cons _ rest)) =
    err (response_error (codes "provider response message is invalid"))
choices_of payload fs _ = err (response_error (codes "provider response has no choices"))

-- `ProviderResponse.from_payload`
unfoldable pub from_payload : Value → Result ProviderError ProviderResponse
unfolding choices_of get_or_null
from_payload (obj fs) = choices_of (obj fs) fs (get_or_null (codes "choices") fs)
from_payload _ = err (response_error (codes "provider response must be an object"))

pub is_null : Value → Bool
is_null null = true
is_null _ = false

unfoldable mutual
  unfolding is_null

  pub without_none : Value → Value
  without_none (obj fs) = obj (without_none_fields fs)
  without_none (arr vs) = arr (without_none_items vs)
  without_none null = null
  without_none (bool b) = bool b
  without_none (int n) = int n
  without_none (real t) = real t
  without_none (str s) = str s

  pub without_none_fields : Fields → Fields
  without_none_fields end = end
  without_none_fields (field k v fs) =
      if is_null v
      then without_none_fields fs
      else field k (without_none v) (without_none_fields fs)

  pub without_none_items : Items → Items
  without_none_items nil = nil
  without_none_items (cons v vs) = cons (without_none v) (without_none_items vs)

-- `response.model_dump(exclude_none=True)`
unfoldable pub model_dump : ProviderResponse → Value
unfolding without_none
model_dump r = without_none r.raw

-- `raw["choices"][0]["message"]`, or none where one of the subscripts raises.
pub message_at : Option Value → Option Fields
message_at (some (obj fs)) = some fs
message_at _ = none

pub first_message : Option Value → Option Fields
unfolding message_at get
first_message (some (arr (cons (obj first) rest))) = message_at (get (codes "message") first)
first_message _ = none

unfoldable pub dumped_message : Value → Option Fields
unfolding first_message get
dumped_message (obj fs) = first_message (get (codes "choices") fs)
dumped_message _ = none
