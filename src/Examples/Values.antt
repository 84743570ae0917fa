-- ===== src/Examples/Values.antt =====
-- Mutation records and provider responses at concrete values
-- (src/deepseek_mcp/mutation_outcome.py and provider_response.py).
use deepseek_as_subagent.Prelude.{◌≡◌, refl, none, some, [], ◌∷◌, All, arith}
use deepseek_as_subagent.Prelude.Results.{ok}
use deepseek_as_subagent.Text.{codes}
use deepseek_as_subagent.Json.{
  pos, Value, null, int, str, obj, arr, nil, cons, Fields, field, end, get,
}
use deepseek_as_subagent.Mutation.{
  MutationRecord, known_status, mutation_record, payload, records_from_result,
}
use deepseek_as_subagent.Mutation.Records.{
  IsReportable, mutation_record-IsReportable, records_from_result-payload,
}
use deepseek_as_subagent.Provider.{
  ProviderResponse, from_payload, message_of, dumped_message, model_dump, without_none_fields,
  expected_reason,
}
use deepseek_as_subagent.Provider.Accepted.{
  PositivePrompt, CallEncodable, calls, from_payload_lem, from_payload-encodable,
}

abbrev edited : MutationRecord
edited = record {
  transaction_id = codes "t2";
  tool = codes "Edit";
  status = codes "committed";
  warning = some (codes "slow");
}

edited_made :
    mutation_record (codes "t2") (codes "Edit") (codes "committed") (some (codes "slow"))
    ≡ ok edited
unfolding mutation_record
edited_made = refl

mutation_record-IsReportable_example : IsReportable edited
mutation_record-IsReportable_example =
    mutation_record-IsReportable (codes "t2") (codes "Edit") (codes "committed")
      (some (codes "slow")) edited_made

abbrev outcome : Fields
outcome =
    field (codes "result") (str (codes "done"))
      (field (codes "mutations") (payload (edited ∷ [])) end)

outcome_mutations : get (codes "mutations") outcome ≡ some (payload (edited ∷ []))
unfolding get
outcome_mutations = refl

edited-IsReportable : IsReportable edited
unfolding known_status
edited-IsReportable = record { status_known = refl; warning_fits = (omega arith, omega arith) }

records_from_result-payload_example : records_from_result (obj outcome) ≡ edited ∷ []
records_from_result-payload_example =
    records_from_result-payload (edited ∷ []) outcome (edited-IsReportable, tt) outcome_mutations

abbrev function_fields : Fields
function_fields =
    field (codes "name") (str (codes "Read")) (field (codes "arguments") (str (codes "{}")) end)

abbrev call_fields : Fields
call_fields =
    field (codes "id") (str (codes "c1")) (field (codes "function") (obj function_fields) end)

abbrev message_fields : Fields
message_fields = field (codes "role") (str (codes "assistant")) (
    field (codes "content") null
      (field (codes "tool_calls") (arr (cons (obj call_fields) nil)) end))

abbrev choice_fields : Fields
choice_fields =
    field (codes "message") (obj message_fields)
      (field (codes "finish_reason") (str (codes "tool_calls")) end)

abbrev usage_fields : Fields
usage_fields =
    field (codes "prompt_tokens") (int (pos 12))
      (field (codes "completion_tokens") (int (pos 3)) end)

abbrev reply : Value
reply = obj (
    field (codes "choices") (arr (cons (obj choice_fields) nil))
      (field (codes "usage") (obj usage_fields) end))

abbrev response : ProviderResponse
response = record {
  raw = reply;
  usage = some (record { prompt_tokens = 12; completion_tokens = 3 });
  message = record {
    content = none;
    tool_calls =
        some (record { id = codes "c1"; name = codes "Read"; arguments = codes "{}" } ∷ []);
  };
  finish_reason = codes "tool_calls";
}

reply_accepted : from_payload reply ≡ ok response
unfolding from_payload
reply_accepted = refl

from_payload_lem_example :
    (response.raw ≡ reply)
    × PositivePrompt response.usage
    × (response.finish_reason ≡ expected_reason response.message)
    × (message : Fields) × (message_of message ≡ ok response.message)
    × (dumped_message (model_dump response) ≡ some (without_none_fields message))
from_payload_lem_example = from_payload_lem reply reply_accepted

from_payload-encodable_example : All CallEncodable (calls response.message.tool_calls)
from_payload-encodable_example = from_payload-encodable reply reply_accepted
