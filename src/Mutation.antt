-- ===== src/Mutation.antt =====
-- src/deepseek_mcp/mutation_outcome.py: the records of workspace mutations that a run must report,
-- also when it fails, and the messages made of them.
pub mod Records
pub mod Messages
use mathlib.Core.Bool.{◌||◌}
use deepseek_as_subagent.Prelude.{
  ℕ, zero, suc, Bool, true, false, Option, none, some, List, [], ◌∷◌, ◌++◌, map, leb, length,
  if◌then◌else◌, is_empty, select,
}
use deepseek_as_subagent.Prelude.Results.{Result, ok, err}
use deepseek_as_subagent.Text.{Text, codes, text_eq, take, join}
use deepseek_as_subagent.Json.{
  Value, null, str, arr, obj, Items, nil, cons, Fields, end, field, get, get_or_null,
}

abbrev pub max_mutation_records : ℕ
max_mutation_records = 128

abbrev pub max_warning_chars : ℕ
max_warning_chars = 4096

pub record MutationRecord : Type 0 where
  pub transaction_id : Text
  pub tool : Text
  pub status : Text
  pub warning : Option Text

-- `if self.warning`
unfoldable pub has_warning : Option Text → Bool
has_warning none = false
has_warning (some w) = elim w [ [] ↦ false | _ ∷ _ ↦ true ]

warning_field : Option Text → Fields
warning_field none = end
warning_field (some []) = end
warning_field (some (c ∷ w)) = field (codes "warning") (str (c ∷ w)) end

unfoldable pub as_dict : MutationRecord → Value
unfolding warning_field
as_dict r = obj (
    field (codes "transaction_id") (str r.transaction_id) (
      field (codes "tool") (str r.tool)
        (field (codes "status") (str r.status) (warning_field r.warning))))

detail : Option Text → Text
detail none = []
detail (some []) = []
detail (some (c ∷ w)) = codes " (" ++ ((c ∷ w) ++ codes ")")

unfoldable pub summary : MutationRecord → Text
unfolding detail text_eq
summary r =
    (if text_eq r.status (codes "committed")
      then codes "update committed"
      else codes "outcome uncertain")
    ++ (detail r.warning ++ (codes "; transaction " ++ r.transaction_id))

unfoldable pub summaries : List MutationRecord → Text
unfolding summary join
summaries records = join (codes "; ") (map summary records)

-- `MutationAccumulator.add`; the error is the full accumulator.
pub data CapacityExceeded : Type 0 where
  capacity_exceeded : CapacityExceeded

unfoldable pub add :
    List MutationRecord → MutationRecord → Result CapacityExceeded (List MutationRecord)
add records r =
    if leb max_mutation_records (length records)
    then err capacity_exceeded
    else ok (records ++ r ∷ [])

unfoldable pub to_items : List Value → Items
to_items [] = nil
to_items (v ∷ vs) = cons v (to_items vs)

unfoldable pub payload : List MutationRecord → Value
unfolding as_dict to_items
payload records = arr (to_items (map as_dict records))

unfoldable pub warning_notice : List MutationRecord → Option Text
unfolding summaries has_warning
warning_notice records = elim (select (λ (r : MutationRecord). has_warning r.warning) records) [
  | [] ↦ none
  | w ∷ ws ↦ some (codes "[deepseek-mcp transaction safety] " ++ summaries (w ∷ ws))
]

unfoldable pub recovery_notice : List MutationRecord → Option Text
unfolding join
recovery_notice [] = none
recovery_notice (r ∷ rs) = some (
    codes "[deepseek-mcp recovery required] Workspace mutations were journaled ("
    ++ (join (codes ", ") (map (λ (m : MutationRecord). m.transaction_id) (r ∷ rs))
        ++ codes
            "). Call get_deepseek_recovery, verify every reported file, then call acknowledge_deepseek_mutations before delegating again."))

-- `mutation_record`; the error is the `ValueError` of a status outside the two that are known.
pub data InvalidStatus : Type 0 where
  invalid_status : InvalidStatus

unfoldable pub known_status : Text → Bool
unfolding text_eq
known_status s = text_eq s (codes "committed") || text_eq s (codes "uncertain")

unfoldable pub safe_warning : Option Text → Option Text
unfolding take
safe_warning none = none
safe_warning (some []) = none
safe_warning (some (c ∷ w)) = some (take max_warning_chars (c ∷ w))

unfoldable pub mutation_record :
    Text → Text → Text → Option Text → Result InvalidStatus MutationRecord
unfolding known_status safe_warning
mutation_record transaction_id tool status warning =
    if known_status status
    then ok (record {
      transaction_id = transaction_id;
      tool = tool;
      status = status;
      warning = safe_warning warning;
    })
    else err invalid_status

unfoldable pub mutation_failure_message : List MutationRecord → Text → Text
unfolding summaries
mutation_failure_message records reason =
    codes "workspace mutation requires review: "
    ++ (summaries records
        ++ (codes
              "; DO NOT RETRY the delegation until you call get_deepseek_recovery, verify the files, then call acknowledge_deepseek_mutations.\nexecution stopped before acknowledgement: "
            ++ (if is_empty reason then codes "unknown failure" else reason)))

-- One entry of `result["mutations"]`: a record, or none where the loop goes on without it.
unfoldable pub record_of_texts : Value → Value → Value → Value → Option MutationRecord
unfolding mutation_record
record_of_texts (str transaction_id) (str tool) (str status) (str warning) =
    elim (mutation_record transaction_id tool status (some warning)) [
      | ok r ↦ some r
      | err _ ↦ none
    ]
record_of_texts (str transaction_id) (str tool) (str status) null =
    elim (mutation_record transaction_id tool status none) [ ok r ↦ some r | err _ ↦ none ]
record_of_texts _ _ _ _ = none

unfoldable pub record_of_value : Value → Option MutationRecord
unfolding record_of_texts get_or_null
record_of_value (obj fs) =
    record_of_texts (get_or_null (codes "transaction_id") fs) (get_or_null (codes "tool") fs)
      (get_or_null (codes "status") fs) (get_or_null (codes "warning") fs)
record_of_value _ = none

cons_some : Option MutationRecord → List MutationRecord → List MutationRecord
cons_some none rs = rs
cons_some (some r) rs = r ∷ rs

unfoldable pub records_of_items : Items → List MutationRecord
unfolding record_of_value cons_some
records_of_items nil = []
records_of_items (cons v vs) = cons_some (record_of_value v) (records_of_items vs)

records_of_mutations : Value → List MutationRecord
unfolding records_of_items
records_of_mutations (arr items) = records_of_items items
records_of_mutations _ = []

-- The result is a dict or `None`.
unfoldable pub records_from_result : Value → List MutationRecord
unfolding records_of_mutations get_or_null
records_from_result (obj fs) = records_of_mutations (get_or_null (codes "mutations") fs)
records_from_result _ = []
