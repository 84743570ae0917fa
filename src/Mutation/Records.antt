-- ===== src/Mutation/Records.antt =====
-- The records that a result reports are those that are read back from it.
use deepseek_as_subagent.Prelude.{
  ◌≡◌, refl, ap, ◌≤◌, ◌<◌, true, Option, none, some, List, [], ◌∷◌, map, arith, length, All,
}
use deepseek_as_subagent.Prelude.Results.{ok}
use deepseek_as_subagent.Text.{Text, codes, take, take_all, length-take}
use deepseek_as_subagent.Json.{obj, Fields, get, get_or_null}
use deepseek_as_subagent.Mutation.{
  MutationRecord, max_warning_chars, as_dict, to_items, payload, known_status, safe_warning,
  mutation_record, record_of_value, records_of_items, records_from_result,
}

-- A warning as `mutation_record` leaves it: absent, or not empty and within the limit.
abbrev pub WarningFits : Option Text → Type 0
WarningFits none = Unit
WarningFits (some w) = (0 < length w) × (length w ≤ max_warning_chars)

pub record IsReportable (r : MutationRecord) : Type 0 where
  pub status_known : known_status r.status ≡ true
  pub warning_fits : WarningFits r.warning

safe_warning-fits : (w : Option Text) → WarningFits (safe_warning w)
unfolding safe_warning take
safe_warning-fits none = tt
safe_warning-fits (some []) = tt
safe_warning-fits (some (c ∷ w)) = (omega arith, omega (arith, length-take 4095 w))

-- Whatever the arguments, a record that `mutation_record` makes has a known status and a warning
-- that is absent or between 1 and 4096 characters long.
pub mutation_record-IsReportable :
    (transaction_id tool status : Text) (warning : Option Text) {r : MutationRecord}
    → mutation_record transaction_id tool status warning ≡ ok r
    → IsReportable r
unfolding mutation_record
mutation_record-IsReportable transaction_id tool status warning h =
    ground (arith, safe_warning-fits warning)

safe_warning_idem : (w : Option Text) → WarningFits w → safe_warning w ≡ w
unfolding safe_warning
safe_warning_idem none h = refl
safe_warning_idem (some []) h = absurd (omega arith)
safe_warning_idem (some (c ∷ w)) h = ap some (take_all max_warning_chars (c ∷ w) h.1)

record_of_value-as_dict :
    (transaction_id tool status : Text) (warning : Option Text)
    → known_status status ≡ true
    → WarningFits warning
    → let r : MutationRecord = record {
      transaction_id = transaction_id;
      tool = tool;
      status = status;
      warning = warning;
    } in
      record_of_value (as_dict r) ≡ some r
unfolding record_of_value as_dict get_or_null mutation_record
record_of_value-as_dict i t s none k h = ground arith
record_of_value-as_dict i t s (some []) k h = absurd (omega arith)
record_of_value-as_dict i t s (some (c ∷ w)) k h =
    ground (arith, safe_warning_idem (some (c ∷ w)) h)

records_of_items-map :
    (rs : List MutationRecord)
    → All IsReportable rs
    → records_of_items (to_items (map as_dict rs)) ≡ rs
unfolding records_of_items to_items
records_of_items-map [] h = refl
records_of_items-map (r ∷ rs) h = ground (
  arith,
  record_of_value-as_dict r.transaction_id r.tool r.status r.warning h.0.status_known
      h.0.warning_fits,
  records_of_items-map rs h.1,
)

-- Reading the records of a result gives exactly the records whose payload the result holds under
-- "mutations", in order, if each has a known status and a warning within bounds.
pub records_from_result-payload :
    (rs : List MutationRecord) (fs : Fields)
    → All IsReportable rs
    → get (codes "mutations") fs ≡ some (payload rs)
    → records_from_result (obj fs) ≡ rs
unfolding records_from_result get_or_null payload
records_from_result-payload rs fs h e = ground (arith, records_of_items-map rs h)
