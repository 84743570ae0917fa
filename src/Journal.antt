-- ===== src/Journal.antt =====
-- src/deepseek_mcp/transaction_journal.py: the records of the journal, how they are written down and
-- read back, and their checks. `json.dumps`, `json.loads` with its hooks, and what pathlib says of a path
-- are parameters; data on disk is a list of bytes.
pub mod Store
pub mod RoundTrip
pub mod Intents
use deepseek_as_subagent.Prelude.{
  ℕ, suc, ◌+◌, ◌*◌, Bool, true, false, not, ◌&&◌, ◌||◌, Option, none, some, List, [], ◌∷◌, ◌++◌,
  ltb, leb, ◌==◌, if◌then◌else◌, length, all, is_empty, map,
}
use deepseek_as_subagent.Prelude.Results.{Result, ok, err, ◌>>=◌, ◌>>◌, raise_if}
use deepseek_as_subagent.Text.{Text, codes, text_eq, member, utf8_size}
use deepseek_as_subagent.Json.{
  pos, Value, null, int, str, arr, obj, Items, nil, cons, Fields, end, field, get_or_null,
}

abbrev pub max_records : ℕ
max_records = 128

abbrev pub max_record_bytes : ℕ
max_record_bytes = 64 * 1024

abbrev pub max_warning_bytes : ℕ
max_warning_bytes = 4096

abbrev pub tools : List Text
tools = codes "Write" ∷ codes "Edit" ∷ codes "NotebookEdit" ∷ []

abbrev pub keys : List Text
keys =
    codes "version"
    ∷ codes "transaction_id"
    ∷ codes "workspace_identity"
    ∷ codes "tool"
    ∷ codes "path"
    ∷ codes "sha256"
    ∷ codes "warnings"
    ∷ []

pub data JournalError : Type 0 where
  invalid_identity identity_changed invalid_id invalid_tool outside_workspace not_a_file
        invalid_digest :
      JournalError
  warning_not_text warning_not_unicode warning_too_long invalid_schema invalid_target
        path_not_relative :
      JournalError
  record_too_long not_json capacity_exceeded different_intent missing_transaction other_workspace
        vanished :
      JournalError
  too_many_ids : JournalError

pub record StoredRecord : Type 0 where
  pub transaction_id : Text
  pub workspace_identity : Text
  pub tool : Text
  pub path : Text
  pub sha256 : Text
  pub warnings : List Text

unfoldable pub to_items : List Text → Items
to_items [] = nil
to_items (w ∷ ws) = cons (str w) (to_items ws)

unfoldable pub storage_payload : StoredRecord → Value
unfolding to_items
storage_payload r = obj (
    field (codes "version") (int (pos 1)) (
      field (codes "transaction_id") (str r.transaction_id) (
        field (codes "workspace_identity") (str r.workspace_identity) (
          field (codes "tool") (str r.tool) (
            field (codes "path") (str r.path) (
              field (codes "sha256") (str r.sha256)
                (field (codes "warnings") (arr (to_items r.warnings)) end)))))))

unfoldable pub public_payload : StoredRecord → Text → Value
unfolding to_items
public_payload r status = obj (
    field (codes "transaction_id") (str r.transaction_id) (
      field (codes "tool") (str r.tool) (
        field (codes "path") (str r.path) (
          field (codes "sha256") (str r.sha256) (
            field (codes "status") (str status)
              (field (codes "warnings") (arr (to_items r.warnings)) end))))))

abbrev pub is_hex : ℕ → Bool
is_hex c = (leb 48 c && leb c 57) || (leb 97 c && leb c 102)

-- `[0-9a-f]{32}`
unfoldable pub is_id : Text → Bool
is_id t = length t == 32 && all is_hex t

-- `[0-9a-f]{64}`
unfoldable pub is_digest : Text → Bool
is_digest t = length t == 64 && all is_hex t

pairs : Text → Option ℕ
pairs [] = some 0
pairs (c ∷ []) = none
pairs (c ∷ d ∷ t) = elim (pairs t) [ none ↦ none | some n ↦ some (suc n) ]

-- `(?:[0-9a-f]{2}){1,4096}`
unfoldable pub is_identity : Text → Bool
unfolding pairs
is_identity t = elim (pairs t) [ none ↦ false | some n ↦ leb 1 n && (leb n 4096 && all is_hex t) ]

unfoldable pub validate_warning : Value → Result JournalError Text
unfolding utf8_size
validate_warning (str w) = elim (utf8_size w) [
  | none ↦ err warning_not_unicode
  | some n ↦ if ltb max_warning_bytes n then err warning_too_long else ok w
]
validate_warning _ = err warning_not_text

unfoldable pub validate_warnings : Items → Result JournalError (List Text)
unfolding validate_warning
validate_warnings nil = ok []
validate_warnings (cons v vs) = do w ← validate_warning v; ws ← validate_warnings vs; ok (w ∷ ws)

warnings_of : Value → Result JournalError (List Text)
unfolding validate_warnings
warnings_of (arr vs) = validate_warnings vs
warnings_of _ = err invalid_schema

unfoldable pub matched : Value → (Text → Bool) → JournalError → Result JournalError Text
matched (str t) pattern e = if pattern t then ok t else err e
matched _ pattern e = err e

unfoldable pub key_names : Fields → List Text
key_names end = []
key_names (field k v fs) = k ∷ key_names fs

-- The equality of two sets of texts.
unfoldable pub same_set : List Text → List Text → Bool
unfolding member
same_set xs ys = all (λ (x : Text). member x ys) xs && all (λ (y : Text). member y xs) ys

unfoldable pub is_version_one : Value → Bool
is_version_one (int (pos n)) = n == 1
is_version_one _ = false

-- `_transaction_id` of a text.
unfoldable pub checked_id : Text → Result JournalError Text
unfolding is_id
checked_id t = if is_id t then ok t else err invalid_id

unfoldable pub name : Text → Text
name transaction_id = transaction_id ++ codes ".json"

module _ (is_absolute : Text → Bool) (parts : Text → List Text) where
  unfoldable pub target_fields : Value → Value → Result JournalError (Text × Text)
  unfolding member
  target_fields (str tool) (str path) = do
    raise_if (not (member tool tools) || is_empty path) invalid_target
    raise_if (is_absolute path || member (codes "..") (parts path)) path_not_relative
    ok (tool, path)
  target_fields _ _ = err invalid_target

  unfoldable pub validate_fields : Fields → Result JournalError StoredRecord
  unfolding key_names same_set is_version_one get_or_null matched is_id is_identity is_digest
      target_fields warnings_of
  validate_fields fs = do
    raise_if
        (not (same_set (key_names fs) keys && is_version_one (get_or_null (codes "version") fs)))
        invalid_schema
    transaction_id ← matched (get_or_null (codes "transaction_id") fs) is_id invalid_id
    identity ← matched (get_or_null (codes "workspace_identity") fs) is_identity invalid_identity
    target ← target_fields (get_or_null (codes "tool") fs) (get_or_null (codes "path") fs)
    digest ← matched (get_or_null (codes "sha256") fs) is_digest invalid_digest
    checked ← warnings_of (get_or_null (codes "warnings") fs)
    ok (record {
      transaction_id = transaction_id;
      workspace_identity = identity;
      tool = target.0;
      path = target.1;
      sha256 = digest;
      warnings = checked;
    })

  unfoldable pub validate_stored : Value → Result JournalError StoredRecord
  unfolding validate_fields
  validate_stored (obj fs) = validate_fields fs
  validate_stored _ = err invalid_schema

  module _ (dumps : Value → Text) (loads : Text → Option Value) where
    unfoldable pub encode : StoredRecord → Result JournalError Text
    unfolding storage_payload
    encode r =
        if ltb max_record_bytes (length (dumps (storage_payload r)))
        then err record_too_long
        else ok (dumps (storage_payload r))

    unfoldable pub parsed : Option Value → Result JournalError StoredRecord
    unfolding validate_stored
    parsed none = err not_json
    parsed (some v) = validate_stored v

    unfoldable pub decode : Text → Result JournalError StoredRecord
    unfolding parsed
    decode bytes = do
      raise_if (ltb max_record_bytes (length bytes)) record_too_long
      parsed (loads bytes)
