-- ===== src/Examples/Journals.antt =====
-- The journal at a concrete record (src/deepseek_mcp/transaction_journal.py), with an encoding that
-- writes nothing and a decoding that always finds that record.
use deepseek_as_subagent.Prelude.{
  ◌≤◌, ◌≡◌, refl, Bool, false, any, Option, none, some, List, [], ◌∷◌, All,
}
use deepseek_as_subagent.Prelude.Results.{ok}
use deepseek_as_subagent.Text.{Text, codes, member, text_eq}
use deepseek_as_subagent.Json.{Value}
use deepseek_as_subagent.Journal.{
  StoredRecord, storage_payload, is_id, is_identity, is_digest, validate_warning, encode, decode,
  name, max_records,
}
use deepseek_as_subagent.Journal.RoundTrip.{IsValid, decode-encode}
use deepseek_as_subagent.Journal.Store.{Files, read, keep_intent, acknowledge_all, count_records}
use deepseek_as_subagent.Journal.Intents.{
  keep_intent-capacity, acknowledge_all-keeps, acknowledge_all-removed,
}

abbrev transaction : Text
transaction = codes "00112233445566778899aabbccddeeff"

abbrev stored : StoredRecord
stored = record {
  transaction_id = transaction;
  workspace_identity = codes "0a0b";
  tool = codes "Write";
  path = codes "a.py";
  sha256 = codes "00112233445566778899aabbccddeeff00112233445566778899aabbccddeeff";
  warnings = codes "slow" ∷ [];
}

abbrev is_absolute : Text → Bool
is_absolute path = false

abbrev parts : Text → List Text
parts path = path ∷ []

abbrev dumps : Value → Text
dumps v = []

abbrev loads : Text → Option Value
loads bytes = some (storage_payload stored)

stored-IsValid : IsValid is_absolute parts stored
unfolding is_id is_identity is_digest member validate_warning
stored-IsValid = record {
  has_id = refl;
  has_identity = refl;
  has_tool = refl;
  has_path = refl;
  is_relative = refl;
  has_digest = refl;
  has_warnings = (refl, tt);
}

stored_encoded : encode is_absolute parts dumps loads stored ≡ ok []
unfolding encode
stored_encoded = refl

decode-encode_example : decode is_absolute parts dumps loads [] ≡ ok stored
decode-encode_example =
    decode-encode is_absolute parts dumps loads stored stored-IsValid refl stored_encoded

abbrev kept : Files
kept = (name transaction, []) ∷ []

stored-kept : keep_intent is_absolute parts dumps loads stored [] [] ≡ (ok tt, kept)
unfolding keep_intent
stored-kept = refl

keep_intent-capacity_example : count_records kept ≤ max_records
keep_intent-capacity_example =
    keep_intent-capacity is_absolute parts dumps loads stored [] [] kept stored-kept

other_name : any (λ (i : Text). text_eq (name i) (codes ".lock")) (transaction ∷ []) ≡ false
unfolding name text_eq
other_name = refl

acknowledge_all-keeps_example :
    read
      (codes ".lock")
      (acknowledge_all is_absolute parts dumps loads (codes "0a0b") (transaction ∷ []) kept).1
    ≡ read (codes ".lock") kept
acknowledge_all-keeps_example =
    acknowledge_all-keeps is_absolute parts dumps loads (codes "0a0b") (transaction ∷ [])
      (codes ".lock") kept other_name

removed :
    acknowledge_all is_absolute parts dumps loads (codes "0a0b") (transaction ∷ []) kept
    ≡ (ok (transaction ∷ []), [])
unfolding acknowledge_all storage_payload
removed = refl

acknowledge_all-removed_example : All (λ (i : Text). read (name i) [] ≡ none) (transaction ∷ [])
acknowledge_all-removed_example =
    acknowledge_all-removed is_absolute parts dumps loads (codes "0a0b") (transaction ∷ []) kept
      removed
