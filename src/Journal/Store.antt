-- ===== src/Journal/Store.antt =====
-- src/deepseek_mcp/transaction_journal.py: the operations on the journal of a workspace, under its
-- lock. The files of the directory are an association list from names to bytes; while the lock is held
-- nothing else changes them, so the comparison of a file with its baseline always succeeds. Failures of
-- the operating system and the removal of stale temporary files are left out.
use deepseek_as_subagent.Prelude.{
  ℕ, suc, Bool, true, false, not, ◌&&◌, ◌||◌, Option, none, some, List, [], ◌∷◌, ◌++◌, ltb, leb,
  ◌==◌, if◌then◌else◌,
}
use deepseek_as_subagent.Prelude.Results.{Result, ok, err}
use deepseek_as_subagent.Prelude.Exec.{Exec, pure, raise, lift, raise_if, ◌>>=◌, ◌>>◌}
use deepseek_as_subagent.Text.{Text, codes, text_eq, member, take}
use deepseek_as_subagent.Json.{Value}
use deepseek_as_subagent.Journal.{
  JournalError, invalid_identity, identity_changed, invalid_tool, invalid_digest, capacity_exceeded,
  different_intent, missing_transaction, other_workspace, too_many_ids, not_a_file,
  outside_workspace, StoredRecord, max_records, tools, is_id, is_identity, is_digest, checked_id,
  name, validate_warning, public_payload, encode, decode,
}

abbrev pub Files : Type 0
Files = List (Text × Text)

unfoldable pub read : Text → Files → Option Text
unfolding text_eq
read n [] = none
read n ((k, d) ∷ fs) = if text_eq k n then some d else read n fs

-- A file is moved into its place, over the one of that name if there is one.
unfoldable pub write : Text → Text → Files → Files
unfolding text_eq
write n d [] = (n, d) ∷ []
write n d ((k, e) ∷ fs) = if text_eq k n then (k, d) ∷ fs else (k, e) ∷ write n d fs

-- `os.unlink` of a name, of which a directory has one file at most.
unfoldable pub delete : Text → Files → Files
unfolding text_eq
delete n [] = []
delete n ((k, d) ∷ fs) = if text_eq k n then delete n fs else (k, d) ∷ delete n fs

-- `_RECORD_NAME.fullmatch`
unfoldable pub is_record_name : Text → Bool
unfolding is_id take name text_eq
is_record_name n = is_id (take 32 n) && text_eq n (name (take 32 n))

unfoldable pub count_records : Files → ℕ
unfolding is_record_name
count_records [] = 0
count_records ((k, d) ∷ fs) = if is_record_name k then suc (count_records fs) else count_records fs

-- `store.names()` where only the number of names is used.
unfoldable pub names : Exec Files JournalError ℕ
unfolding count_records
names fs =
    if ltb max_records (count_records fs)
    then (err capacity_exceeded, fs)
    else (ok (count_records fs), fs)

-- `_workspace_identity`: what the configuration expects, and whether the workspace still has it.
unfoldable pub workspace_identity : Option Text → Bool → Result JournalError Text
unfolding is_identity
workspace_identity none unchanged = err invalid_identity
workspace_identity (some token) unchanged =
    if is_identity token
    then (if unchanged then ok token else err identity_changed)
    else err invalid_identity

-- `_relative_target` behind the resolution of the path.
unfoldable pub relative_target : Option (List Text) → (List Text → Text) → Result JournalError Text
relative_target none as_posix = err outside_workspace
relative_target (some []) as_posix = err not_a_file
relative_target (some (c ∷ cs)) as_posix = ok (as_posix (c ∷ cs))

unfoldable pub same_texts : List Text → List Text → Bool
unfolding text_eq
same_texts [] [] = true
same_texts (a ∷ s) (b ∷ t) = text_eq a b && same_texts s t
same_texts _ _ = false

unfoldable pub same_record : StoredRecord → StoredRecord → Bool
unfolding text_eq same_texts
same_record a b =
    text_eq a.transaction_id b.transaction_id
    && (text_eq a.workspace_identity b.workspace_identity
        && (text_eq a.tool b.tool
            && (text_eq a.path b.path
                && (text_eq a.sha256 b.sha256 && same_texts a.warnings b.warnings))))

module _ (is_absolute : Text → Bool) (parts : Text → List Text) (dumps : Value → Text)
    (loads : Text → Option Value) where
  -- What `record_intent` does in the store.
  unfoldable pub keep_intent : StoredRecord → Text → Exec Files JournalError (Unit {0})
  unfolding read write names name decode same_record
  keep_intent r encoded = do
    count ← names
    existing ← λ fs. (ok (read (name r.transaction_id) fs), fs)
    elim existing [
      | none ↦ do
        raise_if (leb max_records count) capacity_exceeded
        λ fs. (ok tt, write (name r.transaction_id) encoded fs)
      | some bytes ↦ do
        stored ← lift (decode is_absolute parts dumps loads bytes)
        raise_if (not (same_record stored r)) different_intent
    ]

  unfoldable pub record_intent :
      Result JournalError Text
      → Text
      → Text
      → Result JournalError Text
      → Text
      → Exec Files JournalError Value
  unfolding checked_id member encode public_payload is_digest keep_intent
  record_intent identity transaction_id tool target digest = do
    identity ← lift identity
    identifier ← lift (checked_id transaction_id)
    raise_if (not (member tool tools)) invalid_tool
    path ← lift target
    raise_if (not (is_digest digest)) invalid_digest
    let r : StoredRecord = record {
      transaction_id = identifier;
      workspace_identity = identity;
      tool = tool;
      path = path;
      sha256 = digest;
      warnings = [];
    }
    encoded ← lift (encode is_absolute parts dumps loads r)
    keep_intent r encoded
    pure (public_payload r (codes "pending"))

  -- The record behind an existing file, with one more warning.
  unfoldable pub warn : Text → Text → Text → Option Text → Exec Files JournalError Value
  unfolding decode encode write public_payload name
  warn identity identifier warning none = raise missing_transaction
  warn identity identifier warning (some bytes) = do
    stored ← lift (decode is_absolute parts dumps loads bytes)
    raise_if (not (text_eq stored.workspace_identity identity)) other_workspace
    let updated = record stored { warnings = stored.warnings ++ warning ∷ [] }
    encoded ← lift (encode is_absolute parts dumps loads updated)
    λ fs. (ok tt, write (name identifier) encoded fs)
    pure (public_payload updated (codes "pending"))

  unfoldable pub append_warning :
      Result JournalError Text → Text → Value → Exec Files JournalError Value
  unfolding checked_id validate_warning read warn name
  append_warning identity transaction_id warning = do
    identity ← lift identity
    identifier ← lift (checked_id transaction_id)
    checked ← lift (validate_warning warning)
    existing ← λ fs. (ok (read (name identifier) fs), fs)
    warn identity identifier checked existing

  unfoldable pub remove_if : Bool → Text → Exec Files JournalError Bool
  unfolding delete
  remove_if true n fs = (ok true, delete n fs)
  remove_if false n fs = (ok false, fs)

  -- One identifier of `acknowledge`: whether its record was removed.
  unfoldable pub acknowledge_found : Text → Text → Option Text → Exec Files JournalError Bool
  unfolding decode remove_if name text_eq
  acknowledge_found identity identifier none = pure false
  acknowledge_found identity identifier (some bytes) = do
    stored ← lift (decode is_absolute parts dumps loads bytes)
    remove_if (text_eq stored.workspace_identity identity) (name identifier)

  unfoldable pub acknowledge_all : Text → List Text → Exec Files JournalError (List Text)
  unfolding acknowledge_found read name
  acknowledge_all identity [] = pure []
  acknowledge_all identity (i ∷ is) = do
    existing ← λ fs. (ok (read (name i) fs), fs)
    gone ← acknowledge_found identity i existing
    removed ← acknowledge_all identity is
    pure (if gone then i ∷ removed else removed)

  unfoldable pub acknowledge :
      Result JournalError Text
      → Result JournalError (List Text)
      → Exec Files JournalError (List Text)
  unfolding acknowledge_all
  acknowledge identity ids = do
    identity ← lift identity
    identifiers ← lift ids
    acknowledge_all identity identifiers

text_less : Text → Text → Bool
text_less [] [] = false
text_less [] (b ∷ t) = true
text_less (a ∷ s) [] = false
text_less (a ∷ s) (b ∷ t) = ltb a b || (a == b && text_less s t)

-- A text added to a set that is kept in order.
unfoldable pub insert_id : Text → List Text → List Text
unfolding text_less text_eq
insert_id i [] = i ∷ []
insert_id i (k ∷ ks) =
    if text_eq i k then k ∷ ks else if text_less i k then i ∷ k ∷ ks else k ∷ insert_id i ks

ack_from : ℕ → List Text → List Text → Result JournalError (List Text)
unfolding checked_id insert_id
ack_from index values [] = ok values
ack_from index values (i ∷ is) =
    let rest = ack_from (suc index) (insert_id i values) is in
    if leb max_records index
    then err too_many_ids
    else elim (checked_id i) [ ok _ ↦ rest | err e ↦ err e ]

-- `_ack_ids`: `sorted` of the set of the identifiers.
unfoldable pub ack_ids : List Text → Result JournalError (List Text)
unfolding ack_from
ack_ids ids = ack_from 0 [] ids
