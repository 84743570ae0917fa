-- ===== src/Journal/RoundTrip.antt =====
-- What `_encode` writes, `_decode` reads back (src/deepseek_mcp/transaction_journal.py).
use mathlib.Core.Path.{subst}
use deepseek_as_subagent.Prelude.{
  ◌≡◌, refl, Bool, true, false, ◌||◌, Option, some, List, [], ◌∷◌, arith, All, length, is_empty,
  ltb,
}
use deepseek_as_subagent.Prelude.Results.{ok}
use deepseek_as_subagent.Text.{Text, codes, member}
use deepseek_as_subagent.Json.{Value, str, get_or_null, get}
use deepseek_as_subagent.Journal.{
  StoredRecord, tools, max_record_bytes, to_items, storage_payload, is_id, is_digest, is_identity,
  validate_warning, validate_warnings, warnings_of, matched, key_names, same_set, is_version_one,
  target_fields, validate_fields, validate_stored, encode, parsed, decode,
}

-- A warning that the journal accepts.
abbrev pub IsWarning : Text → Type 0
IsWarning w = validate_warning (str w) ≡ ok w

warnings-to_items : (ws : List Text) → All IsWarning ws → validate_warnings (to_items ws) ≡ ok ws
unfolding validate_warnings to_items
warnings-to_items [] h = refl
warnings-to_items (w ∷ ws) h = ground (arith, warnings-to_items ws h.1)

module _ (is_absolute : Text → Bool) (parts : Text → List Text) where
  -- The fields that `_validate_stored` accepts.
  pub record IsValid (r : StoredRecord) : Type 0 where
    pub has_id : is_id r.transaction_id ≡ true
    pub has_identity : is_identity r.workspace_identity ≡ true
    pub has_tool : member r.tool tools ≡ true
    pub has_path : is_empty r.path ≡ false
    pub is_relative : (is_absolute r.path || member (codes "..") (parts r.path)) ≡ false
    pub has_digest : is_digest r.sha256 ≡ true
    pub has_warnings : All IsWarning r.warnings

  pub validate-payload :
      (r : StoredRecord) → IsValid r → validate_stored is_absolute parts (storage_payload r) ≡ ok r
  unfolding validate_stored validate_fields storage_payload get_or_null get key_names same_set
      is_version_one matched target_fields warnings_of
  validate-payload r v =
      rw
        (
          v.has_id,
          v.has_identity,
          v.has_tool,
          v.has_path,
          v.is_relative,
          v.has_digest,
          warnings-to_items r.warnings v.has_warnings,
        )
        refl

  -- A valid record that `_encode` writes, `_decode` reads back as it was, if `json.loads` reads what
  -- `json.dumps` wrote of it.
  pub decode-encode :
      (dumps : Value → Text) (loads : Text → Option Value) (r : StoredRecord) {bytes : Text}
      → IsValid r
      → loads (dumps (storage_payload r)) ≡ some (storage_payload r)
      → encode is_absolute parts dumps loads r ≡ ok bytes
      → decode is_absolute parts dumps loads bytes ≡ ok r
  unfolding encode decode parsed
  decode-encode dumps loads r {bytes} v law h =
      let fits : ltb max_record_bytes (length (dumps (storage_payload r))) ≡ false = ground arith in
      let same : dumps (storage_payload r) ≡ bytes = ground arith in
      let read : parsed is_absolute parts dumps loads (loads (dumps (storage_payload r))) ≡ ok r =
        rw law (validate-payload r v) in
      subst (λ b. decode is_absolute parts dumps loads b ≡ ok r) same (rw fits read)
