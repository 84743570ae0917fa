-- ===== src/Json.antt =====
-- JSON values as `json.loads` gives them and as the program builds them: a dict is its entries in
-- insertion order. A number with a fraction or an exponent is kept as its text.
pub mod Size
use deepseek_as_subagent.Prelude.{
  ℕ, zero, Bool, true, false, not, Option, none, some, List, [], ◌∷◌, ◌==◌, if◌then◌else◌, is_empty,
}
use deepseek_as_subagent.Text.{Text, text_eq}

-- `negsuc n` is -(n + 1).
pub data ℤ : Type 0 where
  pos : ℕ → ℤ
  negsuc : ℕ → ℤ

mutual
  pub data Value : Type 0 where
    null : Value
    bool : Bool → Value
    int : ℤ → Value
    real : Text → Value
    str : Text → Value
    arr : Items → Value
    obj : Fields → Value

  pub data Items : Type 0 where
    nil : Items
    cons : Value → Items → Items

  pub data Fields : Type 0 where
    end : Fields
    field : Text → Value → Fields → Fields

-- `d.get(key)`, with none for a missing key.
unfoldable pub get : Text → Fields → Option Value
unfolding text_eq
get key end = none
get key (field k v fs) = if text_eq k key then some v else get key fs

-- `d.get(key)` where the code does not tell a missing key from `None`.
unfoldable pub get_or_null : Text → Fields → Value
unfolding get
get_or_null key fs = elim (get key fs) [ none ↦ null | some v ↦ v ]

-- `bool(value)`
unfoldable pub truthy : Value → Bool
truthy null = false
truthy (bool b) = b
truthy (int (pos zero)) = false
truthy (str s) = not (is_empty s)
truthy (arr nil) = false
truthy (obj end) = false
truthy _ = true
