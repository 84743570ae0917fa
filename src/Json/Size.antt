-- ===== src/Json/Size.antt =====
-- The number of bytes of a JSON encoding (src/deepseek_mcp/agent_loop.py: `_encoded_size`), as
-- `json.JSONEncoder(separators=(",", ":"))` writes it; a lone surrogate counts in its escaped form.
use deepseek_as_subagent.Prelude.{
  ℕ, zero, suc, ◌+◌, ◌/◌, ◌%◌, Bool, true, false, ◌&&◌, ◌||◌, [], ◌∷◌, ltb, leb, ◌==◌,
  if◌then◌else◌, length,
}
use deepseek_as_subagent.Text.{Text}
use deepseek_as_subagent.Json.{
  ℤ, pos, negsuc, Value, null, bool, int, real, str, arr, obj, Items, nil, cons, Fields, end, field,
}

decimal_digits : ℕ → ℕ → Text → Text
decimal_digits zero n acc = acc
decimal_digits (suc f) n acc = elim (n / 10 == 0) [
  | true ↦ (48 + n) ∷ acc
  | false ↦ decimal_digits f (n / 10) ((48 + n % 10) ∷ acc)
]

-- `str(n)`
unfoldable pub decimal : ℕ → Text
unfolding decimal_digits
decimal n = decimal_digits (suc n) n []

-- The escapes that both encodings share.
is_short_escape : ℕ → Bool
is_short_escape c = c == 34 || c == 92 || c == 8 || c == 9 || c == 10 || c == 12 || c == 13

unfoldable pub char_size : Bool → ℕ → ℕ
unfolding is_short_escape
char_size ensure_ascii c =
    if is_short_escape c
    then 2
    else if ltb c 32
    then 6
    else if ltb c 127
    then 1
    else if ensure_ascii
    then (if ltb c 0x10000 then 6 else 12)
    else if ltb c 0x80
    then 1
    else if ltb c 0x800
    then 2
    else if leb 0xd800 c && leb c 0xdfff
    then 6
    else if ltb c 0x10000
    then 3
    else 4

chars_size : Bool → Text → ℕ
unfolding char_size
chars_size a [] = 0
chars_size a (c ∷ s) = char_size a c + chars_size a s

unfoldable pub text_size : Bool → Text → ℕ
unfolding chars_size
text_size a s = 2 + chars_size a s

int_size : ℤ → ℕ
unfolding decimal
int_size (pos n) = length (decimal n)
int_size (negsuc n) = suc (length (decimal (suc n)))

comma_items : Items → ℕ
comma_items nil = 0
comma_items (cons _ _) = 1

comma_fields : Fields → ℕ
comma_fields end = 0
comma_fields (field _ _ _) = 1

unfoldable mutual
  unfolding text_size int_size comma_items comma_fields

  pub encoded_size : Bool → Value → ℕ
  encoded_size a null = 4
  encoded_size a (bool true) = 4
  encoded_size a (bool false) = 5
  encoded_size a (int n) = int_size n
  encoded_size a (real t) = length t
  encoded_size a (str s) = text_size a s
  encoded_size a (arr vs) = 2 + items_size a vs
  encoded_size a (obj fs) = 2 + fields_size a fs

  pub items_size : Bool → Items → ℕ
  items_size a nil = 0
  items_size a (cons v vs) = encoded_size a v + comma_items vs + items_size a vs

  pub fields_size : Bool → Fields → ℕ
  fields_size a end = 0
  fields_size a (field k v fs) =
      text_size a k + 1 + encoded_size a v + comma_fields fs + fields_size a fs
