-- ===== src/Config.antt =====
-- src/deepseek_mcp/config.py, provider_settings.py, execution_profile.py and model_selection.py: the
-- validation of the settings, and which credential an endpoint gets. `urlsplit`, `str.lower`, the
-- environment, and what the file system says of the workspace are parameters. Messages are constructors.
pub mod Credential
pub mod Valid
use mathlib.Core.List.{reverse}
use deepseek_as_subagent.Prelude.{
  ℕ, Bool, true, false, not, ◌&&◌, ◌||◌, Option, none, some, List, [], ◌∷◌, ◌*◌, ltb, ◌==◌,
  if◌then◌else◌, length, is_empty, any, all,
}
use deepseek_as_subagent.Prelude.Results.{Result, ok, err, ◌>>=◌, ◌>>◌, raise_if}
use deepseek_as_subagent.Text.{Text, codes, text_eq, starts_with, strip, member}
use deepseek_as_subagent.Json.{
  ℤ, pos, negsuc, Value, null, bool, int, str, arr, obj, Items, nil, cons, Fields, end, field, get,
}

abbrev pub default_flash_model : Text
default_flash_model = codes "deepseek-flash"

abbrev pub default_pro_model : Text
default_pro_model = codes "deepseek-v4-pro"

abbrev pub provider_default : Text
provider_default = codes "provider-default"

abbrev pub reasoning_effort_options : List Text
reasoning_effort_options =
    provider_default ∷ codes "none" ∷ codes "low" ∷ codes "high" ∷ codes "max" ∷ []

abbrev pub default_max_turns : ℕ
default_max_turns = 50

abbrev pub max_turns_limit : ℕ
max_turns_limit = 100

abbrev pub default_max_run_seconds : ℕ
default_max_run_seconds = 5 * 60 * 60

abbrev pub hard_max_run_seconds : ℕ
hard_max_run_seconds = 48 * 60 * 60

abbrev pub default_max_output_tokens : ℕ
default_max_output_tokens = 16_384

-- `DEFAULT_ALLOWED_TOOLS`, of which `KNOWN_TOOLS` is the set.
abbrev pub known_tools : List Text
known_tools =
    codes "Read"
    ∷ codes "Write"
    ∷ codes "Edit"
    ∷ codes "Bash"
    ∷ codes "Glob"
    ∷ codes "Grep"
    ∷ codes "NotebookEdit"
    ∷ []

abbrev pub mutation_tools : List Text
mutation_tools = codes "Write" ∷ codes "Edit" ∷ codes "NotebookEdit" ∷ []

abbrev pub default_base_url : Text
default_base_url = codes "https://api.deepseek.com"

abbrev pub placeholder : Text
placeholder = codes "PASTE_YOUR_DEEPSEEK_KEY_HERE"

pub data ConfigError : Type 0 where
  not_an_integer : Text → ConfigError
  out_of_bounds : Text → ConfigError
  invalid_tools : ConfigError
  invalid_model : Text → ConfigError
  mixed_models : ConfigError
  invalid_effort : Text → ConfigError
  invalid_url : ConfigError
  invalid_key : ConfigError
  stored_key : ConfigError
  missing_key : ConfigError
  duplicate_key : ConfigError
  unsupported_key : ConfigError
  invalid_workspace : ConfigError
  invalid_capability : ConfigError
  unsafe_runtime : ConfigError

-- What `urlsplit` gives, its `hostname` included; none where it or one of its properties raises.
pub record Url : Type 0 where
  pub scheme : Text
  pub hostname : Option Text
  pub has_user : Bool
  pub query : Text
  pub fragment : Text

pub record Environment : Type 0 where
  pub is_windows : Bool
  pub openai_key : Option Text
  pub deepseek_key : Option Text

-- `data.get(key, default)`
unfoldable pub get_or : Text → Value → Fields → Value
unfolding get
get_or key default data' = elim (get key data') [ none ↦ default | some v ↦ v ]

bounded : Text → ℕ → Value → Result ConfigError ℕ
bounded name limit (int (pos n)) = if ltb n 1 || ltb limit n then err (out_of_bounds name) else ok n
bounded name limit (int (negsuc n)) = err (out_of_bounds name)
bounded name limit _ = err (not_an_integer name)

unfoldable pub validate_max_turns : Value → Result ConfigError ℕ
unfolding bounded
validate_max_turns v = bounded (codes "max_turns") max_turns_limit v

unfoldable pub validate_max_run_seconds : Value → Result ConfigError ℕ
unfolding bounded
validate_max_run_seconds v = bounded (codes "max_run_seconds") hard_max_run_seconds v

-- src/deepseek_mcp/provider_settings.py
unfoldable pub validate_max_output_tokens : Value → Result ConfigError ℕ
unfolding bounded
validate_max_output_tokens v = bounded (codes "max_output_tokens") default_max_output_tokens v

tool_names : Items → Result ConfigError (List Text)
tool_names nil = ok []
tool_names (cons (str t) vs) = do ts ← tool_names vs; ok (t ∷ ts)
tool_names (cons _ vs) = err invalid_tools

unfoldable pub has_duplicates : List Text → Bool
unfolding member
has_duplicates [] = false
has_duplicates (t ∷ ts) = member t ts || has_duplicates ts

validate_tools : Value → Result ConfigError (List Text)
unfolding tool_names has_duplicates
validate_tools (arr vs) = do
  ts ← tool_names vs
  raise_if (any (λ t. not (member t known_tools)) ts) invalid_tools
  raise_if (has_duplicates ts) invalid_tools
  ok ts
validate_tools _ = err invalid_tools

unfoldable pub load_allowed_tools : Fields → Result ConfigError (List Text)
unfolding validate_tools get
load_allowed_tools data' = elim (get (codes "allowed_tools") data') [
  | none ↦ ok known_tools
  | some v ↦ validate_tools v
]

-- No white space around the text, and no code point below 32 in it.
unfoldable pub is_plain : Text → Bool
unfolding text_eq strip
is_plain t = text_eq t (strip t) && all (λ c. not (ltb c 32)) t

unfoldable pub validate_model : Text → Value → Result ConfigError Text
unfolding is_plain
validate_model name (str t) = do
  raise_if (is_empty (strip t)) (invalid_model name)
  raise_if (not (is_plain t)) (invalid_model name)
  ok t
validate_model name _ = err (invalid_model name)

-- The models of the slots flash and pro.
model_slots : Option Value → Fields → Result ConfigError (Text × Text)
unfolding validate_model get get_or
model_slots (some v) data' = do
  raise_if (is_some (get (codes "flash") data') || is_some (get (codes "pro") data')) mixed_models
  legacy ← validate_model (codes "model") v
  ok (legacy, legacy)
  where
    is_some : Option Value → Bool
    is_some none = false
    is_some (some w) = true
model_slots none data' = do
  flash ← validate_model (codes "flash") (get_or (codes "flash") (str default_flash_model) data')
  pro ← validate_model (codes "pro") (get_or (codes "pro") (str default_pro_model) data')
  ok (flash, pro)

unfoldable pub load_model_slots : Fields → Result ConfigError (Text × Text)
unfolding model_slots
load_model_slots data' = model_slots (get (codes "model") data') data'

unfoldable pub validate_reasoning_effort : Text → Value → Result ConfigError Text
unfolding member
validate_reasoning_effort name (str t) =
    if member t reasoning_effort_options then ok t else err (invalid_effort name)
validate_reasoning_effort name _ = err (invalid_effort name)

unfoldable pub load_reasoning_effort : Fields → Text → Result ConfigError Text
unfolding validate_reasoning_effort get
load_reasoning_effort data' name = elim (get name data') [
  | none ↦ ok provider_default
  | some v ↦ validate_reasoning_effort name v
]

-- `_strict_json_object`: the pairs of an object, in which no name may stand twice.
unfoldable pub strict_json_object : List (Text × Value) → Fields → Result ConfigError Fields
unfolding get
strict_json_object [] seen = ok end
strict_json_object ((name, v) ∷ pairs) seen = do
  raise_if (elim (get name seen) [ none ↦ false | some w ↦ true ]) duplicate_key
  rest ← strict_json_object pairs (field name v seen)
  ok (field name v rest)

-- `os.getenv(name) or ""`
abbrev pub key_of : Option Text → Text
key_of none = []
key_of (some t) = t

-- `a or b`
abbrev pub or_else : Text → Text → Text
or_else a b = if is_empty a then b else a

unfoldable pub configured_api_key : Fields → Result ConfigError Text
unfolding text_eq strip get_or
configured_api_key data' = configured (get_or (codes "api_key") (str []) data')
  where
    configured : Value → Result ConfigError Text
    configured (str t) = ok (if text_eq (strip t) placeholder then [] else strip t)
    configured _ = err invalid_key

unfoldable pub stores_key : Value → Bool
unfolding text_eq strip
stores_key (str t) = not (is_empty (strip t)) && not (text_eq (strip t) placeholder)
stores_key _ = false

unfoldable pub validate_credential_storage : Environment → Fields → Result ConfigError (Unit {0})
unfolding stores_key get_or
validate_credential_storage env data' =
    raise_if (env.is_windows && stores_key (get_or (codes "api_key") (str []) data')) stored_key

remote_key : Text → Result ConfigError Text
unfolding text_eq
remote_key credential = do
  raise_if (is_empty credential || text_eq credential placeholder) missing_key
  ok credential

pub record Config : Type 0 where
  pub api_key : Text
  pub workspace : Text
  pub model : Text
  pub max_turns : ℕ
  pub max_output_tokens : ℕ
  pub max_run_seconds : ℕ
  pub allowed_tools : List Text
  pub base_url : Text
  pub capability : Text
  pub flash_model : Text
  pub pro_model : Text
  pub reasoning_effort : Text
  pub flash_reasoning_effort : Text
  pub pro_reasoning_effort : Text

-- The settings that `_from_data` passes on, the base URL apart.
abbrev pub settings : Text → Text → Text × Text → ℕ → ℕ → ℕ → List Text → Text → Text → Config
settings credential workspace slots turns tokens seconds tools flash_effort pro_effort = record {
  api_key = credential;
  workspace = workspace;
  model = slots.0;
  max_turns = turns;
  max_output_tokens = tokens;
  max_run_seconds = seconds;
  allowed_tools = tools;
  base_url = default_base_url;
  capability = codes "coding";
  flash_model = slots.0;
  pro_model = slots.1;
  reasoning_effort = flash_effort;
  flash_reasoning_effort = flash_effort;
  pro_reasoning_effort = pro_effort;
}

module _ (urlsplit : Text → Option Url) (lower : Text → Text) where
  unfoldable pub parse_base_url : Value → Result ConfigError (Text × Url)
  unfolding is_plain
  parse_base_url (str t) = do
    raise_if (is_empty t || not (is_plain t)) invalid_url
    elim (urlsplit t) [ none ↦ err invalid_url | some u ↦ ok (t, u) ]
  parse_base_url _ = err invalid_url

  unfoldable pub has_host : Url → Bool
  has_host u = elim u.hostname [ none ↦ false | some h ↦ not (is_empty h) ]

  unfoldable pub is_http_scheme : Url → Bool
  unfolding text_eq
  is_http_scheme u = text_eq (lower u.scheme) (codes "http")

  unfoldable pub is_web_scheme : Url → Bool
  unfolding is_http_scheme
  is_web_scheme u = is_http_scheme u || text_eq (lower u.scheme) (codes "https")

  unfoldable pub validate_base_url : Value → Result ConfigError Text
  unfolding parse_base_url has_host is_web_scheme
  validate_base_url v = do
    parsed ← parse_base_url v
    raise_if (not (has_host (parsed.1)) || parsed.1.has_user) invalid_url
    raise_if (not (is_empty parsed.1.query) || not (is_empty parsed.1.fragment)) invalid_url
    raise_if (not (is_web_scheme (parsed.1))) invalid_url
    ok (parsed.0)

  abbrev parsed_is : (Url → Bool) → Result ConfigError (Text × Url) → Bool
  parsed_is test (ok (t, u)) = test u
  parsed_is test (err e) = false

  unfoldable pub is_http_endpoint : Value → Bool
  unfolding parse_base_url is_http_scheme
  is_http_endpoint v = parsed_is is_http_scheme (parse_base_url v)

  loopback_hosts : List Text
  loopback_hosts = codes "localhost" ∷ codes "127.0.0.1" ∷ codes "::1" ∷ []

  is_loopback : Url → Bool
  unfolding is_web_scheme loopback_hosts member
  is_loopback u = is_web_scheme u && elim u.hostname [
    | none ↦ false
    | some h ↦ not (is_empty h) && member (lower h) loopback_hosts
  ]

  unfoldable pub is_loopback_endpoint : Value → Bool
  unfolding parse_base_url is_loopback
  is_loopback_endpoint v = parsed_is is_loopback (parse_base_url v)

  -- src/deepseek_mcp/provider_settings.py
  deepseek_host : Option Text → Bool
  unfolding text_eq starts_with
  deepseek_host none = false
  deepseek_host (some h) =
      not (is_empty h)
      && (text_eq (lower h) (codes "deepseek.com")
          || starts_with (reverse (codes ".deepseek.com")) (reverse (lower h)))

  unfoldable pub is_deepseek_endpoint : Value → Bool
  unfolding deepseek_host
  is_deepseek_endpoint (str t) = elim (urlsplit t) [
    | none ↦ false
    | some u ↦ deepseek_host u.hostname
  ]
  is_deepseek_endpoint _ = false

  unfoldable pub provider_api_key : Environment → Value → Text → Text
  unfolding is_deepseek_endpoint
  provider_api_key env endpoint configured =
      if is_deepseek_endpoint endpoint
      then or_else (key_of env.deepseek_key) (or_else (key_of env.openai_key) configured)
      else or_else (key_of env.openai_key) configured

  unfoldable pub load_api_key : Environment → Fields → Value → Result ConfigError Text
  unfolding validate_credential_storage configured_api_key is_http_endpoint is_loopback_endpoint
      provider_api_key remote_key strip
  load_api_key env data' endpoint = do
    validate_credential_storage env data'
    configured ← configured_api_key data'
    if is_http_endpoint endpoint || is_loopback_endpoint endpoint
        then ok (or_else (strip (key_of env.openai_key)) (codes "local-no-auth"))
        else remote_key (strip (provider_api_key env endpoint configured))

  -- `load_workspace` is `_load_workspace`; `is_unsafe` is `is_unsafe_workspace_root` or a failing
  -- `configure_workspace_identity`; `in_runtime` is `runtime_is_within_workspace`, or that it raised.
  module _ (load_workspace : Fields → Result ConfigError Text)
      (is_unsafe in_runtime : Text → Bool) where
    -- `__post_init__`, with the base URL as it was given.
    unfoldable pub post_init : Config → Value → Result ConfigError Config
    unfolding validate_model validate_reasoning_effort validate_base_url validate_max_turns
        validate_max_output_tokens validate_max_run_seconds member text_eq
    post_init c base_url = do
      raise_if (is_unsafe c.workspace) invalid_workspace
      model ← validate_model (codes "model") (str c.model)
      flash ← validate_model (codes "flash") (str c.flash_model)
      pro ← validate_model (codes "pro") (str c.pro_model)
      effort ← validate_reasoning_effort (codes "reasoning_effort") (str c.reasoning_effort)
      flash_effort ←
          validate_reasoning_effort (codes "flash_reasoning_effort") (str c.flash_reasoning_effort)
      pro_effort ←
          validate_reasoning_effort (codes "pro_reasoning_effort") (str c.pro_reasoning_effort)
      url ← validate_base_url base_url
      turns ← validate_max_turns (int (pos c.max_turns))
      tokens ← validate_max_output_tokens (int (pos c.max_output_tokens))
      seconds ← validate_max_run_seconds (int (pos c.max_run_seconds))
      raise_if (not (member c.capability (codes "coding" ∷ codes "readonly" ∷ [])))
          invalid_capability
      raise_if (any (λ t. member t c.allowed_tools) mutation_tools && in_runtime c.workspace)
          unsafe_runtime
      ok (record c {
        model = model;
        flash_model = flash;
        pro_model = pro;
        reasoning_effort = effort;
        flash_reasoning_effort = flash_effort;
        pro_reasoning_effort = pro_effort;
        base_url = url;
        max_turns = turns;
        max_output_tokens = tokens;
        max_run_seconds = seconds;
      })

    -- `Config._from_data`
    unfoldable pub from_data : Fields → Text → Result ConfigError Config
    unfolding post_init load_model_slots load_reasoning_effort load_allowed_tools validate_max_turns
        validate_max_output_tokens validate_max_run_seconds get_or
    from_data data' credential = do
      slots ← load_model_slots data'
      flash_effort ← load_reasoning_effort data' (codes "flash_reasoning_effort")
      pro_effort ← load_reasoning_effort data' (codes "pro_reasoning_effort")
      workspace ← load_workspace data'
      turns ← validate_max_turns (get_or (codes "max_turns") (int (pos default_max_turns)) data')
      tokens ←
          validate_max_output_tokens
            (get_or (codes "max_output_tokens") (int (pos default_max_output_tokens)) data')
      seconds ←
          validate_max_run_seconds
            (get_or (codes "max_run_seconds") (int (pos default_max_run_seconds)) data')
      tools ← load_allowed_tools data'
      post_init
          (settings credential workspace slots turns tokens seconds tools flash_effort pro_effort)
          (get_or (codes "base_url") (str default_base_url) data')

    -- `Config.load`, on the data of the configuration file.
    unfoldable pub load : Environment → Fields → Result ConfigError Config
    unfolding from_data load_api_key validate_base_url get_or
    load env data' = do
      base_url ← validate_base_url (get_or (codes "base_url") (str default_base_url) data')
      credential ← load_api_key env data' (str base_url)
      from_data data' credential
