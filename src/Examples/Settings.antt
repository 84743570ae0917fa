-- ===== src/Examples/Settings.antt =====
-- The configuration at concrete values (src/deepseek_mcp/config.py).
use deepseek_as_subagent.Prelude.{◌≡◌, refl, Bool, true, false, Option, none, some, [], is_empty}
use deepseek_as_subagent.Prelude.Results.{Result, ok}
use deepseek_as_subagent.Text.{Text, codes, text_eq}
use deepseek_as_subagent.Json.{Value, str, Fields, end}
use deepseek_as_subagent.Config.{
  ConfigError, Url, Environment, Config, settings, known_tools, default_flash_model,
  default_pro_model, default_max_turns, default_max_output_tokens, default_max_run_seconds,
  provider_default, validate_base_url, load_api_key, load,
}
use deepseek_as_subagent.Config.Credential.{IsLocal, IsDeepseek, load_api_key-confined}
use deepseek_as_subagent.Config.Valid.{Valid, load-Valid}

-- `urlsplit` of two URLs.
abbrev split_url : Text → Option Url
split_url t = some (record {
  scheme = if_local (text_eq t (codes "http://localhost")) (codes "http") (codes "https");
  hostname = some (
      if_local (text_eq t (codes "http://localhost")) (codes "localhost")
        (codes "api.deepseek.com"));
  has_user = false;
  query = [];
  fragment = [];
})
  where
    if_local : Bool → Text → Text → Text
    if_local true a b = a
    if_local false a b = b

abbrev lower_text : Text → Text
lower_text t = t

abbrev environment : Environment
environment = record { is_windows = false; openai_key = none; deepseek_key = some (codes "sk-1") }

abbrev local_endpoint : Value
local_endpoint = str (codes "http://localhost")

local_key :
    load_api_key split_url lower_text environment end local_endpoint ≡ ok (codes "local-no-auth")
unfolding load_api_key
local_key = refl

abbrev local_url : Url
local_url = record {
  scheme = codes "http";
  hostname = some (codes "localhost");
  has_user = false;
  query = [];
  fragment = [];
}

local_valid : validate_base_url split_url lower_text local_endpoint ≡ ok (codes "http://localhost")
unfolding validate_base_url
local_valid = refl

local_split : split_url (codes "http://localhost") ≡ some local_url
unfolding text_eq
local_split = refl

load_api_key-confined_example :
    (is_empty (codes "local-no-auth") ≡ false)
    × (IsLocal split_url lower_text local_url
        → (other : Fields) (deepseek_key : Option Text) (key2 : Text)
        → load_api_key split_url lower_text
            (record environment { deepseek_key = deepseek_key })
            other
            local_endpoint
          ≡ ok key2
        → key2 ≡ codes "local-no-auth")
    × (¬ IsDeepseek split_url lower_text local_url
        → (deepseek_key : Option Text)
        → load_api_key split_url lower_text
            (record environment { deepseek_key = deepseek_key })
            end
            local_endpoint
          ≡ ok (codes "local-no-auth"))
load_api_key-confined_example =
    load_api_key-confined split_url lower_text environment end (codes "http://localhost") local_url
      local_valid local_split local_key

abbrev home_workspace : Fields → Result ConfigError Text
home_workspace data' = ok (codes "/work")

abbrev never : Text → Bool
never t = false

abbrev defaults : Config
defaults =
    settings (codes "sk-1") (codes "/work") (default_flash_model, default_pro_model)
      default_max_turns default_max_output_tokens default_max_run_seconds known_tools
      provider_default provider_default

defaults_loaded : load split_url lower_text home_workspace never never environment end ≡ ok defaults
unfolding load
defaults_loaded = refl

load-Valid_example : Valid split_url lower_text home_workspace never never defaults
load-Valid_example =
    load-Valid split_url lower_text home_workspace never never environment end defaults_loaded
