-- ===== src/Sumsub/Config.antt =====
-- packages/kyc-node/src/providers/sumsub/config.ts: the adapter's settings, from the environment.
-- `Number.parseInt` is a parameter: the number of a text where it is one above zero, or nothing.
use Prim.Native.Char.{Char, code}
use kyc.Common.{
  ℕ, zero, suc, String, Bool, not, Option, none, some, List, [], ◌∷◌, ◌<>◌, if◌then◌else◌, given,
  eqb, ltb,
}
use kyc.Errors.{Thrown, object, absent}
use kyc.Action.{Result, ok, err}

pub record SumsubConfig : Type 0 where
  pub app_token : Option String
  pub secret_key : Option String
  pub webhook_secret : Option String
  pub base_url : String
  pub level_name : String
  pub token_ttl_secs : ℕ
  pub request_timeout_ms : ℕ

pub data SumsubConfigKey : Type 0 where
  app_token secret_key webhook_secret base_url level_name : SumsubConfigKey
  token_ttl_secs request_timeout_ms : SumsubConfigKey

abbrev pub sumsub_env : SumsubConfigKey → String
sumsub_env app_token = "SUMSUB_APP_TOKEN"
sumsub_env secret_key = "SUMSUB_SECRET_KEY"
sumsub_env webhook_secret = "SUMSUB_WEBHOOK_SECRET"
sumsub_env base_url = "SUMSUB_BASE_URL"
sumsub_env level_name = "SUMSUB_LEVEL_NAME"
sumsub_env token_ttl_secs = "SUMSUB_TOKEN_TTL_SECS"
sumsub_env request_timeout_ms = "SUMSUB_REQUEST_TIMEOUT_MS"

abbrev pub default_base_url : String
default_base_url = "https://api.sumsub.com"

abbrev pub default_level_name : String
default_level_name = "basic-kyc-level"

abbrev pub default_token_ttl_secs : ℕ
default_token_ttl_secs = 600

abbrev pub default_request_timeout_ms : ℕ
default_request_timeout_ms = 10000

abbrev pub sumsub_credentials : List SumsubConfigKey
sumsub_credentials = app_token ∷ secret_key ∷ webhook_secret ∷ []

abbrev pub access_token_settings : List SumsubConfigKey
access_token_settings = app_token ∷ secret_key ∷ []

abbrev pub Env : Type 0
Env = String → Option String

-- `text.startsWith("sbx:")`
unfoldable pub starts_with_sandbox : String → Bool
starts_with_sandbox (String.◌∷◌ a (String.◌∷◌ b (String.◌∷◌ c (String.◌∷◌ d rest)))) =
    if eqb (code a) b's'
    then if eqb (code b) b'b'
      then if eqb (code c) b'x' then eqb (code d) b':' else Bool.false
      else Bool.false
    else Bool.false
starts_with_sandbox _ = Bool.false

unfoldable pub is_sumsub_sandbox_token : Option String → Bool
unfolding starts_with_sandbox
is_sumsub_sandbox_token none = Bool.false
is_sumsub_sandbox_token (some token) = starts_with_sandbox token

unfoldable pub sumsub_demo_settings_in_use : SumsubConfig → List String
sumsub_demo_settings_in_use config =
    if is_sumsub_sandbox_token config.app_token then (sumsub_env app_token <> "=sbx:…") ∷ [] else []

-- `value || undefined`
abbrev pub filled : Option String → Option String
filled none = none
filled (some s) = if given (some s) then some s else none

abbrev pub filled_or : String → Option String → String
filled_or fallback none = fallback
filled_or fallback (some s) = if given (some s) then s else fallback

abbrev pub is_slash : Char → Bool
is_slash c = eqb (code c) b'/'

abbrev pub size : String → ℕ
size String.[] = 0
size (String.◌∷◌ c rest) = suc (size rest)

-- `value[index] === '/'`; past the end there is nothing.
unfoldable pub is_slash_at : ℕ → String → Bool
is_slash_at index String.[] = Bool.false
is_slash_at zero (String.◌∷◌ c rest) = is_slash c
is_slash_at (suc index) (String.◌∷◌ c rest) = is_slash_at index rest

-- `while (end > 0 && value[end - 1] === '/') end -= 1`
unfoldable pub trimmed_end : ℕ → String → ℕ
trimmed_end zero value = zero
trimmed_end (suc n) value =
    let rest = trimmed_end n value in if is_slash_at n value then rest else suc n

-- `value.slice(0, end)`
abbrev pub slice_to : ℕ → String → String
slice_to zero value = ""
slice_to (suc n) String.[] = ""
slice_to (suc n) (String.◌∷◌ c rest) = String.◌∷◌ c (slice_to n rest)

unfoldable pub strip_trailing_slashes : String → String
unfolding trimmed_end
strip_trailing_slashes value = slice_to (trimmed_end (size value) value) value

-- Whether a setting is unset, as `!config[key]` says.
abbrev pub is_unset : SumsubConfig → SumsubConfigKey → Bool
is_unset config app_token = not (given config.app_token)
is_unset config secret_key = not (given config.secret_key)
is_unset config webhook_secret = not (given config.webhook_secret)
is_unset config base_url = not (given (some config.base_url))
is_unset config level_name = not (given (some config.level_name))
is_unset config token_ttl_secs = not (ltb 0 config.token_ttl_secs)
is_unset config request_timeout_ms = not (ltb 0 config.request_timeout_ms)

unfoldable pub missing_sumsub_config : SumsubConfig → List SumsubConfigKey → List String
missing_sumsub_config config [] = []
missing_sumsub_config config (key ∷ required) =
    if is_unset config key
    then sumsub_env key ∷ missing_sumsub_config config required
    else missing_sumsub_config config required

-- `missing.join(', ')`
abbrev pub join_names : List String → String
join_names [] = ""
join_names (name ∷ []) = name
join_names (name ∷ next ∷ names) = name <> ", " <> join_names (next ∷ names)

abbrev pub sumsub_config_error : List String → Thrown
sumsub_config_error missing =
    object absent absent
      ("Sumsub provider: missing required environment variables: " <> join_names missing)

abbrev pub nothing_missing : List String → Result (Unit {0})
nothing_missing [] = ok tt
nothing_missing (name ∷ names) = err (sumsub_config_error (name ∷ names))

unfoldable pub assert_sumsub_config : SumsubConfig → List SumsubConfigKey → Result (Unit {0})
unfolding missing_sumsub_config
assert_sumsub_config config required = nothing_missing (missing_sumsub_config config required)

module _ (parse_int : String → Option ℕ) where
  abbrev or_number : ℕ → Option ℕ → ℕ
  or_number fallback none = fallback
  or_number fallback (some n) = if ltb 0 n then n else fallback

  unfoldable pub positive_int : Option String → ℕ → ℕ
  positive_int none fallback = or_number fallback (parse_int "")
  positive_int (some raw) fallback = or_number fallback (parse_int raw)

  unfoldable pub sumsub_config_from_env : Env → SumsubConfig
  unfolding positive_int strip_trailing_slashes
  sumsub_config_from_env env = record {
    app_token = filled (env (sumsub_env app_token));
    secret_key = filled (env (sumsub_env secret_key));
    webhook_secret = filled (env (sumsub_env webhook_secret));
    base_url = strip_trailing_slashes (filled_or default_base_url (env (sumsub_env base_url)));
    level_name = filled_or default_level_name (env (sumsub_env level_name));
    token_ttl_secs = positive_int (env (sumsub_env token_ttl_secs)) default_token_ttl_secs;
    request_timeout_ms =
        positive_int (env (sumsub_env request_timeout_ms)) default_request_timeout_ms;
  }
