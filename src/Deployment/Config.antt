-- ===== src/Deployment/Config.antt =====
-- packages/kyc-service/src/config.ts, providers/index.ts, providers/mock.ts and providers/sumsub: the
-- checks at boot.
use kyc.Common.{
  ℕ, String, Bool, true, false, not, ◌&&◌, ◌||◌, Option, none, some, List, [], ◌∷◌, ◌++◌, ◌<>◌,
  if◌then◌else◌, given, same_option,
}
use kyc.Errors.{Thrown, object, absent, message_of}
use kyc.Action.{Result, ok, err}
use kyc.Sumsub.{
  Env, SumsubConfig, access_token_settings, assert_sumsub_config, sumsub_config_from_env,
  sumsub_demo_settings_in_use,
}
use kyc.Registry.{
  ProviderRegistry, ShippedProvider, mock, sumsub, Selected, guarded, filled_text,
  assert_production_config, provider_name_from_env, provider_from_env,
}
use kyc.Deployment.{
  is_insecure_dev_allowed, Capability, tokens, sessions, has_sessions, capabilities_from_env,
  SessionSource, session_source_from_env,
}

-- Where the app runs.
pub data Runtime : Type 0 where
  node edge : Runtime

abbrev error : String → Thrown
error message = object absent absent message

unfoldable pub assert_mock_provider_allowed : Env → Result (Unit {0})
unfolding is_insecure_dev_allowed
assert_mock_provider_allowed env =
    if is_insecure_dev_allowed env
    then ok tt
    else err (
        error (
          "Refusing to start: KYC_PROVIDER=mock signs its own webhooks and is forgeable. "
          <> "Set ALLOW_INSECURE_DEV=true for local dev, or configure a real provider."))

-- With an `onUnknown` that throws, as at boot.
abbrev pub refuse_unknown :
    Option String → Result (Selected ShippedProvider) → Result (Selected ShippedProvider)
refuse_unknown none selected = selected
refuse_unknown (some name) selected = err (error ("unknown KYC_PROVIDER: " <> name))

abbrev pub unsourced : Option SessionSource → List String
unsourced none =
    "no session verification is configured: set SESSION_JWKS_URL or SESSION_HS256_SECRET (JWT_SECRET is an accepted alias), or ALLOW_INSECURE_DEV=true for local dev"
    ∷ []
unsourced (some source) = []

unfoldable pub session_errors : Env → List String
unfolding session_source_from_env
session_errors env = unsourced (session_source_from_env env)

abbrev pub errors_of : Result (Selected ShippedProvider) → List String
errors_of (ok selected) = []
errors_of (err e) = (elim (message_of e) [ none ↦ "undefined" | some message ↦ message ]) ∷ []

unfoldable pub webhook_errors : Env → List String
unfolding has_sessions is_insecure_dev_allowed
webhook_errors env =
    if has_sessions env
      && same_option (env "KYC_PROVIDER") (some "sumsub")
      && not (given (env "SUMSUB_WEBHOOK_SECRET"))
      && not (is_insecure_dev_allowed env)
    then "SUMSUB_WEBHOOK_SECRET is required to verify the Sumsub webhook (or ALLOW_INSECURE_DEV=true)"
      ∷ []
    else []

abbrev pub is_edge : Runtime → Bool
is_edge node = false
is_edge edge = true

unfoldable pub runtime_errors : Env → Runtime → List String
unfolding has_sessions
runtime_errors env runtime =
    if is_edge runtime && has_sessions env
    then "DATABASE_URL is set, but this runtime cannot open a Postgres connection: the Cloudflare target serves access tokens only. Deploy the container or the Node target for sessions"
      ∷ []
    else []

abbrev join_problems : List String → String
join_problems [] = ""
join_problems (problem ∷ []) = problem
join_problems (problem ∷ next ∷ problems) = problem <> "; " <> join_problems (next ∷ problems)

abbrev describe_capabilities : List Capability → String
describe_capabilities [] = ""
describe_capabilities (tokens ∷ []) = "tokens"
describe_capabilities (sessions ∷ []) = "sessions"
describe_capabilities (tokens ∷ rest) = "tokens, " <> describe_capabilities rest
describe_capabilities (sessions ∷ rest) = "sessions, " <> describe_capabilities rest

abbrev pub unless_problems : List String → List Capability → Result (List Capability)
unless_problems [] capabilities = ok capabilities
unless_problems (problem ∷ problems) capabilities = err (
    error (
      "Refusing to start (capabilities: "
      <> describe_capabilities capabilities
      <> "): "
      <> join_problems (problem ∷ problems)))

-- `protocol` is the protocol of a URL, where `new URL` takes the text.
module _ (protocol : String → Option String) where
  unfoldable pub is_http_url : String → Bool
  is_http_url value =
      same_option (protocol value) (some "http:") || same_option (protocol value) (some "https:")

  unfoldable pub public_base_url_errors : Env → List String
  unfolding has_sessions is_insecure_dev_allowed is_http_url
  public_base_url_errors env =
      if not (has_sessions env)
      then []
      else if not (given (env "PUBLIC_BASE_URL"))
      then (if is_insecure_dev_allowed env
          then []
          else "PUBLIC_BASE_URL is required once sessions are on (or set ALLOW_INSECURE_DEV=true for local dev)"
            ∷ [])
      else if is_http_url (filled_text (env "PUBLIC_BASE_URL") "")
      then []
      else ("PUBLIC_BASE_URL must be an absolute http(s) URL (got \""
          <> filled_text (env "PUBLIC_BASE_URL") ""
          <> "\")")
        ∷ []

-- `parse_int` is `Number.parseInt`, and `public_base_url` is `getPublicBaseUrl`.
module _ (parse_int : String → Option ℕ) (public_base_url : Env → String) where
  -- The mock's and the Sumsub entry of `selectProvider`.
  unfoldable pub mock_entry : Env → Result ShippedProvider
  unfolding assert_mock_provider_allowed assert_production_config
  mock_entry env = guarded (assert_mock_provider_allowed env) (
      guarded
        (assert_production_config env
          (record { provider = "mock"; demo = true; demo_settings = [] }))
        (ok (mock (public_base_url env) (filled_text (env "MOCK_WEBHOOK_SECRET") "mock"))))

  unfoldable pub sumsub_entry : Env → Result ShippedProvider
  unfolding assert_sumsub_config assert_production_config sumsub_demo_settings_in_use
      sumsub_config_from_env
  sumsub_entry env =
      let config : SumsubConfig = sumsub_config_from_env parse_int env in
      guarded (assert_sumsub_config config access_token_settings) (
        guarded
          (assert_production_config env (record {
            provider = "sumsub";
            demo = false;
            demo_settings = sumsub_demo_settings_in_use config;
          }))
          (ok (sumsub config)))

  unfoldable pub service_registry : Env → ProviderRegistry ShippedProvider
  unfolding mock_entry sumsub_entry
  service_registry env = ("mock", mock_entry env) ∷ ("sumsub", sumsub_entry env) ∷ []

  unfoldable pub select_provider : Env → Result (Selected ShippedProvider)
  unfolding provider_name_from_env provider_from_env service_registry
  select_provider env =
      refuse_unknown (provider_name_from_env env (service_registry env) "mock").1
        (provider_from_env env (service_registry env) "mock")

  unfoldable pub provider_errors : Env → List String
  unfolding select_provider
  provider_errors env = errors_of (select_provider env)

  module _ (protocol : String → Option String) where
    unfoldable pub config_errors : Env → Runtime → List String
    unfolding session_errors public_base_url_errors provider_errors webhook_errors runtime_errors
    config_errors env runtime =
        session_errors env
        ++ public_base_url_errors protocol env
        ++ provider_errors env
        ++ webhook_errors env
        ++ runtime_errors env runtime

    unfoldable pub validate_config : Env → Runtime → Result (List Capability)
    unfolding config_errors capabilities_from_env
    validate_config env runtime =
        unless_problems (config_errors env runtime) (capabilities_from_env env)
