-- ===== src/Examples/Deployed.antt =====
-- A deployment of the service that mints on Sumsub, with a session secret.
use kyc.Common.{
  refl, ℕ, String, Bool, true, Option, none, some, [], ◌∷◌, ◌==◌, if◌then◌else◌, Value, str,
  undefined,
}
use kyc.Sumsub.{
  Env, sumsub_config_from_env, is_sumsub_sandbox_token, starts_with_sandbox, missing_sumsub_config,
  sumsub_demo_settings_in_use, assert_sumsub_config,
}
use kyc.Registry.{
  provider_name_from_env, provider_from_env, assert_production_config, production_errors,
}
use kyc.Deployment.{
  is_insecure_dev_allowed, tokens, has_sessions, capabilities_from_env, session_source_from_env,
  SessionKey, VerifyOptions, shared_secret, user_from_payload, verify_with,
  session_verifier_from_env,
}
use kyc.Deployment.Config.{
  node, assert_mock_provider_allowed, mock_entry, sumsub_entry, service_registry, select_provider,
  session_errors, public_base_url_errors, provider_errors, webhook_errors, runtime_errors,
  config_errors, validate_config,
}
use kyc.Deployment.Boot.{IsClosed, validate_config-IsClosed}
use kyc.Deployment.Sessions.{IsVerified, session_verifier_from_env-IsVerified}
use kyc.Deployment.App.{Part, Visit, Headers, hosted, routed, app_fetch}
use kyc.Deployment.Policed.{IsPoliced, app_fetch-IsPoliced}

abbrev deployed : Env
deployed name =
    if name == "KYC_PROVIDER"
    then some "sumsub"
    else if name == "SUMSUB_APP_TOKEN"
    then some "prd:token"
    else if name == "SUMSUB_SECRET_KEY"
    then some "key"
    else if name == "SESSION_HS256_SECRET"
    then some "secret"
    else none

abbrev no_number : String → Option ℕ
no_number raw = none

abbrev https_only : String → Option String
https_only url = some "https:"

abbrev local_origin : Env → String
local_origin env = "http://localhost:5100"

validate_config-IsClosed_example : IsClosed no_number https_only deployed node
unfolding validate_config config_errors session_errors public_base_url_errors provider_errors
    webhook_errors runtime_errors select_provider service_registry mock_entry sumsub_entry
    assert_mock_provider_allowed session_source_from_env has_sessions is_insecure_dev_allowed
    provider_name_from_env provider_from_env assert_sumsub_config missing_sumsub_config
    sumsub_config_from_env sumsub_demo_settings_in_use is_sumsub_sandbox_token starts_with_sandbox
    assert_production_config production_errors capabilities_from_env
validate_config-IsClosed_example =
    validate_config-IsClosed no_number local_origin https_only deployed node (tokens ∷ []) refl refl

abbrev one_token : String → SessionKey → VerifyOptions → Option (String → Value)
one_token token key options =
    if token == "t-1"
    then some (λ claim. if claim == "sub" then str "user-1" else undefined)
    else none

abbrev any_url : String → Bool
any_url url = true

abbrev secret_verifier : String → Option String
unfolding verify_with
secret_verifier = verify_with one_token any_url (shared_secret "secret") deployed ("HS256" ∷ [])

session_verifier_from_env-IsVerified_example : IsVerified one_token any_url deployed "t-1" "user-1"
unfolding session_verifier_from_env session_source_from_env is_insecure_dev_allowed verify_with
    user_from_payload secret_verifier
session_verifier_from_env-IsVerified_example =
    session_verifier_from_env-IsVerified one_token any_url deployed secret_verifier "t-1" "user-1"
      refl refl refl

abbrev page_visit : Visit
page_visit = record {
  method = "GET";
  pathname = "/hosted/s-1";
  origin = some "https://app.example";
}

abbrev own_headers : Part → Visit → Headers
own_headers hosted visit = ("content-security-policy", "default-src 'self'") ∷ []
own_headers part visit = []

app_fetch-IsPoliced_example :
    IsPoliced true
      ("https://app.example" ∷ [])
      page_visit
      (own_headers (routed true page_visit) page_visit)
      (app_fetch own_headers true ("https://app.example" ∷ []) page_visit)
app_fetch-IsPoliced_example =
    app_fetch-IsPoliced own_headers true ("https://app.example" ∷ []) page_visit
