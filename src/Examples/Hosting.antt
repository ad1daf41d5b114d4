-- ===== src/Examples/Hosting.antt =====
-- What a host boots with, and a page whose buttons post to the mock.
use kyc.Common.{
  given, Bool-cases, inl, inr, eq_iff, ℕ, String, ◌≡◌, refl, true, none, some, Option, [], ◌∷◌,
  ◌==◌, if◌then◌else◌, Value, codes, obj, str, field, end, undefined,
}
use kyc.Types.{approved, initial}
use kyc.Action.{ok}
use kyc.Sumsub.{
  Env, sumsub_config_from_env, is_sumsub_sandbox_token, starts_with_sandbox, single, WebhookHeaders,
  missing_sumsub_config, sumsub_demo_settings_in_use, assert_sumsub_config,
}
use kyc.Registry.{
  built, sumsub, access_token_provider_from_env, provider_from_env, provider_name_from_env,
  default_registry, assert_production_config, production_errors,
}
use kyc.Registry.Boot.{IsLive, access_token_provider_from_env-IsLive}
use kyc.Http.{HostedPageParams}
use kyc.Store.{lookup}
use kyc.Mock.{
  MockDeps, MockState, MockApplicant, post, parse_webhook_event, verify_webhook, get_status,
  sign_webhook,
}
use kyc.Mock.Posted.{posted_event, post-parses}
use kyc.Html.{escape_html, json_for_script}
use kyc.Html.Inert.{is_free_of, escaped-IsInert}
use kyc.Examples.Signed.{equal_bytes, equal_bytes_refl}

abbrev production : Env
production name =
    if name == "KYC_ENV"
    then some "production"
    else if name == "SUMSUB_APP_TOKEN"
    then some "prd:token"
    else if name == "SUMSUB_SECRET_KEY"
    then some "key"
    else none

abbrev no_number : String → Option ℕ
no_number raw = none

abbrev origin : Env → String
origin env = "http://localhost:5100"

access_token_provider_from_env-IsLive_example :
    IsLive no_number origin production
      (built (sumsub (sumsub_config_from_env no_number production)))
unfolding access_token_provider_from_env provider_from_env provider_name_from_env default_registry
    sumsub_config_from_env is_sumsub_sandbox_token starts_with_sandbox missing_sumsub_config
    sumsub_demo_settings_in_use assert_sumsub_config assert_production_config production_errors
access_token_provider_from_env-IsLive_example =
    access_token_provider_from_env-IsLive no_number origin production
      (built (sumsub (sumsub_config_from_env no_number production))) refl refl

abbrev page : HostedPageParams
page = record {
  session_id = "s";
  user_id = "user-1";
  access_token = "mock-token-1";
  locale = none;
  applicant_id = some "mock-applicant-1";
  nonce = "nonce";
}

abbrev posted : Value
posted = obj (
    field "applicantId" (str "mock-applicant-1")
      (field "externalUserId" (str "user-1") (field "status" (str "approved") end)))

abbrev mock_deps : MockDeps
mock_deps = record {
  hmac_hex = λ algorithm secret body. String.◌∷◌ "d" body;
  buffer_from = codes;
  timing_safe_equal = equal_bytes;
  json_parse = λ text. some posted;
  stringify = λ value. "{}";
  text_of = λ value. elim value [ str text ↦ ok text | _ ↦ ok "" ];
  secret = "mock";
  public_base_url = "http://localhost:5100";
  new_id = λ k. "1";
  now = λ s. 0;
  to_iso_string = λ ms. "";
}

digest_given : (body : String) → given (some (String.◌∷◌ "d" body)) ≡ true
digest_given body = elim (Bool-cases (String.◌∷◌ "d" body == "")) [
  | inl empty ↦
      let none_left : String.◌∷◌ "d" body ≡ "" = (eq_iff (String.◌∷◌ "d" body) "").0 empty in
      absurd (cc)
  | inr full ↦ rw full refl
]

abbrev applicant : MockApplicant
applicant = record { status = initial; user_id = "user-1"; level_name = none }

abbrev opened : MockState
opened = record { applicants = ("mock-applicant-1", applicant) ∷ []; ids = 2 }

abbrev signed_headers : WebhookHeaders
signed_headers name = some (single "d{}")

post-parses_example :
    (verify_webhook mock_deps signed_headers "{}" ≡ true)
    × ((parse_webhook_event mock_deps "{}" opened).0
        ≡ ok (some (posted_event mock_deps "mock-applicant-1" page approved)))
    × (get_status "mock-applicant-1" (parse_webhook_event mock_deps "{}" opened).1 ≡ ok approved)
unfolding post sign_webhook lookup
post-parses_example =
    post-parses mock_deps page approved "mock-applicant-1" applicant opened signed_headers
      (λ algorithm secret body. digest_given body) equal_bytes_refl (λ text. refl) refl refl refl
      refl refl

escaped-IsInert_example :
    let markup : String = escape_html "<b title='x'>" in
    let script : String = json_for_script (λ value. "\"</script>\"") undefined in
    ((is_free_of b'<' markup ≡ true)
      × (is_free_of b'>' markup ≡ true)
      × (is_free_of 34 markup ≡ true)
      × (is_free_of 39 markup ≡ true))
    × ((is_free_of b'<' script ≡ true)
        × (is_free_of 0x2028 script ≡ true)
        × (is_free_of 0x2029 script ≡ true))
escaped-IsInert_example = escaped-IsInert "<b title='x'>" (λ value. "\"</script>\"") undefined
