-- ===== src/Examples/Endpoints.antt =====
-- Requests to the endpoints of a host: the one of Examples.Host, and one that mints tokens only.
use kyc.Common.{
  String, ◌≡◌, refl, ◌⊎◌, true, false, none, some, Option, List, [], ◌∷◌, All, codes, num, str,
  field, end, obj, Value,
}
use kyc.Types.{web, is_verification_platform, CreateSessionOptions, ProviderSession}
use kyc.Action.{Result, ok}
use kyc.Signature.Verified.{IsSigned}
use kyc.Validation.{ValidatedStartInput, validate_start_input, optional_text}
use kyc.Service.{ProviderCall}
use kyc.Service.Promises.{no_world}
use kyc.Sumsub.{
  WebhookHeaders, single, verify_args, verify_webhook, response, sent_by, sumsub_provider,
  ClientDeps,
}
use kyc.Http.{
  Request, Response, AccessTokenAppOptions, fetch, HttpResult, answer, error_body, internal_error,
  start_session_http, process_webhook_http, mint_access_token_http, preflight, cors_headers,
}
use kyc.Http.Guards.{process_webhook_http-IsSigned, start_session_http_untextual}
use kyc.Http.Surface.{IsAsked, fetch-IsAsked}
use kyc.Http.Origins.{IsPermitted, fetch-IsPermitted}
use kyc.Http.Minting.{IsTokenAnswer, mint_access_token_http-IsTokenAnswer}
use kyc.Examples.Host.{sample_deps, body}
use kyc.Examples.Signed.{equal_bytes, digest, codes_injective, equal_bytes_iff}
use kyc.Examples.Calls.{upstream, settings, instant, clock}

abbrev mints : List ProviderCall → String → CreateSessionOptions → Result ProviderSession
mints calls user options =
    ok (record { provider_applicant_id = none; access_token = "token-1"; expires_at = none })

abbrev no_hook : Option (ValidatedStartInput → String → Result (Option String))
no_hook = none

-- A delivery whose digest is that of another body.
abbrev forged : WebhookHeaders
forged name = some (single "sha256key[]")

process_webhook_http-IsSigned_example :
    IsSigned digest (verify_args (λ values. "") (some "key") false forged "{}") "key"
    ⊎ (process_webhook_http sample_deps
          (ok
            (verify_webhook digest codes equal_bytes (λ values. "") (some "key") false forged "{}"))
          none
          no_world
        ≡ (answer 401 (error_body "Unauthorized"), no_world))
process_webhook_http-IsSigned_example =
    process_webhook_http-IsSigned digest codes equal_bytes (λ values. "") codes_injective
      equal_bytes_iff sample_deps "key" false forged "{}" none no_world refl

abbrev numeric_level : Value
numeric_level = obj (field "platform" (str "WEB") (field "levelName" (num 5) end))

start_session_http_untextual_example :
    start_session_http sample_deps (some "user-1") numeric_level no_world
    ≡ (internal_error, no_world)
unfolding is_verification_platform
start_session_http_untextual_example =
    start_session_http_untextual sample_deps "user-1" numeric_level web no_world refl refl
      (λ textual. textual)

abbrev token_app : AccessTokenAppOptions
token_app = record {
  create_session = mints;
  authenticate = λ request. ok (some "user-1");
  level_for = none;
  path = "/verification/token";
  health = true;
  cors = some ("https://app.example" ∷ []);
}

abbrev as_json : String → Option Value
as_json text = some body

abbrev post : Request
post = record {
  method = "POST";
  pathname = "/verification/token";
  headers = λ name. some "https://app.example";
  text = "{}";
}

fetch-IsAsked_example :
    IsAsked as_json "now" token_app post [] (fetch as_json "now" token_app post [])
    ⊎ ((fetch as_json "now" token_app post []).1 ≡ [])
fetch-IsAsked_example = fetch-IsAsked as_json "now" token_app post []

abbrev asks_first : Request
asks_first = record post { method = "OPTIONS" }

abbrev permission : Response
permission =
    preflight (("vary", "origin") ∷ ("access-control-allow-origin", "https://app.example") ∷ [])

fetch-IsPermitted_example :
    All
      (IsPermitted (some ("https://app.example" ∷ [])) (some "https://app.example"))
      permission.headers
unfolding fetch cors_headers
fetch-IsPermitted_example =
    fetch-IsPermitted as_json "now" token_app asks_first [] [] permission refl

abbrev tokens : ClientDeps
tokens = upstream (λ sent r. response 200 "token-1")

mint_access_token_http-IsTokenAnswer_example :
    let done : HttpResult × List ProviderCall =
      mint_access_token_http
        (sumsub_provider tokens settings instant clock).create_session
        none
        (some "user-1")
        body
        [] in
    IsTokenAnswer tokens settings instant clock done.0
      (sent_by tokens settings instant clock done.1)
unfolding validate_start_input is_verification_platform optional_text
mint_access_token_http-IsTokenAnswer_example =
    mint_access_token_http-IsTokenAnswer tokens settings instant clock "user-1" body
      (record { platform = web; level_name = none; locale = none }) [] refl refl
