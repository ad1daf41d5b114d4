-- ===== src/Examples/Calls.antt =====
-- Calls of an upstream API that is busy at first, and of the token provider.
use kyc.Common.{ℕ, zero, suc, ◌+◌, ◌≤◌, String, ◌≡◌, refl, none, some, List, [], ◌∷◌, ◌<>◌, arith}
use kyc.Types.{web, CreateSessionOptions}
use kyc.Retry.{http_error, Outcome, returned, failed, retry_config, with_retry}
use kyc.Retry.Attempts.{IsRetried, with_retry-IsRetried}
use kyc.SessionToken.{
  TokenProvider, TokenEvent, get_access_token, reset, start_resolves, start_rejects, start_finishes,
  run, create_session_token_provider,
}
use kyc.SessionToken.{pending}
use kyc.SessionToken.Starts.{under_way, run_starts, run_reset_while_pending}
use kyc.Service.{ProviderCall}
use kyc.Sumsub.{
  SumsubConfig, FetchRequest, FetchAnswer, response, ClientDeps, Env, call_once, mint_token,
  fetch_applicant_status,
}
use kyc.Sumsub.Answers.{IsSentAtMost, call_once-IsSentAtMost}
use kyc.Sumsub.Outcomes.{IsMintResult, mint_token-IsMintResult}

-- A call that is refused twice, then answers; the state counts the calls.
abbrev busy : ℕ → Outcome String × ℕ
busy zero = (failed (http_error 503 "busy"), 1)
busy (suc zero) = (failed (http_error 429 "slow down"), 2)
busy n = (returned "done", suc n)

with_retry-IsRetried_example : IsRetried busy retry_config 3 0 0 (with_retry busy retry_config 0)
with_retry-IsRetried_example = with_retry-IsRetried busy retry_config 0 (omega arith)

abbrev events : List TokenEvent
events =
    get_access_token
    ∷ get_access_token
    ∷ start_rejects
    ∷ start_finishes
    ∷ get_access_token
    ∷ start_resolves "s1"
    ∷ start_finishes
    ∷ get_access_token
    ∷ []

run_starts_example :
    let p : TokenProvider = run events create_session_token_provider in
    (p.starts ≡ p.started + p.rejected + under_way p.starting) × (p.started ≤ p.resets + 1)
run_starts_example = run_starts events (tt, (tt, (tt, (tt, (tt, (refl, (tt, (tt, tt))))))))

abbrev starting_up : TokenProvider
starting_up = record create_session_token_provider { starting = pending; starts = 1 }

run_reset_while_pending_example :
    let q : TokenProvider =
      run
        (reset ∷ get_access_token ∷ start_resolves "s1" ∷ start_finishes ∷ get_access_token ∷ [])
        starting_up in
    (q.starts ≡ 1) × (q.refreshed ≡ "s1" ∷ []) × (q.session_id ≡ some "s1")
run_reset_while_pending_example = run_reset_while_pending starting_up "s1" refl refl

-- The API is busy at the first request; then it answers with a token, or finds no applicant.
abbrev answers : List FetchRequest → FetchRequest → FetchAnswer
answers [] r = response 503 "busy"
answers (earlier ∷ _) r = response 200 "token-1"

abbrev pub upstream : (List FetchRequest → FetchRequest → FetchAnswer) → ClientDeps
upstream answers = record {
  hmac_hex = λ algorithm secret body. algorithm <> secret <> body;
  fetch = answers;
  now = λ sent. 1700000000;
  to_upper_case = λ s. s;
  encode_uri_component = λ s. s;
  stringify = λ v. "{}";
  access_token_json = λ text. some (record { token = text });
  review_json = λ text. none;
  applicant_json = λ text. none;
}

abbrev environment : Env
environment name = some "value"

abbrev pub settings : SumsubConfig
settings = record {
  app_token = some "app";
  secret_key = some "key";
  webhook_secret = some "hook";
  base_url = "https://api.sumsub.com";
  level_name = "basic-kyc-level";
  token_ttl_secs = 600;
  request_timeout_ms = 10000;
}

abbrev pub instant : ℕ → String
instant ms = "2026-01-01T00:00:00.000Z"

abbrev pub clock : List FetchRequest → ℕ
clock sent = 1700000000000

abbrev options : CreateSessionOptions
options = record { platform = web; level_name = none; locale = none }

call_once-IsSentAtMost_example :
    IsSentAtMost (upstream answers) settings (ProviderCall.create_session "user-1" options) 3 [] (
      call_once
        (upstream answers)
        settings
        instant
        clock
        (ProviderCall.create_session "user-1" options)
        [])
call_once-IsSentAtMost_example =
    call_once-IsSentAtMost (upstream answers) settings instant clock
      (ProviderCall.create_session "user-1" options) []

mint_token-IsMintResult_example :
    IsMintResult
      (upstream answers)
      settings
      instant
      clock
      (mint_token (upstream answers) settings instant clock "user-1" options []).0
      (mint_token (upstream answers) settings instant clock "user-1" options []).1
mint_token-IsMintResult_example =
    mint_token-IsMintResult (upstream answers) settings instant clock "user-1" options []

abbrev unknown_applicant : List FetchRequest → FetchRequest → FetchAnswer
unknown_applicant sent r = response 404 "not found"

abbrev asked : List FetchRequest
unfolding fetch_applicant_status
asked = (fetch_applicant_status (upstream unknown_applicant) settings "applicant-1" []).1
