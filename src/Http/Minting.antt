-- ===== src/Http/Minting.antt =====
-- packages/kyc-node/src/handlers.ts over providers/sumsub/provider.ts: the token endpoint of a host
-- whose provider is the Sumsub adapter.
use kyc.Common.{ℕ, String, ◌≡◌, refl, ◌⊎◌, inl, inr, none, some, List, given, true, Value}
use kyc.Types.{CreateSessionOptions, ProviderToken, ProviderSession}
use kyc.Errors.{
  ErrorCode, code_text, default_message, session_creation_failed, provider_unavailable,
}
use kyc.Action.{Result, ok, err}
use kyc.Validation.{ValidatedStartInput, validate_start_input}
use kyc.Service.{ProviderCall}
use kyc.Sumsub.{
  SumsubConfig, FetchRequest, ClientDeps, mint_token, sent_by, sumsub_provider, as_session,
  call_once,
}
use kyc.Sumsub.Outcomes.{IsMint, IsMintResult, mint_token-IsMintResult}
use kyc.Http.Results.{HttpResult, answer, coded_body, failed}
use kyc.Http.Tokens.{mint_access_token_http, token_body, token_options, minted_http}

-- The answer of a failure that the adapter reports.
abbrev pub gateway_error : ErrorCode → HttpResult
gateway_error code = answer 502 (coded_body (code_text code) (some (default_message code)))

module _ (deps : ClientDeps) (config : SumsubConfig) (to_iso_string : ℕ → String)
    (now : List FetchRequest → ℕ) where
  abbrev minting : List ProviderCall → String → CreateSessionOptions → Result ProviderSession
  minting = λ calls user opts.
      as_session deps config to_iso_string now
        (mint_token deps config to_iso_string now user opts
          (sent_by deps config to_iso_string now calls)).0

  -- The endpoint hands on a token that the provider's API returned, or reports a bad gateway.
  abbrev pub IsTokenAnswer : HttpResult → List FetchRequest → Type 0
  IsTokenAnswer r sent =
      ((t : ProviderToken) × (IsMint deps config to_iso_string now t sent
          × (r
              ≡ answer 200 (
                  token_body (record {
                    provider_applicant_id = none;
                    access_token = t.access_token;
                    expires_at = t.expires_at;
                  })))))
      ⊎ ((r ≡ gateway_error session_creation_failed) ⊎ (r ≡ gateway_error provider_unavailable))

  minted_answer :
      (result : Result ProviderToken) (sent : List FetchRequest)
      → IsMintResult deps config to_iso_string now result sent
      → IsTokenAnswer
          (minted_http minting none (as_session deps config to_iso_string now result))
          sent
  unfolding failed
  minted_answer (ok t) sent i = inl (t, (i, refl))
  minted_answer (err e) sent (inl h) = inr (inl (rw h refl))
  minted_answer (err e) sent (inr h) = inr (inr (rw h refl))

  -- At a host that serves the Sumsub adapter and leaves the level to the client, a caller who is
  -- authenticated and whose input passes gets 200 with the token that the provider's API returned
  -- for the last request made, or 502 with one of the adapter's two codes.
  pub mint_access_token_http-IsTokenAnswer :
      (user : String) (body : Value) (input : ValidatedStartInput) (calls : List ProviderCall)
      → given (some user) ≡ true
      → validate_start_input body ≡ ok input
      → let done : HttpResult × List ProviderCall =
          mint_access_token_http
            (sumsub_provider deps config to_iso_string now).create_session
            none
            (some user)
            body
            calls in
        IsTokenAnswer done.0 (sent_by deps config to_iso_string now done.1)
  unfolding mint_access_token_http sumsub_provider sent_by call_once
  mint_access_token_http-IsTokenAnswer user body input calls full valid =
      rw (full, valid)
        (minted_answer _ _ (
          mint_token-IsMintResult deps config to_iso_string now user
            (token_options minting none input input.level_name)
            (sent_by deps config to_iso_string now calls)))
