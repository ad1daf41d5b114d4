-- ===== src/Http/Tokens.antt =====
-- packages/kyc-node/src/handlers.ts, `mintAccessTokenHttp`: an access token with no session stored.
-- The state is the list of calls made of the provider, newest first.
use kyc.Common.{
  String, Option, none, some, List, ◌∷◌, if◌then◌else◌, given, Value, str, obj, field, end,
}
use kyc.Types.{CreateSessionOptions, ProviderSession}
use kyc.Errors.{errors, unauthorized}
use kyc.Action.{Result, ok, err}
use kyc.Validation.{ValidatedStartInput, validate_start_input}
use kyc.Service.{ProviderCall, coded_or_unavailable}
use kyc.Http.Results.{HttpResult, answer, opt_value, failed}

abbrev pub token_body : ProviderSession → Value
token_body minted = obj (
    field "accessToken" (str minted.access_token) (
      field "expiresAt" (opt_value minted.expires_at)
        (field "providerApplicantId" (opt_value minted.provider_applicant_id) end)))

module _
    (create_session : List ProviderCall → String → CreateSessionOptions → Result ProviderSession)
    (level_for : Option (ValidatedStartInput → String → Result (Option String))) where
  -- The host's level where it has a hook, the client's where it has none.
  abbrev pub level_name_for : ValidatedStartInput → String → Result (Option String)
  level_name_for input user = elim level_for [
    | none ↦ ok input.level_name
    | some hook ↦ hook input user
  ]

  abbrev pub token_options : ValidatedStartInput → Option String → CreateSessionOptions
  token_options input level_name = record {
    platform = input.platform;
    level_name = level_name;
    locale = input.locale;
  }

  abbrev pub minted_http : Result ProviderSession → HttpResult
  minted_http (ok session) = answer 200 (token_body session)
  minted_http (err e) = failed (coded_or_unavailable e)

  abbrev pub mint_for :
      String
      → ValidatedStartInput
      → Result (Option String)
      → List ProviderCall
      → HttpResult × List ProviderCall
  mint_for user input (err e) calls = (failed e, calls)
  mint_for user input (ok level_name) calls =
      let options = token_options input level_name in
      (
        minted_http (create_session calls user options),
        ProviderCall.create_session user options ∷ calls,
      )

  abbrev pub mint_input :
      String → Result ValidatedStartInput → List ProviderCall → HttpResult × List ProviderCall
  mint_input user (err e) calls = (failed e, calls)
  mint_input user (ok input) calls = mint_for user input (level_name_for input user) calls

  unfoldable pub mint_access_token_http :
      Option String → Value → List ProviderCall → HttpResult × List ProviderCall
  mint_access_token_http none body calls = (failed (errors unauthorized), calls)
  mint_access_token_http (some user) body calls =
      if given (some user)
      then mint_input user (validate_start_input body) calls
      else (failed (errors unauthorized), calls)
