-- ===== src/Sumsub/Provider.antt =====
-- packages/kyc-node/src/providers/sumsub/provider.ts: the adapter of the provider's REST client to
-- the port of the service, every call of it retried, and the reading of its webhooks.
-- `JSON.parse`, `JSON.stringify` of a header and `toISOString` are parameters.
use kyc.Common.{ℕ, ◌+◌, ◌*◌, String, Option, none, some, List, [], ◌∷◌, if◌then◌else◌, given}
use kyc.Types.{
  VerificationStatus, initial, CreateSessionOptions, ProviderSession, ProviderToken,
  UserStatusLookup,
}
use kyc.Errors.{
  Thrown, errors, create_error, session_creation_failed, provider_unavailable, session_not_found,
  validation_error,
}
use kyc.Action.{Result, ok, err}
use kyc.Retry.{
  CallError, retry_config, Outcome, returned, failed, Retried, with_retry, is_client_error,
  is_not_found_error,
}
use kyc.Service.{ProviderCall, Provider}
use kyc.Sumsub.Mapping.{map_sumsub_status}
use kyc.Sumsub.Config.{SumsubConfig}
use kyc.Sumsub.Client.{
  FetchRequest, ClientDeps, SumsubAccessToken, create_access_token, create_share_token,
  fetch_applicant_status, fetch_applicant_by_external_user_id,
}

-- A header that came once, or several times.
pub data HeaderValue : Type 0 where
  single : String → HeaderValue
  several : List String → HeaderValue

abbrev pub WebhookHeaders : Type 0
WebhookHeaders = String → Option HeaderValue

abbrev pub digest_header : String
digest_header = "x-payload-digest"

abbrev pub digest_alg_header : String
digest_alg_header = "x-payload-digest-alg"

module _ (deps : ClientDeps) (config : SumsubConfig) (to_iso_string : ℕ → String)
    (now : List FetchRequest → ℕ) where
  abbrev pub retried :
      {T : Type 0}
      → (List FetchRequest → Outcome T × List FetchRequest)
      → List FetchRequest
      → Retried (List FetchRequest) T
  retried call sent = with_retry call retry_config sent

  -- `throw isClientError(error) ? ... : Errors.providerUnavailable()`
  abbrev pub refused_or_unavailable : Thrown → CallError → Thrown
  refused_or_unavailable refused e =
      if is_client_error e then refused else errors provider_unavailable

  abbrev pub minted : Retried (List FetchRequest) SumsubAccessToken → Result ProviderToken
  minted r = elim r.outcome [
    | returned answer ↦ ok (record {
      access_token = answer.token;
      expires_at = some (to_iso_string (now r.state + config.token_ttl_secs * 1000));
    })
    | failed e ↦ err (refused_or_unavailable (errors session_creation_failed) e)
  ]

  -- `opts.levelName || config.levelName`
  abbrev pub level_of : Option String → String
  level_of none = config.level_name
  level_of (some level) = if given (some level) then level else config.level_name

  unfoldable pub mint_token :
      String → CreateSessionOptions → List FetchRequest → Result ProviderToken × List FetchRequest
  mint_token user opts sent =
      let r =
        retried
          (create_access_token deps config user (level_of opts.level_name) config.token_ttl_secs)
          sent in
      (minted r, r.state)

  abbrev pub as_session : Result ProviderToken → Result ProviderSession
  as_session (err e) = err e
  as_session (ok t) = ok (record {
    provider_applicant_id = none;
    access_token = t.access_token;
    expires_at = t.expires_at;
  })

  abbrev pub lookup_failure : Thrown → CallError → Thrown
  lookup_failure refused e =
      if is_not_found_error e then errors session_not_found else refused_or_unavailable refused e

  unfoldable pub get_status :
      String → List FetchRequest → Result VerificationStatus × List FetchRequest
  get_status applicant sent =
      let r = retried (fetch_applicant_status deps config applicant) sent in
      (
        elim r.outcome [
          | returned review ↦ ok (map_sumsub_status review.review_status review.review_result)
          | failed e ↦ err (
              lookup_failure
                (create_error validation_error "Provider rejected the applicant lookup") e)
        ],
        r.state,
      )

  unfoldable pub get_status_by_user_id :
      String → List FetchRequest → Result UserStatusLookup × List FetchRequest
  get_status_by_user_id user sent =
      let r = retried (fetch_applicant_by_external_user_id deps config user) sent in
      (
        elim r.outcome [
          | returned a ↦ ok (record {
            status = map_sumsub_status a.review.review_status a.review.review_result;
            provider_applicant_id = some a.applicant_id;
          })
          | failed e ↦
              if is_not_found_error e
              then ok (record { status = initial; provider_applicant_id = none })
              else err (errors provider_unavailable)
        ],
        r.state,
      )

  -- The token, and the milliseconds at which it expires.
  unfoldable pub share_token :
      (applicant_id for_client_id : String)
      → Option ℕ
      → List FetchRequest
      → Result (String × ℕ) × List FetchRequest
  share_token applicant_id for_client_id ttl_secs sent =
      let ttl : ℕ = elim ttl_secs [ none ↦ config.token_ttl_secs | some n ↦ n ] in
      let r = retried (create_share_token deps config applicant_id for_client_id ttl) sent in
      (
        elim r.outcome [
          | returned answer ↦ ok (answer.token, now r.state + ttl * 1000)
          | failed e ↦ err (
              lookup_failure
                (create_error validation_error "Provider rejected the share token request") e)
        ],
        r.state,
      )

  -- The requests that an earlier call of the port has made.
  unfoldable pub call_once : ProviderCall → List FetchRequest → List FetchRequest
  unfolding mint_token get_status get_status_by_user_id
  call_once (ProviderCall.create_session user opts) sent = (mint_token user opts sent).1
  call_once (ProviderCall.refresh_token subject opts) sent =
      (mint_token subject.user_id opts sent).1
  call_once (ProviderCall.get_status applicant) sent = (get_status applicant sent).1
  call_once (ProviderCall.get_status_by_user_id user) sent = (get_status_by_user_id user sent).1

  unfoldable pub sent_by : List ProviderCall → List FetchRequest
  unfolding call_once
  sent_by [] = []
  sent_by (call ∷ earlier) = call_once call (sent_by earlier)

  -- The adapter as the provider of a service: what a call answers may depend on every request that
  -- the earlier calls have made.
  unfoldable pub sumsub_provider : Provider
  unfolding sent_by mint_token get_status get_status_by_user_id
  sumsub_provider = record {
    create_session = λ calls user opts. as_session (mint_token user opts (sent_by calls)).0;
    refresh_token = λ calls subject opts. (mint_token subject.user_id opts (sent_by calls)).0;
    get_status = λ calls applicant. (get_status applicant (sent_by calls)).0;
    get_status_by_user_id = some (λ calls user. (get_status_by_user_id user (sent_by calls)).0);
  }
