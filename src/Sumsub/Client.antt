-- ===== src/Sumsub/Client.antt =====
-- packages/kyc-node/src/providers/sumsub/client.ts: the signed requests of the provider's REST API.
-- The HMAC, `fetch`, the JSON reader and writer, `encodeURIComponent` and `toUpperCase` are
-- parameters; the state is the list of the requests made, newest first. `response.json()` is a cast
-- there, with no check: a response of another shape, which would give undefined for a missing
-- `token` or `id`, is not modelled.
use kyc.Common.{
  ℕ, String, Bool, ◌&&◌, Option, none, some, List, ◌∷◌, ◌<>◌, if◌then◌else◌, given, decimal,
  undefined, ltb, leb, Value, num, str, obj, field, end,
}
use kyc.Retry.{CallError, http_error, named_error, Outcome, returned, failed}
use kyc.Sumsub.Config.{SumsubConfig}

pub record FetchRequest : Type 0 where
  pub url : String
  pub method : String
  pub timeout_ms : ℕ
  pub app_token : String
  pub timestamp : ℕ
  pub signature : String
  pub body : Option String

-- What `fetch` comes to: a rejection, or a response with its status and its text.
pub data FetchAnswer : Type 0 where
  rejected : CallError → FetchAnswer
  response : (status : ℕ) (text : String) → FetchAnswer

pub record SumsubAccessToken : Type 0 where
  pub token : String

pub record SumsubReviewPayload : Type 0 where
  pub review_status : Option String
  pub review_result : Value

-- The applicant's endpoint answers with an id and, once there is one, a review.
pub record ApplicantAnswer : Type 0 where
  pub id : String
  pub review : Option SumsubReviewPayload

pub record SumsubApplicant : Type 0 where
  pub applicant_id : String
  pub review : SumsubReviewPayload

-- What lies outside the client.
pub record ClientDeps : Type 0 where
  pub hmac_hex : (algorithm secret body : String) → String
  pub fetch : List FetchRequest → FetchRequest → FetchAnswer
  -- the unix seconds of each request
  pub now : List FetchRequest → ℕ
  pub to_upper_case : String → String
  pub encode_uri_component : String → String
  pub stringify : Value → String
  -- `response.json()` on texts of the shape asked for, or nothing where it throws
  pub access_token_json : String → Option SumsubAccessToken
  pub review_json : String → Option SumsubReviewPayload
  pub applicant_json : String → Option ApplicantAnswer

abbrev pub body_text : Option String → String
body_text none = ""
body_text (some body) = body

-- A configured credential; an empty one counts as missing.
abbrev pub credential : Option String → Option String
credential none = none
credential (some s) = if given (some s) then some s else none

-- `(await response.json()) as T`
abbrev pub read_json : {T : Type 0} → Option T → Outcome T
read_json none = failed (named_error "SyntaxError")
read_json (some t) = returned t

abbrev pub is_ok : ℕ → Bool
is_ok status = leb 200 status && ltb status 300

module _ (deps : ClientDeps) where
  unfoldable pub sign_payload : ℕ → (method path_with_query body secret_key : String) → String
  sign_payload ts method path_with_query body secret_key =
      deps.hmac_hex "sha256" secret_key
        (decimal ts <> deps.to_upper_case method <> path_with_query <> body)

  module _ (config : SumsubConfig) where
    abbrev pub answered : {T : Type 0} → (String → Option T) → FetchAnswer → Outcome T
    answered read (rejected e) = failed e
    answered read (response status text) =
        if is_ok status then read_json (read text) else failed (http_error status text)

    unfoldable pub signed_request :
        (app_token secret_key method path_with_query : String)
        → Option String
        → List FetchRequest
        → FetchRequest
    unfolding sign_payload
    signed_request app_token secret_key method path_with_query body sent =
        let ts = deps.now sent in
        record {
          url = config.base_url <> path_with_query;
          method = deps.to_upper_case method;
          timeout_ms = config.request_timeout_ms;
          app_token = app_token;
          timestamp = ts;
          signature = sign_payload ts method path_with_query (body_text body) secret_key;
          body = body;
        }

    abbrev pub send :
        {T : Type 0}
        → (String → Option T)
        → FetchRequest
        → List FetchRequest
        → Outcome T × List FetchRequest
    send read r sent = (answered read (deps.fetch sent r), r ∷ sent)

    -- With the credentials; without one the call throws a plain `Error` and sends nothing.
    abbrev pub request_with :
        {T : Type 0}
        → Option String
        → Option String
        → (String → Option T)
        → (method path_with_query : String) → Option String
        → List FetchRequest
        → Outcome T × List FetchRequest
    request_with none secret_key read method path body sent = (failed (named_error "Error"), sent)
    request_with (some token) none read method path body sent = (failed (named_error "Error"), sent)
    request_with (some token) (some key) read method path body sent =
        send read (signed_request token key method path body sent) sent

    abbrev pub request :
        {T : Type 0}
        → (String → Option T)
        → (method path_with_query : String) → Option String
        → List FetchRequest
        → Outcome T × List FetchRequest
    request read method path body =
        request_with (credential config.app_token) (credential config.secret_key) read method path
          body

    unfoldable pub create_access_token :
        (external_user_id level_name : String)
        → ℕ
        → List FetchRequest
        → Outcome SumsubAccessToken × List FetchRequest
    create_access_token external_user_id level_name ttl_in_secs =
        request deps.access_token_json "POST" "/resources/accessTokens/sdk" (
          some (
            deps.stringify (
              obj (
                field "userId" (str external_user_id)
                  (field "levelName" (str level_name) (field "ttlInSecs" (num ttl_in_secs) end))))))

    unfoldable pub create_share_token :
        (applicant_id for_client_id : String)
        → ℕ
        → List FetchRequest
        → Outcome SumsubAccessToken × List FetchRequest
    create_share_token applicant_id for_client_id ttl_in_secs =
        request deps.access_token_json "POST" "/resources/accessTokens/shareToken" (
          some (
            deps.stringify (
              obj (
                field "applicantId" (str applicant_id) (
                  field "forClientId" (str for_client_id)
                    (field "ttlInSecs" (num ttl_in_secs) end))))))

    unfoldable pub fetch_applicant_status :
        String → List FetchRequest → Outcome SumsubReviewPayload × List FetchRequest
    fetch_applicant_status applicant_id =
        request deps.review_json "GET"
          ("/resources/applicants/" <> deps.encode_uri_component applicant_id <> "/status") none

    -- `applicant.review ?? {}`
    abbrev pub review_or_none : Option SumsubReviewPayload → SumsubReviewPayload
    review_or_none none = record { review_status = none; review_result = undefined }
    review_or_none (some review) = review

    abbrev pub applicant_of : Outcome ApplicantAnswer → Outcome SumsubApplicant
    applicant_of (failed e) = failed e
    applicant_of (returned a) =
        returned (record { applicant_id = a.id; review = review_or_none a.review })

    unfoldable pub fetch_applicant_by_external_user_id :
        String → List FetchRequest → Outcome SumsubApplicant × List FetchRequest
    fetch_applicant_by_external_user_id external_user_id sent =
        let (answer, sent') =
          request deps.applicant_json "GET"
            ("/resources/applicants/-;externalUserId="
              <> deps.encode_uri_component external_user_id
              <> "/one")
            none sent in
        (applicant_of answer, sent')
