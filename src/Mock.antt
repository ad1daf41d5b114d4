-- ===== src/Mock.antt =====
-- packages/kyc-node/src/providers/mock/provider.ts: the provider that runs in memory and signs its
-- own webhooks. The HMAC, the bytes of a text and their comparison, the reader and the writer of
-- JSON, `String(value)`, the ids and the clock are parameters.
pub mod Posted
use kyc.Common.{
  ℕ, suc, ◌+◌, ◌*◌, String, Bool, true, false, not, Option, none, some, List, [], ◌∷◌, ◌<>◌,
  if◌then◌else◌, given, Value, null, str, obj, field, end, Fields, get, as_object, as_text, or_else,
}
use kyc.Types.{
  VerificationStatus, status_text, is_verification_status, initial, approved, declined,
  CreateSessionOptions, TokenSubject, ProviderSession, ProviderToken,
}
use kyc.Errors.{errors, session_not_found}
use kyc.Action.{Result, ok, err, Action}
use kyc.Signature.{timing_safe_equal_string}
use kyc.Store.{Map, lookup, insert}
use kyc.Service.{WebhookEvent}
use kyc.Sumsub.{HeaderValue, single, several, WebhookHeaders, string_list, level_name_of}
use kyc.Http.{HostedPageParams}

pub record MockApplicant : Type 0 where
  pub status : VerificationStatus
  pub user_id : String
  pub level_name : Option String

-- The map of applicants, and the number of ids given out.
pub record MockState : Type 0 where
  pub applicants : Map MockApplicant
  pub ids : ℕ

-- What the page posts back for one of its buttons.
pub record MockPost : Type 0 where
  pub url : String
  pub body : String
  pub signature : String

pub record MockDeps : Type 0 where
  pub hmac_hex : (algorithm secret body : String) → String
  pub buffer_from : String → List ℕ
  pub timing_safe_equal : List ℕ → List ℕ → Bool
  pub json_parse : String → Option Value
  pub stringify : Value → String
  -- `String(value)`, which throws for an object that has no text
  pub text_of : Value → Result String
  pub secret : String
  pub public_base_url : String
  pub new_id : ℕ → String
  pub now : MockState → ℕ
  pub to_iso_string : ℕ → String

abbrev pub mock_applicant_prefix : String
mock_applicant_prefix = "mock-applicant-"

abbrev pub mock_token_prefix : String
mock_token_prefix = "mock-token-"

abbrev pub mock_token_ttl_secs : ℕ
mock_token_ttl_secs = 600

abbrev pub mock_signature_header : String
mock_signature_header = "x-mock-signature"

abbrev pub set_applicant : String → MockApplicant → MockState → MockState
set_applicant id applicant s = record s { applicants = insert id applicant s.applicants }

abbrev pub set_found : String → VerificationStatus → Option MockApplicant → MockState → MockState
set_found id status none s = s
set_found id status (some applicant) s = set_applicant id (record applicant { status = status }) s

-- Of an applicant that is there.
unfoldable pub set_applicant_status : String → VerificationStatus → MockState → MockState
set_applicant_status id status s = set_found id status (lookup id s.applicants) s

unfoldable pub add_applicant :
    String
    → (status : Option VerificationStatus) (user_id level_name : Option String) → MockState
    → MockState
add_applicant id status user_id level_name = set_applicant id (record {
  status = elim status [ none ↦ initial | some given_status ↦ given_status ];
  user_id = elim user_id [ none ↦ "test-user" | some user ↦ user ];
  level_name = level_name;
})

unfoldable pub clear_applicants : MockState → MockState
clear_applicants s = record s { applicants = [] }

unfoldable pub get_status : String → MockState → Result VerificationStatus
get_status id s = elim (lookup id s.applicants) [
  | none ↦ err (errors session_not_found)
  | some applicant ↦ ok applicant.status
]

module _ (deps : MockDeps) where
  unfoldable pub sign_webhook : String → String
  sign_webhook body = deps.hmac_hex "sha256" deps.secret body

  unfoldable pub mint_token : MockState → ProviderToken × MockState
  mint_token s =
      let s' : MockState = record s { ids = suc s.ids } in
      (
        record {
          access_token = mock_token_prefix <> deps.new_id s.ids;
          expires_at = some (deps.to_iso_string (deps.now s + mock_token_ttl_secs * 1000));
        },
        s',
      )

  unfoldable pub create_session :
      String → CreateSessionOptions → MockState → ProviderSession × MockState
  unfolding mint_token
  create_session user opts s =
      let id : String = mock_applicant_prefix <> deps.new_id s.ids in
      let applicant : MockApplicant = record {
        status = initial;
        user_id = user;
        level_name = opts.level_name;
      } in
      let (token, s') = mint_token (set_applicant id applicant (record s { ids = suc s.ids })) in
      (
        record {
          provider_applicant_id = some id;
          access_token = token.access_token;
          expires_at = token.expires_at;
        },
        s',
      )

  unfoldable pub refresh_token :
      TokenSubject → CreateSessionOptions → MockState → ProviderToken × MockState
  unfolding mint_token
  refresh_token subject opts s = mint_token s

  -- `typeof header === 'string'`
  abbrev pub one_signature : Option HeaderValue → Option String
  one_signature (some (single signature)) = some signature
  one_signature _ = none

  abbrev pub verify_signature : Option String → String → Bool
  verify_signature none body = false
  verify_signature (some signature) body =
      if given (some signature)
      then timing_safe_equal_string deps.hmac_hex deps.buffer_from deps.timing_safe_equal signature
          (sign_webhook body)
      else false

  unfoldable pub verify_webhook : WebhookHeaders → String → Bool
  unfolding sign_webhook
  verify_webhook headers body =
      verify_signature (one_signature (headers mock_signature_header)) body

  abbrev pub set_parsed : String → Option VerificationStatus → MockState → MockState
  unfolding set_applicant_status
  set_parsed id none s = s
  set_parsed id (some status) s = set_applicant_status id status s

  abbrev pub event_of :
      String → Fields → Option VerificationStatus → Result String → Result (Option WebhookEvent)
  unfolding string_list
  event_of id payload status (err e) = err e
  event_of id payload status (ok raw_status) = ok (
      some (record {
        provider_applicant_id = id;
        external_user_id = as_text (get "externalUserId" payload);
        status = status;
        raw_status = raw_status;
        level_name = level_name_of (get "levelName" payload);
        reject_labels = string_list (get "rejectLabels" payload);
      }))

  abbrev pub parse_applicant : Option String → Fields → Action MockState (Option WebhookEvent)
  unfolding set_parsed event_of
  parse_applicant none payload s = (ok none, s)
  parse_applicant (some id) payload s =
      if given (some id)
      then (
        event_of id payload (is_verification_status (get "status" payload))
            (deps.text_of (get "status" payload)),
        set_parsed id (is_verification_status (get "status" payload)) s,
      )
      else (ok none, s)

  abbrev pub parse_object : Option Fields → Action MockState (Option WebhookEvent)
  unfolding parse_applicant
  parse_object none s = (ok none, s)
  parse_object (some payload) s = parse_applicant (as_text (get "applicantId" payload)) payload s

  abbrev pub parse_value : Option Value → Action MockState (Option WebhookEvent)
  unfolding parse_object
  parse_value none s = (ok none, s)
  parse_value (some v) s = parse_object (as_object v) s

  -- A known status is set on the applicant as the event is read.
  unfoldable pub parse_webhook_event : String → Action MockState (Option WebhookEvent)
  unfolding parse_value
  parse_webhook_event raw_body s = parse_value (deps.json_parse raw_body) s

  abbrev pub null_or : Option String → Value
  null_or none = null
  null_or (some id) = str id

  abbrev pub post_value : HostedPageParams → VerificationStatus → Value
  post_value params status = obj (
      field "applicantId" (null_or params.applicant_id) (
        field "externalUserId" (str params.user_id)
          (field "status" (str (status_text status)) end)))

  -- What the page of a session posts for one status.
  unfoldable pub post : HostedPageParams → VerificationStatus → MockPost
  unfolding sign_webhook
  post params status =
      let body : String = deps.stringify (post_value params status) in
      record {
        url = deps.public_base_url <> "/webhook/kyc/mock";
        body = body;
        signature = sign_webhook body;
      }
