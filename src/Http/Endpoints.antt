-- ===== src/Http/Endpoints.antt =====
-- packages/kyc-node/src/handlers.ts: the session endpoints, the webhook endpoint and the hosted page,
-- over the service. The adapter's verifier and reader of webhooks, its page, and the text of the
-- not-found page are parameters.
use kyc.Common.{
  ℕ, String, Bool, true, false, Option, none, some, if◌then◌else◌, Value, null, bool, str, obj,
  field, end, property, as_text,
}
use kyc.Types.{status_text}
use kyc.Action.{Result, ok, err, Action}
use kyc.Store.{SessionRecord}
use kyc.Service.{
  World, ServiceDeps, StatusTransitionOutcome, WebhookEvent, WebhookOutcome, StartResult,
  HostedPageDecision, start, refresh, handle_webhook_event, hosted_page,
}
use kyc.Store.{StatusWriteOutcome}
use kyc.Http.Pages.{HostedPageParams, no_csp_options, hosted_page_csp, default_permissions_policy}
use kyc.Http.Results.{HttpResult, answer, error_body, respond}

-- `applicantId` is null where there is none.
abbrev pub null_or : Option String → Value
null_or none = null
null_or (some s) = str s

abbrev pub start_body : StartResult → Value
start_body r = obj (
    field "sessionId" (str r.session_id) (
      field "provider" (str r.provider) (
        field "status" (str (status_text r.status)) (
          field "applicantId" (null_or r.applicant_id) (
            field "accessToken" (str r.access_token)
              (field "url" (str r.url) (field "allowedOrigin" (str r.allowed_origin) end)))))))

abbrev pub refresh_body : String → Value
refresh_body token = obj (field "accessToken" (str token) end)

abbrev pub text_or_empty : Option String → String
text_or_empty none = ""
text_or_empty (some s) = s

abbrev pub write_outcome_text : StatusWriteOutcome → String
write_outcome_text StatusWriteOutcome.updated = "updated"
write_outcome_text StatusWriteOutcome.unchanged = "unchanged"
write_outcome_text StatusWriteOutcome.rejected_terminal = "rejected_terminal"

abbrev pub transition_outcome_text : StatusTransitionOutcome → String
transition_outcome_text (StatusTransitionOutcome.write o) = write_outcome_text o
transition_outcome_text StatusTransitionOutcome.rejected_unbound = "rejected_unbound"

abbrev pub outcome_text : WebhookOutcome → String
outcome_text WebhookOutcome.ignored_unknown_status = "ignored_unknown_status"
outcome_text WebhookOutcome.unknown_session = "unknown_session"
outcome_text (WebhookOutcome.transition o) = transition_outcome_text o

abbrev pub received_body : WebhookOutcome → Value
received_body outcome =
    obj (field "received" (bool true) (field "outcome" (str (outcome_text outcome)) end))

pub record HostedPageRenderer : Type 0 where
  pub csp : Option (String → String)
  pub permissions_policy : Option String
  pub render : HostedPageParams → String

pub record HostedPageHttpResult : Type 0 where
  pub status : ℕ
  pub html : String
  pub nonce : String
  pub csp : String
  pub permissions_policy : String

abbrev pub csp_of : Option HostedPageRenderer → String → String
csp_of none nonce = hosted_page_csp nonce no_csp_options
csp_of (some page) nonce = elim page.csp [
  | none ↦ hosted_page_csp nonce no_csp_options
  | some csp ↦ csp nonce
]

abbrev pub permissions_of : Option HostedPageRenderer → String
permissions_of none = default_permissions_policy
permissions_of (some page) = elim page.permissions_policy [
  | none ↦ default_permissions_policy
  | some policy ↦ policy
]

abbrev pub page_params : SessionRecord → String → String → HostedPageParams
page_params session access_token nonce = record {
  session_id = session.id;
  user_id = session.user_id;
  access_token = access_token;
  locale = session.locale;
  applicant_id = session.provider_applicant_id;
  nonce = nonce;
}

module _ (deps : ServiceDeps) where
  unfoldable pub start_session_http : Option String → Value → World → HttpResult × World
  start_session_http user_id body = respond start_body (start deps user_id body)

  unfoldable pub refresh_session_http : Option String → Value → World → HttpResult × World
  refresh_session_http user_id body =
      respond refresh_body
        (refresh deps user_id (text_or_empty (as_text (property "sessionId" body))))

  abbrev pub processed : Result WebhookOutcome → HttpResult
  processed (ok outcome) = answer 200 (received_body outcome)
  processed (err e) = answer 500 (error_body "Processing failed")

  abbrev pub process_event : Option WebhookEvent → World → HttpResult × World
  process_event none w = (answer 400 (error_body "Invalid payload"), w)
  process_event (some event) w =
      let (result, w') = handle_webhook_event deps event w in (processed result, w')

  -- A verifier that throws has not verified the request.
  abbrev pub is_verified : Result Bool → Bool
  is_verified (ok verified) = verified
  is_verified (err e) = false

  unfoldable pub process_webhook_http :
      (verified : Result Bool) (event : Option WebhookEvent) → World → HttpResult × World
  process_webhook_http verified event w =
      if is_verified verified
      then process_event event w
      else (answer 401 (error_body "Unauthorized"), w)

  module _ (render_not_found_page : String → String) where
    abbrev pub shown : Option HostedPageRenderer → String → ℕ → String → HostedPageHttpResult
    shown page nonce status html = record {
      status = status;
      html = html;
      nonce = nonce;
      csp = csp_of page nonce;
      permissions_policy = permissions_of page;
    }

    abbrev pub decided : HostedPageRenderer → String → HostedPageDecision → HostedPageHttpResult
    decided page nonce HostedPageDecision.not_found =
        shown (some page) nonce 404 (render_not_found_page nonce)
    decided page nonce HostedPageDecision.bad_gateway =
        shown (some page) nonce 502 (render_not_found_page nonce)
    decided page nonce (HostedPageDecision.page session access_token) =
        shown (some page) nonce 200 (page.render (page_params session access_token nonce))

    -- Rejects where the store does.
    unfoldable pub hosted_page_http :
        Option HostedPageRenderer → (session_id nonce : String) → Action World HostedPageHttpResult
    hosted_page_http none session_id nonce w =
        (ok (shown none nonce 404 (render_not_found_page nonce)), w)
    hosted_page_http (some page) session_id nonce w =
        let (result, w') = hosted_page deps session_id w in
        (elim result [ err e ↦ err e | ok decision ↦ ok (decided page nonce decision) ], w')
