-- ===== src/Http/Fetch.antt =====
-- packages/kyc-node/src/handlers.ts: the Fetch API handlers. `JSON.parse`, the host's authentication
-- and the parsing of a request's URL are parameters.
use Prim.Native.Char.{code}
use kyc.Common.{
  Bool, true, false, ◌<>◌, eqb, ℕ, String, Option, none, some, List, [], ◌∷◌, if◌then◌else◌, truthy,
  Value, undefined,
}
use kyc.Errors.{object, absent}
use kyc.Action.{Result, ok, err, Action}
use kyc.Service.{World, ServiceDeps, WebhookEvent}
use kyc.Sumsub.{WebhookHeaders, single}
use kyc.Http.Results.{number, inherited_member, HttpResult, answer, error_body}
use kyc.Http.Endpoints.{
  HostedPageRenderer, HostedPageHttpResult, is_verified, process_webhook_http, hosted_page_http,
  start_session_http, refresh_session_http,
}

pub record Request : Type 0 where
  pub method : String
  pub pathname : String
  -- by name in lower case
  pub headers : String → Option String
  pub text : String

abbrev pub Headers : Type 0
Headers = List (String × String)

pub data ResponseBody : Type 0 where
  no_body : ResponseBody
  json_body : Value → ResponseBody
  html_body : String → ResponseBody

pub record Response : Type 0 where
  pub status : ℕ
  pub headers : Headers
  pub body : ResponseBody

abbrev pub json_response : ℕ → Value → Response
json_response status body = record {
  status = status;
  headers = ("content-type", "application/json") ∷ [];
  body = json_body body;
}

-- `new Response(..., { status })` throws where the status is no number.
unfoldable pub json : HttpResult → Result Response
json r = elim r.status [
  | number status ↦ ok (json_response status r.body)
  | inherited_member ↦ err (object absent absent "RangeError")
]

abbrev pub invalid_json_body : HttpResult
invalid_json_body = answer 400 (error_body "Invalid JSON body")

-- A body, unless it is not JSON; an empty one is fine.
unfoldable pub read_json : (String → Option Value) → Request → Option Value
read_json json_parse request =
    if truthy request.text then json_parse request.text else some undefined

module _ {S : Type 0} (json_parse : String → Option Value)
    (authenticate : Request → Result (Option String)) where
  unfoldable pub with_user :
      (Option String → S → HttpResult × S) → Result (Option String) → Action S Response
  unfolding json
  with_user serve (err e) s = (err e, s)
  with_user serve (ok user) s = let (result, s') = serve user s in (json result, s')

  unfoldable pub with_body :
      (Option String → Value → S → HttpResult × S) → Request → Option Value → Action S Response
  unfolding with_user json
  with_body serve request none s = (json invalid_json_body, s)
  with_body serve request (some body) s =
      with_user (λ user. serve user body) (authenticate request) s

  -- A handler of an authenticated JSON request.
  unfoldable pub json_handler :
      (Option String → Value → S → HttpResult × S) → Request → Action S Response
  unfolding with_body with_user read_json
  json_handler serve request = with_body serve request (read_json json_parse request)

module _ (deps : ServiceDeps) (json_parse : String → Option Value)
    (authenticate : Request → Result (Option String)) where
  unfoldable pub session_start_handler : Request → Action World Response
  unfolding json_handler
  session_start_handler request w =
      json_handler json_parse authenticate (start_session_http deps) request w

  unfoldable pub session_refresh_handler : Request → Action World Response
  unfolding json_handler
  session_refresh_handler request w =
      json_handler json_parse authenticate (refresh_session_http deps) request w

-- A request's headers as a webhook's: each came once.
abbrev pub headers_of : Request → WebhookHeaders
headers_of request name = elim (request.headers name) [
  | none ↦ none
  | some value ↦ some (single value)
]

abbrev pub kept_segment : (current last : String) → String
kept_segment current last = if truthy current then current else last

abbrev pub segment_from : (current last : String) → String → String
segment_from current last String.[] = kept_segment current last
segment_from current last (String.◌∷◌ c rest) = elim (eqb (code c) b'/') [
  | true ↦ segment_from "" (kept_segment current last) rest
  | false ↦ segment_from (current <> String.◌∷◌ c "") last rest
]

-- The last segment of the path that is not empty, or the empty text.
unfoldable pub last_path_segment : Request → String
last_path_segment request = segment_from "" "" request.pathname

module _ (deps : ServiceDeps) where
  -- A reader of events that throws makes the handler reject, before anything is changed.
  abbrev pub parsed_webhook_http :
      Result Bool → Result (Option WebhookEvent) → World → Result HttpResult × World
  unfolding process_webhook_http
  parsed_webhook_http verified (ok event) w =
      let (result, w') = process_webhook_http deps verified event w in (ok result, w')
  parsed_webhook_http verified (err e) w =
      if is_verified deps verified
      then (err e, w)
      else (ok (answer 401 (error_body "Unauthorized")), w)

  abbrev pub sent_json : Result HttpResult → Result Response
  unfolding json
  sent_json (err e) = err e
  sent_json (ok result) = json result

  unfoldable pub webhook_handler :
      (verify_webhook : WebhookHeaders → String → Result Bool)
      (parse_webhook_event : String → Result (Option WebhookEvent))
      → Request
      → Action World Response
  unfolding parsed_webhook_http sent_json
  webhook_handler verify_webhook parse_webhook_event request w =
      let (result, w') =
        parsed_webhook_http (verify_webhook (headers_of request) request.text)
          (parse_webhook_event request.text) w in
      (sent_json result, w')

  abbrev pub page_response : HostedPageHttpResult → Response
  page_response result = record {
    status = result.status;
    headers =
        ("Content-Security-Policy", result.csp)
        ∷ ("Permissions-Policy", result.permissions_policy)
        ∷ ("Referrer-Policy", "no-referrer")
        ∷ ("Cache-Control", "no-store")
        ∷ ("content-type", "text/html; charset=utf-8")
        ∷ [];
    body = html_body result.html;
  }

  abbrev pub sent_page : Result HostedPageHttpResult → Result Response
  sent_page (err e) = err e
  sent_page (ok result) = ok (page_response result)

  unfoldable pub hosted_page_handler :
      (render_not_found_page : String → String)
      → Option HostedPageRenderer
      → (nonce : String) → (session_id : Option (Request → String)) → Request
      → Action World Response
  unfolding hosted_page_http last_path_segment
  hosted_page_handler render_not_found_page page nonce session_id request w =
      let id : String = elim session_id [
        | none ↦ last_path_segment request
        | some of_request ↦ of_request request
      ] in
      let (result, w') = hosted_page_http deps render_not_found_page page id nonce w in
      (sent_page result, w')
