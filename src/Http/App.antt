-- ===== src/Http/App.antt =====
-- packages/kyc-node/src/handlers.ts, `createAccessTokenApp`: the mint-only surface behind one entry.
use kyc.Common.{
  String, Bool, true, false, ◌&&◌, Option, none, some, List, [], ◌∷◌, ◌++◌, ◌==◌, if◌then◌else◌,
  truthy, includes, Value, str, obj, field, end,
}
use kyc.Types.{CreateSessionOptions, ProviderSession}
use kyc.Action.{Result, ok, err, Action}
use kyc.Validation.{ValidatedStartInput}
use kyc.Service.{ProviderCall}
use kyc.Http.Results.{error_body}
use kyc.Http.Tokens.{mint_access_token_http}
use kyc.Http.Fetch.{Request, Headers, Response, no_body, json_response, json_handler}

pub record AccessTokenAppOptions : Type 0 where
  pub create_session : List ProviderCall → String → CreateSessionOptions → Result ProviderSession
  pub authenticate : Request → Result (Option String)
  pub level_for : Option (Request → ValidatedStartInput → String → Result (Option String))
  pub path : String
  pub health : Bool
  -- the origins of a CORS policy, if the host configured one
  pub cors : Option (List String)

abbrev pub access_token_path : String
access_token_path = "/verification/token"

abbrev pub health_path : String
health_path = "/health"

abbrev pub vary : String × String
vary = ("vary", "origin")

abbrev pub allow_origin : String → List String → Headers
allow_origin origin origins =
    if includes origins "*"
    then vary ∷ ("access-control-allow-origin", "*") ∷ []
    else if includes origins origin
    then vary ∷ ("access-control-allow-origin", origin) ∷ []
    else vary ∷ []

unfoldable pub cors_headers : Option (List String) → Option String → Headers
cors_headers none origin = []
cors_headers (some origins) none = vary ∷ []
cors_headers (some origins) (some origin) =
    if truthy origin then allow_origin origin origins else vary ∷ []

-- `response.headers.set(key, value)`, for keys that the response does not have yet
abbrev pub with_headers : Headers → Result Response → Result Response
with_headers extra (err e) = err e
with_headers extra (ok r) = ok (record r { headers = r.headers ++ extra })

abbrev pub preflight : Headers → Response
preflight cors = record {
  status = 204;
  headers =
      cors
      ++ (("access-control-allow-methods", "POST, OPTIONS")
          ∷ ("access-control-allow-headers", "authorization, content-type")
          ∷ ("access-control-max-age", "86400")
          ∷ []);
  body = no_body;
}

abbrev pub has_policy : Option (List String) → Bool
has_policy none = false
has_policy (some origins) = true

module _ (json_parse : String → Option Value) (timestamp : String)
    (options : AccessTokenAppOptions) where
  abbrev pub hook_for : Request → Option (ValidatedStartInput → String → Result (Option String))
  hook_for request = elim options.level_for [
    | none ↦ none
    | some hook ↦ some (λ input user. hook request input user)
  ]

  unfoldable pub mint : Request → Action (List ProviderCall) Response
  mint request calls =
      let (result, calls') =
        json_handler json_parse options.authenticate
          (mint_access_token_http options.create_session (hook_for request)) request calls in
      (with_headers (cors_headers options.cors (request.headers "origin")) result, calls')

  unfoldable pub health_or_not_found : Request → Response
  health_or_not_found request =
      if options.health && request.method == "GET" && request.pathname == health_path
      then json_response 200
          (obj (field "status" (str "ok") (field "timestamp" (str timestamp) end)))
      else json_response 404 (error_body "Not found")

  unfoldable pub fetch : Request → Action (List ProviderCall) Response
  unfolding mint health_or_not_found
  fetch request calls =
      if has_policy options.cors && request.method == "OPTIONS" && request.pathname == options.path
      then (ok (preflight (cors_headers options.cors (request.headers "origin"))), calls)
      else if request.method == "POST" && request.pathname == options.path
      then mint request calls
      else (ok (health_or_not_found request), calls)
