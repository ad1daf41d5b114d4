-- ===== src/Deployment/App.antt =====
-- packages/kyc-service/src/app.ts: which part of the app answers a request, and the headers that the
-- app adds to the answer.
use kyc.Common.{
  String, Bool, not, ◌&&◌, Option, none, some, List, [], ◌∷◌, ◌==◌, if◌then◌else◌, given, includes,
}
use text.Mathlib.Text.{starts_with}
use kyc.Store.{Map, lookup, insert}

-- What the app reads of a request.
pub record Visit : Type 0 where
  pub method : String
  pub pathname : String
  pub origin : Option String

-- The parts that answer; `graphql_preflight` is the answer to OPTIONS at the GraphQL path.
pub data Part : Type 0 where
  health webhook graphql hosted token_app graphql_preflight : Part

abbrev pub Headers : Type 0
Headers = Map String

abbrev pub security_headers : Headers
security_headers =
    ("content-security-policy", "default-src 'none';frame-ancestors 'none'")
    ∷ ("x-content-type-options", "nosniff")
    ∷ ("x-frame-options", "DENY")
    ∷ ("referrer-policy", "no-referrer")
    ∷ ("cross-origin-resource-policy", "same-origin")
    ∷ ("strict-transport-security", "max-age=15552000; includeSubDomains")
    ∷ []

abbrev pub page_headers : Headers
page_headers =
    ("x-content-type-options", "nosniff")
    ∷ ("strict-transport-security", "max-age=15552000; includeSubDomains")
    ∷ []

-- As pairs, in the order of the object's keys.
unfoldable pub cors_headers : List String → Option String → Headers
cors_headers [] origin = []
cors_headers (o ∷ os) none = ("vary", "origin") ∷ []
cors_headers (o ∷ os) (some origin) =
    if not (given (some origin))
    then ("vary", "origin") ∷ []
    else if includes (o ∷ os) "*"
    then ("vary", "origin") ∷ ("access-control-allow-origin", "*") ∷ []
    else if includes (o ∷ os) origin
    then ("vary", "origin") ∷ ("access-control-allow-origin", origin) ∷ []
    else ("vary", "origin") ∷ []

-- `if (!response.headers.has(key)) response.headers.set(key, value)`
unfoldable pub set_default : String → String → Option String → Headers → Headers
unfolding insert
set_default key value none headers = insert key value headers
set_default key value (some own) headers = headers

unfoldable pub with_defaults : Headers → Headers → Headers
unfolding set_default lookup
with_defaults headers [] = headers
with_defaults headers ((key, value) ∷ defaults) =
    with_defaults (set_default key value (lookup key headers) headers) defaults

-- `route`, where `on` is whether sessions are on, and the answer to the preflight before it.
unfoldable pub routed : (on : Bool) → Visit → Part
routed on visit =
    if visit.method == "OPTIONS" && visit.pathname == "/graphql"
    then graphql_preflight
    else if visit.method == "GET" && visit.pathname == "/health"
    then health
    else if on && visit.method == "POST" && starts_with visit.pathname "/webhook/kyc/"
    then webhook
    else if on && visit.pathname == "/graphql"
    then graphql
    else if on && visit.method == "GET" && starts_with visit.pathname "/hosted/"
    then hosted
    else token_app

abbrev pub policy : Part → Headers
policy hosted = page_headers
policy _ = security_headers

abbrev pub preflight_headers : Headers
preflight_headers =
    ("access-control-allow-methods", "POST, OPTIONS")
    ∷ ("access-control-allow-headers", "authorization, content-type")
    ∷ ("access-control-max-age", "86400")
    ∷ []

unfoldable pub answer_of : Part → Headers → Headers → Headers
unfolding with_defaults
answer_of graphql_preflight cors own = with_defaults cors preflight_headers
answer_of part cors own = with_defaults (with_defaults own (policy part)) cors

-- The headers of the app's answer: `own` is what each part sets itself.
unfoldable pub app_fetch :
    (own : Part → Visit → Headers) → (on : Bool) → List String → Visit → Headers
unfolding answer_of routed cors_headers
app_fetch own on origins visit =
    answer_of (routed on visit) (cors_headers origins visit.origin) (own (routed on visit) visit)
