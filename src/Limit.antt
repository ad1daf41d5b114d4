-- ===== src/Limit.antt =====
-- packages/kyc-service/src/server.ts and proxy.ts: the rate limiter of the container. A limit is a
-- whole number, a time is in milliseconds, and what `Number` and `split` and `trim` make of a text are
-- parameters.
pub mod Windows
pub mod Bursts
pub mod Minutes
use kyc.Common.{
  ℕ, zero, suc, ◌+◌, ◌-◌, String, Bool, true, false, not, ◌&&◌, Option, none, some, List, [], ◌∷◌,
  ◌==◌, ltb, leb, eqb, if◌then◌else◌, given, or_else, ◌<>◌,
}
use Prim.Native.Nat.{◌/◌}
use text.Mathlib.Text.{starts_with}
use kyc.Store.{Map, lookup, insert}

abbrev pub rate_limit_window_ms : ℕ
rate_limit_window_ms = 60000

pub data Route : Type 0 where
  token hosted webhook graphql : Route

pub record RateLimits : Type 0 where
  pub token : ℕ
  pub hosted : ℕ
  pub webhook : ℕ
  pub graphql : ℕ

abbrev pub default_rate_limits : RateLimits
default_rate_limits = record { token = 60; hosted = 60; webhook = 120; graphql = 100 }

-- `number` is what `Number` makes of a text, where it is finite and not negative; an unset variable is
-- not a number.
abbrev limit_from_env : (number : String → Option ℕ) → Option String → ℕ → ℕ
limit_from_env number none fallback = fallback
limit_from_env number (some value) fallback = elim (number value) [
  | none ↦ fallback
  | some parsed ↦ parsed
]

unfoldable pub rate_limits_from_env :
    (number : String → Option ℕ) → (env : String → Option String) → RateLimits
rate_limits_from_env number env = record {
  token = limit_from_env number (env "RATE_LIMIT_TOKEN_PER_MIN") 60;
  hosted = limit_from_env number (env "RATE_LIMIT_HOSTED_PER_MIN") 60;
  webhook = limit_from_env number (env "RATE_LIMIT_WEBHOOK_PER_MIN") 120;
  graphql = limit_from_env number (env "RATE_LIMIT_GRAPHQL_PER_MIN") 100;
}

unfoldable pub limited_route : String → Option Route
limited_route pathname =
    if pathname == "/verification/token"
    then some Route.token
    else if starts_with pathname "/hosted/"
    then some Route.hosted
    else if starts_with pathname "/webhook/kyc/"
    then some Route.webhook
    else if pathname == "/graphql"
    then some Route.graphql
    else none

abbrev pub limit_of : RateLimits → Route → ℕ
limit_of limits Route.token = limits.token
limit_of limits Route.hosted = limits.hosted
limit_of limits Route.webhook = limits.webhook
limit_of limits Route.graphql = limits.graphql

abbrev route_name : Route → String
route_name Route.token = "token"
route_name Route.hosted = "hosted"
route_name Route.webhook = "webhook"
route_name Route.graphql = "graphql"

abbrev pub window_key : Route → String → String
window_key route client = route_name route <> ":" <> client

abbrev pub rate_limit_max_windows : ℕ
rate_limit_max_windows = 10000

pub record RateWindow : Type 0 where
  pub count : ℕ
  pub reset_at : ℕ

abbrev pub size : Map RateWindow → ℕ
size [] = 0
size (entry ∷ windows) = suc (size windows)

-- The first loop, over what has elapsed, and the second, from the oldest entry on.
unfoldable pub drop_elapsed : ℕ → Map RateWindow → Map RateWindow
drop_elapsed now [] = []
drop_elapsed now ((key, window) ∷ windows) =
    let rest = drop_elapsed now windows in
    if leb window.reset_at now then rest else (key, window) ∷ rest

unfoldable pub drop_oldest : ℕ → Map RateWindow → Map RateWindow
drop_oldest max [] = []
drop_oldest max (entry ∷ windows) =
    let rest = drop_oldest max windows in
    if ltb (size (entry ∷ windows)) max then entry ∷ windows else rest

unfoldable pub sweep_windows : ℕ → ℕ → Map RateWindow → Map RateWindow
unfolding drop_elapsed drop_oldest
sweep_windows now max windows = drop_oldest max (drop_elapsed now windows)

pub record RateLimitDecision : Type 0 where
  pub allowed : Bool
  pub limit : ℕ
  pub remaining : ℕ
  pub reset_seconds : ℕ

-- `Math.ceil(ms / 1000)`
abbrev pub seconds_up : ℕ → ℕ
seconds_up ms = (ms + 999) / 1000

abbrev pub swept : ℕ → Map RateWindow → Map RateWindow
unfolding sweep_windows
swept now windows =
    if leb rate_limit_max_windows (size windows)
    then sweep_windows now rate_limit_max_windows windows
    else windows

-- A request that is limited, which opens a window or counts in its own.
abbrev pub opened : ℕ → String → ℕ → Map RateWindow → RateLimitDecision × Map RateWindow
unfolding insert
opened limit key now windows = (
  record {
    allowed = true;
    limit = limit;
    remaining = limit - 1;
    reset_seconds = rate_limit_window_ms / 1000;
  },
  insert key (record { count = 1; reset_at = now + rate_limit_window_ms }) windows,
)

abbrev pub counted :
    ℕ → String → ℕ → RateWindow → Map RateWindow → RateLimitDecision × Map RateWindow
unfolding insert
counted limit key now window windows = (
  record {
    allowed = leb (suc window.count) limit;
    limit = limit;
    remaining = limit - suc window.count;
    reset_seconds = seconds_up (window.reset_at - now);
  },
  insert key (record window { count = suc window.count }) windows,
)

abbrev pub admit_found :
    ℕ → String → ℕ → Map RateWindow → Option RateWindow → RateLimitDecision × Map RateWindow
unfolding opened counted
admit_found limit key now windows none = opened limit key now windows
admit_found limit key now windows (some window) =
    if leb window.reset_at now
    then opened limit key now windows
    else counted limit key now window windows

unfoldable pub admit : ℕ → String → ℕ → Map RateWindow → RateLimitDecision × Map RateWindow
unfolding admit_found swept lookup
admit limit key now windows =
    admit_found limit key now (swept now windows) (lookup key (swept now windows))

pub record Request : Type 0 where
  pub pathname : String
  pub client : String
  pub time : ℕ

abbrev pub decided : RateLimitDecision × Map RateWindow → Option RateLimitDecision × Map RateWindow
decided (decision, windows) = (some decision, windows)

abbrev pub decide_for :
    RateLimits → Request → Map RateWindow → Option Route → Option RateLimitDecision × Map RateWindow
unfolding admit
decide_for limits request windows none = (none, windows)
decide_for limits request windows (some route) =
    if eqb (limit_of limits route) 0
    then (none, windows)
    else decided
        (admit (limit_of limits route) (window_key route request.client) request.time windows)

-- The limiter that `createRateLimiter` returns, with the windows that it keeps.
unfoldable pub decide :
    RateLimits → Request → Map RateWindow → Option RateLimitDecision × Map RateWindow
unfolding decide_for limited_route
decide limits request windows = decide_for limits request windows (limited_route request.pathname)

-- A sequence of requests, from the first on.
unfoldable pub decide_all :
    RateLimits → List Request → Map RateWindow → List (Option RateLimitDecision) × Map RateWindow
unfolding decide
decide_all limits [] windows = ([], windows)
decide_all limits (request ∷ requests) windows =
    let first = decide limits request windows in
    let rest = decide_all limits requests first.1 in (first.0 ∷ rest.0, rest.1)

-- `TRUST_PROXY`, and the client that the limiter counts: `forwarded` is the trimmed first part of the
-- request's X-Forwarded-For, if it has one.
unfoldable pub trusts_proxy : (env : String → Option String) → Bool
trusts_proxy env = elim (env "TRUST_PROXY") [ none ↦ false | some value ↦ value == "true" ]

unfoldable pub forwarded_client_ip : (forwarded : Option String) → Bool → Option String
forwarded_client_ip forwarded trust = if trust && given forwarded then forwarded else none

unfoldable pub client_of :
    (forwarded : Option String) (address : Option String) → (trust : Bool) → String
unfolding forwarded_client_ip
client_of forwarded address trust = elim (forwarded_client_ip forwarded trust) [
  | some ip ↦ ip
  | none ↦ elim (if given address then address else none) [ none ↦ "unknown" | some a ↦ a ]
]
