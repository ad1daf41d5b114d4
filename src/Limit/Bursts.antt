-- ===== src/Limit/Bursts.antt =====
-- packages/kyc-service/src/server.ts: how many requests of a client the rate limiter lets through in
-- a minute.
use kyc.Common.{
  ◌≡◌, refl, sym, ◌∙◌, ap₂, subst, ℕ, suc, ◌≤◌, ◌<◌, String, Bool, true, false, ◌&&◌, inl, inr,
  Option, none, some, List, [], ◌∷◌, ◌==◌, eq_iff, eq_refl, leb, eqb, if◌then◌else◌, if-holds,
  if-holds_by, Bool-cases, arith,
}
use kyc.Store.{Map, lookup, insert, lookup-insert}
use kyc.Limit.{
  RateLimits, RateWindow, RateLimitDecision, Request, Route, rate_limit_max_windows, size, swept,
  admit, admit_found, opened, counted, decide, decide_for, limit_of, window_key, limited_route,
  decided,
}

abbrev pub same_route : Route → Route → Bool
same_route Route.token Route.token = true
same_route Route.hosted Route.hosted = true
same_route Route.webhook Route.webhook = true
same_route Route.graphql Route.graphql = true
same_route _ _ = false

abbrev on_route : Route → Option Route → Bool
on_route route none = false
on_route route (some r) = same_route r route

-- Whether a request is one of a client's on a route.
abbrev pub is_of : Route → String → Request → Bool
unfolding limited_route
is_of route client request =
    on_route route (limited_route request.pathname) && request.client == client

abbrev pub passed : Option RateLimitDecision → Bool
passed none = false
passed (some decision) = decision.allowed

-- How many of a client's requests on a route were limited and let through.
unfoldable pub let_through : Route → String → List Request → List (Option RateLimitDecision) → ℕ
unfolding is_of
let_through route client (request ∷ requests) (decision ∷ decisions) =
    let rest = let_through route client requests decisions in
    if is_of route client request && passed decision then suc rest else rest
let_through route client _ _ = 0

abbrev pub count_all : List Request → ℕ
count_all [] = 0
count_all (request ∷ requests) = suc (count_all requests)

-- That the window of a key is open until a time, with what was counted in it.
abbrev pub IsOpen : String → RateWindow → Map RateWindow → Type 0
unfolding lookup
IsOpen key window windows = lookup key windows ≡ some window

-- What a request does to an open window: nothing, or it counts in it.
pub record IsCounted (key : String) (limits : RateLimits) (window : RateWindow) (route : Route)
    (client : String) (request : Request) (outcome : Option RateLimitDecision × Map RateWindow)
    : Type 0 where
  pub after : RateWindow
  pub same_reset : after.reset_at ≡ window.reset_at
  pub is_open : IsOpen key after outcome.1
  pub more : window.count ≤ after.count
  pub fits :
      (is_of route client request && passed outcome.0) ≡ true
      → (window.count < after.count) × (after.count ≤ limit_of limits route)

same_route-eq : (r s : Route) → same_route r s ≡ true → r ≡ s
same_route-eq Route.token Route.token e = refl
same_route-eq Route.hosted Route.hosted e = refl
same_route-eq Route.webhook Route.webhook e = refl
same_route-eq Route.graphql Route.graphql e = refl
same_route-eq Route.token Route.hosted e = cc
same_route-eq Route.token Route.webhook e = cc
same_route-eq Route.token Route.graphql e = cc
same_route-eq Route.hosted Route.token e = cc
same_route-eq Route.hosted Route.webhook e = cc
same_route-eq Route.hosted Route.graphql e = cc
same_route-eq Route.webhook Route.token e = cc
same_route-eq Route.webhook Route.hosted e = cc
same_route-eq Route.webhook Route.graphql e = cc
same_route-eq Route.graphql Route.token e = cc
same_route-eq Route.graphql Route.hosted e = cc
same_route-eq Route.graphql Route.webhook e = cc

pub unswept :
    (now : ℕ) (windows : Map RateWindow)
    → size windows < rate_limit_max_windows
    → swept now windows ≡ windows
unfolding swept
unswept now windows room =
    if-holds_by (λ (m : Map RateWindow). m ≡ windows) (leb rate_limit_max_windows (size windows))
      (λ e. ground arith) (λ e. refl)

-- What a window of another key is set to leaves an open one as it was.
insert-IsOpen :
    (key other : String) (window set : RateWindow) (windows : Map RateWindow)
    → (other == key) ≡ false
    → IsOpen key window windows
    → IsOpen key window (insert other set windows)
unfolding IsOpen
insert-IsOpen key other window set windows apart opens =
    lookup-insert other key set windows ∙ (rw apart opens)

pub insert-same-IsOpen :
    (key : String) (set : RateWindow) (windows : Map RateWindow)
    → IsOpen key set (insert key set windows)
unfolding IsOpen
insert-same-IsOpen key set windows = lookup-insert key key set windows ∙ (rw (eq_refl key) refl)

admit_found-IsOpen :
    (limit : ℕ) (key other : String) (now : ℕ) (window : RateWindow) (windows : Map RateWindow)
    (found : Option RateWindow)
    → (other == key) ≡ false
    → IsOpen key window windows
    → IsOpen key window (admit_found limit other now windows found).1
unfolding admit_found opened counted insert
admit_found-IsOpen limit key other now window windows none apart opens =
    insert-IsOpen key other window _ windows apart opens
admit_found-IsOpen limit key other now window windows (some w) apart opens =
    if-holds (λ (r : RateLimitDecision × Map RateWindow). IsOpen key window r.1)
      (leb w.reset_at now) {x = opened limit other now windows}
      {y = counted limit other now w windows} (insert-IsOpen key other window _ windows apart opens)
      (insert-IsOpen key other window _ windows apart opens)

admit-open_window :
    (limit : ℕ) (key : String) (now : ℕ) (window : RateWindow) (windows : Map RateWindow)
    → size windows < rate_limit_max_windows
    → IsOpen key window windows
    → now < window.reset_at
    → admit limit key now windows ≡ counted limit key now window windows
unfolding admit admit_found lookup IsOpen
admit-open_window limit key now window windows room opens live = rw (unswept now windows room) (
    rw opens (
      if-holds_by
        (λ (r : RateLimitDecision × Map RateWindow). r ≡ counted limit key now window windows)
        (leb window.reset_at now) (λ e. ground arith) (λ e. refl)))

module _ (limits : RateLimits) (route : Route) (client : String) (request : Request) where
  unlimited-IsCounted :
      (window : RateWindow) (windows : Map RateWindow)
      → IsOpen (window_key route client) window windows
      → IsCounted (window_key route client) limits window route client request (none, windows)
  unlimited-IsCounted window windows opens = record {
    after = window;
    same_reset = refl;
    is_open = opens;
    more = omega arith;
    fits = λ e. ground arith;
  }

  -- That a request is the client's on the route, where its own route is known.
  pub is_of-same :
      (r : Route)
      → limited_route request.pathname ≡ some r
      → is_of route client request ≡ true
      → (r ≡ route) × (request.client ≡ client)
  unfolding is_of
  is_of-same r routed e =
      let routes = subst (λ x. (on_route route x && request.client == client) ≡ true) routed e in
      (same_route-eq r route (ground arith), (eq_iff request.client client).0 (ground arith))

  pub is_of-none : limited_route request.pathname ≡ none → is_of route client request ≡ true → ⊥
  unfolding is_of
  is_of-none unrouted e =
      let routes = subst (λ x. (on_route route x && request.client == client) ≡ true) unrouted e in
      cc

  counted-IsCounted :
      (window : RateWindow) (windows : Map RateWindow) (r : Route)
      → limited_route request.pathname ≡ some r
      → IsCounted (window_key route client) limits window route client request (
          decided
            (counted (limit_of limits r) (window_key route client) request.time window windows))
  unfolding counted
  counted-IsCounted window windows r routed = record {
    after = record window { count = suc window.count };
    same_reset = refl;
    is_open = insert-same-IsOpen (window_key route client) _ windows;
    more = omega arith;
    fits = λ e.
        let allowed : leb (suc window.count) (limit_of limits r) ≡ true = ground arith in
        let same = is_of-same r routed (ground arith) in
        let within : suc window.count ≤ limit_of limits r = ground arith in
        (omega arith, subst (λ x. suc window.count ≤ limit_of limits x) same.0 within);
  }

  elsewhere-IsCounted :
      (window : RateWindow) (windows : Map RateWindow) (r : Route)
      → limited_route request.pathname ≡ some r
      → (window_key r request.client == window_key route client) ≡ false
      → (outcome : RateLimitDecision × Map RateWindow)
      → IsOpen (window_key route client) window outcome.1
      → IsCounted (window_key route client) limits window route client request (decided outcome)
  elsewhere-IsCounted window windows r routed apart outcome opens = record {
    after = window;
    same_reset = refl;
    is_open = opens;
    more = omega arith;
    fits = λ e.
        let same = is_of-same r routed (ground arith) in
        let keys : window_key r request.client ≡ window_key route client =
          ap₂ window_key same.0 same.1 in
        let equal = (eq_iff _ _).1 keys in absurd cc;
  }

  limited-IsCounted :
      (window : RateWindow) (windows : Map RateWindow) (r : Route)
      → limited_route request.pathname ≡ some r
      → size windows < rate_limit_max_windows
      → IsOpen (window_key route client) window windows
      → request.time < window.reset_at
      → IsCounted
          (window_key route client)
          limits
          window
          route
          client
          request
          (decided (admit (limit_of limits r) (window_key r request.client) request.time windows))
  unfolding admit
  limited-IsCounted window windows r routed room opens live =
      let key = window_key route client in
      let limit = limit_of limits r in
      elim (Bool-cases (window_key r request.client == key)) [
        | inl same ↦
            subst
              (λ k.
                IsCounted key limits window route client request
                  (decided (admit limit k request.time windows)))
              (sym ((eq_iff _ _).0 same))
              (subst (λ o. IsCounted key limits window route client request (decided o))
                (sym (admit-open_window limit key request.time window windows room opens live))
                (counted-IsCounted window windows r routed))
        | inr apart ↦ elsewhere-IsCounted window windows r routed apart _ (
            rw (unswept request.time windows room) (
              admit_found-IsOpen limit key (window_key r request.client) request.time window windows
                (lookup (window_key r request.client) windows) apart opens))
      ]

  pub decide-IsCounted :
      (window : RateWindow) (windows : Map RateWindow)
      → size windows < rate_limit_max_windows
      → IsOpen (window_key route client) window windows
      → request.time < window.reset_at
      → IsCounted
          (window_key route client)
          limits
          window
          route
          client
          request
          (decide limits request windows)
  unfolding decide decide_for
  decide-IsCounted window windows room opens live = routed (limited_route request.pathname) refl
    where
      routed :
          (found : Option Route)
          → limited_route request.pathname ≡ found
          → IsCounted
              (window_key route client)
              limits
              window
              route
              client
              request
              (decide_for limits request windows found)
      routed none e = unlimited-IsCounted window windows opens
      routed (some r) e =
          if-holds (IsCounted (window_key route client) limits window route client request)
            (eqb (limit_of limits r) 0) (unlimited-IsCounted window windows opens)
            (limited-IsCounted window windows r e room opens live)
