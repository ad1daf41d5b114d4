-- ===== src/Limit/Minutes.antt =====
-- packages/kyc-service/src/server.ts: the limit that a minute of requests keeps to.
use kyc.Common.{
  ◌≡◌, refl, sym, ap, subst, ℕ, suc, ◌+◌, ◌-◌, ◌≤◌, ◌<◌, String, true, ◌&&◌, Option, none, some,
  List, [], ◌∷◌, leb, eqb, if-holds, if-holds_by, All, arith,
}
use kyc.Store.{Map, lookup, insert}
use kyc.Limit.{
  RateLimits, RateWindow, RateLimitDecision, Request, Route, rate_limit_max_windows,
  rate_limit_window_ms, size, admit, admit_found, opened, counted, decide, decide_for, decide_all,
  limit_of, window_key, limited_route, decided,
}
use kyc.Limit.Windows.{size-insert}
use kyc.Limit.Bursts.{
  is_of, is_of-same, is_of-none, passed, let_through, count_all, IsOpen, unswept,
  insert-same-IsOpen, decide-IsCounted,
}

-- Without a sweep, a request adds one window at most.
admit_found-grows :
    (limit : ℕ) (key : String) (now : ℕ) (windows : Map RateWindow) (found : Option RateWindow)
    → size (admit_found limit key now windows found).1 ≤ suc (size windows)
unfolding admit_found opened counted insert
admit_found-grows limit key now windows none = size-insert key _ windows
admit_found-grows limit key now windows (some window) =
    if-holds (λ (r : RateLimitDecision × Map RateWindow). size r.1 ≤ suc (size windows))
      (leb window.reset_at now) {x = opened limit key now windows}
      {y = counted limit key now window windows} (size-insert key _ windows)
      (size-insert key _ windows)

decide-grows :
    (limits : RateLimits) (request : Request) (windows : Map RateWindow)
    → size windows < rate_limit_max_windows
    → size (decide limits request windows).1 ≤ suc (size windows)
unfolding decide decide_for admit
decide-grows limits request windows room = routed (limited_route request.pathname)
  where
    routed :
        (route : Option Route)
        → size (decide_for limits request windows route).1 ≤ suc (size windows)
    routed none = omega arith
    routed (some route) =
        if-holds (λ (r : Option RateLimitDecision × Map RateWindow). size r.1 ≤ suc (size windows))
          (eqb (limit_of limits route) 0) (omega arith)
          (rw (unswept request.time windows room) (
            admit_found-grows (limit_of limits route) (window_key route request.client) request.time
              windows (lookup (window_key route request.client) windows)))

-- What is let through while a window is open: at most what the limit leaves beyond its count.
open_window-le :
    (limits : RateLimits) (route : Route) (client : String) (requests : List Request)
    (window : RateWindow) (windows : Map RateWindow)
    → size windows + count_all requests ≤ rate_limit_max_windows
    → IsOpen (window_key route client) window windows
    → All (λ request. request.time < window.reset_at) requests
    → let_through route client requests (decide_all limits requests windows).0
      ≤ limit_of limits route - window.count
unfolding decide_all let_through
open_window-le limits route client [] window windows room opens times = omega arith
open_window-le limits route client (request ∷ requests) window windows room opens (live, times) =
    let counts =
      decide-IsCounted limits route client request window windows (omega arith) opens live in
    let grows = decide-grows limits request windows (omega arith) in
    let rest =
      open_window-le limits route client requests counts.after (decide limits request windows).1
        (omega arith) counts.is_open
        (subst (λ t. All (λ (q : Request). q.time < t) requests) (sym counts.same_reset) times) in
    let more = counts.more in
    if-holds_by (λ n. n ≤ limit_of limits route - window.count)
      (is_of route client request && passed (decide limits request windows).0)
      (λ e. let fits = counts.fits e in let less = fits.0 in let within = fits.1 in omega arith)
      (λ e. omega arith)

-- A client's first request on a route opens its window, and passes.
abbrev IsOver : String → ℕ → Map RateWindow → Type 0
unfolding lookup
IsOver key now windows =
    (window : RateWindow) → lookup key windows ≡ some window → window.reset_at ≤ now

admit-opens :
    (limit : ℕ) (key : String) (now : ℕ) (windows : Map RateWindow)
    → size windows < rate_limit_max_windows
    → IsOver key now windows
    → admit limit key now windows ≡ opened limit key now windows
unfolding admit IsOver
admit-opens limit key now windows room over =
    rw (unswept now windows room) (found (lookup key windows) refl)
  where
    found :
        (w : Option RateWindow)
        → lookup key windows ≡ w
        → admit_found limit key now windows w ≡ opened limit key now windows
    found none e = refl
    found (some window) e =
        let over_now = over window e in
        if-holds_by (λ (r : RateLimitDecision × Map RateWindow). r ≡ opened limit key now windows)
          (leb window.reset_at now) (λ e. refl) (λ e. ground arith)

decide-opens :
    (limits : RateLimits) (route : Route) (client : String) (request : Request)
    (windows : Map RateWindow)
    → size windows < rate_limit_max_windows
    → 0 < limit_of limits route
    → is_of route client request ≡ true
    → IsOver (window_key route client) request.time windows
    → decide limits request windows
      ≡ decided (opened (limit_of limits route) (window_key route client) request.time windows)
unfolding decide decide_for IsOver
decide-opens limits route client request windows room limited own over =
    routed (limited_route request.pathname) refl
  where
    routed :
        (found : Option Route)
        → limited_route request.pathname ≡ found
        → decide_for limits request windows found
          ≡ decided (opened (limit_of limits route) (window_key route client) request.time windows)
    routed none e = absurd (is_of-none limits route client request e own)
    routed (some r) e =
        let same = is_of-same limits route client request r e own in
        rw same.0 (
          rw same.1 (
            if-holds_by
              (λ (o : Option RateLimitDecision × Map RateWindow).
                o
                ≡ decided
                    (opened (limit_of limits route) (window_key route client) request.time windows))
              (eqb (limit_of limits route) 0) (λ zero. ground arith)
              (λ positive. ap decided (
                admit-opens (limit_of limits route) (window_key route client) request.time windows
                  room over))))

-- Of the requests that a client makes on a limited route within a minute from one that opens its
-- window, this one included, at most as many are let through as the route's limit says, however they
-- mix with requests of others; so long as the limiter has room for a window each and does not sweep.
pub decide_all-le :
    (limits : RateLimits) (route : Route) (client : String) (request : Request)
    (requests : List Request) (windows : Map RateWindow)
    → size windows + suc (count_all requests) ≤ rate_limit_max_windows
    → 0 < limit_of limits route
    → is_of route client request ≡ true
    → ((window : RateWindow)
        → lookup (window_key route client) windows ≡ some window
        → window.reset_at ≤ request.time)
    → All (λ q. q.time < request.time + rate_limit_window_ms) requests
    → let_through route client
        (request ∷ requests)
        (decide_all limits (request ∷ requests) windows).0
      ≤ limit_of limits route
unfolding decide_all let_through IsOver opened
decide_all-le limits route client request requests windows room limited own over times =
    let key = window_key route client in
    let fresh : RateWindow = record { count = 1; reset_at = request.time + rate_limit_window_ms } in
    let opens = decide-opens limits route client request windows (omega arith) limited own over in
    let grows = decide-grows limits request windows (omega arith) in
    let rest =
      open_window-le limits route client requests fresh (decide limits request windows).1
        (omega arith)
        (subst (λ o. IsOpen key fresh o.1) (sym opens) (insert-same-IsOpen key fresh windows))
        times in
    if-holds (λ n. n ≤ limit_of limits route)
      (is_of route client request && passed (decide limits request windows).0) (omega arith)
      (omega arith)
