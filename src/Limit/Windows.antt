-- ===== src/Limit/Windows.antt =====
-- packages/kyc-service/src/server.ts: how many windows the rate limiter keeps.
use kyc.Common.{
  ℕ, suc, ◌≤◌, ◌<◌, String, Option, none, some, List, [], ◌∷◌, ◌==◌, leb, ltb, eqb, if-holds,
  if-holds_by, arith,
}
use kyc.Store.{Map, lookup, insert}
use kyc.Limit.{
  RateLimits, RateWindow, RateLimitDecision, Request, Route, rate_limit_max_windows, size,
  drop_elapsed, drop_oldest, sweep_windows, swept, admit, admit_found, opened, counted, decide,
  decide_for, decide_all, limit_of, window_key, limited_route,
}

pub size-insert :
    (key : String) (window : RateWindow) (windows : Map RateWindow)
    → size (insert key window windows) ≤ suc (size windows)
unfolding insert
size-insert key window [] = omega arith
size-insert key window ((k, w) ∷ windows) =
    let rest = size-insert key window windows in
    if-holds (λ (m : Map RateWindow). size m ≤ suc (suc (size windows))) (k == key) (omega arith)
      (omega arith)

-- With room for one window at least, a sweep leaves fewer than the most.
size-drop_oldest :
    (max : ℕ) (windows : Map RateWindow) → 0 < max → size (drop_oldest max windows) < max
unfolding drop_oldest
size-drop_oldest max [] room = room
size-drop_oldest max (entry ∷ windows) room =
    if-holds_by (λ (m : Map RateWindow). size m < max) (ltb (size (entry ∷ windows)) max)
      (λ e. ground arith) (λ e. size-drop_oldest max windows room)

swept-size :
    (now : ℕ) (windows : Map RateWindow) → size (swept now windows) < rate_limit_max_windows
unfolding swept sweep_windows
swept-size now windows =
    if-holds_by (λ (m : Map RateWindow). size m < rate_limit_max_windows)
      (leb rate_limit_max_windows (size windows))
      (λ e. size-drop_oldest rate_limit_max_windows (drop_elapsed now windows) (omega arith))
      (λ e. ground arith)

admit-size :
    (limit : ℕ) (key : String) (now : ℕ) (windows : Map RateWindow)
    → size (admit limit key now windows).1 ≤ rate_limit_max_windows
unfolding admit admit_found opened counted
admit-size limit key now windows =
    found (swept now windows) (swept-size now windows) (lookup key (swept now windows))
  where
    added :
        (window : RateWindow) (m : Map RateWindow)
        → size m < rate_limit_max_windows
        → size (insert key window m) ≤ rate_limit_max_windows
    added window m room = let more = size-insert key window m in omega arith

    found :
        (m : Map RateWindow)
        → size m < rate_limit_max_windows
        → (w : Option RateWindow) → size (admit_found limit key now m w).1 ≤ rate_limit_max_windows
    found m room none = added _ m room
    found m room (some window) =
        if-holds (λ (r : RateLimitDecision × Map RateWindow). size r.1 ≤ rate_limit_max_windows)
          (leb window.reset_at now) {x = opened limit key now m}
          {y = counted limit key now window m} (added _ m room) (added _ m room)

decide-size :
    (limits : RateLimits) (request : Request) (windows : Map RateWindow)
    → size windows ≤ rate_limit_max_windows
    → size (decide limits request windows).1 ≤ rate_limit_max_windows
unfolding decide decide_for
decide-size limits request windows room = routed (limited_route request.pathname)
  where
    routed :
        (route : Option Route)
        → size (decide_for limits request windows route).1 ≤ rate_limit_max_windows
    routed none = room
    routed (some route) =
        if-holds
          (λ (r : Option RateLimitDecision × Map RateWindow). size r.1 ≤ rate_limit_max_windows)
          (eqb (limit_of limits route) 0) room
          (admit-size (limit_of limits route) (window_key route request.client) request.time
            windows)

all-size :
    (limits : RateLimits) (requests : List Request) (windows : Map RateWindow)
    → size windows ≤ rate_limit_max_windows
    → size (decide_all limits requests windows).1 ≤ rate_limit_max_windows
unfolding decide_all
all-size limits [] windows room = room
all-size limits (request ∷ requests) windows room =
    all-size limits requests (decide limits request windows).1
      (decide-size limits request windows room)

-- Whatever requests come, from whatever clients and at whatever times: the limiter never keeps more
-- than RATE_LIMIT_MAX_WINDOWS windows.
pub decide_all-size :
    (limits : RateLimits) (requests : List Request)
    → size (decide_all limits requests []).1 ≤ rate_limit_max_windows
decide_all-size limits requests = all-size limits requests [] (omega arith)
