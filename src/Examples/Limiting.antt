-- ===== src/Examples/Limiting.antt =====
-- Requests at a container with the default rate limits.
use kyc.Common.{refl, ℕ, ◌≤◌, List, [], ◌∷◌, arith}
use kyc.Store.{lookup}
use kyc.Limit.{
  default_rate_limits, Request, Route, rate_limit_max_windows, size, decide_all, limited_route,
}
use kyc.Limit.Windows.{decide_all-size}
use kyc.Limit.Bursts.{let_through}
use kyc.Limit.Minutes.{decide_all-le}

abbrev mint_at : ℕ → Request
mint_at time = record { pathname = "/verification/token"; client = "10.0.0.1"; time = time }

abbrev two_mints : List Request
two_mints = mint_at 2000 ∷ mint_at 3000 ∷ []

decide_all-size_example :
    size (decide_all default_rate_limits two_mints []).1 ≤ rate_limit_max_windows
decide_all-size_example = decide_all-size default_rate_limits two_mints

decide_all-le_example :
    let_through Route.token "10.0.0.1"
      (mint_at 1000 ∷ two_mints)
      (decide_all default_rate_limits (mint_at 1000 ∷ two_mints) []).0
    ≤ 60
unfolding limited_route lookup
decide_all-le_example =
    decide_all-le default_rate_limits Route.token "10.0.0.1" (mint_at 1000) two_mints []
      (omega arith) (omega arith) refl (λ window e. cc) (omega arith, (omega arith, tt))
