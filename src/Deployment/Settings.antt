-- ===== src/Deployment/Settings.antt =====
-- packages/kyc-service/src/session.ts: what the settings of an environment say of the key that a
-- session token is checked with.
use kyc.Common.{
  ◌≡◌, refl, ◌⊎◌, inl, inr, String, true, false, Bool-cases, ◌||◌, Option, none, some, given,
  truthy, if-holds, if-holds_by,
}
use kyc.Sumsub.{Env}
use kyc.Registry.{filled_text}
use kyc.Deployment.{
  is_insecure_dev_allowed, SessionSource, jwks, hs256, session_source_from_env, filled_only,
}

-- A setting that is there and is not empty is read as it is.
pub filled_text-given :
    (setting : Option String) (fallback : String)
    → given setting ≡ true
    → (setting ≡ some (filled_text setting fallback))
      × (truthy (filled_text setting fallback) ≡ true)
filled_text-given none fallback h = absurd cc
filled_text-given (some s) fallback h = rw h (refl, h)

filled_text-missing :
    (setting : Option String) (fallback : String)
    → given setting ≡ false
    → filled_text setting fallback ≡ fallback
filled_text-missing none fallback h = refl
filled_text-missing (some s) fallback h = rw h refl

-- What is asked of a token for a setting: its text, or nothing where the setting is missing or empty.
abbrev pub IsAskedFor : Option String → Option String → Type 0
IsAskedFor setting none = given setting ≡ false
IsAskedFor setting (some asked) = (setting ≡ some asked) × (truthy asked ≡ true)

pub filled_only-IsAskedFor : (setting : Option String) → IsAskedFor setting (filled_only setting)
filled_only-IsAskedFor none = refl
filled_only-IsAskedFor (some s) =
    if-holds_by (IsAskedFor (some s)) (truthy s) {x = some s} {y = none} (λ t. (refl, t)) (λ t. t)

pub jwks_only :
    (env : Env) → session_source_from_env env ≡ some jwks → given (env "SESSION_JWKS_URL") ≡ true
unfolding session_source_from_env
jwks_only env =
    let P : Option SessionSource → Type 0 =
      λ found. found ≡ some jwks → given (env "SESSION_JWKS_URL") ≡ true in
    if-holds_by P (given (env "SESSION_JWKS_URL")) (λ t h. t)
      (λ t.
        if-holds P (given (env "SESSION_HS256_SECRET") || given (env "JWT_SECRET")) (λ h. cc)
          (if-holds P (is_insecure_dev_allowed env) (λ h. cc) (λ h. cc)))

pub hs256_only :
    (env : Env)
    → session_source_from_env env ≡ some hs256
    → (given (env "SESSION_JWKS_URL") ≡ false)
      × ((given (env "SESSION_HS256_SECRET") || given (env "JWT_SECRET")) ≡ true)
unfolding session_source_from_env
hs256_only env =
    let Found : Type 0 =
      (given (env "SESSION_JWKS_URL") ≡ false)
      × ((given (env "SESSION_HS256_SECRET") || given (env "JWT_SECRET")) ≡ true) in
    let P : Option SessionSource → Type 0 = λ found. found ≡ some hs256 → Found in
    if-holds_by P (given (env "SESSION_JWKS_URL")) (λ t h. absurd cc)
      (λ t.
        if-holds_by P (given (env "SESSION_HS256_SECRET") || given (env "JWT_SECRET"))
          (λ e h. (t, e))
          (λ e. if-holds P (is_insecure_dev_allowed env) (λ h. absurd cc) (λ h. absurd cc)))

-- The secret of an environment: its SESSION_HS256_SECRET, or its JWT_SECRET where that is missing or
-- empty; and it is not empty.
abbrev pub IsSecret : Env → String → Type 0
IsSecret env secret =
    (truthy secret ≡ true)
    × ((env "SESSION_HS256_SECRET" ≡ some secret)
        ⊎ ((given (env "SESSION_HS256_SECRET") ≡ false) × (env "JWT_SECRET" ≡ some secret)))

pub configured-IsSecret :
    (env : Env)
    → (given (env "SESSION_HS256_SECRET") || given (env "JWT_SECRET")) ≡ true
    → IsSecret env (filled_text (env "SESSION_HS256_SECRET") (filled_text (env "JWT_SECRET") ""))
configured-IsSecret env h = elim (Bool-cases (given (env "SESSION_HS256_SECRET"))) [
  | inl set ↦
      let own =
        filled_text-given (env "SESSION_HS256_SECRET") (filled_text (env "JWT_SECRET") "") set in
      (own.1, inl own.0)
  | inr missing ↦
      let alias = filled_text-given (env "JWT_SECRET") "" (rw missing at h) in
      rw
        (filled_text-missing (env "SESSION_HS256_SECRET") (filled_text (env "JWT_SECRET") "")
          missing)
        (alias.1, inr (missing, alias.0))
]
