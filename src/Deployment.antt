-- ===== src/Deployment.antt =====
-- packages/kyc-service/src: env.ts, capabilities.ts, session.ts, config.ts and providers/index.ts - what
-- a deployment of the service is, by its environment alone, and what it refuses to start with.
pub mod Boot
pub mod App
pub mod Config
pub mod Policed
pub mod Sessions
pub mod Settings
use kyc.Common.{
  ℕ, String, Bool, true, false, not, ◌&&◌, ◌||◌, Option, none, some, List, [], ◌∷◌, ◌++◌, ◌<>◌,
  ◌==◌, if◌then◌else◌, given, or_else, same_option, is_some, is_blank, truthy, Value, str,
}
use kyc.Errors.{Thrown, object, absent, type_error, message_of}
use kyc.Action.{Result, ok, err}
use kyc.Sumsub.{
  Env, access_token_settings, assert_sumsub_config, sumsub_config_from_env,
  sumsub_demo_settings_in_use,
}
use kyc.Registry.{
  ProviderRegistry, ShippedProvider, mock, sumsub, Selected, guarded, filled_text,
  assert_production_config, provider_name_from_env, provider_from_env,
}

unfoldable pub is_insecure_dev_allowed : Env → Bool
is_insecure_dev_allowed env = same_option (env "ALLOW_INSECURE_DEV") (some "true")

pub data Capability : Type 0 where
  tokens sessions : Capability

-- `(env[DATABASE_URL] ?? '').trim().length > 0`
unfoldable pub has_sessions : Env → Bool
has_sessions env = elim (env "DATABASE_URL") [ none ↦ false | some url ↦ not (is_blank url) ]

unfoldable pub capabilities_from_env : Env → List Capability
unfolding has_sessions
capabilities_from_env env =
    if has_sessions env
    then Capability.tokens ∷ Capability.sessions ∷ []
    else Capability.tokens ∷ []

pub data SessionSource : Type 0 where
  jwks hs256 insecure : SessionSource

unfoldable pub session_source_from_env : Env → Option SessionSource
unfolding is_insecure_dev_allowed
session_source_from_env env =
    if given (env "SESSION_JWKS_URL")
    then some jwks
    else if given (env "SESSION_HS256_SECRET") || given (env "JWT_SECRET")
    then some hs256
    else if is_insecure_dev_allowed env
    then some insecure
    else none

-- The key that a token is checked with, and what is asked of it.
pub data SessionKey : Type 0 where
  remote_key_set : (url : String) → SessionKey
  shared_secret : (secret : String) → SessionKey

pub record VerifyOptions : Type 0 where
  pub algorithms : List String
  pub required_claims : List String
  pub issuer : Option String
  pub audience : Option String

abbrev pub jwks_algorithms : List String
jwks_algorithms = "RS256" ∷ "RS384" ∷ "RS512" ∷ "ES256" ∷ "ES384" ∷ "ES512" ∷ "PS256" ∷ []

unfoldable pub user_from_payload : (String → Value) → String → Option String
user_from_payload payload claim = elim (payload claim) [
  | str value ↦ if truthy value then some value else none
  | _ ↦ none
]

abbrev pub filled_only : Option String → Option String
filled_only value = if given value then value else none

abbrev pub payload_user : Option (String → Value) → String → Option String
unfolding user_from_payload
payload_user none claim = none
payload_user (some payload) claim = user_from_payload payload claim

-- `jwt_verify` is jose's `jwtVerify`: the claims of a token, or none where it throws; `is_url` is
-- whether `new URL` takes a text.
module _ (jwt_verify : String → SessionKey → VerifyOptions → Option (String → Value))
    (is_url : String → Bool) where
  unfoldable pub verify_with : SessionKey → Env → List String → String → Option String
  unfolding payload_user
  verify_with key env algorithms token =
      if truthy token
      then payload_user
          (jwt_verify token key (record {
            algorithms = algorithms;
            required_claims = "exp" ∷ [];
            issuer = filled_only (env "SESSION_ISSUER");
            audience = filled_only (env "SESSION_AUDIENCE");
          }))
          (filled_text (env "SESSION_USER_CLAIM") "sub")
      else none

  abbrev secret_of : Env → String
  secret_of env = filled_text (env "SESSION_HS256_SECRET") (filled_text (env "JWT_SECRET") "")

  abbrev no_session_verification : Thrown
  no_session_verification =
      object absent absent
        "no session verification configured: set SESSION_JWKS_URL or SESSION_HS256_SECRET (or ALLOW_INSECURE_DEV=true for local dev)"

  abbrev pub verifier_of : Env → Option SessionSource → Result (String → Option String)
  unfolding verify_with
  verifier_of env (some jwks) =
      let url : String = filled_text (env "SESSION_JWKS_URL") "" in
      if is_url url
      then ok (verify_with (remote_key_set url) env jwks_algorithms)
      else err type_error
  verifier_of env (some hs256) = ok (verify_with (shared_secret (secret_of env)) env ("HS256" ∷ []))
  verifier_of env (some insecure) = ok (λ token. if truthy token then some token else none)
  verifier_of env none = err no_session_verification

  unfoldable pub session_verifier_from_env : Env → Result (String → Option String)
  unfolding verifier_of session_source_from_env
  session_verifier_from_env env = verifier_of env (session_source_from_env env)
