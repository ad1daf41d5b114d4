-- ===== src/Deployment/Sessions.antt =====
-- packages/kyc-service/src/session.ts: whom the service takes a token for.
use kyc.Common.{
  ◌≡◌, refl, subst, ap, String, Bool, true, false, Option, none, some, List, [], ◌∷◌, if◌then◌else◌,
  given, includes, truthy, Value, undefined, null, other, bool, num, str, arr, obj, if-holds_by,
}
use kyc.Action.{Result, ok, err}
use kyc.Sumsub.{Env}
use kyc.Registry.{filled_text}
use kyc.Deployment.{
  is_insecure_dev_allowed, SessionSource, jwks, hs256, insecure, session_source_from_env,
  SessionKey, remote_key_set, shared_secret, VerifyOptions, jwks_algorithms, user_from_payload,
  payload_user, filled_only, verify_with, verifier_of, session_verifier_from_env,
}
use kyc.Deployment.Boot.{insecure_only}
use kyc.Deployment.Settings.{
  filled_text-given, IsAskedFor, filled_only-IsAskedFor, jwks_only, hs256_only, IsSecret,
  configured-IsSecret,
}

-- The text of a claim, where it is a text that is not empty.
user_from_payload-some :
    (payload : String → Value) (claim user : String)
    → user_from_payload payload claim ≡ some user
    → (payload claim ≡ str user) × (truthy user ≡ true)
unfolding user_from_payload
user_from_payload-some payload claim user h = read (payload claim) refl h
  where
    read :
        (value : Value)
        → payload claim ≡ value
        → (elim value as (λ v. Option String) [
          | str text ↦ if truthy text then some text else none
          | _ ↦ none
        ])
          ≡ some user
        → (payload claim ≡ str user) × (truthy user ≡ true)
    read (str text) e k =
        if-holds_by
          (λ (o : Option String). o ≡ some user → (payload claim ≡ str user) × (truthy user ≡ true))
          (truthy text) (λ t q. (cc, cc)) (λ t q. cc) k
    read undefined e k = cc
    read null e k = cc
    read other e k = cc
    read (bool b) e k = cc
    read (num n) e k = cc
    read (arr vs) e k = cc
    read (obj fs) e k = cc

module _ (jwt_verify : String → SessionKey → VerifyOptions → Option (String → Value))
    (is_url : String → Bool) (env : Env) (token user : String) where
  -- The key set at the URL of the environment, with the algorithms for one; or, without a URL, the
  -- secret of the environment, with that of a secret.
  abbrev pub IsMatched : SessionKey → VerifyOptions → Type 0
  IsMatched (remote_key_set url) options =
      (env "SESSION_JWKS_URL" ≡ some url)
      × (truthy url ≡ true)
      × (is_url url ≡ true)
      × (options.algorithms ≡ jwks_algorithms)
      × (includes options.algorithms "HS256" ≡ false)
  IsMatched (shared_secret secret) options =
      (given (env "SESSION_JWKS_URL") ≡ false)
      × IsSecret env secret
      × (options.algorithms ≡ "HS256" ∷ [])

  -- A token that was verified under the key, and with the options, of the environment, and whose
  -- claim names the user.
  pub record IsVerified : Type 0 where
    pub key : SessionKey
    pub options : VerifyOptions
    pub payload : String → Value
    pub checked : jwt_verify token key options ≡ some payload
    pub matched : IsMatched key options
    pub expires : options.required_claims ≡ "exp" ∷ []
    pub issuer : IsAskedFor (env "SESSION_ISSUER") options.issuer
    pub audience : IsAskedFor (env "SESSION_AUDIENCE") options.audience
    pub claims : payload (filled_text (env "SESSION_USER_CLAIM") "sub") ≡ str user
    pub is_some_one : truthy user ≡ true

  verify_with-IsVerified :
      (key : SessionKey) (algorithms : List String)
      → ((options : VerifyOptions) → options.algorithms ≡ algorithms → IsMatched key options)
      → verify_with jwt_verify is_url key env algorithms token ≡ some user
      → IsVerified
  unfolding verify_with
  verify_with-IsVerified key algorithms matched h =
      if-holds_by (λ (o : Option String). o ≡ some user → IsVerified) (truthy token)
        (λ t. read (jwt_verify token key options) refl) (λ t q. cc) h
    where
      options : VerifyOptions
      options = record {
        algorithms = algorithms;
        required_claims = "exp" ∷ [];
        issuer = filled_only (env "SESSION_ISSUER");
        audience = filled_only (env "SESSION_AUDIENCE");
      }

      read :
          (verified : Option (String → Value))
          → jwt_verify token key options ≡ verified
          → payload_user verified (filled_text (env "SESSION_USER_CLAIM") "sub") ≡ some user
          → IsVerified
      read none e q = cc
      read (some payload) e q =
          let named = user_from_payload-some payload _ user q in
          record {
            key = key;
            options = options;
            payload = payload;
            checked = e;
            matched = matched options refl;
            expires = refl;
            issuer = filled_only-IsAskedFor (env "SESSION_ISSUER");
            audience = filled_only-IsAskedFor (env "SESSION_AUDIENCE");
            claims = named.0;
            is_some_one = named.1;
          }

  -- That every user whom a verifier names was verified.
  abbrev Verifies : Result (String → Option String) → Type 0
  Verifies (ok verify) = verify token ≡ some user → IsVerified
  Verifies (err e) = Unit {0}

  verifier_of-Verifies :
      (source : Option SessionSource)
      → session_source_from_env env ≡ source
      → (source ≡ some insecure → ⊥)
      → Verifies (verifier_of jwt_verify is_url env source)
  unfolding verifier_of
  verifier_of-Verifies none found secure = tt
  verifier_of-Verifies (some jwks) found secure =
      let url = filled_text (env "SESSION_JWKS_URL") "" in
      let set = filled_text-given (env "SESSION_JWKS_URL") "" (jwks_only env found) in
      if-holds_by Verifies (is_url url)
        (λ read.
          verify_with-IsVerified (remote_key_set url) jwks_algorithms
            (λ o e. (set.0, set.1, read, e, ap (λ names. includes names "HS256") e)))
        (λ read. tt)
  verifier_of-Verifies (some hs256) found secure =
      let facts = hs256_only env found in
      verify_with-IsVerified (shared_secret _) ("HS256" ∷ [])
        (λ o e. (facts.0, configured-IsSecret env facts.1, e))
  verifier_of-Verifies (some insecure) found secure = absurd (secure refl)

-- A user whom the session verifier of a deployment without ALLOW_INSECURE_DEV=true names for a token:
-- the token was verified, with an expiry asked for, and the environment's issuer and audience where
-- it has them, under the key set at its SESSION_JWKS_URL with the algorithms of the list for one,
-- which has no HS256; or, where it has no such URL, with HS256 alone under its
-- SESSION_HS256_SECRET, or under its JWT_SECRET where that is missing or empty, and never under an
-- empty secret; and the user is the text, which is not empty, of the claim that the environment
-- names, or of `sub`.
pub session_verifier_from_env-IsVerified :
    (jwt_verify : String → SessionKey → VerifyOptions → Option (String → Value))
    (is_url : String → Bool) (env : Env) (verify : String → Option String) (token user : String)
    → session_verifier_from_env jwt_verify is_url env ≡ ok verify
    → is_insecure_dev_allowed env ≡ false
    → verify token ≡ some user
    → IsVerified jwt_verify is_url env token user
unfolding session_verifier_from_env
session_verifier_from_env-IsVerified jwt_verify is_url env verify token user built closed named =
    subst (Verifies jwt_verify is_url env token user) built
      (verifier_of-Verifies jwt_verify is_url env token user (session_source_from_env env) refl
        (λ e. let opened = insecure_only env e in cc))
      named
