-- ===== src/Http/Guards.antt =====
-- packages/kyc-node/src/handlers.ts: what has to hold before an endpoint reaches the service or the
-- provider.
use kyc.Common.{
  ℕ, String, ◌≡◌, refl, sym, subst, ◌↔◌, ◌⊎◌, inl, inr, Bool, Bool-cases, true, Option, none, some,
  List, ◌∷◌, given, arith, Value, undefined, null, str, property,
}
use kyc.Types.{
  VerificationPlatform, is_verification_platform, CreateSessionOptions, ProviderSession,
}
use kyc.Errors.{Thrown, errors, unauthorized, type_error}
use kyc.Action.{Result, ok, err}
use kyc.Signature.Verified.{some_injective, IsSigned, verify_hex_digest_iff}
use kyc.Signature.{count}
use kyc.Validation.{ValidatedStartInput, validate_start_input, optional_text}
use kyc.Service.{World, ServiceDeps, ProviderCall, WebhookEvent, start}
use kyc.Sumsub.{WebhookHeaders, verify_args, verify_webhook}
use kyc.Http.Results.{HttpResult, answer, error_body, internal_error, failed}
use kyc.Http.Endpoints.{process_webhook_http, start_session_http}
use kyc.Http.Tokens.{
  level_name_for, token_options, mint_access_token_http, mint_for, mint_input, minted_http,
}

module _ (hmac_hex : (algorithm secret body : String) → String) (buffer_from : String → List ℕ)
    (timing_safe_equal : List ℕ → List ℕ → Bool) (stringify : List String → String)
    (same_bytes : (a b : String) → buffer_from a ≡ buffer_from b → a ≡ b)
    (compares : (a b : List ℕ) → count a ≡ count b → (timing_safe_equal a b ≡ true) ↔ (a ≡ b)) where
  verified_secret :
      (secret : String) (allow_missing : Bool) (headers : WebhookHeaders) (body : String)
      → given (some secret) ≡ true
      → verify_webhook hmac_hex buffer_from timing_safe_equal stringify
          (some secret)
          allow_missing
          headers
          body
        ≡ true
      → IsSigned hmac_hex (verify_args stringify (some secret) allow_missing headers body) secret
  unfolding verify_webhook
  verified_secret secret allow_missing headers body full h =
      elim ((verify_hex_digest_iff hmac_hex buffer_from timing_safe_equal same_bytes compares
          (verify_args stringify (some secret) allow_missing headers body)).0
        h) [
          | inl (empty, _) ↦ absurd (ground arith)
          | inr (held, same, _, signed) ↦
              subst
                (λ s.
                  IsSigned hmac_hex (verify_args stringify (some secret) allow_missing headers body)
                    s)
                (sym (some_injective same)) signed
        ]

  -- With a webhook secret configured, and the comparison and the bytes of texts as documented: a
  -- delivery to the endpoint through the Sumsub adapter is signed under that secret with one of the
  -- three algorithms, or it is answered with 401 and changes nothing, whatever its body.
  pub process_webhook_http-IsSigned :
      (deps : ServiceDeps) (secret : String) (allow_missing : Bool) (headers : WebhookHeaders)
      (body : String) (event : Option WebhookEvent) (w : World)
      → given (some secret) ≡ true
      → IsSigned hmac_hex (verify_args stringify (some secret) allow_missing headers body) secret
        ⊎ (process_webhook_http deps
              (ok (
                verify_webhook hmac_hex buffer_from timing_safe_equal stringify
                  (some secret)
                  allow_missing
                  headers
                  body))
              event
              w
            ≡ (answer 401 (error_body "Unauthorized"), w))
  unfolding process_webhook_http
  process_webhook_http-IsSigned deps secret allow_missing headers body event w full =
      elim (Bool-cases (
        verify_webhook hmac_hex buffer_from timing_safe_equal stringify (some secret) allow_missing
          headers body)) [
            | inl h ↦ inl (verified_secret secret allow_missing headers body full h)
            | inr h ↦ inr (rw h refl)
          ]

-- The parts of a body that are texts where they are there at all.
abbrev pub IsTextual : Value → Type 0
IsTextual undefined = Unit
IsTextual null = Unit
IsTextual (str s) = Unit
IsTextual _ = ⊥

optional_text_untextual :
    (v : Value) (name : String) (limit : ℕ)
    → (IsTextual v → ⊥)
    → optional_text v name limit ≡ err type_error
unfolding optional_text
optional_text_untextual undefined name limit h = absurd (h tt)
optional_text_untextual null name limit h = absurd (h tt)
optional_text_untextual (str s) name limit h = absurd (h tt)
optional_text_untextual _ name limit h = refl

validate_untextual :
    (body : Value) (platform : VerificationPlatform)
    → is_verification_platform (property "platform" body) ≡ some platform
    → (IsTextual (property "levelName" body) → ⊥)
    → validate_start_input body ≡ err type_error
unfolding validate_start_input
validate_untextual body platform known h =
    ground (arith, known, optional_text_untextual (property "levelName" body) "levelName" 100 h)

-- A caller's start with a known platform and a levelName that is there but no text - a number, say -
-- is answered with 500 INTERNAL_ERROR, not with 400, and changes nothing.
pub start_session_http_untextual :
    (deps : ServiceDeps) (user : String) (body : Value) (platform : VerificationPlatform)
    (w : World)
    → given (some user) ≡ true
    → is_verification_platform (property "platform" body) ≡ some platform
    → (IsTextual (property "levelName" body) → ⊥)
    → start_session_http deps (some user) body w ≡ (internal_error, w)
unfolding start_session_http start failed
start_session_http_untextual deps user body platform w full known h =
    ground (arith, full, validate_untextual body platform known h)

module _
    (create_session : List ProviderCall → String → CreateSessionOptions → Result ProviderSession)
    (level_for : Option (ValidatedStartInput → String → Result (Option String))) where
  -- The provider was asked once, for an authenticated caller with a valid input, at the level that
  -- the host decides where it has a hook; its answer is the response.
  pub record IsMinted (user : Option String) (body : Value) (calls calls' : List ProviderCall)
      (r : HttpResult) : Type 0 where
    pub caller : String
    pub input : ValidatedStartInput
    pub level_name : Option String
    pub authenticated : (user ≡ some caller) × (given user ≡ true)
    pub valid : validate_start_input body ≡ ok input
    pub decided : level_name_for create_session level_for input caller ≡ ok level_name
    pub asked :
        calls'
        ≡ ProviderCall.create_session caller
            (token_options create_session level_for input level_name)
          ∷ calls
    pub answered :
        r
        ≡ minted_http create_session level_for
            (create_session calls caller (token_options create_session level_for input level_name))

  minted_level :
      (user : String) (body : Value) (input : ValidatedStartInput) (calls : List ProviderCall)
      (level : Result (Option String))
      → given (some user) ≡ true
      → validate_start_input body ≡ ok input
      → level_name_for create_session level_for input user ≡ level
      → let done : HttpResult × List ProviderCall =
          mint_for create_session level_for user input level calls in
        IsMinted (some user) body calls done.1 done.0
        ⊎ ((done.1 ≡ calls) × ((e : Thrown) × (done.0 ≡ failed e)))
  minted_level user body input calls (err e) full valid h = inr (refl, (e, refl))
  minted_level user body input calls (ok level) full valid h = inl (record {
    caller = user;
    input = input;
    level_name = level;
    authenticated = (refl, full);
    valid = valid;
    decided = h;
    asked = refl;
    answered = refl;
  })

  minted_input :
      (user : String) (body : Value) (calls : List ProviderCall)
      (checked : Result ValidatedStartInput)
      → given (some user) ≡ true
      → validate_start_input body ≡ checked
      → let done : HttpResult × List ProviderCall =
          mint_input create_session level_for user checked calls in
        IsMinted (some user) body calls done.1 done.0
        ⊎ ((done.1 ≡ calls) × ((e : Thrown) × (done.0 ≡ failed e)))
  minted_input user body calls (err e) full h = inr (refl, (e, refl))
  minted_input user body calls (ok input) full h = minted_level user body input calls _ full h refl

  -- The token endpoint asks the provider at most once: for a caller who is authenticated, with an
  -- input that passes validation, at the host's level where it decides one and the client's where it
  -- does not, and the answer is what the provider made of it. Otherwise nothing was asked and the
  -- answer is that of a failure.
  pub mint_access_token_http-IsMinted :
      (user : Option String) (body : Value) (calls : List ProviderCall)
      → let done : HttpResult × List ProviderCall =
          mint_access_token_http create_session level_for user body calls in
        IsMinted user body calls done.1 done.0
        ⊎ ((done.1 ≡ calls) × ((e : Thrown) × (done.0 ≡ failed e)))
  unfolding mint_access_token_http
  mint_access_token_http-IsMinted none body calls = inr (refl, (errors unauthorized, refl))
  mint_access_token_http-IsMinted (some user) body calls = elim (Bool-cases (given (some user))) [
    | inl full ↦ rw full (minted_input user body calls _ full refl)
    | inr empty ↦ rw empty (inr (refl, (errors unauthorized, refl)))
  ]
