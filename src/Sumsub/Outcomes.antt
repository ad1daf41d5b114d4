-- ===== src/Sumsub/Outcomes.antt =====
-- packages/kyc-node/src/providers/sumsub/provider.ts: what a call of the adapter answers, from what
-- the provider's REST API answered.
use kyc.Common.{
  ℕ, zero, suc, ◌+◌, ◌*◌, ◌<◌, String, ◌≡◌, refl, ◌∙◌, ◌⊎◌, inl, inr, Bool-cases, true, false,
  Option, none, some, List, [], ◌∷◌, if◌then◌else◌, arith,
}
use kyc.Types.{CreateSessionOptions, ProviderToken}
use kyc.Errors.{
  errors, create_error, session_creation_failed, provider_unavailable, session_not_found,
  validation_error,
}
use kyc.Action.{Result, ok, err}
use kyc.Retry.{
  CallError, http_error, named_error, not_error, Outcome, returned, failed, Retried, RetryConfig,
  retry_config, with_retry, retry_from, settle, should_retry, is_client_error, is_not_found_error,
}
use kyc.Retry.Attempts.{after_calls, with_retry-IsRetried}
use kyc.Sumsub.Config.{SumsubConfig}
use kyc.Sumsub.Client.{
  FetchRequest, FetchAnswer, rejected, response, ClientDeps, SumsubAccessToken, is_ok, read_json,
  answered, request_with, create_access_token, fetch_applicant_status,
}
use kyc.Sumsub.Provider.{mint_token, minted, level_of, get_status}

module _ {S A : Type 0} (call : S → Outcome A × S) (config : RetryConfig) where
  after_calls_last :
      (n : ℕ) (s : S) → after_calls call config (suc n) s ≡ (call (after_calls call config n s)).1
  unfolding after_calls
  after_calls_last zero s = refl
  after_calls_last (suc n) s = after_calls_last n (call s).1

  -- The call whose outcome and state are the result's.
  with_retry_last :
      (s : S)
      → 0 < config.max_attempts
      → (s' : S) × (((with_retry call config s).outcome ≡ (call s').0)
          × ((with_retry call config s).state ≡ (call s').1))
  with_retry_last s lt =
      let i = with_retry-IsRetried call config s lt in
      (after_calls call config i.last s, (i.outcome, i.state ∙ after_calls_last i.last s))

client_error_final : (e : CallError) → is_client_error e ≡ true → should_retry e ≡ false
unfolding is_client_error should_retry
client_error_final (http_error status body) h = ground arith
client_error_final (named_error name) h = absurd (cc)
client_error_final not_error h = absurd (cc)

-- A call that fails with a client error is made once.
client_error_once :
    {S A : Type 0} (call : S → Outcome A × S) (s s' : S) (e : CallError)
    → call s ≡ (failed e, s')
    → is_client_error e ≡ true
    → with_retry call retry_config s ≡ record { outcome = failed e; state = s'; slept = [] }
unfolding with_retry retry_from
client_error_once call s s' e h client = rw (h, settle, client_error_final e client) refl

module _ (deps : ClientDeps) (config : SumsubConfig) where
  -- The outcome of a request: the API's answer to the request that was sent, as it was read, or the
  -- `Error` of a missing credential, with nothing sent.
  pub data IsOutcome {T : Type 0} (read : String → Option T) (s : List FetchRequest)
      : Outcome T → List FetchRequest → Type 0 where
    unasked : IsOutcome read s (failed (named_error "Error")) s
    asked :
        (r : FetchRequest) → IsOutcome read s (answered deps config read (deps.fetch s r)) (r ∷ s)

  request_with-IsOutcome :
      {T : Type 0} (token key : Option String) (read : String → Option T) (method path : String)
      (body : Option String) (s : List FetchRequest)
      → let done : Outcome T × List FetchRequest =
          request_with deps config token key read method path body s in
        IsOutcome read s done.0 done.1
  request_with-IsOutcome none key read method path body s = unasked
  request_with-IsOutcome (some token) none read method path body s = unasked
  request_with-IsOutcome (some token) (some key) read method path body s = asked _

  IsReturned : {T : Type 0} → (String → Option T) → FetchAnswer → T → Type 0
  IsReturned read answer a =
      (status : ℕ) × ((text : String) × ((answer ≡ response status text)
          × (is_ok status ≡ true)
          × (read text ≡ some a)))

  response_returned :
      {T : Type 0} (read : String → Option T) (status : ℕ) (text : String) (o : Option T)
      → read text ≡ o
      → is_ok status ≡ true
      → ((e : CallError) × (read_json o ≡ failed e))
        ⊎ ((a : T) × ((read_json o ≡ returned a) × IsReturned read (response status text) a))
  unfolding IsReturned
  response_returned read status text none h k = inl (_, refl)
  response_returned read status text (some a) h k = inr (a, (refl, (status, (text, (refl, k, h)))))

  -- What a request comes to: a failure, or what was read of a response from 200 to 299.
  answered-cases :
      {T : Type 0} (read : String → Option T) (answer : FetchAnswer)
      → ((e : CallError) × (answered deps config read answer ≡ failed e))
        ⊎ ((a : T) × ((answered deps config read answer ≡ returned a) × IsReturned read answer a))
  answered-cases read (rejected e) = inl (e, refl)
  answered-cases read (response status text) = elim (Bool-cases (is_ok status)) [
    | inl h ↦ rw h (response_returned read status text _ refl h)
    | inr h ↦ rw h (inl (_, refl))
  ]

  module _ (to_iso_string : ℕ → String) (now : List FetchRequest → ℕ) where
    -- The token and the expiry of a mint that left the requests `sent'`: the last of them was answered
    -- with a status from 200 to 299 and the token.
    pub record IsMint (t : ProviderToken) (sent' : List FetchRequest) : Type 0 where
      pub last_request : FetchRequest
      pub earlier : List FetchRequest
      pub status : ℕ
      pub text : String
      pub token : SumsubAccessToken
      pub sent : sent' ≡ last_request ∷ earlier
      pub answer : deps.fetch earlier last_request ≡ response status text
      pub successful : is_ok status ≡ true
      pub read : deps.access_token_json text ≡ some token
      pub access_token : t.access_token ≡ token.token
      pub expires_at :
          t.expires_at ≡ some (to_iso_string (now sent' + config.token_ttl_secs * 1000))

    abbrev pub IsMintResult : Result ProviderToken → List FetchRequest → Type 0
    IsMintResult (ok t) sent' = IsMint t sent'
    IsMintResult (err e) sent' =
        (e ≡ errors session_creation_failed) ⊎ (e ≡ errors provider_unavailable)

    minted_failed :
        (r : Retried (List FetchRequest) SumsubAccessToken) (e : CallError)
        → r.outcome ≡ failed e
        → IsMintResult (minted deps config to_iso_string now r) r.state
    minted_failed r e h = elim (Bool-cases (is_client_error e)) [
      | inl client ↦ rw (h, client) (inl refl)
      | inr other ↦ rw (h, other) (inr refl)
    ]

    minted_returned :
        (r : Retried (List FetchRequest) SumsubAccessToken) (earlier : List FetchRequest)
        (q : FetchRequest) (a : SumsubAccessToken)
        → r.state ≡ q ∷ earlier
        → r.outcome ≡ returned a
        → IsReturned deps.access_token_json (deps.fetch earlier q) a
        → IsMintResult (minted deps config to_iso_string now r) r.state
    unfolding IsReturned
    minted_returned r earlier q a grown h (status, (text, (answer, successful, read))) =
        rw h (record {
          last_request = q;
          earlier = earlier;
          status = status;
          text = text;
          token = a;
          sent = grown;
          answer = answer;
          successful = successful;
          read = read;
          access_token = refl;
          expires_at = refl;
        })

    minted_outcome :
        (r : Retried (List FetchRequest) SumsubAccessToken) (s : List FetchRequest)
        (o : Outcome SumsubAccessToken) (s' : List FetchRequest)
        → IsOutcome deps.access_token_json s o s'
        → r.outcome ≡ o
        → r.state ≡ s'
        → IsMintResult (minted deps config to_iso_string now r) r.state
    minted_outcome r s _ _ unasked h g = minted_failed r _ h
    minted_outcome r s _ _ (asked q) h g =
        elim (answered-cases deps.access_token_json (deps.fetch s q)) [
          | inl (e, failure) ↦ minted_failed r e (h ∙ failure)
          | inr (a, (success, i)) ↦ minted_returned r s q a g (h ∙ success) i
        ]

    -- A minted token is one that the provider's API returned, with a status from 200 to 299, in its
    -- answer to the last request that was made. A mint that throws throws SESSION_CREATION_FAILED or
    -- PROVIDER_UNAVAILABLE, and no other.
    pub mint_token-IsMintResult :
        (user : String) (opts : CreateSessionOptions) (before : List FetchRequest)
        → let done : Result ProviderToken × List FetchRequest =
            mint_token deps config to_iso_string now user opts before in
          IsMintResult done.0 done.1
    unfolding mint_token create_access_token
    mint_token-IsMintResult user opts before =
        let call =
          create_access_token deps config user
            (level_of deps config to_iso_string now opts.level_name) config.token_ttl_secs in
        let (s, (outcome, state)) = with_retry_last call retry_config before (omega arith) in
        minted_outcome (with_retry call retry_config before) s _ _
          (request_with-IsOutcome _ _ _ _ _ _ s) outcome state

    -- A lookup of an applicant whose first request fails with a client error, a status from 400 to 499
    -- but 429, makes no other request: it throws SESSION_NOT_FOUND where the status is 404, and
    -- VALIDATION_ERROR else.
    pub get_status-client_error :
        (applicant : String) (before after : List FetchRequest) (e : CallError)
        → fetch_applicant_status deps config applicant before ≡ (failed e, after)
        → is_client_error e ≡ true
        → get_status deps config to_iso_string now applicant before ≡ (
          err (
              if is_not_found_error e
              then errors session_not_found
              else create_error validation_error "Provider rejected the applicant lookup"),
          after,
        )
    unfolding get_status
    get_status-client_error applicant before after e h client =
        rw
          (
            client_error_once (fetch_applicant_status deps config applicant) before after e h
                client,
            client,
          )
          refl
