-- ===== src/Sumsub/Answers.antt =====
-- packages/kyc-node/src/providers/sumsub/provider.ts and client.ts: what a call of the adapter sends,
-- and what it answers.
use kyc.Common.{
  ℕ, zero, suc, ◌+◌, ◌≤◌, String, ◌≡◌, refl, sym, ◌∙◌, ap, true, Option, none, some, List, [], ◌∷◌,
  ◌++◌, ◌<>◌, All, All-append, given, decimal, arith,
}
use kyc.Retry.{Outcome, retry_config, with_retry}
use kyc.Retry.Attempts.{after_calls, with_retry-IsRetried}
use kyc.Service.{ProviderCall}
use kyc.Sumsub.Config.{SumsubConfig}
use kyc.Sumsub.Client.{
  FetchRequest, ClientDeps, body_text, credential, request, request_with, signed_request,
  sign_payload, create_access_token, fetch_applicant_status, fetch_applicant_by_external_user_id,
}
use kyc.Sumsub.Asked.{verb_of, resource_of, IsBodyOf, in_front, mint-IsMintBody}
use kyc.Sumsub.Provider.{mint_token, get_status, get_status_by_user_id, call_once}

unfoldable pub requests : List FetchRequest → ℕ
requests [] = 0
requests (r ∷ rs) = suc (requests rs)

requests-++ : (xs ys : List FetchRequest) → requests (xs ++ ys) ≡ requests xs + requests ys
unfolding requests
requests-++ [] ys = omega arith
requests-++ (x ∷ xs) ys = omega (arith, requests-++ xs ys)

append_assoc : (xs ys zs : List FetchRequest) → (xs ++ ys) ++ zs ≡ xs ++ (ys ++ zs)
append_assoc [] ys zs = refl
append_assoc (x ∷ xs) ys zs = ap (λ l. x ∷ l) (append_assoc xs ys zs)

credential-some :
    (o : Option String) (s : String)
    → credential o ≡ some s
    → (o ≡ some s) × (given (some s) ≡ true)
credential-some none s h = absurd (cc)
credential-some (some t) s h = ground arith

module _ (deps : ClientDeps) (config : SumsubConfig) where
  -- A request for the resource of a call, under `/resources/` at the configured base URL and under the
  -- configured credentials, whose signature is the HMAC, under the secret key, of its timestamp, its
  -- method, its path and its body.
  pub record IsSignedRequest (call : ProviderCall) (r : FetchRequest) : Type 0 where
    pub secret_key : String
    pub path_with_query : String
    pub key : (config.secret_key ≡ some secret_key) × (given (some secret_key) ≡ true)
    pub token : (config.app_token ≡ some r.app_token) × (given (some r.app_token) ≡ true)
    pub path : path_with_query ≡ "/resources/" <> resource_of deps config call
    pub url : r.url ≡ config.base_url <> path_with_query
    pub body : IsBodyOf deps config call r.body
    pub method : r.method ≡ deps.to_upper_case (verb_of call)
    pub signed :
        r.signature
        ≡ deps.hmac_hex "sha256" secret_key
            (decimal r.timestamp <> r.method <> path_with_query <> body_text r.body)
    pub timeout : r.timeout_ms ≡ config.request_timeout_ms

  -- What a call adds to the requests made: at most `limit` of them, each signed.
  pub record IsSentAtMost (about : ProviderCall) (limit : ℕ) (sent sent' : List FetchRequest)
      : Type 0 where
    pub new : List FetchRequest
    pub grown : sent' ≡ new ++ sent
    pub bounded : requests new ≤ limit
    pub signed : All (IsSignedRequest about) new

  sent_none : (about : ProviderCall) (sent : List FetchRequest) → IsSentAtMost about 0 sent sent
  unfolding requests
  sent_none about sent = record { new = []; grown = refl; bounded = omega arith; signed = tt }

  sent_then :
      (about : ProviderCall) (m n limit : ℕ) (a b c : List FetchRequest)
      → IsSentAtMost about m a b
      → IsSentAtMost about n b c
      → n + m ≤ limit
      → IsSentAtMost about limit a c
  sent_then about m n limit a b c i j h =
      let bi = i.bounded in
      let bj = j.bounded in
      record {
        new = j.new ++ i.new;
        grown = j.grown ∙ ap (λ l. j.new ++ l) i.grown ∙ sym (append_assoc j.new i.new a);
        bounded = rw (requests-++ j.new i.new) (omega arith);
        signed = All-append (IsSignedRequest about) j.new i.new j.signed i.signed;
      }

  request_with-sends :
      {T : Type 0} (about : ProviderCall) (token key : Option String) (read : String → Option T)
      (path : String) (body : Option String) (sent : List FetchRequest)
      → credential config.app_token ≡ token
      → credential config.secret_key ≡ key
      → path ≡ "/resources/" <> resource_of deps config about
      → IsBodyOf deps config about body
      → IsSentAtMost about 1 sent
          (request_with deps config token key read (verb_of about) path body sent).1
  unfolding requests signed_request sign_payload
  request_with-sends about none key read path body sent ht hk hp hb =
      sent_then about 0 0 1 sent sent sent (sent_none about sent) (sent_none about sent)
        (omega arith)
  request_with-sends about (some token) none read path body sent ht hk hp hb =
      sent_then about 0 0 1 sent sent sent (sent_none about sent) (sent_none about sent)
        (omega arith)
  request_with-sends about (some token) (some key) read path body sent ht hk hp hb = record {
    new = signed_request deps config token key (verb_of about) path body sent ∷ [];
    grown = refl;
    bounded = omega arith;
    signed = (
      record {
        secret_key = key;
        path_with_query = path;
        key = credential-some config.secret_key key hk;
        token = credential-some config.app_token token ht;
        path = hp;
        url = refl;
        body = hb;
        method = refl;
        signed = refl;
        timeout = refl;
      },
      tt,
    );
  }

  request-sends :
      {T : Type 0} (about : ProviderCall) (read : String → Option T) (path : String)
      (body : Option String)
      → path ≡ "/resources/" <> resource_of deps config about
      → IsBodyOf deps config about body
      → (sent : List FetchRequest)
      → IsSentAtMost about 1 sent (request deps config read (verb_of about) path body sent).1
  request-sends about read path body hp hb sent =
      request_with-sends about _ _ read path body sent refl refl hp hb

  after_calls-sends :
      {T : Type 0} (about : ProviderCall) (call : List FetchRequest → Outcome T × List FetchRequest)
      → ((s : List FetchRequest) → IsSentAtMost about 1 s (call s).1)
      → (n : ℕ) (s : List FetchRequest) → IsSentAtMost about n s (after_calls call retry_config n s)
  unfolding after_calls
  after_calls-sends about call one zero s = sent_none about s
  after_calls-sends about call one (suc n) s =
      sent_then about 1 n (suc n) s (call s).1 _ (one s)
        (after_calls-sends about call one n (call s).1) (omega arith)

  retried-sends :
      {T : Type 0} (about : ProviderCall) (call : List FetchRequest → Outcome T × List FetchRequest)
      → ((s : List FetchRequest) → IsSentAtMost about 1 s (call s).1)
      → (sent : List FetchRequest)
      → IsSentAtMost about 3 sent (with_retry call retry_config sent).state
  retried-sends about call one sent =
      let i = with_retry-IsRetried call retry_config sent (omega arith) in
      let bounded = i.bounded in
      rw i.state (
        sent_then about (suc i.last) 0 3 sent _ _
          (after_calls-sends about call one (suc i.last) sent) (sent_none about _) (omega arith))

  module _ (to_iso_string : ℕ → String) (now : List FetchRequest → ℕ) where
    -- Whatever the provider answers, a call of the service's port makes at most three requests, and
    -- each is for the call's own resource - the SDK's access tokens, the status of the applicant, or
    -- the applicant of the user, the id encoded - under `/resources/` at the configured base URL,
    -- with the configured credentials; a mint's body names the call's user, the level of its options
    -- or else the configured one, and the configured lifetime, and a lookup has none; and each is
    -- signed under the secret key with its own timestamp, method, path and body.
    pub call_once-IsSentAtMost :
        (call : ProviderCall) (sent : List FetchRequest)
        → IsSentAtMost call 3 sent (call_once deps config to_iso_string now call sent)
    unfolding call_once mint_token get_status get_status_by_user_id create_access_token
        fetch_applicant_status fetch_applicant_by_external_user_id
    call_once-IsSentAtMost (ProviderCall.create_session user opts) sent =
        let about = ProviderCall.create_session user opts in
        retried-sends about _
          (request-sends about _ _ _ refl
            (mint-IsMintBody deps config to_iso_string now user opts.level_name))
          sent
    call_once-IsSentAtMost (ProviderCall.refresh_token subject opts) sent =
        let about = ProviderCall.refresh_token subject opts in
        retried-sends about _
          (request-sends about _ _ _ refl
            (mint-IsMintBody deps config to_iso_string now subject.user_id opts.level_name))
          sent
    call_once-IsSentAtMost (ProviderCall.get_status applicant) sent =
        let about = ProviderCall.get_status applicant in
        retried-sends about _
          (request-sends about deps.review_json
            ("/resources/applicants/" <> deps.encode_uri_component applicant <> "/status") none
            (in_front "/resources/" "applicants/" _ "/status") refl)
          sent
    call_once-IsSentAtMost (ProviderCall.get_status_by_user_id user) sent =
        let about = ProviderCall.get_status_by_user_id user in
        retried-sends about _
          (request-sends about deps.applicant_json
            ("/resources/applicants/-;externalUserId=" <> deps.encode_uri_component user <> "/one")
            none (in_front "/resources/" "applicants/-;externalUserId=" _ "/one") refl)
          sent
