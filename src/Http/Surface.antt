-- ===== src/Http/Surface.antt =====
-- packages/kyc-node/src/handlers.ts, `createAccessTokenApp`: which requests reach the provider.
use kyc.Common.{
  String, ◌≡◌, refl, ◌⊎◌, inl, inr, Bool-cases, ◌&&◌, Option, none, some, List, ◌==◌, eq_iff, Value,
}
use kyc.Action.{Result, ok, err}
use kyc.Service.{ProviderCall}
use kyc.Http.Results.{HttpResult}
use kyc.Http.Tokens.{mint_access_token_http}
use kyc.Http.Fetch.{Request, Response, read_json, json, json_handler, with_body, with_user}
use kyc.Http.App.{
  AccessTokenAppOptions, cors_headers, with_headers, hook_for, has_policy, mint, fetch,
}
use kyc.Http.Guards.{IsMinted, mint_access_token_http-IsMinted}

module _ (json_parse : String → Option Value) (timestamp : String)
    (options : AccessTokenAppOptions) where
  -- The request is a POST at the endpoint's path with a body that is JSON, the host's authentication
  -- names a caller, and the provider was asked for that caller as the endpoint says.
  pub record IsAsked (request : Request) (calls : List ProviderCall)
      (done : Result Response × List ProviderCall) : Type 0 where
    pub method : request.method ≡ "POST"
    pub path : request.pathname ≡ options.path
    pub user : Option String
    pub authenticated : options.authenticate request ≡ ok user
    pub body : Value
    pub parsed : read_json json_parse request ≡ some body
    pub result : HttpResult
    pub minted :
        IsMinted options.create_session
          (hook_for json_parse timestamp options request)
          user
          body
          calls
          done.1
          result
    pub answered :
        done.0 ≡ with_headers (cors_headers options.cors (request.headers "origin")) (json result)

  user-IsAsked :
      (request : Request) (calls : List ProviderCall) (body : Value) (user : Result (Option String))
      → request.method ≡ "POST"
      → request.pathname ≡ options.path
      → read_json json_parse request ≡ some body
      → options.authenticate request ≡ user
      → let done : Result Response × List ProviderCall =
          with_user json_parse options.authenticate
            (λ u.
              mint_access_token_http options.create_session
                (hook_for json_parse timestamp options request)
                u
                body)
            user
            calls in
        IsAsked request calls
          (with_headers (cors_headers options.cors (request.headers "origin")) done.0, done.1)
        ⊎ (done.1 ≡ calls)
  unfolding with_user
  user-IsAsked request calls body (err e) m p b h = inr refl
  user-IsAsked request calls body (ok user) m p b h =
      elim (mint_access_token_http-IsMinted options.create_session
        (hook_for json_parse timestamp options request) user body calls) [
          | inl i ↦ inl (record {
            method = m;
            path = p;
            user = user;
            authenticated = h;
            body = body;
            parsed = b;
            result = _;
            minted = i;
            answered = refl;
          })
          | inr (kept, failure) ↦ inr kept
        ]

  body-IsAsked :
      (request : Request) (calls : List ProviderCall) (body : Option Value)
      → request.method ≡ "POST"
      → request.pathname ≡ options.path
      → read_json json_parse request ≡ body
      → let done : Result Response × List ProviderCall =
          with_body json_parse options.authenticate
            (mint_access_token_http options.create_session
              (hook_for json_parse timestamp options request))
            request
            body
            calls in
        IsAsked request calls
          (with_headers (cors_headers options.cors (request.headers "origin")) done.0, done.1)
        ⊎ (done.1 ≡ calls)
  unfolding with_body with_user
  body-IsAsked request calls none m p h = inr refl
  body-IsAsked request calls (some body) m p h = user-IsAsked request calls body _ m p h refl

  mint-IsAsked :
      (request : Request) (calls : List ProviderCall)
      → request.method ≡ "POST"
      → request.pathname ≡ options.path
      → IsAsked request calls (mint json_parse timestamp options request calls)
        ⊎ ((mint json_parse timestamp options request calls).1 ≡ calls)
  unfolding mint json_handler
  mint-IsAsked request calls m p = body-IsAsked request calls _ m p refl

  -- A request to the token surface reaches the provider only when it is a POST at the endpoint's
  -- path, with a body that is JSON, from a caller whom the host's authentication names: the provider
  -- was then asked once, for that caller. Any other request asks the provider nothing.
  pub fetch-IsAsked :
      (request : Request) (calls : List ProviderCall)
      → IsAsked request calls (fetch json_parse timestamp options request calls)
        ⊎ ((fetch json_parse timestamp options request calls).1 ≡ calls)
  unfolding fetch
  fetch-IsAsked request calls =
      elim (Bool-cases (
        has_policy options.cors
        && request.method == "OPTIONS"
        && request.pathname == options.path)) [
          | inl asks ↦ rw asks (inr refl)
          | inr other ↦ elim (Bool-cases (request.method == "POST")) [
            | inl posts ↦ elim (Bool-cases (request.pathname == options.path)) [
              | inl there ↦
                  rw (other, posts, there)
                    (mint-IsAsked request calls ((eq_iff request.method "POST").0 posts)
                      ((eq_iff request.pathname options.path).0 there))
              | inr elsewhere ↦ rw (other, posts, elsewhere) (inr refl)
            ]
            | inr differs ↦ rw (other, differs) (inr refl)
          ]
        ]
