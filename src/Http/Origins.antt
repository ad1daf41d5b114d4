-- ===== src/Http/Origins.antt =====
-- packages/kyc-node/src/handlers.ts, `createAccessTokenApp`: which origins may read an answer.
use kyc.Common.{
  String, ◌≡◌, refl, subst, ◌⊎◌, inl, inr, Bool-cases, true, false, ◌&&◌, Option, none, some, List,
  ◌==◌, All, All-append, includes, truthy, Value,
}
use kyc.Action.{Result, ok, err}
use kyc.Service.{ProviderCall}
use kyc.Http.Results.{HttpResult, number, inherited_member}
use kyc.Http.Fetch.{Request, Response, read_json, json, json_handler, with_body, with_user}
use kyc.Http.App.{
  AccessTokenAppOptions, cors_headers, allow_origin, with_headers, has_policy, preflight,
  health_path, mint, health_or_not_found, fetch,
}

-- A header other than the one that lets an origin read the answer; or that one, as the policy says:
-- any origin where the policy has "*", else the request's own origin where the policy has it.
abbrev pub IsPermitted : Option (List String) → Option String → String × String → Type 0
IsPermitted policy origin h =
    (h.0 == "access-control-allow-origin" ≡ false)
    ⊎ ((origins : List String) × (policy ≡ some origins)
        × (((h.1 ≡ "*") × (includes origins "*" ≡ true))
            ⊎ ((origin ≡ some h.1) × (includes origins h.1 ≡ true))))

abbrev IsPermittedResponse : Option (List String) → Option String → Result Response → Type 0
IsPermittedResponse policy origin (err e) = Unit
IsPermittedResponse policy origin (ok r) = All (IsPermitted policy origin) r.headers

allow_origin-IsPermitted :
    (origin : String) (origins : List String)
    → All (IsPermitted (some origins) (some origin)) (allow_origin origin origins)
allow_origin-IsPermitted origin origins = elim (Bool-cases (includes origins "*")) [
  | inl star ↦ rw star (inl refl, (inr (origins, refl, inl (refl, star)), tt))
  | inr h ↦ elim (Bool-cases (includes origins origin)) [
    | inl member ↦ rw (h, member) (inl refl, (inr (origins, refl, inr (refl, member)), tt))
    | inr away ↦ rw (h, away) (inl refl, tt)
  ]
]

cors_headers-IsPermitted :
    (policy : Option (List String)) (origin : Option String)
    → All (IsPermitted policy origin) (cors_headers policy origin)
unfolding cors_headers
cors_headers-IsPermitted none origin = tt
cors_headers-IsPermitted (some origins) none = (inl refl, tt)
cors_headers-IsPermitted (some origins) (some origin) = elim (Bool-cases (truthy origin)) [
  | inl full ↦ rw full (allow_origin-IsPermitted origin origins)
  | inr empty ↦ rw empty (inl refl, tt)
]

module _ (json_parse : String → Option Value) (timestamp : String)
    (options : AccessTokenAppOptions) where
  with_headers-IsPermitted :
      (request : Request) (r : Result Response)
      → IsPermittedResponse options.cors (request.headers "origin") r
      → IsPermittedResponse options.cors
          (request.headers "origin")
          (with_headers (cors_headers options.cors (request.headers "origin")) r)
  with_headers-IsPermitted request (err e) p = tt
  with_headers-IsPermitted request (ok r) p =
      All-append _ r.headers _ p (cors_headers-IsPermitted options.cors (request.headers "origin"))

  json-IsPermitted :
      (request : Request) (r : HttpResult)
      → IsPermittedResponse options.cors (request.headers "origin") (json r)
  unfolding json
  json-IsPermitted request r =
      elim r.status
        as (λ status.
          IsPermittedResponse options.cors (request.headers "origin")
            (json (record r { status = status }))) [
              | number n ↦ (inl refl, tt)
              | inherited_member ↦ tt
            ]

  json_handler-IsPermitted :
      (serve : Option String → Value → List ProviderCall → HttpResult × List ProviderCall)
      (request : Request) (calls : List ProviderCall)
      → IsPermittedResponse options.cors
          (request.headers "origin")
          (json_handler json_parse options.authenticate serve request calls).0
  unfolding json_handler
  json_handler-IsPermitted serve request calls =
      elim (read_json json_parse request)
        as (λ body.
          IsPermittedResponse options.cors (request.headers "origin")
            (with_body json_parse options.authenticate serve request body calls).0) [
              | none ↦ (inl refl, tt)
              | some body ↦
                  elim (options.authenticate request)
                    as (λ user.
                      IsPermittedResponse options.cors (request.headers "origin")
                        (with_user json_parse options.authenticate (λ u. serve u body) user
                          calls).0) [
                            | err e ↦ tt
                            | ok user ↦ json-IsPermitted request (serve user body calls).0
                          ]
            ]

  mint-IsPermitted :
      (request : Request) (calls : List ProviderCall)
      → IsPermittedResponse options.cors
          (request.headers "origin")
          (mint json_parse timestamp options request calls).0
  unfolding mint
  mint-IsPermitted request calls =
      with_headers-IsPermitted request _ (json_handler-IsPermitted _ request calls)

  health-IsPermitted :
      (request : Request)
      → All
          (IsPermitted options.cors (request.headers "origin"))
          (health_or_not_found json_parse timestamp options request).headers
  unfolding health_or_not_found
  health-IsPermitted request =
      elim (Bool-cases
        (options.health && request.method == "GET" && request.pathname == health_path)) [
          | inl h ↦ rw h (inl refl, tt)
          | inr h ↦ rw h (inl refl, tt)
        ]

  preflight-IsPermitted :
      (request : Request)
      → All
          (IsPermitted options.cors (request.headers "origin"))
          (preflight (cors_headers options.cors (request.headers "origin"))).headers
  preflight-IsPermitted request =
      All-append _ (cors_headers options.cors (request.headers "origin")) _
        (cors_headers-IsPermitted options.cors (request.headers "origin"))
        (inl refl, (inl refl, (inl refl, tt)))

  answer-IsPermitted :
      (request : Request) (calls : List ProviderCall)
      → IsPermittedResponse options.cors
          (request.headers "origin")
          (fetch json_parse timestamp options request calls).0
  unfolding fetch
  answer-IsPermitted request calls =
      elim (Bool-cases (
        has_policy options.cors
        && request.method == "OPTIONS"
        && request.pathname == options.path)) [
          | inl asks ↦ rw asks (preflight-IsPermitted request)
          | inr other ↦
              elim (Bool-cases (request.method == "POST" && request.pathname == options.path)) [
                | inl posts ↦ rw (other, posts) (mint-IsPermitted request calls)
                | inr differs ↦ rw (other, differs) (health-IsPermitted request)
              ]
        ]

  -- A response of the token surface lets another origin read it only as the host's policy says: any
  -- origin, where the policy has "*", and otherwise the origin of the request itself, where the
  -- policy has that. Without a policy no origin is let in.
  pub fetch-IsPermitted :
      (request : Request) (calls calls' : List ProviderCall) (r : Response)
      → fetch json_parse timestamp options request calls ≡ (ok r, calls')
      → All (IsPermitted options.cors (request.headers "origin")) r.headers
  fetch-IsPermitted request calls calls' r h =
      subst (λ done. IsPermittedResponse options.cors (request.headers "origin") done.0) h
        (answer-IsPermitted request calls)
