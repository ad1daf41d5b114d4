-- ===== src/Deployment/Policed.antt =====
-- packages/kyc-service/src/app.ts: who may read the app's answers, and what guards them.
use kyc.Common.{
  ◌≡◌, refl, sym, ◌∙◌, ap, subst, ◌⊎◌, inl, inr, String, Bool, true, false, not, Option, none, some,
  List, [], ◌∷◌, ◌==◌, eq_iff, if◌then◌else◌, given, includes, or_else, if-holds, if-holds_by,
  Bool-cases,
}
use kyc.Store.{lookup, lookup-insert}
use kyc.Deployment.App.{
  Visit, Part, health, webhook, graphql, hosted, token_app, graphql_preflight, Headers,
  security_headers, page_headers, cors_headers, set_default, with_defaults, routed, policy,
  preflight_headers, answer_of, app_fetch,
}

or_else-none : (o : Option String) → or_else o none ≡ o
or_else-none none = refl
or_else-none (some s) = refl

lookup-set_default :
    (k key value : String) (headers : Headers) (rest found : Option String)
    → lookup key headers ≡ found
    → or_else (lookup k (set_default key value found headers)) rest
      ≡ or_else (lookup k headers) (if key == k then some value else rest)
unfolding set_default
lookup-set_default k key value headers rest none e = elim (Bool-cases (key == k)) [
  | inl same ↦
      let at_key = ap (λ x. lookup x headers) (sym ((eq_iff key k).0 same)) ∙ e in
      rw (lookup-insert key k value headers) (rw same (rw at_key refl))
  | inr other ↦ rw (lookup-insert key k value headers) (rw other refl)
]
lookup-set_default k key value headers rest (some own) e = elim (Bool-cases (key == k)) [
  | inl same ↦
      let at_key = ap (λ x. lookup x headers) (sym ((eq_iff key k).0 same)) ∙ e in
      rw same (rw at_key refl)
  | inr other ↦ rw other refl
]

-- A default is the answer's header exactly where the answer had none.
lookup-with_defaults :
    (k : String) (headers defaults : Headers)
    → lookup k (with_defaults headers defaults) ≡ or_else (lookup k headers) (lookup k defaults)
unfolding with_defaults lookup
lookup-with_defaults k headers [] = sym (or_else-none (lookup k headers))
lookup-with_defaults k headers ((key, value) ∷ defaults) =
    lookup-with_defaults k (set_default key value (lookup key headers) headers) defaults
    ∙ lookup-set_default k key value headers (lookup k defaults) (lookup key headers) refl

abbrev allow_header : String
allow_header = "access-control-allow-origin"

-- That a value lets an origin read an answer as the list of origins says.
abbrev pub IsAllowed : List String → Option String → String → Type 0
IsAllowed origins origin value =
    ((value ≡ "*") × (includes origins "*" ≡ true))
    ⊎ ((origin ≡ some value) × (includes origins value ≡ true))

abbrev Allows : List String → Option String → Headers → Type 0
Allows origins origin headers =
    (value : String) → lookup allow_header headers ≡ some value → IsAllowed origins origin value

cors_headers-Allows :
    (origins : List String) (origin : Option String)
    → Allows origins origin (cors_headers origins origin)
unfolding cors_headers lookup
cors_headers-Allows [] origin = λ value h. cc
cors_headers-Allows (o ∷ os) none = λ value h. cc
cors_headers-Allows (o ∷ os) (some origin) =
    let A = Allows (o ∷ os) (some origin) in
    if-holds A (not (given (some origin))) (λ v h. cc)
      (if-holds_by A (includes (o ∷ os) "*") (λ e v h. inl (cc, e))
        (λ star.
          if-holds_by A (includes (o ∷ os) origin)
            (λ e v h.
              let same : origin ≡ v = cc in
              inr (ap some same, subst (λ x. includes (o ∷ os) x ≡ true) same e))
            (λ e v h. cc)))

twice-lookup :
    (k : String) (own headers cors : Headers)
    → lookup k (with_defaults (with_defaults own headers) cors)
      ≡ or_else (or_else (lookup k own) (lookup k headers)) (lookup k cors)
twice-lookup k own headers cors =
    lookup-with_defaults k (with_defaults own headers) cors
    ∙ ap (λ o. or_else o (lookup k cors)) (lookup-with_defaults k own headers)

-- Whether the app answers by itself.
abbrev pub is_preflight : Part → Bool
is_preflight graphql_preflight = true
is_preflight _ = false

-- What the app adds to the answer of a part.
answer_of-lookup :
    (part : Part) (cors own : Headers) (k : String)
    → is_preflight part ≡ false
    → lookup k (answer_of part cors own)
      ≡ or_else (or_else (lookup k own) (lookup k (policy part))) (lookup k cors)
unfolding answer_of
answer_of-lookup graphql_preflight cors own k other = cc
answer_of-lookup health cors own k other = twice-lookup k own security_headers cors
answer_of-lookup webhook cors own k other = twice-lookup k own security_headers cors
answer_of-lookup graphql cors own k other = twice-lookup k own security_headers cors
answer_of-lookup hosted cors own k other = twice-lookup k own page_headers cors
answer_of-lookup token_app cors own k other = twice-lookup k own security_headers cors

added :
    (origins : List String) (origin : Option String) (own headers : Headers)
    → lookup allow_header own ≡ none
    → lookup allow_header headers ≡ none
    → Allows origins origin
        (with_defaults (with_defaults own headers) (cors_headers origins origin))
added origins origin own headers none_own none_policy value h =
    cors_headers-Allows origins origin value (
      sym (
        twice-lookup allow_header own headers (cors_headers origins origin)
        ∙ (rw none_own (rw none_policy refl)))
      ∙ h)

answer_of-Allows :
    (part : Part) (origins : List String) (origin : Option String) (own : Headers)
    → lookup allow_header own ≡ none
    → Allows origins origin (answer_of part (cors_headers origins origin) own)
unfolding answer_of lookup
answer_of-Allows graphql_preflight origins origin own none_own = λ value h.
    cors_headers-Allows origins origin value (
      sym (or_else-none (lookup allow_header (cors_headers origins origin)))
      ∙ sym (lookup-with_defaults allow_header (cors_headers origins origin) preflight_headers)
      ∙ h)
answer_of-Allows health origins origin own none_own =
    added origins origin own security_headers none_own refl
answer_of-Allows webhook origins origin own none_own =
    added origins origin own security_headers none_own refl
answer_of-Allows graphql origins origin own none_own =
    added origins origin own security_headers none_own refl
answer_of-Allows hosted origins origin own none_own =
    added origins origin own page_headers none_own refl
answer_of-Allows token_app origins origin own none_own =
    added origins origin own security_headers none_own refl

-- What the app's answer lets an origin read, and how it is guarded: `own` are the headers that the
-- part sets itself.
pub record IsPoliced (on : Bool) (origins : List String) (visit : Visit) (own answer : Headers)
    : Type 0 where
  pub readable :
      lookup "access-control-allow-origin" own ≡ none
      → (value : String) → lookup "access-control-allow-origin" answer ≡ some value
      → IsAllowed origins visit.origin value
  pub guarded :
      is_preflight (routed on visit) ≡ false
      → (k : String)
      → lookup k answer
        ≡ or_else
            (or_else (lookup k own) (lookup k (policy (routed on visit))))
            (lookup k (cors_headers origins visit.origin))

-- Whatever a request asks for: where the part that answers sets no CORS header itself, the app lets
-- an origin read the answer only as its list of origins says, with "*" where the list has it, and
-- else with the request's origin where the list has that; and every answer but the GraphQL preflight
-- carries the part's own headers, then the app's policy, then the CORS headers, each where no earlier
-- one is set.
pub app_fetch-IsPoliced :
    (own : Part → Visit → Headers) (on : Bool) (origins : List String) (visit : Visit)
    → IsPoliced on origins visit (own (routed on visit) visit) (app_fetch own on origins visit)
unfolding app_fetch
app_fetch-IsPoliced own on origins visit =
    let part = routed on visit in
    record {
      readable = answer_of-Allows part origins visit.origin (own part visit);
      guarded = λ other k.
          answer_of-lookup part (cors_headers origins visit.origin) (own part visit) k other;
    }
