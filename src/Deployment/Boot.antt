-- ===== src/Deployment/Boot.antt =====
-- packages/kyc-service/src/config.ts: what a deployment is that passes the checks at boot.
use kyc.Common.{
  ◌≡◌, refl, sym, subst, ap, ◌⊎◌, inl, inr, ℕ, String, true, false, Option, none, some, List, [],
  ◌∷◌, ◌++◌, ◌==◌, eq_iff, given, Bool-cases, look_up, ◌||◌, if-holds, if-holds_by,
}
use kyc.Action.{Result, ok, err}
use kyc.Sumsub.{Env, sumsub_config_from_env, missing_sumsub_config, access_token_settings}
use kyc.Registry.{
  ShippedProvider, Selected, filled_text, call_factory, provider_name_from_env, provider_from_env,
  kyc_provider_env,
}
use kyc.Registry.Boot.{guarded-ok, built_own, missing_settings}
use kyc.Deployment.{
  is_insecure_dev_allowed, Capability, capabilities_from_env, has_sessions, SessionSource, jwks,
  hs256, insecure, session_source_from_env,
}
use kyc.Deployment.Config.{
  Runtime, assert_mock_provider_allowed, mock_entry, sumsub_entry, service_registry, unsourced,
  select_provider, session_errors, is_http_url, public_base_url_errors, errors_of, provider_errors,
  webhook_errors, is_edge, runtime_errors, config_errors, unless_problems, validate_config,
}

append-none : (xs ys : List String) → xs ++ ys ≡ [] → (xs ≡ []) × (ys ≡ [])
append-none [] ys h = (refl, h)
append-none (x ∷ xs) ys h = cc

unless_problems-ok :
    (problems : List String) (capabilities booted : List Capability)
    → unless_problems problems capabilities ≡ ok booted
    → problems ≡ []
unless_problems-ok [] capabilities booted h = refl
unless_problems-ok (problem ∷ problems) capabilities booted h = cc

-- A deployment that trusts no caller, no webhook and no page without a check.
pub record IsClosed (parse_int : String → Option ℕ) (protocol : String → Option String) (env : Env)
    (runtime : Runtime) : Type 0 where
  pub source :
      (session_source_from_env env ≡ some jwks) ⊎ (session_source_from_env env ≡ some hs256)
  pub named : env kyc_provider_env ≡ some "sumsub"
  pub minting :
      missing_sumsub_config (sumsub_config_from_env parse_int env) access_token_settings ≡ []
  pub signed : has_sessions env ≡ true → given (env "SUMSUB_WEBHOOK_SECRET") ≡ true
  pub pinned :
      has_sessions env ≡ true
      → (given (env "PUBLIC_BASE_URL") ≡ true)
        × (is_http_url protocol (filled_text (env "PUBLIC_BASE_URL") "") ≡ true)
  pub placed : has_sessions env ≡ true → is_edge runtime ≡ false

pub insecure_only :
    (env : Env) → session_source_from_env env ≡ some insecure → is_insecure_dev_allowed env ≡ true
unfolding session_source_from_env
insecure_only env =
    let P : Option SessionSource → Type 0 =
      λ found. found ≡ some insecure → is_insecure_dev_allowed env ≡ true in
    if-holds P (given (env "SESSION_JWKS_URL")) (λ h. cc)
      (if-holds P (given (env "SESSION_HS256_SECRET") || given (env "JWT_SECRET")) (λ h. cc)
        (if-holds_by P (is_insecure_dev_allowed env) (λ e h. e) (λ e h. cc)))

sourced :
    (env : Env)
    → is_insecure_dev_allowed env ≡ false
    → session_errors env ≡ []
    → (session_source_from_env env ≡ some jwks) ⊎ (session_source_from_env env ≡ some hs256)
unfolding session_errors
sourced env closed none_of = found (session_source_from_env env) refl none_of
  where
    found :
        (source : Option SessionSource)
        → session_source_from_env env ≡ source
        → unsourced source ≡ []
        → (session_source_from_env env ≡ some jwks) ⊎ (session_source_from_env env ≡ some hs256)
    found none e h = cc
    found (some jwks) e h = inl e
    found (some hs256) e h = inr e
    found (some insecure) e h = let opened = insecure_only env e in cc

-- `env[KYC_PROVIDER_ENV] ?? fallback`
abbrev or_mock : Option String → String
or_mock none = "mock"
or_mock (some name) = name

named_sumsub : (named : Option String) → or_mock named ≡ "sumsub" → named ≡ some "sumsub"
named_sumsub none h = let equal = (eq_iff "mock" "sumsub").1 h in cc
named_sumsub (some name) h = ap some h

errors_of-none :
    (selected : Result (Selected ShippedProvider))
    → errors_of selected ≡ []
    → (s : Selected ShippedProvider) × (selected ≡ ok s)
errors_of-none (ok s) h = (s, refl)
errors_of-none (err e) h = cc

module _ (parse_int : String → Option ℕ) (public_base_url : Env → String) (env : Env) where
  mock_refused :
      (s : ShippedProvider)
      → is_insecure_dev_allowed env ≡ false
      → mock_entry parse_int public_base_url env ≡ ok s
      → ⊥
  unfolding mock_entry assert_mock_provider_allowed
  mock_refused s closed h =
      let allowed = (guarded-ok (assert_mock_provider_allowed env) _ s h).0 in
      if-holds_by (λ (r : Result (Unit {0})). r ≡ ok tt → ⊥) (is_insecure_dev_allowed env)
        (λ e k. cc) (λ e k. cc) allowed

  -- What an environment without insecure development selects.
  selected_entry :
      (s : Selected ShippedProvider)
      → is_insecure_dev_allowed env ≡ false
      → select_provider parse_int public_base_url env ≡ ok s
      → (env kyc_provider_env ≡ some "sumsub")
        × ((a : ShippedProvider) × (sumsub_entry parse_int public_base_url env ≡ ok a))
  unfolding select_provider provider_from_env provider_name_from_env service_registry
  selected_entry s closed h =
      let name = or_mock (env kyc_provider_env) in
      elim (Bool-cases ("mock" == name)) [
        | inl is_mock ↦
            let entry = built_own "mock" (mock_entry parse_int public_base_url env) s (
              subst
                (λ n.
                  call_factory n (look_up (service_registry parse_int public_base_url env) n)
                  ≡ ok s)
                (sym ((eq_iff "mock" name).0 is_mock)) (rw is_mock at h)) in
            absurd (mock_refused entry.0 closed entry.1.0)
        | inr not_mock ↦ elim (Bool-cases ("sumsub" == name)) [
          | inl is_sumsub ↦
              let same = sym ((eq_iff "sumsub" name).0 is_sumsub) in
              let entry = built_own "sumsub" (sumsub_entry parse_int public_base_url env) s (
                subst
                  (λ n.
                    call_factory n (look_up (service_registry parse_int public_base_url env) n)
                    ≡ ok s)
                  same (rw (not_mock, is_sumsub) at h)) in
              (named_sumsub (env kyc_provider_env) same, (entry.0, entry.1.0))
          | inr unknown ↦ let refused = rw (not_mock, unknown) at h in absurd cc
        ]
      ]

-- A deployment that boots without ALLOW_INSECURE_DEV=true checks its sessions with a key set or a
-- secret; has chosen Sumsub, with all that a mint needs; and with sessions on, it has the secret of
-- Sumsub's webhooks and an http(s) URL of its own, and does not run on the edge.
pub validate_config-IsClosed :
    (parse_int : String → Option ℕ) (public_base_url : Env → String)
    (protocol : String → Option String) (env : Env) (runtime : Runtime)
    (capabilities : List Capability)
    → validate_config parse_int public_base_url protocol env runtime ≡ ok capabilities
    → is_insecure_dev_allowed env ≡ false
    → IsClosed parse_int protocol env runtime
unfolding validate_config config_errors provider_errors sumsub_entry webhook_errors
    public_base_url_errors runtime_errors
validate_config-IsClosed parse_int public_base_url protocol env runtime capabilities booted closed =
    let none_at =
      unless_problems-ok (config_errors parse_int public_base_url protocol env runtime)
        (capabilities_from_env env) capabilities booted in
    let d = append-none _ (runtime_errors env runtime) none_at in
    let c = append-none _ (webhook_errors env) d.0 in
    let b = append-none _ (provider_errors parse_int public_base_url env) c.0 in
    let a = append-none (session_errors env) (public_base_url_errors protocol env) b.0 in
    let selected = errors_of-none (select_provider parse_int public_base_url env) b.1 in
    let entry = selected_entry parse_int public_base_url env selected.0 closed selected.1 in
    let base = a.1 in
    let webhooks = c.1 in
    let runs = d.1 in
    record {
      source = sourced env closed a.0;
      named = entry.0;
      minting =
          missing_settings (sumsub_config_from_env parse_int env) access_token_settings
            (guarded-ok _ _ entry.1.0 entry.1.1).0;
      signed = λ on. elim (Bool-cases (given (env "SUMSUB_WEBHOOK_SECRET"))) [
        | inl set ↦ set
        | inr unset ↦ let w = rw (on, entry.0, unset, closed) at webhooks in absurd cc
      ];
      pinned = λ on. elim (Bool-cases (given (env "PUBLIC_BASE_URL"))) [
        | inl set ↦
            elim (Bool-cases (is_http_url protocol (filled_text (env "PUBLIC_BASE_URL") ""))) [
              | inl http ↦ (set, http)
              | inr other ↦ let w = rw (on, set, other) at base in absurd cc
            ]
        | inr unset ↦ let w = rw (on, unset, closed) at base in absurd cc
      ];
      placed = λ on. elim (Bool-cases (is_edge runtime)) [
        | inl at_edge ↦ let w = rw (on, at_edge) at runs in absurd cc
        | inr elsewhere ↦ elsewhere
      ];
    }
