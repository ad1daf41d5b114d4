-- ===== src/Registry/Boot.antt =====
-- packages/kyc-node/src/registry.ts over production.ts and the Sumsub settings: what a production
-- deployment can boot with.
use kyc.Common.{
  ℕ, String, ◌≡◌, refl, sym, subst, ◌⊎◌, inl, inr, Bool, Bool-cases, true, false, Option, none,
  some, List, [], ◌∷◌, ◌++◌, ◌==◌, eq_iff, if◌then◌else◌, arith, own, look_up,
}
use kyc.Action.{Result, ok, err}
use kyc.Sumsub.{
  Env, SumsubConfig, SumsubConfigKey, access_token_settings, sumsub_config_from_env,
  assert_sumsub_config, missing_sumsub_config, is_sumsub_sandbox_token, sumsub_demo_settings_in_use,
}
use kyc.Sumsub.Settings.{nothing_missing_iff}
use kyc.Registry.{
  is_guarded, ProductionConfig, production_errors, unless_any, assert_production_config, prefixed,
  provider_name_from_env, Selected, built, provider_from_env, ShippedProvider, sumsub, guarded,
  call_factory, default_registry, access_token_provider_from_env, kyc_provider_env,
}

pub guarded-ok :
    {A : Type 0} (check : Result (Unit {0})) (next : Result A) (a : A)
    → guarded check next ≡ ok a
    → (check ≡ ok tt) × (next ≡ ok a)
guarded-ok (err e) next a h = absurd (cc)
guarded-ok (ok done) next a h = (refl, h)

unless_any-ok : (errors : List String) → unless_any errors ≡ ok tt → errors ≡ []
unless_any-ok [] h = refl
unless_any-ok (e ∷ es) h = absurd (cc)

prefixed-none : (settings : List String) → prefixed settings ≡ [] → settings ≡ []
prefixed-none [] h = refl
prefixed-none (x ∷ xs) h = absurd (cc)

demo_none :
    (demo : Bool) (message : String) (settings : List String)
    → (if demo then message ∷ [] else []) ++ prefixed settings ≡ []
    → (demo ≡ false) × (settings ≡ [])
demo_none true message settings h = absurd (cc)
demo_none false message settings h = (refl, prefixed-none settings h)

-- Under the guard neither a demo provider nor a demo setting passes.
demo_refused :
    (env : Env) (config : ProductionConfig)
    → is_guarded env ≡ true
    → assert_production_config env config ≡ ok tt
    → (config.demo ≡ false) × (config.demo_settings ≡ [])
unfolding assert_production_config production_errors
demo_refused env config g h =
    demo_none config.demo _ config.demo_settings (unless_any-ok _ (rw g at h))

not_sandbox :
    (config : SumsubConfig)
    → sumsub_demo_settings_in_use config ≡ []
    → is_sumsub_sandbox_token config.app_token ≡ false
unfolding sumsub_demo_settings_in_use
not_sandbox config h = elim (Bool-cases (is_sumsub_sandbox_token config.app_token)) [
  | inl sandbox ↦ absurd (ground arith)
  | inr live ↦ live
]

pub built_own :
    {P : Type 0} (name : String) (entry : Result P) (s : Selected P)
    → call_factory name (own entry) ≡ ok s
    → (a : P) × ((entry ≡ ok a) × (s ≡ built a))
built_own name (ok a) s h = (a, (refl, cc))
built_own name (err e) s h = absurd (cc)

pub missing_settings :
    (config : SumsubConfig) (required : List SumsubConfigKey)
    → assert_sumsub_config config required ≡ ok tt
    → missing_sumsub_config config required ≡ []
unfolding assert_sumsub_config
missing_settings config required h =
    (nothing_missing_iff (missing_sumsub_config config required)).0 h

module _ (parse_int : String → Option ℕ) (service_origin : Env → String) (env : Env) where
  -- What a production deployment boots with: the Sumsub adapter, with all that a mint needs, and no
  -- sandbox token.
  pub record IsLive (s : Selected ShippedProvider) : Type 0 where
    pub adapter : s ≡ built (sumsub (sumsub_config_from_env parse_int env))
    pub complete :
        missing_sumsub_config (sumsub_config_from_env parse_int env) access_token_settings ≡ []
    pub live : is_sumsub_sandbox_token (sumsub_config_from_env parse_int env).app_token ≡ false

  -- The name is that of an entry.
  registry_name :
      let name : String =
        (provider_name_from_env env
          (default_registry parse_int service_origin env access_token_settings)
          "sumsub").0 in
      (name ≡ "mock") ⊎ (name ≡ "sumsub")
  unfolding provider_name_from_env default_registry
  registry_name =
      let name : String = elim (env kyc_provider_env) [ none ↦ "sumsub" | some named ↦ named ] in
      elim (Bool-cases ("mock" == name)) [
        | inl h ↦ rw h (inl (sym ((eq_iff "mock" name).0 h)))
        | inr h ↦ elim (Bool-cases ("sumsub" == name)) [
          | inl k ↦ rw (h, k) (inr (sym ((eq_iff "sumsub" name).0 k)))
          | inr k ↦ rw (h, k) (inr refl)
        ]
      ]

  mock_refused :
      (s : Selected ShippedProvider)
      → is_guarded env ≡ true
      → call_factory "mock"
          (look_up (default_registry parse_int service_origin env access_token_settings) "mock")
        ≡ ok s
      → IsLive s
  unfolding default_registry
  mock_refused s g h =
      let (a, (entry, same)) = built_own "mock" _ s h in
      let (passes, next) = guarded-ok _ _ a entry in
      let (demo, no_setting) = demo_refused env _ g passes in absurd (cc)

  sumsub-IsLive :
      (s : Selected ShippedProvider)
      → is_guarded env ≡ true
      → call_factory "sumsub"
          (look_up (default_registry parse_int service_origin env access_token_settings) "sumsub")
        ≡ ok s
      → IsLive s
  unfolding default_registry
  sumsub-IsLive s g h =
      let (a, (entry, same)) = built_own "sumsub" _ s h in
      let (complete, checked) = guarded-ok _ _ a entry in
      let (passes, next) = guarded-ok _ _ a checked in
      let (demo, no_setting) = demo_refused env _ g passes in
      let config : SumsubConfig = sumsub_config_from_env parse_int env in
      record {
        adapter = cc;
        complete = missing_settings config access_token_settings complete;
        live = not_sandbox config no_setting;
      }

  named-IsLive :
      (s : Selected ShippedProvider) (name : String)
      → (name ≡ "mock") ⊎ (name ≡ "sumsub")
      → is_guarded env ≡ true
      → call_factory name
          (look_up (default_registry parse_int service_origin env access_token_settings) name)
        ≡ ok s
      → IsLive s
  named-IsLive s name (inl mocked) g h = mock_refused s g (
      subst
        (λ n.
          call_factory n
            (look_up (default_registry parse_int service_origin env access_token_settings) n)
          ≡ ok s)
        mocked h)
  named-IsLive s name (inr live) g h = sumsub-IsLive s g (
      subst
        (λ n.
          call_factory n
            (look_up (default_registry parse_int service_origin env access_token_settings) n)
          ≡ ok s)
        live h)

  -- An access-token host of a production deployment, one with KYC_ENV=production and without
  -- KYC_ALLOW_DEMO=true, that boots on the package's own registry boots with the Sumsub adapter,
  -- whatever else its environment says: never with the mock, with no setting missing that a mint
  -- needs, and never on a sandbox token.
  pub access_token_provider_from_env-IsLive :
      (s : Selected ShippedProvider)
      → is_guarded env ≡ true
      → access_token_provider_from_env parse_int service_origin env ≡ ok s
      → IsLive s
  unfolding access_token_provider_from_env provider_from_env default_registry
  access_token_provider_from_env-IsLive s g h =
      named-IsLive s
        (provider_name_from_env env
          (default_registry parse_int service_origin env access_token_settings) "sumsub").0
        registry_name g h
