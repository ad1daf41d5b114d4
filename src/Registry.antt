-- ===== src/Registry.antt =====
-- packages/kyc-node/src/production.ts and registry.ts: which provider an environment selects, and the
-- guard against a production that runs on demo settings.
pub mod Boot
use kyc.Common.{
  ℕ, String, Bool, true, false, not, ◌&&◌, ◌||◌, Option, none, some, List, [], ◌∷◌, ◌++◌, ◌<>◌,
  ◌==◌, if◌then◌else◌, given, or_else, same_option, is_some, Property, own, inherited, missing,
  look_up,
}
use kyc.Errors.{Thrown, object, absent, type_error}
use kyc.Action.{Result, ok, err}
use kyc.Sumsub.{
  Env, SumsubConfig, SumsubConfigKey, access_token_settings, assert_sumsub_config,
  sumsub_config_from_env, sumsub_demo_settings_in_use,
}

-- packages/kyc-node/src/production.ts
abbrev pub kyc_env : String
kyc_env = "KYC_ENV"

abbrev pub kyc_allow_demo : String
kyc_allow_demo = "KYC_ALLOW_DEMO"

pub record ProductionConfig : Type 0 where
  pub provider : String
  pub demo : Bool
  pub demo_settings : List String

abbrev pub prefixed : List String → List String
prefixed [] = []
prefixed (setting ∷ settings) =
    ("KYC_ENV=production: " <> setting <> " is a demo setting") ∷ prefixed settings

-- `env.KYC_ENV !== 'production' || env.KYC_ALLOW_DEMO === 'true'`
abbrev pub is_guarded : Env → Bool
is_guarded env =
    same_option (env kyc_env) (some "production")
    && not (same_option (env kyc_allow_demo) (some "true"))

unfoldable pub production_errors : Env → ProductionConfig → List String
production_errors env config =
    if is_guarded env
    then (if config.demo
        then ("KYC_ENV=production: the " <> config.provider <> " provider is a demo provider") ∷ []
        else [])
      ++ prefixed config.demo_settings
    else []

abbrev pub join_errors : List String → String
join_errors [] = ""
join_errors (error ∷ []) = error
join_errors (error ∷ next ∷ errors) = error <> "; " <> join_errors (next ∷ errors)

abbrev pub production_config_error : List String → Thrown
production_config_error errors =
    object absent absent
      (join_errors errors <> ". Set KYC_ALLOW_DEMO=true to allow demo settings in production.")

abbrev pub unless_any : List String → Result (Unit {0})
unless_any [] = ok tt
unless_any (error ∷ errors) = err (production_config_error (error ∷ errors))

unfoldable pub assert_production_config : Env → ProductionConfig → Result (Unit {0})
unfolding production_errors
assert_production_config env config = unless_any (production_errors env config)

-- packages/kyc-node/src/registry.ts; an entry is what its factory returns or throws.
abbrev pub ProviderRegistry : Type 0 → Type 0
ProviderRegistry P = List (String × Result P)

abbrev pub kyc_provider_env : String
kyc_provider_env = "KYC_PROVIDER"

-- `Object.hasOwn(registry, name)`
abbrev pub has_own : {P : Type 0} → ProviderRegistry P → String → Bool
has_own [] name = false
has_own ((key, entry) ∷ registry) name = key == name || has_own registry name

-- The name, and the unknown one that `onUnknown` was told of.
unfoldable pub provider_name_from_env :
    {P : Type 0} → Env → ProviderRegistry P → (fallback : String) → String × Option String
provider_name_from_env env registry fallback =
    let name : String = elim (env kyc_provider_env) [ none ↦ fallback | some named ↦ named ] in
    if has_own registry name then (name, none) else (fallback, some name)

-- What `registry[name]()` comes to: an entry's factory, a member of `Object.prototype`, which is
-- called in its place, or a TypeError.
pub data Selected (P : Type 0) : Type 0 where
  built : P → Selected P
  inherited_call : (name : String) → Selected P

abbrev pub call_factory : {P : Type 0} → String → Property (Result P) → Result (Selected P)
call_factory name (own (ok provider)) = ok (built provider)
call_factory name (own (err e)) = err e
call_factory name inherited = ok (inherited_call name)
call_factory name missing = err type_error

unfoldable pub provider_from_env :
    {P : Type 0} → Env → ProviderRegistry P → (fallback : String) → Result (Selected P)
unfolding provider_name_from_env
provider_from_env env registry fallback =
    let name : String = (provider_name_from_env env registry fallback).0 in
    call_factory name (look_up registry name)

-- The adapters that the package ships, and what each is configured with.
pub data ShippedProvider : Type 0 where
  mock : (public_base_url webhook_secret : String) → ShippedProvider
  sumsub : SumsubConfig → ShippedProvider

abbrev pub guarded : {A : Type 0} → Result (Unit {0}) → Result A → Result A
guarded (err e) next = err e
guarded (ok done) next = next

abbrev pub filled_text : Option String → String → String
filled_text none fallback = fallback
filled_text (some s) fallback = if given (some s) then s else fallback

module _ (parse_int : String → Option ℕ) (service_origin : Env → String) where
  -- With the base URL and the secret of the mock as the environment gives them.
  unfoldable pub default_registry : Env → List SumsubConfigKey → ProviderRegistry ShippedProvider
  default_registry env required =
      let config : SumsubConfig = sumsub_config_from_env parse_int env in
      (
        "mock",
        guarded
            (assert_production_config env
              (record { provider = "mock"; demo = true; demo_settings = [] }))
            (ok (
              mock (filled_text (env "PUBLIC_BASE_URL") (service_origin env))
                (filled_text (env "MOCK_WEBHOOK_SECRET") "mock"))),
      )
      ∷ (
        "sumsub",
        guarded (assert_sumsub_config config required) (
            guarded
              (assert_production_config env (record {
                provider = "sumsub";
                demo = false;
                demo_settings = sumsub_demo_settings_in_use config;
              }))
              (ok (sumsub config))),
      )
      ∷ []

  -- With the default options.
  unfoldable pub access_token_provider_from_env : Env → Result (Selected ShippedProvider)
  unfolding provider_from_env default_registry
  access_token_provider_from_env env =
      provider_from_env env (default_registry env access_token_settings) "sumsub"
