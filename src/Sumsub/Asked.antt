-- ===== src/Sumsub/Asked.antt =====
-- packages/kyc-node/src/providers/sumsub/client.ts: the method, the resource and the body that each
-- call of the service's port asks the provider's REST API for, apart from how the client builds them.
use text.Mathlib.TextLemmas
use kyc.Common.{
  ℕ, String, ◌≡◌, refl, ◌∙◌, ap, ◌⊎◌, inl, inr, true, false, Option, none, some, List, ◌<>◌, given,
  if-holds_by, num, str, obj, field, end,
}
use kyc.Service.{ProviderCall}
use kyc.Sumsub.Config.{SumsubConfig}
use kyc.Sumsub.Client.{FetchRequest, ClientDeps}
use kyc.Sumsub.Provider.{level_of}

-- A part in front of a path of three parts.
pub in_front : (a b c d : String) → a <> b <> c <> d ≡ a <> (b <> c <> d)
in_front a b c d =
    ap (λ s. s <> d) (TextLemmas.append_assoc a b c) ∙ TextLemmas.append_assoc a (b <> c) d

-- The method of the API that a call uses.
abbrev pub verb_of : ProviderCall → String
verb_of (ProviderCall.create_session user opts) = "POST"
verb_of (ProviderCall.refresh_token subject opts) = "POST"
verb_of (ProviderCall.get_status applicant) = "GET"
verb_of (ProviderCall.get_status_by_user_id user) = "GET"

module _ (deps : ClientDeps) (config : SumsubConfig) where
  -- The resource under `/resources/` that a call is about, an id in it encoded.
  abbrev pub resource_of : ProviderCall → String
  resource_of (ProviderCall.create_session user opts) = "accessTokens/sdk"
  resource_of (ProviderCall.refresh_token subject opts) = "accessTokens/sdk"
  resource_of (ProviderCall.get_status applicant) =
      "applicants/" <> deps.encode_uri_component applicant <> "/status"
  resource_of (ProviderCall.get_status_by_user_id user) =
      "applicants/-;externalUserId=" <> deps.encode_uri_component user <> "/one"

  -- The level that a mint asks for: that of the options, or the configured one where they have none, or
  -- an empty one.
  abbrev pub IsLevel : Option String → String → Type 0
  IsLevel asked level =
      ((asked ≡ some level) × (given asked ≡ true))
      ⊎ ((given asked ≡ false) × (level ≡ config.level_name))

  level_of-IsLevel :
      (to_iso_string : ℕ → String) (now : List FetchRequest → ℕ) (asked : Option String)
      → IsLevel asked (level_of deps config to_iso_string now asked)
  level_of-IsLevel to_iso_string now none = inr (refl, refl)
  level_of-IsLevel to_iso_string now (some level) =
      if-holds_by (IsLevel (some level)) (given (some level)) {x = level} {y = config.level_name}
        (λ t. inl (refl, t)) (λ t. inr (t, refl))

  -- The body of a mint for the user.
  abbrev pub IsMintBody : String → Option String → Option String → Type 0
  IsMintBody user asked body =
      (level : String) × (IsLevel asked level
        × (body
            ≡ some (
                deps.stringify (
                  obj (
                    field "userId" (str user) (
                      field "levelName" (str level)
                        (field "ttlInSecs" (num config.token_ttl_secs) end)))))))

  abbrev pub IsBodyOf : ProviderCall → Option String → Type 0
  IsBodyOf (ProviderCall.create_session user opts) body = IsMintBody user opts.level_name body
  IsBodyOf (ProviderCall.refresh_token subject opts) body =
      IsMintBody subject.user_id opts.level_name body
  IsBodyOf (ProviderCall.get_status applicant) body = body ≡ none
  IsBodyOf (ProviderCall.get_status_by_user_id user) body = body ≡ none

  pub mint-IsMintBody :
      (to_iso_string : ℕ → String) (now : List FetchRequest → ℕ) (user : String)
      (asked : Option String)
      → IsMintBody user asked (
          some (
            deps.stringify (
              obj (
                field "userId" (str user) (
                  field "levelName"
                    (str (level_of deps config to_iso_string now asked))
                    (field "ttlInSecs" (num config.token_ttl_secs) end))))))
  mint-IsMintBody to_iso_string now user asked =
      (_, (level_of-IsLevel to_iso_string now asked, refl))
