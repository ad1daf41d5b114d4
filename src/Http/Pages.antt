-- ===== src/Http/Pages.antt =====
-- packages/kyc-node/src/pages.ts: what a provider's hosted page gets, and the headers it goes out
-- under.
use kyc.Common.{String, Option, none, some, List, [], ◌∷◌, ◌++◌, ◌<>◌}

-- What a provider's page renderer gets for one session.
pub record HostedPageParams : Type 0 where
  pub session_id : String
  pub user_id : String
  pub access_token : String
  pub locale : Option String
  pub applicant_id : Option String
  pub nonce : String

pub record HostedPageCspOptions : Type 0 where
  pub script_src : Option (List String)
  pub connect_src : Option (List String)
  pub extra : Option (List String)

abbrev pub no_csp_options : HostedPageCspOptions
no_csp_options = record { script_src = none; connect_src = none; extra = none }

-- `texts.join(separator)`
abbrev pub join : String → List String → String
join separator [] = ""
join separator (text ∷ []) = text
join separator (text ∷ next ∷ texts) = text <> separator <> join separator (next ∷ texts)

-- `sources ?? fallback`
abbrev pub sources_or : List String → Option (List String) → List String
sources_or fallback none = fallback
sources_or fallback (some sources) = sources

unfoldable pub hosted_page_csp : String → HostedPageCspOptions → String
hosted_page_csp nonce options = join "; " (
    "default-src 'none'"
    ∷ join " " (("script-src 'nonce-" <> nonce <> "'") ∷ sources_or [] options.script_src)
    ∷ ("connect-src " <> join " " (sources_or ("'self'" ∷ []) options.connect_src))
    ∷ (sources_or [] options.extra
        ++ (("style-src 'nonce-" <> nonce <> "'")
            ∷ "base-uri 'none'"
            ∷ "form-action 'none'"
            ∷ "frame-ancestors *"
            ∷ [])))

abbrev pub default_permissions_policy : String
default_permissions_policy = "camera=(self), microphone=(self)"
