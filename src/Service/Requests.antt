-- ===== src/Service/Requests.antt =====
-- packages/kyc-node/src/sessions.ts: what a client may ask for - start, refresh, status, the latest
-- session, and the hosted page - and the reconciliation behind a status read.
use kyc.Common.{
  String, Bool, not, ◌&&◌, Option, none, some, List, [], ◌∷◌, ◌==◌, if◌then◌else◌, given, truthy,
  Value, str, undefined, ◌<>◌,
}
use kyc.Types.{
  VerificationStatus, is_terminal, platform_text, CreateSessionOptions, TokenSubject,
  ProviderSession, ProviderToken, UserStatusLookup,
}
use kyc.Errors.{errors, create_error, validation_error, persistence_failed, session_not_found}
use kyc.Audit.{AuditMetadata, session_created, creation_failed, token_refreshed}
use kyc.Action.{Result, ok, err, Action, pure, throw, gets, try_catch, from_result, ◌>>=◌, ◌>>◌}
use kyc.Validation.{ValidatedStartInput, require_id, validate_start_input}
use kyc.Store.{
  NewSession, SessionRecord, create_session, bind_applicant_id, get_session_by_id,
  get_session_by_id_for_user, get_latest_session_for_user,
}
use kyc.Service.State.{
  World, ServiceDeps, ProviderCall, api, call_provider, transaction, on_store, new_id,
  public_origin, require_user, audit_code, coded_or_unavailable,
}
use kyc.Service.Transition.{audit, apply_status_transition}

pub record SessionView : Type 0 where
  pub session_id : String
  pub provider : String
  pub status : VerificationStatus
  pub applicant_id : Option String

pub record StartResult : Type 0 where
  pub session_id : String
  pub provider : String
  pub status : VerificationStatus
  pub applicant_id : Option String
  pub access_token : String
  pub url : String
  pub allowed_origin : String

pub data HostedPageDecision : Type 0 where
  page : (session : SessionRecord) (access_token : String) → HostedPageDecision
  not_found bad_gateway : HostedPageDecision

abbrev pub view : SessionRecord → SessionView
view s = record {
  session_id = s.id;
  provider = s.provider;
  status = s.status;
  applicant_id = s.provider_applicant_id;
}

abbrev pub opt : Option String → Value
opt none = undefined
opt (some s) = str s

-- `session.levelName ?? undefined`, for a session that is already placed
abbrev pub options_of : SessionRecord → CreateSessionOptions
options_of s = record { platform = s.platform; level_name = s.level_name; locale = none }

module _ (deps : ServiceDeps) where
  -- The page URL and the origin that a client pins `postMessage` to.
  abbrev pub hosted_url : String → String × String
  hosted_url id = elim deps.hosted_url_for [
    | some place ↦ (place id, public_origin deps (place id))
    | none ↦ (deps.public_base_url <> "/hosted/" <> id, public_origin deps deps.public_base_url)
  ]

  abbrev pub found_or_throw : Option SessionRecord → Action World SessionRecord
  found_or_throw none = throw (errors session_not_found)
  found_or_throw (some s) = pure s

  unfoldable pub require_owned : String → String → Action World SessionRecord
  require_owned id user = do
    found ← on_store deps (gets (get_session_by_id_for_user id user))
    found_or_throw found

  abbrev pub new_session : String → ValidatedStartInput → String → NewSession
  new_session owner input id = record {
    id = id;
    user_id = owner;
    provider = deps.provider_name;
    platform = input.platform;
    level_name = input.level_name;
    locale = input.locale;
    provider_applicant_id = none;
  }

  abbrev pub created_metadata : String → ValidatedStartInput → AuditMetadata
  created_metadata owner input =
      ("userId", str owner)
      ∷ ("provider", str deps.provider_name)
      ∷ ("platform", str (platform_text input.platform))
      ∷ ("levelName", opt input.level_name)
      ∷ []

  -- The session row and its audit entry.
  unfoldable pub persist_body : String → ValidatedStartInput → Action World SessionRecord
  persist_body owner input = do
    id ← new_id deps
    created ← on_store deps (create_session deps.now (new_session owner input id))
    audit deps created.id session_created (created_metadata owner input)
    pure created

  unfoldable pub persist_session : String → ValidatedStartInput → Action World SessionRecord
  persist_session owner input = transaction (persist_body owner input)

  unfoldable pub mint_session :
      String → ValidatedStartInput → SessionRecord → Action World ProviderSession
  mint_session owner input session =
      let options : CreateSessionOptions = record {
        platform = input.platform;
        level_name = input.level_name;
        locale = input.locale;
      } in
      try_catch
        (call_provider (ProviderCall.create_session owner options)
          (λ calls. deps.provider.create_session calls owner options))
        (λ e. do
          audit deps session.id creation_failed
              (("errorCode", str (audit_code e)) ∷ ("source", str "api") ∷ [])
          throw (coded_or_unavailable e))

  -- `if (minted.providerApplicantId) await store.bindApplicantId(…)`
  unfoldable pub bind_minted : String → Option String → Action World (Unit {0})
  bind_minted id none = pure tt
  bind_minted id (some applicant) =
      if truthy applicant
      then (do on_store deps (bind_applicant_id deps.now id applicant); pure tt)
      else pure tt

  unfoldable pub start : Option String → Value → Action World StartResult
  start user_id body = do
    owner ← require_user user_id
    input ← from_result (validate_start_input body)
    session ← try_catch (persist_session owner input) (λ _. throw (errors persistence_failed))
    minted ← mint_session owner input session
    bind_minted session.id minted.provider_applicant_id
    pure (record {
      session_id = session.id;
      provider = session.provider;
      status = session.status;
      applicant_id = minted.provider_applicant_id;
      access_token = minted.access_token;
      url = (hosted_url session.id).0;
      allowed_origin = (hosted_url session.id).1;
    })

  -- A replacement token for a session, minted by the provider.
  abbrev pub mint_token : String → SessionRecord → Action World ProviderToken
  mint_token user s =
      let subject : TokenSubject = record {
        user_id = user;
        provider_applicant_id = s.provider_applicant_id;
      } in
      call_provider (ProviderCall.refresh_token subject (options_of s))
        (λ calls. deps.provider.refresh_token calls subject (options_of s))

  abbrev pub require_live : SessionRecord → Action World (Unit {0})
  require_live s w = (
    if is_terminal s.status
        then err (create_error validation_error "session is terminal")
        else ok tt,
    w,
  )

  -- A token for a session that is still open, with its audit row.
  unfoldable pub issue_token : String → SessionRecord → Action World String
  issue_token owner session = do
    require_live session
    token ← try_catch (mint_token owner session) (λ e. throw (coded_or_unavailable e))
    audit deps session.id token_refreshed (("userId", str owner) ∷ ("source", str "api") ∷ [])
    pure token.access_token

  -- The result of `refresh` is the access token.
  unfoldable pub refresh : Option String → String → Action World String
  refresh user_id session_id = do
    owner ← require_user user_id
    id ← from_result (require_id session_id "sessionId")
    session ← require_owned id owner
    issue_token owner session

  abbrev pub by_applicant : Option String → Action World (Option UserStatusLookup)
  by_applicant none = pure none
  by_applicant (some applicant) = do
    status ←
        call_provider (ProviderCall.get_status applicant)
          (λ calls. deps.provider.get_status calls applicant)
    pure (some (record { status = status; provider_applicant_id = none }))

  abbrev pub by_user :
      String
      → Option (List ProviderCall → String → Result UserStatusLookup)
      → Action World (Option UserStatusLookup)
  by_user user none = pure none
  by_user user (some ask) = do
    found ← call_provider (ProviderCall.get_status_by_user_id user) (λ calls. ask calls user)
    pure (some found)

  abbrev pub apply_found : SessionRecord → Option UserStatusLookup → Action World SessionRecord
  apply_found s none = pure s
  apply_found s (some found) = do
    transition ←
        apply_status_transition deps s.id found.status api
          (record { bind_applicant_id = found.provider_applicant_id; reject_labels = none })
    pure transition.session

  -- What the provider says of a session: by the bound applicant, else by the user where it can.
  unfoldable pub lookup_status : SessionRecord → Action World (Option UserStatusLookup)
  lookup_status s =
      if given s.provider_applicant_id
      then by_applicant s.provider_applicant_id
      else by_user s.user_id deps.provider.get_status_by_user_id

  -- A session that is not finished, brought up to what the provider says; a failure on the way
  -- leaves the stored session as the answer.
  unfoldable pub reconcile : SessionRecord → Action World SessionRecord
  reconcile s =
      if is_terminal s.status
      then pure s
      else try_catch (do found ← lookup_status s; apply_found s found) (λ _. pure s)

  unfoldable pub status : Option String → String → Action World SessionView
  status user_id id = do
    owner ← require_user user_id
    checked ← from_result (require_id id "id")
    session ← require_owned checked owner
    current ← reconcile session
    pure (view current)

  abbrev pub view_latest : Bool → Option SessionRecord → Action World (Option SessionView)
  view_latest heal none = pure none
  view_latest heal (some s) = do
    current ← if heal then reconcile s else pure s
    pure (some (view current))

  unfoldable pub latest_for_user : Option String → Bool → Action World (Option SessionView)
  latest_for_user user_id heal = do
    owner ← require_user user_id
    found ← on_store deps (gets (get_latest_session_for_user owner deps.provider_name))
    view_latest heal found

  -- A finished session, or one of another provider, has nothing to render.
  abbrev pub is_shown : SessionRecord → Bool
  is_shown s = s.provider == deps.provider_name && not (is_terminal s.status)

  abbrev pub render : SessionRecord → Action World HostedPageDecision
  render s =
      if is_shown s
      then try_catch (do token ← mint_token s.user_id s; pure (page s token.access_token))
          (λ _. pure bad_gateway)
      else pure not_found

  abbrev pub render_found : Option SessionRecord → Action World HostedPageDecision
  render_found none = pure not_found
  render_found (some s) = render s

  unfoldable pub hosted_page : String → Action World HostedPageDecision
  hosted_page session_id = do
    found ← on_store deps (gets (get_session_by_id session_id))
    render_found found
