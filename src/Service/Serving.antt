-- ===== src/Service/Serving.antt =====
-- packages/kyc-node/src/sessions.ts: every call of the service, whatever the provider, the host's
-- effects and the store's outages do, keeps the invariant, and every session and the trail go on.
use kyc.Common.{ℕ, String, ◌≡◌, refl, Bool, Option, none, some, given, Value, ◌&&◌, truthy}
use kyc.Types.{VerificationStatus}
use kyc.Audit.{creation_failed, token_refreshed}
use kyc.Validation.{ValidatedStartInput, require_id}
use kyc.Store.{get_latest_session_for_user, SessionRecord}
use kyc.Service.State.{coded_or_unavailable, ServiceDeps, webhook, require_user}
use kyc.Service.Requests.{
  mint_session, bind_minted, start, require_live, mint_token, issue_token, refresh, page, not_found,
  bad_gateway, status, view_latest, latest_for_user, render_found, hosted_page, is_shown,
}
use kyc.Service.Webhook.{
  WebhookEvent, find_unbound, find_target, apply_event, handle_status, handle_webhook_event, Target,
  unknown, known, is_elsewhere,
}
use kyc.Service.Sound.{on_store-gets-Keeps, call_provider-Keeps, audit-Keeps}
use kyc.Service.Changes.{bind_applicant_id-Keeps}
use kyc.Service.Creation.{persist_session-Keeps}
use kyc.Service.Kept.{
  Kept, pure-Kept, bind_Kept, catch_Kept, if_Kept, throw-Kept, result_Kept, require_owned-Kept,
  reconcile-Kept, apply_status_transition-Kept,
}

module _ (deps : ServiceDeps) where
  require_user-Kept : (user : Option String) → Kept deps (require_user user)
  require_user-Kept none = throw-Kept deps _
  require_user-Kept (some user) = result_Kept deps _

  mint_session-Kept :
      (owner : String) (input : ValidatedStartInput) (s : SessionRecord)
      → Kept deps (mint_session deps owner input s)
  unfolding mint_session
  mint_session-Kept owner input s = catch_Kept deps _ _ (call_provider-Keeps deps _ _) (λ e.
      bind_Kept deps _ _ (audit-Keeps deps s.id creation_failed _ refl) (λ _. throw-Kept deps _))

  bind_minted-Kept :
      (id : String) (applicant : Option String) → Kept deps (bind_minted deps id applicant)
  unfolding bind_minted
  bind_minted-Kept id none = pure-Kept deps tt
  bind_minted-Kept id (some applicant) =
      if_Kept deps (truthy applicant) _ _
        (bind_Kept deps _ _ (bind_applicant_id-Keeps deps id applicant) (λ _. pure-Kept deps tt))
        (pure-Kept deps tt)

  require_live-Kept : (s : SessionRecord) → Kept deps (require_live deps s)
  require_live-Kept s = result_Kept deps _

  mint_token-Kept : (user : String) (s : SessionRecord) → Kept deps (mint_token deps user s)
  mint_token-Kept user s = call_provider-Keeps deps _ _

  issue_token-Kept : (owner : String) (s : SessionRecord) → Kept deps (issue_token deps owner s)
  unfolding issue_token
  issue_token-Kept owner s = bind_Kept deps (require_live deps s) _ (require_live-Kept s) (λ _.
      bind_Kept deps _ _
        (catch_Kept deps (mint_token deps owner s) _ (mint_token-Kept owner s)
          (λ e. throw-Kept deps (coded_or_unavailable e)))
        (λ token.
          bind_Kept deps _ _ (audit-Keeps deps s.id token_refreshed _ refl)
            (λ _. pure-Kept deps token.access_token)))

  pub refresh-Kept : (user : Option String) (id : String) → Kept deps (refresh deps user id)
  unfolding refresh
  refresh-Kept user id = bind_Kept deps _ _ (require_user-Kept user) (λ owner.
      bind_Kept deps _ _ (result_Kept deps (require_id id "sessionId")) (λ checked.
        bind_Kept deps _ _ (require_owned-Kept deps checked owner) (issue_token-Kept owner)))

  pub status-Kept : (user : Option String) (id : String) → Kept deps (status deps user id)
  unfolding status
  status-Kept user id = bind_Kept deps _ _ (require_user-Kept user) (λ owner.
      bind_Kept deps _ _ (result_Kept deps _) (λ checked.
        bind_Kept deps _ _ (require_owned-Kept deps checked owner)
          (λ s. bind_Kept deps _ _ (reconcile-Kept deps s) (λ _. pure-Kept deps _))))

  view_latest-Kept :
      (heal : Bool) (found : Option SessionRecord) → Kept deps (view_latest deps heal found)
  view_latest-Kept heal none = pure-Kept deps none
  view_latest-Kept heal (some s) =
      bind_Kept deps _ _ (if_Kept deps heal _ _ (reconcile-Kept deps s) (pure-Kept deps s))
        (λ _. pure-Kept deps _)

  pub latest_for_user-Kept :
      (user : Option String) (heal : Bool) → Kept deps (latest_for_user deps user heal)
  unfolding latest_for_user
  latest_for_user-Kept user heal = bind_Kept deps _ _ (require_user-Kept user) (λ owner.
      bind_Kept deps _ _
        (on_store-gets-Keeps deps (get_latest_session_for_user owner deps.provider_name))
        (view_latest-Kept heal))

  render_found-Kept : (found : Option SessionRecord) → Kept deps (render_found deps found)
  render_found-Kept none = pure-Kept deps _
  render_found-Kept (some s) =
      if_Kept deps (is_shown deps s) _ _
        (catch_Kept deps _ _
          (bind_Kept deps (mint_token deps s.user_id s) _ (mint_token-Kept s.user_id s)
            (λ token. pure-Kept deps (page s token.access_token)))
          (λ _. pure-Kept deps bad_gateway))
        (pure-Kept deps not_found)

  pub hosted_page-Kept : (id : String) → Kept deps (hosted_page deps id)
  unfolding hosted_page
  hosted_page-Kept id = bind_Kept deps _ _ (on_store-gets-Keeps deps _) render_found-Kept

  find_unbound-Kept :
      (user : Option String) (session : Option SessionRecord)
      → Kept deps (find_unbound deps user session)
  find_unbound-Kept none session = pure-Kept deps _
  find_unbound-Kept (some user) session =
      bind_Kept deps _ _ (on_store-gets-Keeps deps _) (λ _. pure-Kept deps _)

  find_target-Kept : (event : WebhookEvent) → Kept deps (find_target deps event)
  unfolding find_target
  find_target-Kept event = bind_Kept deps _ _ (on_store-gets-Keeps deps _) (λ session.
      if_Kept deps (is_elsewhere event.level_name session && given event.external_user_id) _ _
        (find_unbound-Kept event.external_user_id session) (pure-Kept deps _))

  apply_event-Kept :
      (event : WebhookEvent) (status : VerificationStatus) (target : Target)
      → Kept deps (apply_event deps event status target)
  unfolding apply_event
  apply_event-Kept event status unknown = pure-Kept deps _
  apply_event-Kept event status (known s needs_binding) =
      bind_Kept deps _ _ (apply_status_transition-Kept deps s.id status webhook _)
        (λ _. pure-Kept deps _)

  handle_status-Kept :
      (event : WebhookEvent) (status : Option VerificationStatus)
      → Kept deps (handle_status deps event status)
  unfolding handle_status
  handle_status-Kept event none = pure-Kept deps _
  handle_status-Kept event (some status) =
      bind_Kept deps _ _ (find_target-Kept event) (apply_event-Kept event status)

  pub handle_webhook_event-Kept :
      (event : WebhookEvent) → Kept deps (handle_webhook_event deps event)
  unfolding handle_webhook_event
  handle_webhook_event-Kept event = handle_status-Kept event event.status

  module _ (unrepeated : (j k : ℕ) → deps.new_id j ≡ deps.new_id k → j ≡ k) where
    pub start-Kept : (user : Option String) (body : Value) → Kept deps (start deps user body)
    unfolding start
    start-Kept user body = bind_Kept deps _ _ (require_user-Kept user) (λ owner.
        bind_Kept deps _ _ (result_Kept deps _) (λ input.
          bind_Kept deps _ _
            (catch_Kept deps _ _ (persist_session-Keeps deps unrepeated owner input)
              (λ _. throw-Kept deps _))
            (λ s. bind_Kept deps _ _ (mint_session-Kept owner input s) (λ minted.
              bind_Kept deps _ _ (bind_minted-Kept s.id minted.provider_applicant_id)
                (λ _. pure-Kept deps _)))))
