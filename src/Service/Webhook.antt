-- ===== src/Service/Webhook.antt =====
-- packages/kyc-node/src/sessions.ts, `handleWebhookEvent`: which session a provider's event is
-- about, and its effect on it.
use kyc.Common.{
  String, Bool, true, false, not, ◌&&◌, Option, none, some, List, if◌then◌else◌, given, same_option,
  is_some,
}
use kyc.Types.{VerificationStatus}
use kyc.Action.{Action, pure, gets, ◌>>=◌}
use kyc.Store.{
  SessionRecord, get_session_by_provider_applicant_id, get_latest_unbound_session_for_user,
}
use kyc.Service.State.{World, ServiceDeps, StatusTransitionOutcome, webhook, on_store}
use kyc.Service.Transition.{apply_status_transition}

-- `status` is absent on an event that is not acted on.
pub record WebhookEvent : Type 0 where
  pub provider_applicant_id : String
  pub external_user_id : Option String
  pub status : Option VerificationStatus
  pub raw_status : String
  pub level_name : Option String
  pub reject_labels : Option (List String)

pub data WebhookOutcome : Type 0 where
  ignored_unknown_status unknown_session : WebhookOutcome
  transition : StatusTransitionOutcome → WebhookOutcome

-- The session that an event is about, and whether the event is to bind its applicant to it.
pub data Target : Type 0 where
  unknown : Target
  known : (session : SessionRecord) (needs_binding : Bool) → Target

abbrev pub bound_target : Option SessionRecord → Target
bound_target none = unknown
bound_target (some s) = known s false

-- `!session || onAnotherLevel`
abbrev pub is_elsewhere : Option String → Option SessionRecord → Bool
is_elsewhere level_name none = true
is_elsewhere level_name (some s) = is_some level_name && not (same_option s.level_name level_name)

abbrev pub unbound_target : Option SessionRecord → Option SessionRecord → Target
unbound_target session none = bound_target session
unbound_target session (some unbound) = known unbound true

module _ (deps : ServiceDeps) where
  abbrev pub find_unbound : Option String → Option SessionRecord → Action World Target
  find_unbound none session = pure (bound_target session)
  find_unbound (some user) session = do
    unbound ← on_store deps (gets (get_latest_unbound_session_for_user user deps.provider_name))
    pure (unbound_target session unbound)

  unfoldable pub find_target : WebhookEvent → Action World Target
  find_target event = do
    session ←
        on_store deps
          (gets (get_session_by_provider_applicant_id event.provider_applicant_id event.level_name))
    if is_elsewhere event.level_name session && given event.external_user_id
        then find_unbound event.external_user_id session
        else pure (bound_target session)

  unfoldable pub apply_event :
      WebhookEvent → VerificationStatus → Target → Action World WebhookOutcome
  apply_event event status unknown = pure unknown_session
  apply_event event status (known session needs_binding) = do
    done ← apply_status_transition deps session.id status webhook (record {
      bind_applicant_id = if needs_binding then some event.provider_applicant_id else none;
      reject_labels = event.reject_labels;
    })
    pure (transition done.outcome)

  unfoldable pub handle_status :
      WebhookEvent → Option VerificationStatus → Action World WebhookOutcome
  handle_status event none = pure ignored_unknown_status
  handle_status event (some status) = do target ← find_target event; apply_event event status target

  unfoldable pub handle_webhook_event : WebhookEvent → Action World WebhookOutcome
  unfolding handle_status
  handle_webhook_event event = handle_status event event.status
