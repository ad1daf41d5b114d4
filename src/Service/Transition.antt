-- ===== src/Service/Transition.antt =====
-- packages/kyc-node/src/sessions.ts: the one path by which a status is written, the host's effects
-- behind it, and the reconciliation of a session with the provider.
use kyc.Common.{
  String, Option, none, some, List, [], ◌∷◌, if◌then◌else◌, truthy, same_option, Values, str, arr,
  nil, cons,
}
use kyc.Types.{VerificationStatus, status_text}
use kyc.Errors.{Thrown}
use kyc.Audit.{
  AuditAction, status_updated, webhook_rejected, effect_failed, AuditMetadata,
  sanitize_audit_metadata,
}
use kyc.Action.{ok, Action, pure, ◌>>=◌, ◌>>◌}
use kyc.Store.{
  SessionRecord, StatusWriteOutcome, updated, unchanged, rejected_terminal, bind_applicant_id,
  update_session_status, append_audit_entry,
}
use kyc.Service.State.{
  World, ServiceDeps, StatusTransition, StatusTransitionOutcome, write, rejected_unbound,
  StatusSource, api, webhook, StatusTransitionEvent, transaction, on_store, new_id, audit_code,
}

pub record ApplyStatusTransitionOptions : Type 0 where
  -- absent unless the event is to bind its applicant
  pub bind_applicant_id : Option String
  pub reject_labels : Option (List String)

abbrev pub source_text : StatusSource → String
source_text api = "api"
source_text webhook = "webhook"

abbrev pub texts : List String → Values
texts [] = nil
texts (s ∷ ss) = cons (str s) (texts ss)

-- `...(rejectLabels ? { rejectLabels } : {})`
abbrev pub labels_entry : Option (List String) → AuditMetadata
labels_entry none = []
labels_entry (some labels) = ("rejectLabels", arr (texts labels)) ∷ []

abbrev pub change_metadata :
    VerificationStatus → VerificationStatus → StatusSource → AuditMetadata → AuditMetadata
change_metadata status previous source rest =
    ("status", str (status_text status))
    ∷ ("previousStatus", str (status_text previous))
    ∷ ("source", str (source_text source))
    ∷ rest

module _ (deps : ServiceDeps) where
  unfoldable pub audit : String → AuditAction → AuditMetadata → Action World (Unit {0})
  audit session action metadata = do
    id ← new_id deps
    on_store deps (
        append_audit_entry deps.now (record {
          id = id;
          session_id = session;
          action = action;
          metadata = sanitize_audit_metadata metadata;
        }))

  -- The host's effect is called, and what it throws is caught.
  abbrev pub call_effect :
      (StatusTransitionEvent → Option Thrown) → StatusTransitionEvent → Action World (Option Thrown)
  call_effect effect event w = (ok (effect event), record w { effects = event ∷ w.effects })

  abbrev pub effect_failure :
      String → StatusTransitionEvent → Option Thrown → Action World (Unit {0})
  effect_failure id event none = pure tt
  effect_failure id event (some e) = audit id effect_failed (
      change_metadata event.session.status event.previous_status event.source
        (("errorCode", str (audit_code e)) ∷ []))

  abbrev pub run_effect :
      Option (StatusTransitionEvent → Option Thrown)
      → String
      → StatusTransitionEvent
      → Action World (Unit {0})
  run_effect none id event = pure tt
  run_effect (some effect) id event = do
    failure ← call_effect effect event
    effect_failure id event failure

  -- Only a change reaches the effects.
  unfoldable pub run_outcome :
      StatusTransitionOutcome → String → StatusTransitionEvent → Action World (Unit {0})
  run_outcome (write updated) id event = run_effect deps.on_status_transition id event
  run_outcome _ id event = pure tt

  unfoldable pub run_effects :
      String → StatusSource → StatusTransition → Option (List String) → Action World (Unit {0})
  run_effects id source transition reject_labels = run_outcome transition.outcome id (record {
    previous_status = transition.previous_status;
    session = transition.session;
    source = source;
    reject_labels = reject_labels;
  })

  -- The audit row that goes with a write. Refusing to leave a terminal status is one only for a
  -- webhook.
  unfoldable pub audit_outcome :
      String
      → VerificationStatus
      → VerificationStatus
      → Option (List String)
      → StatusWriteOutcome
      → StatusSource
      → Action World (Unit {0})
  audit_outcome id status previous reject_labels updated source =
      audit id status_updated (change_metadata status previous source (labels_entry reject_labels))
  audit_outcome id status previous reject_labels rejected_terminal webhook =
      audit id webhook_rejected
        (change_metadata status previous webhook (("reason", str "terminal_status") ∷ []))
  audit_outcome id status previous reject_labels rejected_terminal api = pure tt
  audit_outcome id status previous reject_labels unchanged source = pure tt

  unfoldable pub write_bound :
      String
      → VerificationStatus
      → StatusSource
      → Option (List String)
      → Action World StatusTransition
  write_bound id status source reject_labels = do
    done ← on_store deps (update_session_status deps.now id status)
    audit_outcome id status done.previous_status reject_labels done.outcome source
    pure (record {
      outcome = write done.outcome;
      previous_status = done.previous_status;
      session = done.session;
    })

  -- The event is refused when the row it was to bind belongs to another applicant.
  unfoldable pub write_unbound :
      String → VerificationStatus → StatusSource → SessionRecord → Action World StatusTransition
  write_unbound id status source bound = do
    audit id webhook_rejected
        (change_metadata status bound.status source (("reason", str "applicant_mismatch") ∷ []))
    pure (record { outcome = rejected_unbound; previous_status = bound.status; session = bound })

  unfoldable pub bind_then_write :
      String
      → VerificationStatus
      → StatusSource
      → Option (List String)
      → String
      → Action World StatusTransition
  bind_then_write id status source reject_labels applicant = do
    bound ← on_store deps (bind_applicant_id deps.now id applicant)
    if same_option bound.provider_applicant_id (some applicant)
        then write_bound id status source reject_labels
        else write_unbound id status source bound

  -- The transaction's callback, by the applicant to bind.
  unfoldable pub write_body :
      String
      → VerificationStatus
      → StatusSource
      → Option (List String)
      → Option String
      → Action World StatusTransition
  write_body id status source reject_labels none = write_bound id status source reject_labels
  write_body id status source reject_labels (some applicant) =
      if truthy applicant
      then bind_then_write id status source reject_labels applicant
      else write_bound id status source reject_labels

  unfoldable pub write_status :
      String
      → VerificationStatus
      → StatusSource
      → ApplyStatusTransitionOptions
      → Action World StatusTransition
  write_status id status source options =
      transaction (write_body id status source options.reject_labels options.bind_applicant_id)

  unfoldable pub apply_status_transition :
      String
      → VerificationStatus
      → StatusSource
      → ApplyStatusTransitionOptions
      → Action World StatusTransition
  apply_status_transition id status source options = do
    transition ← write_status id status source options
    run_effects id source transition options.reject_labels
    pure transition
