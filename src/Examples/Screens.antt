-- ===== src/Examples/Screens.antt =====
-- The client's machine, the envelopes of the hosted page, and the provider's vocabulary, at concrete
-- inputs.
use kyc.Common.{
  String, ◌≡◌, refl, ◌↔◌, true, false, Option, none, some, ◌==◌, if◌then◌else◌, includes,
  prototype_members, Value, str, num, obj, field, end, Fields, get, is_text, property, own,
  inherited,
}
use kyc.Types.{approved, declined, finally_rejected}
use kyc.Client.{
  VerificationEvent, IdentityVerificationResult, initial_machine_state, plan_event,
  interpret_payload, interpret_bridge_message, as_record, payload_of, bridge_source,
}
use kyc.Client.Plans.{IsEffectOf, Announces, advance, plan_event-Announces}
use kyc.Client.Envelopes.{
  announce, IsAnnounceable, interpret_bridge_message-announce, interpret_bridge_message-IsEnvelope,
}
use kyc.Sumsub.{map_sumsub_status, map_sumsub_webhook_type}
use kyc.Sumsub.Verdicts.{map_sumsub_status_iff, map_sumsub_webhook_type_inherited_iff}

abbrev result : IdentityVerificationResult
result = record { status = approved; applicant_id = none }

plan_event-Announces_example :
    IsEffectOf
      (VerificationEvent.complete approved none)
      (plan_event (VerificationEvent.complete approved none) none).effect
    × Announces
        (plan_event (VerificationEvent.complete approved none) none).effect
        initial_machine_state
        (advance initial_machine_state
          (plan_event (VerificationEvent.complete approved none) none).action)
plan_event-Announces_example =
    plan_event-Announces initial_machine_state (VerificationEvent.complete approved none)

-- A parser that knows one text.
abbrev known_text : String → Option Value
known_text s = if s == "{}" then some (obj end) else none

loaded_IsAnnounceable : IsAnnounceable (VerificationEvent.applicant_loaded "applicant-1")
unfolding IsAnnounceable
loaded_IsAnnounceable = refl

interpret_bridge_message-announce_example :
    (interpret_bridge_message known_text
        (announce (VerificationEvent.applicant_loaded "applicant-1"))
      ≡ some (VerificationEvent.applicant_loaded "applicant-1"))
    × ((text : String)
        → known_text text ≡ some (announce (VerificationEvent.applicant_loaded "applicant-1"))
        → interpret_bridge_message known_text (str text)
          ≡ some (VerificationEvent.applicant_loaded "applicant-1"))
interpret_bridge_message-announce_example =
    interpret_bridge_message-announce known_text (VerificationEvent.applicant_loaded "applicant-1")
      loaded_IsAnnounceable

abbrev cancel_message : Value
cancel_message =
    obj (field "source" (str "kyc-bridge") (field "v" (num 1) (field "type" (str "cancel") end)))

reads_cancel : interpret_bridge_message known_text cancel_message ≡ some VerificationEvent.cancel
unfolding interpret_bridge_message interpret_payload
reads_cancel = refl

interpret_bridge_message-IsEnvelope_example :
    (envelope : Fields) × (payload : Fields) × (as_record known_text cancel_message ≡ some envelope)
    × (is_text (get "source" envelope) bridge_source ≡ true)
    × (get "v" envelope ≡ num 1)
    × (payload_of known_text (get "payload" envelope) ≡ some payload)
    × (interpret_payload (get "type" envelope) payload ≡ some VerificationEvent.cancel)
interpret_bridge_message-IsEnvelope_example =
    interpret_bridge_message-IsEnvelope known_text cancel_message VerificationEvent.cancel
      reads_cancel

abbrev reviewed : String
reviewed = "applicantReviewed"

abbrev completed : Option String
completed = some "completed"

abbrev green : Value
green = obj (field "reviewAnswer" (str "GREEN") end)

map_sumsub_status_iff_example :
    ((map_sumsub_status completed green ≡ approved)
      ↔ ((completed ≡ some "completed") × (is_text (property "reviewAnswer" green) "GREEN" ≡ true)))
    × ((map_sumsub_status completed green ≡ finally_rejected) ↔ (
        (completed ≡ some "completed")
        × (is_text (property "reviewAnswer" green) "RED" ≡ true)
        × (is_text (property "reviewRejectType" green) "FINAL" ≡ true)))
    × ((map_sumsub_status completed green ≡ declined) ↔ (
        (completed ≡ some "completed")
        × (is_text (property "reviewAnswer" green) "RED" ≡ true)
        × (is_text (property "reviewRejectType" green) "FINAL" ≡ false)))
map_sumsub_status_iff_example = map_sumsub_status_iff completed green

reads_green : map_sumsub_webhook_type reviewed completed green ≡ own approved
unfolding map_sumsub_webhook_type map_sumsub_status
reads_green = refl

map_sumsub_webhook_type_inherited_iff_example :
    (map_sumsub_webhook_type "constructor" none green ≡ inherited)
    ↔ (includes prototype_members "constructor" ≡ true)
map_sumsub_webhook_type_inherited_iff_example =
    map_sumsub_webhook_type_inherited_iff "constructor" none green
