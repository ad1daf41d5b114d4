-- ===== src/Client/Machine.antt =====
-- packages/kyc-core/src/verification/machine.ts: the reducer of the screen's state, and what an
-- event implies for it and for the host.
use kyc.Common.{
  String, Bool, true, false, ◌||◌, Option, none, some, ◌==◌, if◌then◌else◌, given, or_else,
}
use kyc.Types.{VerificationStatus, incomplete, approved, declined, finally_rejected, same_status}
use kyc.Client.Vocabulary.{
  VerificationEvent, applicant_loaded, submitted, status_changed, complete, cancel, token_expired,
  session_expired, VerificationSession, IdentityVerificationResult,
}
use kyc.Client.Messages.{get_error_message}

pub data VerificationState : Type 0 where
  idle loading verifying pending success permission_denied error offline : VerificationState

pub data PermissionReason : Type 0 where
  denied blocked : PermissionReason

pub record IdentityVerificationError : Type 0 where
  pub code : String
  pub message : String

pub record MachineState : Type 0 where
  pub status : VerificationState
  pub session : Option VerificationSession
  pub result : Option IdentityVerificationResult
  pub error : Option IdentityVerificationError
  pub permission_reason : Option PermissionReason

pub data MachineAction : Type 0 where
  begin go_offline await_review cancelled clear_session : MachineAction
  permission : PermissionReason → MachineAction
  start_session : VerificationSession → MachineAction
  applicant : String → MachineAction
  outcome : IdentityVerificationResult → MachineAction
  failed : IdentityVerificationError → (keep_session : Bool) → MachineAction

pub data VerificationEffect : Type 0 where
  status_change : VerificationStatus → VerificationEffect
  completed : IdentityVerificationResult → (delayed : Bool) → VerificationEffect
  call_cancel refresh_token : VerificationEffect
  call_error : IdentityVerificationError → VerificationEffect

pub record VerificationPlan : Type 0 where
  pub action : Option MachineAction
  pub effect : Option VerificationEffect

abbrev pub unknown_error_code : String
unknown_error_code = "UNKNOWN_ERROR"

abbrev pub initial_machine_state : MachineState
initial_machine_state = record {
  status = idle;
  session = none;
  result = none;
  error = none;
  permission_reason = none;
}

unfoldable pub to_identity_verification_error : String → Option String → IdentityVerificationError
to_identity_verification_error code message = record {
  code = code;
  message = get_error_message code message;
}

unfoldable pub describe_failure : Option IdentityVerificationError → IdentityVerificationError
describe_failure none = to_identity_verification_error unknown_error_code none
describe_failure (some e) = e

abbrev pub with_applicant : String → Option VerificationSession → Option VerificationSession
with_applicant id none = none
with_applicant id (some s) = some (record s { applicant_id = some id })

unfoldable pub machine_reducer : MachineState → MachineAction → MachineState
machine_reducer s begin = record s {
  status = loading;
  result = none;
  error = none;
  permission_reason = none;
}
machine_reducer s (permission reason) = record s {
  status = permission_denied;
  permission_reason = some reason;
}
machine_reducer s go_offline = record s { status = offline }
machine_reducer s (start_session session) = record {
  status = verifying;
  session = some session;
  result = none;
  error = none;
  permission_reason = none;
}
machine_reducer s (applicant id) = record s { session = with_applicant id s.session }
machine_reducer s await_review = record s { status = VerificationState.pending }
machine_reducer s (outcome result) = record s {
  status = if same_status result.status approved then success else VerificationState.pending;
  result = some result;
  error = none;
}
machine_reducer s cancelled = initial_machine_state
machine_reducer s (failed e keep_session) = record {
  status = VerificationState.error;
  session = if keep_session then s.session else none;
  result = none;
  error = some e;
  permission_reason = none;
}
machine_reducer s clear_session = record s { session = none }

abbrev pub session_applicant : Option VerificationSession → Option String
session_applicant none = none
session_applicant (some s) = s.applicant_id

-- `applicantId ? { status, applicantId } : { status }`
abbrev pub result_of : VerificationStatus → Option String → IdentityVerificationResult
result_of status id = record { status = status; applicant_id = if given id then id else none }

abbrev plan : Option MachineAction → Option VerificationEffect → VerificationPlan
plan action effect = record { action = action; effect = effect }

unfoldable pub plan_event : VerificationEvent → Option VerificationSession → VerificationPlan
plan_event (applicant_loaded id) session = plan (some (applicant id)) none
plan_event submitted session =
    plan (some await_review) (some (status_change VerificationStatus.pending))
plan_event (status_changed status) session =
    plan (if same_status status VerificationStatus.pending then some await_review else none)
      (some (status_change status))
plan_event (complete status id) session =
    let result = result_of status (or_else id (session_applicant session)) in
    plan (some (outcome result)) (some (completed result (same_status status approved)))
plan_event cancel session = plan (some cancelled) (some call_cancel)
plan_event token_expired session = plan none (some refresh_token)
plan_event session_expired session =
    let e = to_identity_verification_error "TOKEN_EXPIRED" none in
    plan (some (failed e true)) (some (call_error e))
plan_event (VerificationEvent.error code message) session =
    let e = to_identity_verification_error code message in
    plan (some (failed e false)) (some (call_error e))

unfoldable pub describe_outcome : Option VerificationStatus → String
describe_outcome (some approved) = "Your identity has been verified."
describe_outcome (some declined) =
    "We could not verify your identity. You can try again with clearer documents."
describe_outcome (some finally_rejected) = "Your identity could not be verified."
describe_outcome (some incomplete) = "Your verification is incomplete."
describe_outcome _ = "Thanks - we are reviewing your documents. This usually takes a few minutes."

unfoldable pub is_restartable_error : String → Bool
is_restartable_error code = code == "TOKEN_EXPIRED" || code == "TOKEN_REFRESH_FAILED"
