-- ===== src/Client/Labels.antt =====
-- packages/kyc-core/src/verification/labels.ts: the copy of the built-in screens.
use kyc.Common.{String, Option, none, some, List, Property, own, inherited, missing, look_up}
use kyc.Types.{VerificationStatus, approved, declined, finally_rejected, incomplete}
use kyc.Client.Machine.{IdentityVerificationError, describe_outcome}

pub record OutcomeLabels : Type 0 where
  pub outcome_approved : String
  pub outcome_declined : String
  pub outcome_finally_rejected : String
  pub outcome_incomplete : String
  pub outcome_reviewing : String

unfoldable pub default_outcome_labels : OutcomeLabels
unfolding describe_outcome
default_outcome_labels = record {
  outcome_approved = describe_outcome (some approved);
  outcome_declined = describe_outcome (some declined);
  outcome_finally_rejected = describe_outcome (some finally_rejected);
  outcome_incomplete = describe_outcome (some incomplete);
  outcome_reviewing = describe_outcome none;
}

unfoldable pub outcome_label : OutcomeLabels → Option VerificationStatus → String
outcome_label labels (some approved) = labels.outcome_approved
outcome_label labels (some declined) = labels.outcome_declined
outcome_label labels (some finally_rejected) = labels.outcome_finally_rejected
outcome_label labels (some incomplete) = labels.outcome_incomplete
outcome_label labels _ = labels.outcome_reviewing

-- The host's table of error copy, and what `table[code] ?? message` is: a text, or a member that the
-- table inherits from `Object.prototype`.
unfoldable pub failure_label : List (String × String) → IdentityVerificationError → Property String
failure_label error_messages failure = elim (look_up error_messages failure.code) [
  | own text ↦ own text
  | inherited ↦ inherited
  | missing ↦ own failure.message
]
