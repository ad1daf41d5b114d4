-- ===== src/Audit.antt =====
-- packages/kyc-node/src/audit.ts: the vocabulary of the audit trail, and the allow-list of the
-- metadata keys that may reach it.
pub mod Laws
use kyc.Common.{
  ℕ, String, Bool, Option, List, [], ◌∷◌, if◌then◌else◌, includes, Value, undefined, ◌==◌,
}

pub data AuditAction : Type 0 where
  session_created token_refreshed status_updated : AuditAction
  webhook_rejected creation_failed effect_failed : AuditAction

-- An object's own properties, in order.
abbrev pub AuditMetadata : Type 0
AuditMetadata = List (String × Value)

abbrev pub allowed_metadata_keys : List String
allowed_metadata_keys =
    "userId" ∷ "provider" ∷ "platform" ∷ "levelName" ∷ "status" ∷ "previousStatus" ∷ "source"
    ∷ "errorCode" ∷ "reason" ∷ "rejectLabels" ∷ []

-- `metadata[key]`
abbrev pub metadata_value : String → AuditMetadata → Value
metadata_value key [] = undefined
metadata_value key ((k, v) ∷ rest) = if k == key then v else metadata_value key rest

unfoldable pub sanitize_audit_metadata : AuditMetadata → AuditMetadata
sanitize_audit_metadata [] = []
sanitize_audit_metadata ((key, v) ∷ rest) =
    if includes allowed_metadata_keys key
    then (key, v) ∷ sanitize_audit_metadata rest
    else sanitize_audit_metadata rest

pub record NewAuditEntry : Type 0 where
  pub id : String
  pub session_id : String
  pub action : AuditAction
  pub metadata : AuditMetadata

pub record AuditEntry : Type 0 where
  pub id : String
  pub session_id : String
  pub action : AuditAction
  pub timestamp : ℕ
  pub metadata : AuditMetadata
