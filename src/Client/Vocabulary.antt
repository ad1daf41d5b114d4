-- ===== src/Client/Vocabulary.antt =====
-- packages/kyc-core/src/verification/types.ts and src/errors.ts: events, sessions, results, and the
-- error codes.
use kyc.Common.{String, Bool, Option, List, [], ◌∷◌, includes}
use kyc.Types.{VerificationStatus}

pub data VerificationEvent : Type 0 where
  applicant_loaded : (applicant_id : String) → VerificationEvent
  submitted : VerificationEvent
  status_changed : VerificationStatus → VerificationEvent
  complete : VerificationStatus → (applicant_id : Option String) → VerificationEvent
  cancel token_expired session_expired : VerificationEvent
  error : (code : String) (message : Option String) → VerificationEvent

pub record VerificationSession : Type 0 where
  pub provider : String
  pub session_id : Option String
  pub access_token : Option String
  pub url : Option String
  pub allowed_origin : Option String
  pub applicant_id : Option String
  pub status : Option VerificationStatus

pub record IdentityVerificationResult : Type 0 where
  pub status : VerificationStatus
  pub applicant_id : Option String

-- Codes that only the client itself gives rise to.
abbrev pub client_error_codes : List String
client_error_codes =
    "NETWORK_ERROR" ∷ "PERMISSION_DENIED" ∷ "SDK_UNAVAILABLE" ∷ "TOKEN_EXPIRED"
    ∷ "TOKEN_REFRESH_FAILED" ∷ "BRIDGE_PROTOCOL" ∷ []

abbrev pub error_codes : List String
error_codes =
    "UNAUTHORIZED" ∷ "VALIDATION_ERROR" ∷ "PROVIDER_UNAVAILABLE" ∷ "SESSION_NOT_FOUND"
    ∷ "SESSION_CREATION_FAILED" ∷ "PERSISTENCE_FAILED" ∷ []

abbrev pub is_known_error_code : String → Bool
is_known_error_code code = includes error_codes code

abbrev pub is_client_error_code : String → Bool
is_client_error_code code = includes client_error_codes code
