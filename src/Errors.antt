-- ===== src/Errors.antt =====
-- packages/kyc-node/src/errors.ts: what a call can throw, and the code that it carries.
use kyc.Common.{String, Option, none, some}

-- A property `code` of a thrown object: missing (or null), a string, or something else.
pub data CodeField : Type 0 where
  absent other : CodeField
  text : String → CodeField

-- A thrown value: an object with `extensions.code`, `code` and a message, or no object at all.
pub data Thrown : Type 0 where
  object : (extensions code : CodeField) → (message : String) → Thrown
  primitive : Thrown

pub data ErrorCode : Type 0 where
  unauthorized validation_error provider_unavailable session_not_found : ErrorCode
  session_creation_failed persistence_failed : ErrorCode

abbrev pub code_text : ErrorCode → String
code_text unauthorized = "UNAUTHORIZED"
code_text validation_error = "VALIDATION_ERROR"
code_text provider_unavailable = "PROVIDER_UNAVAILABLE"
code_text session_not_found = "SESSION_NOT_FOUND"
code_text session_creation_failed = "SESSION_CREATION_FAILED"
code_text persistence_failed = "PERSISTENCE_FAILED"

-- `new KycError(code, message)`: the code stands in both places.
abbrev pub create_error : ErrorCode → String → Thrown
create_error c message = object (text (code_text c)) (text (code_text c)) message

abbrev pub default_message : ErrorCode → String
default_message unauthorized = "Authentication required"
default_message validation_error = ""
default_message provider_unavailable = "Verification service temporarily unavailable"
default_message session_not_found = "Verification session not found"
default_message session_creation_failed = "Failed to create verification session"
default_message persistence_failed = "Failed to save verification data"

-- `Errors.unauthorized()` and the others that have a default message.
abbrev pub errors : ErrorCode → Thrown
errors c = create_error c (default_message c)

-- A failure of the language, such as a method call on a value that has no such method.
abbrev pub type_error : Thrown
type_error = object absent absent "TypeError"

abbrev pub field_code : CodeField → Option String
field_code (text s) = some s
field_code _ = none

-- `candidate.extensions?.code ?? candidate.code`, when that is a string
abbrev pub get_error_code : Thrown → Option String
get_error_code primitive = none
get_error_code (object absent code message) = field_code code
get_error_code (object ext code message) = field_code ext

-- `(error as Error).message`; a primitive has none.
abbrev pub message_of : Thrown → Option String
message_of (object ext code message) = some message
message_of primitive = none
