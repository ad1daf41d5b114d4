-- ===== src/Client/Messages.antt =====
-- packages/kyc-core/src/verification/messages.ts: the copy for every error code.
use kyc.Common.{String, Option, none, some, ◌==◌, if◌then◌else◌, given}

-- `serverMessage || fallback`
abbrev pub message_or : Option String → String → String
message_or none fallback = fallback
message_or (some s) fallback = if given (some s) then s else fallback

unfoldable pub get_error_message : String → Option String → String
get_error_message code server =
    if code == "UNAUTHORIZED"
    then "You are not authorized to start identity verification."
    else if code == "VALIDATION_ERROR"
    then message_or server "Invalid input. Please check your information."
    else if code == "PROVIDER_UNAVAILABLE"
    then "Verification service temporarily unavailable. Please try again later."
    else if code == "SESSION_NOT_FOUND"
    then "Verification session not found. Please start again."
    else if code == "SESSION_CREATION_FAILED"
    then "Unable to start identity verification. Please try again."
    else if code == "PERSISTENCE_FAILED"
    then "Your verification session could not be saved. Please try again."
    else if code == "NETWORK_ERROR"
    then "Connection lost. Please check your network and try again."
    else if code == "PERMISSION_DENIED"
    then "Camera access is required to verify your identity."
    else if code == "SDK_UNAVAILABLE"
    then "Identity verification is unavailable in this build."
    else if code == "TOKEN_EXPIRED"
    then "Your verification session expired. Please start again."
    else if code == "TOKEN_REFRESH_FAILED"
    then "Could not refresh your verification session. Please try again."
    else if code == "BRIDGE_PROTOCOL"
    then "The verification page sent an unsupported message. Please update the app."
    else message_or server "An error occurred. Please try again."
