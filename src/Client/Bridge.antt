-- ===== src/Client/Bridge.antt =====
-- packages/kyc-core/src/verification/bridge.ts: the versioned envelopes of the hosted page.
-- `JSON.parse` is a parameter: the value of a text, or nothing where it throws.
use kyc.Common.{
  String, Bool, false, not, ◌||◌, Option, none, some, eqb, if◌then◌else◌, given, Value, undefined,
  str, num, obj, Fields, end, field, get, as_text, as_object, is_text,
}
use kyc.Types.{VerificationStatus, is_verification_status}
use kyc.Client.Vocabulary.{VerificationEvent}

abbrev pub bridge_source : String
bridge_source = "kyc-bridge"

abbrev pub bridge_error_code : String
bridge_error_code = "BRIDGE_PROTOCOL"

-- `value === 1`
abbrev pub is_version : Value → Bool
is_version (num n) = eqb n 1
is_version _ = false

pub data BridgeEventType : Type 0 where
  applicant_loaded submitted status_changed complete cancel token_expired session_expired error :
      BridgeEventType

abbrev pub type_text : BridgeEventType → String
type_text BridgeEventType.applicant_loaded = "applicantLoaded"
type_text BridgeEventType.submitted = "submitted"
type_text BridgeEventType.status_changed = "statusChanged"
type_text BridgeEventType.complete = "complete"
type_text BridgeEventType.cancel = "cancel"
type_text BridgeEventType.token_expired = "tokenExpired"
type_text BridgeEventType.session_expired = "sessionExpired"
type_text BridgeEventType.error = "error"

-- `applicantId ? event(applicantId) : fallback`
abbrev with_text :
    Option String
    → (String → Option VerificationEvent)
    → Option VerificationEvent
    → Option VerificationEvent
with_text none event fallback = fallback
with_text (some s) event fallback = if given (some s) then event s else fallback

abbrev with_status :
    Option VerificationStatus
    → (VerificationStatus → Option VerificationEvent)
    → Option VerificationEvent
with_status none event = none
with_status (some s) event = event s

abbrev code_or : Option String → String
code_or none = bridge_error_code
code_or (some s) = s

-- The event of a payload, by the type of the envelope.
unfoldable pub interpret_payload : Value → Fields → Option VerificationEvent
interpret_payload type payload =
    if is_text type "applicantLoaded"
    then with_text (as_text (get "applicantId" payload))
        (λ id. some (VerificationEvent.applicant_loaded id)) none
    else if is_text type "submitted"
    then some VerificationEvent.submitted
    else if is_text type "statusChanged"
    then with_status (is_verification_status (get "status" payload))
        (λ s. some (VerificationEvent.status_changed s))
    else if is_text type "complete"
    then with_status (is_verification_status (get "status" payload)) (λ s.
      with_text (as_text (get "applicantId" payload))
        (λ id. some (VerificationEvent.complete s (some id)))
        (some (VerificationEvent.complete s none)))
    else if is_text type "cancel"
    then some VerificationEvent.cancel
    else if is_text type "tokenExpired"
    then some VerificationEvent.token_expired
    else if is_text type "sessionExpired"
    then some VerificationEvent.session_expired
    else if is_text type "error"
    then some (
        VerificationEvent.error (code_or (as_text (get "code" payload)))
          (as_text (get "message" payload)))
    else none

-- `{ source, v, type, ...(payload ? { payload } : {}) }`
unfoldable pub create_bridge_message : BridgeEventType → Option Fields → Value
create_bridge_message type none = obj (
    field "source" (str bridge_source)
      (field "v" (num 1) (field "type" (str (type_text type)) end)))
create_bridge_message type (some payload) = obj (
    field "source" (str bridge_source)
      (field "v" (num 1) (field "type" (str (type_text type)) (field "payload" (obj payload) end))))

unfoldable pub create_set_token_message : String → Value
create_set_token_message token = obj (
    field "source" (str bridge_source)
      (field "v" (num 1) (field "type" (str "setToken") (field "token" (str token) end))))

module _ (json_parse : String → Option Value) where
  abbrev pub parsed_object : Option Value → Option Fields
  parsed_object none = none
  parsed_object (some v) = as_object v

  -- `asRecord(message)`
  abbrev pub as_record : Value → Option Fields
  as_record (str s) = parsed_object (json_parse s)
  as_record v = as_object v

  -- `data.payload === undefined ? {} : asRecord(data.payload)`
  abbrev pub payload_of : Value → Option Fields
  payload_of undefined = some end
  payload_of v = as_record v

  abbrev pub interpret_with : Value → Option Fields → Option VerificationEvent
  interpret_with type none = none
  interpret_with type (some payload) = interpret_payload type payload

  abbrev pub interpret_envelope : Option Fields → Option VerificationEvent
  interpret_envelope none = none
  interpret_envelope (some data') =
      if not (is_text (get "source" data') bridge_source) || not (is_version (get "v" data'))
      then none
      else interpret_with (get "type" data') (payload_of (get "payload" data'))

  unfoldable pub interpret_bridge_message : Value → Option VerificationEvent
  unfolding interpret_payload
  interpret_bridge_message raw = interpret_envelope (as_record raw)
