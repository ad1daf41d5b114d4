-- ===== src/Sumsub/Mapping.antt =====
-- packages/kyc-core/src/providers/sumsub/mapping.ts: reviews, webhook types, the mobile SDK's
-- results and the web SDK's messages. `String.toUpperCase` is a parameter.
use kyc.Common.{
  String, Bool, true, false, ◌||◌, Option, none, some, List, [], ◌∷◌, ◌==◌, ◌<>◌, if◌then◌else◌,
  given, Value, as_text, get, as_object, is_text, property, Fields, end, Property, own, look_up,
}
use kyc.Types.{
  VerificationStatus, initial, incomplete, pending, approved, declined, finally_rejected,
}
use kyc.Client.{VerificationEvent}

abbrev pub sumsub_error_code : String
sumsub_error_code = "SUMSUB_ERROR"

abbrev pub sumsub_webhook_types : List (String × VerificationStatus)
sumsub_webhook_types =
    ("applicantCreated", incomplete)
    ∷ ("applicantPending", pending)
    ∷ ("applicantOnHold", pending)
    ∷ ("applicantReset", initial)
    ∷ []

-- The review result is a value from outside: its two fields are compared, never trusted.
unfoldable pub map_sumsub_status : Option String → Value → VerificationStatus
map_sumsub_status none review_result = initial
map_sumsub_status (some review_status) review_result =
    if review_status == "completed"
    then if is_text (property "reviewAnswer" review_result) "GREEN"
      then approved
      else if is_text (property "reviewAnswer" review_result) "RED"
      then if is_text (property "reviewRejectType" review_result) "FINAL"
        then finally_rejected
        else declined
      else pending
    else if review_status == "pending"
        || review_status == "queued"
        || review_status == "prechecked"
        || review_status == "onHold"
    then pending
    else if review_status == "init"
    then incomplete
    else initial

-- What `table[type] ?? null` gives: a status, null, or a function that the table inherits.
unfoldable pub map_sumsub_webhook_type :
    String → Option String → Value → Property VerificationStatus
unfolding map_sumsub_status
map_sumsub_webhook_type type review_status review_result =
    if type == "applicantReviewed"
    then own (map_sumsub_status review_status review_result)
    else look_up sumsub_webhook_types type

-- What a webhook's payload says of the review.
pub record SumsubWebhookPayload : Type 0 where
  pub type : String
  pub review_status : Option String
  pub review_result : Value

unfoldable pub map_sumsub_webhook_status : SumsubWebhookPayload → Property VerificationStatus
unfolding map_sumsub_webhook_type
map_sumsub_webhook_status payload =
    map_sumsub_webhook_type payload.type payload.review_status payload.review_result

abbrev pub mobile_statuses : List (String × Option VerificationStatus)
mobile_statuses =
    ("Ready", some initial)
    ∷ ("Initial", some initial)
    ∷ ("Incomplete", some incomplete)
    ∷ ("Pending", some pending)
    ∷ ("TemporarilyDeclined", some declined)
    ∷ ("FinallyRejected", some finally_rejected)
    ∷ ("Approved", some approved)
    ∷ ("Failed", none)
    ∷ ("ActionCompleted", none)
    ∷ []

-- `asRecord(value)`
abbrev record_of : Option Fields → Fields
record_of none = end
record_of (some fs) = fs

-- `{ ...(message ? { message } : {}) }`
abbrev message_of : Option String → Option String
message_of m = if given m then m else none

abbrev code_of : Option String → String
code_of none = sumsub_error_code
code_of (some code) = code

abbrev loaded : Option String → Option VerificationEvent
loaded none = none
loaded (some id) = if given (some id) then some (VerificationEvent.applicant_loaded id) else none

unfoldable pub interpret_sumsub_web_message : String → Value → Option VerificationEvent
interpret_sumsub_web_message type payload =
    let data' = record_of (as_object payload) in
    if type == "idCheck.onApplicantLoaded"
    then loaded (as_text (get "applicantId" data'))
    else if type == "idCheck.onApplicantSubmitted" || type == "idCheck.onApplicantResubmitted"
    then some VerificationEvent.submitted
    else if type == "idCheck.onApplicantStatusChanged"
    then some (
        VerificationEvent.status_changed
          (map_sumsub_status (as_text (get "reviewStatus" data')) (get "reviewResult" data')))
    else if type == "idCheck.onError"
    then some (
        VerificationEvent.error (code_of (as_text (get "code" data')))
          (message_of (as_text (get "reason" data'))))
    else none

pub record SnsMobileSdkResult : Type 0 where
  pub succeeded : Bool
  pub status : String
  pub error_type : Option String
  pub error_msg : Option String

-- The status is one of the SDK's nine; another is read as one that has no entry.
abbrev normal : Property (Option VerificationStatus) → Option VerificationStatus
normal (own s) = s
normal _ = none

unfoldable pub map_sumsub_mobile_status : String → Option VerificationStatus
map_sumsub_mobile_status status = normal (look_up mobile_statuses status)

module _ (to_upper_case : String → String) where
  abbrev error_code_of : Bool → Option String → String → String
  error_code_of false error_type status = "SUMSUB_" <> to_upper_case status
  error_code_of true none status = "SUMSUB_" <> to_upper_case status
  error_code_of true (some error_type) status =
      if error_type == "Unauthorized"
      then "TOKEN_EXPIRED"
      else if error_type == "NetworkError"
      then "NETWORK_ERROR"
      else "SUMSUB_" <> to_upper_case error_type

  unfoldable pub map_sumsub_mobile_error_code : SnsMobileSdkResult → String
  map_sumsub_mobile_error_code r = error_code_of (given r.error_type) r.error_type r.status

  abbrev pub terminal : Option VerificationStatus → SnsMobileSdkResult → VerificationEvent
  unfolding map_sumsub_mobile_error_code
  terminal (some status) r = VerificationEvent.complete status none
  terminal none r =
      VerificationEvent.error (map_sumsub_mobile_error_code r) (message_of r.error_msg)

  unfoldable pub map_sumsub_mobile_result : SnsMobileSdkResult → VerificationEvent
  unfolding map_sumsub_mobile_status
  map_sumsub_mobile_result r =
      terminal (if r.succeeded then map_sumsub_mobile_status r.status else none) r
