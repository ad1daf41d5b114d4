-- ===== src/Sumsub/Webhooks.antt =====
-- packages/kyc-node/src/providers/sumsub/provider.ts, `verifyWebhook` and `parseWebhookEvent`: the
-- provider's webhooks. `JSON.parse` and the writing of a repeated header are parameters.
use kyc.Common.{
  ℕ, String, Bool, true, false, not, Option, none, some, List, [], ◌∷◌, ◌<>◌, if◌then◌else◌, truthy,
  eqb, Value, Values, nil, cons, undefined, null, bool, num, str, arr, Fields, get, as_object,
  property, Property, own, inherited, missing,
}
use kyc.Types.{VerificationStatus}
use kyc.Signature.{VerifyHexDigestArgs, verify_hex_digest}
use kyc.Service.{WebhookEvent}
use kyc.Sumsub.Mapping.{map_sumsub_webhook_status}
use kyc.Sumsub.Provider.{
  HeaderValue, single, several, WebhookHeaders, digest_header, digest_alg_header,
}

-- `headerValue(headers, name)`: a header that came several times is written out, not dropped.
unfoldable pub header_value : (List String → String) → Option HeaderValue → Option String
header_value stringify none = none
header_value stringify (some (single value)) = some value
header_value stringify (some (several values)) = some (stringify values)

abbrev pub verify_args :
    (List String → String)
    → Option String
    → (allow_missing : Bool) → WebhookHeaders
    → (body : String) → VerifyHexDigestArgs
unfolding header_value
verify_args stringify secret allow_missing headers body = record {
  signature = header_value stringify (headers digest_header);
  algorithm = header_value stringify (headers digest_alg_header);
  body = body;
  secret = secret;
  allow_missing_secret = allow_missing;
}

abbrev pub strings_of : Values → Option (List String)
strings_of nil = some []
strings_of (cons (str s) vs) = elim (strings_of vs) [ none ↦ none | some ss ↦ some (s ∷ ss) ]
strings_of (cons _ vs) = none

-- `stringList(value)`
unfoldable pub string_list : Value → Option (List String)
string_list (arr (cons v vs)) = strings_of (cons v vs)
string_list _ = none

-- `Boolean(value)`
abbrev pub truthy_value : Value → Bool
truthy_value undefined = false
truthy_value null = false
truthy_value (bool b) = b
truthy_value (num n) = not (eqb n 0)
truthy_value (str s) = truthy s
truthy_value _ = true

-- What a body is read as: nothing, an event, or something that is not of the event's declared type -
-- a field of it that is no string, or a status that is a member of Object.prototype.
pub data ParsedWebhook : Type 0 where
  invalid untyped : ParsedWebhook
  event : WebhookEvent → ParsedWebhook

-- An optional field of the payload's declared type.
pub data TextField : Type 0 where
  absent ill_typed : TextField
  text : String → TextField

abbrev pub text_field : Value → TextField
text_field undefined = TextField.absent
text_field null = TextField.absent
text_field (str s) = TextField.text s
text_field _ = ill_typed

abbrev pub field_text : TextField → Option String
field_text (TextField.text s) = some s
field_text _ = none

abbrev pub is_ill_typed : TextField → Bool
is_ill_typed ill_typed = true
is_ill_typed _ = false

-- `typeof payload.levelName === 'string' && payload.levelName ? { levelName } : {}`
abbrev pub level_name_of : Value → Option String
level_name_of (str s) = if truthy s then some s else none
level_name_of _ = none

-- `payload.reviewStatus ?? ''`
abbrev pub or_blank : Option String → String
or_blank none = ""
or_blank (some s) = s

-- The event of a payload with the texts that it was found to have.
abbrev pub event_of :
    (type applicant_id : String)
    → (external_user_id review_status : Option String) → Fields
    → Option VerificationStatus
    → ParsedWebhook
event_of type applicant_id external_user_id review_status payload status = event (record {
  provider_applicant_id = applicant_id;
  external_user_id = external_user_id;
  status = status;
  raw_status = type <> ":" <> or_blank review_status;
  level_name = level_name_of (get "levelName" payload);
  reject_labels = string_list (property "rejectLabels" (get "reviewResult" payload));
})

abbrev pub with_mapped :
    (Option VerificationStatus → ParsedWebhook) → Property VerificationStatus → ParsedWebhook
with_mapped make (own status) = make (some status)
with_mapped make missing = make none
with_mapped make inherited = untyped

abbrev pub typed_event : String → String → TextField → TextField → Fields → ParsedWebhook
unfolding map_sumsub_webhook_status
typed_event type applicant external review payload =
    if is_ill_typed external
    then untyped
    else if is_ill_typed review
    then untyped
    else with_mapped (event_of type applicant (field_text external) (field_text review) payload) (
        map_sumsub_webhook_status (record {
          type = type;
          review_status = field_text review;
          review_result = get "reviewResult" payload;
        }))

unfoldable pub read_texts : Value → Value → Fields → ParsedWebhook
unfolding typed_event string_list
read_texts (str type) (str applicant) payload =
    typed_event type applicant (text_field (get "externalUserId" payload))
      (text_field (get "reviewStatus" payload)) payload
read_texts _ _ payload = untyped

-- `!payload.type || !payload.applicantId`
unfoldable pub parse_payload : Fields → ParsedWebhook
unfolding read_texts
parse_payload payload =
    if not (truthy_value (get "type" payload))
    then invalid
    else if not (truthy_value (get "applicantId" payload))
    then invalid
    else read_texts (get "type" payload) (get "applicantId" payload) payload

abbrev pub parse_object : Option Fields → ParsedWebhook
unfolding parse_payload
parse_object none = invalid
parse_object (some payload) = parse_payload payload

-- `JSON.parse`, which may throw, and then an object
abbrev pub parse_value : Option Value → ParsedWebhook
unfolding parse_object
parse_value none = invalid
parse_value (some v) = parse_object (as_object v)

unfoldable pub parse_webhook_event : (String → Option Value) → String → ParsedWebhook
unfolding parse_value
parse_webhook_event json_parse raw_body = parse_value (json_parse raw_body)

module _ (hmac_hex : (algorithm secret body : String) → String) (buffer_from : String → List ℕ)
    (timing_safe_equal : List ℕ → List ℕ → Bool) (stringify : List String → String) where
  unfoldable pub verify_webhook :
      (secret : Option String) → (allow_missing : Bool) → WebhookHeaders → (body : String) → Bool
  unfolding verify_args
  verify_webhook secret allow_missing headers body =
      verify_hex_digest hmac_hex buffer_from timing_safe_equal
        (verify_args stringify secret allow_missing headers body)
