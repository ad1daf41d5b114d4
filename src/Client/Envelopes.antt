-- ===== src/Client/Envelopes.antt =====
-- packages/kyc-core/src/verification/bridge.ts: what the reader of envelopes accepts, and that it
-- reads what the writer writes.
use kyc.Common.{
  String, ap, ◌∙◌, ◌≡◌, refl, true, Option, none, some, given, Value, str, num, Fields, end, field,
  get, as_object, is_text, arith, inl, inr, Option-cases,
}
use kyc.Types.{status_text}
use kyc.Types.Laws.{is_verification_status-status_text}
use kyc.Client.Vocabulary.{VerificationEvent}
use kyc.Client.Bridge.{
  BridgeEventType, bridge_source, is_version, interpret_envelope, parsed_object, as_record,
  payload_of, interpret_payload, create_bridge_message, interpret_bridge_message,
}

-- The hosted page's call of `createBridgeMessage` that announces an event.
unfoldable pub announce : VerificationEvent → Value
announce (VerificationEvent.applicant_loaded id) =
    create_bridge_message BridgeEventType.applicant_loaded (some (field "applicantId" (str id) end))
announce VerificationEvent.submitted = create_bridge_message BridgeEventType.submitted none
announce (VerificationEvent.status_changed s) =
    create_bridge_message BridgeEventType.status_changed
      (some (field "status" (str (status_text s)) end))
announce (VerificationEvent.complete s none) =
    create_bridge_message BridgeEventType.complete (some (field "status" (str (status_text s)) end))
announce (VerificationEvent.complete s (some id)) =
    create_bridge_message BridgeEventType.complete
      (some (field "status" (str (status_text s)) (field "applicantId" (str id) end)))
announce VerificationEvent.cancel = create_bridge_message BridgeEventType.cancel none
announce VerificationEvent.token_expired = create_bridge_message BridgeEventType.token_expired none
announce VerificationEvent.session_expired =
    create_bridge_message BridgeEventType.session_expired none
announce (VerificationEvent.error code none) =
    create_bridge_message BridgeEventType.error (some (field "code" (str code) end))
announce (VerificationEvent.error code (some message)) =
    create_bridge_message BridgeEventType.error
      (some (field "code" (str code) (field "message" (str message) end)))

-- The applicant of an event, if it names one, has a name that is not empty.
unfoldable pub IsAnnounceable : VerificationEvent → Type 0
IsAnnounceable (VerificationEvent.applicant_loaded id) = given (some id) ≡ true
IsAnnounceable (VerificationEvent.complete s (some id)) = given (some id) ≡ true
IsAnnounceable e = Unit {0}

module _ (json_parse : String → Option Value) where
  announces_object :
      (event : VerificationEvent)
      → as_record json_parse (announce event) ≡ as_object (announce event)
  unfolding announce create_bridge_message
  announces_object (VerificationEvent.applicant_loaded id) = refl
  announces_object VerificationEvent.submitted = refl
  announces_object (VerificationEvent.status_changed s) = refl
  announces_object (VerificationEvent.complete s none) = refl
  announces_object (VerificationEvent.complete s (some id)) = refl
  announces_object VerificationEvent.cancel = refl
  announces_object VerificationEvent.token_expired = refl
  announces_object VerificationEvent.session_expired = refl
  announces_object (VerificationEvent.error code none) = refl
  announces_object (VerificationEvent.error code (some message)) = refl

  interpret_envelope-announce :
      (event : VerificationEvent)
      → IsAnnounceable event
      → interpret_envelope json_parse (as_object (announce event)) ≡ some event
  unfolding interpret_payload create_bridge_message announce IsAnnounceable
  interpret_envelope-announce (VerificationEvent.applicant_loaded id) h = ground arith
  interpret_envelope-announce VerificationEvent.submitted h = refl
  interpret_envelope-announce (VerificationEvent.status_changed s) h =
      rw (is_verification_status-status_text s) refl
  interpret_envelope-announce (VerificationEvent.complete s none) h =
      rw (is_verification_status-status_text s) refl
  interpret_envelope-announce (VerificationEvent.complete s (some id)) h =
      rw (is_verification_status-status_text s) (ground arith)
  interpret_envelope-announce VerificationEvent.cancel h = refl
  interpret_envelope-announce VerificationEvent.token_expired h = refl
  interpret_envelope-announce VerificationEvent.session_expired h = refl
  interpret_envelope-announce (VerificationEvent.error code none) h = refl
  interpret_envelope-announce (VerificationEvent.error code (some message)) h = refl

  -- Whatever `JSON.parse` does on texts: the reader reads the envelope of an event, if its
  -- applicant is not empty, as that event, both as an object and as a text that parses to it.
  pub interpret_bridge_message-announce :
      (event : VerificationEvent)
      → IsAnnounceable event
      → (interpret_bridge_message json_parse (announce event) ≡ some event)
        × ((text : String)
            → json_parse text ≡ some (announce event)
            → interpret_bridge_message json_parse (str text) ≡ some event)
  unfolding interpret_bridge_message
  interpret_bridge_message-announce event h = (
    ap (interpret_envelope json_parse) (announces_object event)
        ∙ interpret_envelope-announce event h,
    λ text e.
        ap (λ v. interpret_envelope json_parse (parsed_object json_parse v)) e
        ∙ interpret_envelope-announce event h,
  )

  version_one : (v : Value) → is_version v ≡ true → v ≡ num 1
  version_one (num n) h = ap num (ground arith)
  version_one _ h = absurd (ground arith)

  envelope_of :
      (record' : Option Fields) (event : VerificationEvent)
      → interpret_envelope json_parse record' ≡ some event
      → (envelope : Fields) × (payload : Fields) × (record' ≡ some envelope)
        × (is_text (get "source" envelope) bridge_source ≡ true)
        × (get "v" envelope ≡ num 1)
        × (payload_of json_parse (get "payload" envelope) ≡ some payload)
        × (interpret_payload (get "type" envelope) payload ≡ some event)
  envelope_of none event h = absurd (ground arith)
  envelope_of (some data') event h =
      elim (Option-cases (payload_of json_parse (get "payload" data'))) [
        | inl e ↦ absurd (ground arith)
        | inr (payload, e) ↦ (
          data',
          payload,
          refl,
          ground arith,
          version_one (get "v" data') (ground arith),
          e,
          ground arith,
        )
      ]

  -- An accepted message has the source and the version of the protocol, is an object or a text of
  -- one, and its event is the one that its type and its payload give.
  pub interpret_bridge_message-IsEnvelope :
      (raw : Value) (event : VerificationEvent)
      → interpret_bridge_message json_parse raw ≡ some event
      → (envelope : Fields) × (payload : Fields) × (as_record json_parse raw ≡ some envelope)
        × (is_text (get "source" envelope) bridge_source ≡ true)
        × (get "v" envelope ≡ num 1)
        × (payload_of json_parse (get "payload" envelope) ≡ some payload)
        × (interpret_payload (get "type" envelope) payload ≡ some event)
  unfolding interpret_bridge_message
  interpret_bridge_message-IsEnvelope raw event h = envelope_of (as_record json_parse raw) event h
