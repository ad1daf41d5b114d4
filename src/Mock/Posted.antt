-- ===== src/Mock/Posted.antt =====
-- packages/kyc-node/src/providers/mock/provider.ts: what the page posts passes the verification, and
-- is read as the event it stands for.
use kyc.Common.{
  ℕ, String, ◌≡◌, refl, ap, ◌∙◌, true, Option, none, some, List, given, arith, str, eqb, eq_refl,
}
use kyc.Types.{VerificationStatus, status_text, is_verification_status}
use kyc.Types.Laws.{is_verification_status_iff}
use kyc.Action.{Result, ok}
use kyc.Signature.{count, timing_safe_equal_string}
use kyc.Store.{lookup, lookup-insert}
use kyc.Service.{WebhookEvent}
use kyc.Sumsub.{single, WebhookHeaders, string_list}
use kyc.Http.{HostedPageParams}
use kyc.Mock.{
  MockDeps, MockState, MockApplicant, post, verify_webhook, parse_webhook_event, get_status,
  set_applicant_status, sign_webhook, post_value,
}

module _ (deps : MockDeps) where
  verify-signed :
      (headers : WebhookHeaders) (body : String)
      → headers "x-mock-signature" ≡ some (single (sign_webhook deps body))
      → given (some (sign_webhook deps body)) ≡ true
      → deps.timing_safe_equal
          (deps.buffer_from (sign_webhook deps body))
          (deps.buffer_from (sign_webhook deps body))
        ≡ true
      → verify_webhook deps headers body ≡ true
  unfolding verify_webhook timing_safe_equal_string
  verify-signed headers body h full same =
      let counted : eqb (count (deps.buffer_from (sign_webhook deps body)))
            (count (deps.buffer_from (sign_webhook deps body)))
          ≡ true =
        ground arith in
      rw (h, full, counted) same

  get_status-set :
      (id : String) (status : VerificationStatus) (applicant : MockApplicant) (s : MockState)
      → lookup id s.applicants ≡ some applicant
      → get_status id (set_applicant_status id status s) ≡ ok status
  unfolding get_status set_applicant_status
  get_status-set id status applicant s h =
      rw
        (
          h,
          get_status,
          lookup-insert id id (record applicant { status = status }) s.applicants,
          eq_refl id,
        )
        refl

  known_status :
      (status : VerificationStatus)
      → is_verification_status (str (status_text status)) ≡ some status
  known_status status = (is_verification_status_iff (str (status_text status)) status).1 refl

  -- The event that a post for a status stands for.
  abbrev pub posted_event : String → HostedPageParams → VerificationStatus → WebhookEvent
  posted_event id params status = record {
    provider_applicant_id = id;
    external_user_id = some params.user_id;
    status = some status;
    raw_status = status_text status;
    level_name = none;
    reject_labels = none;
  }

  parse-posted :
      (params : HostedPageParams) (status : VerificationStatus) (id : String) (s : MockState)
      → params.applicant_id ≡ some id
      → given (some id) ≡ true
      → deps.json_parse (deps.stringify (post_value deps params status))
        ≡ some (post_value deps params status)
      → deps.text_of (str (status_text status)) ≡ ok (status_text status)
      → parse_webhook_event deps (deps.stringify (post_value deps params status)) s
        ≡ (ok (some (posted_event id params status)), set_applicant_status id status s)
  unfolding parse_webhook_event string_list
  parse-posted params status id s named full reads text =
      rw (reads, named, full, known_status status, text) refl

  -- Where the digest is not empty, equal bytes compare as equal, JSON is read as it was written, and
  -- a text is its own text: what the page posts for a session's applicant passes the verification
  -- under its own signature and is read as the event of that applicant, user and status; the
  -- provider, if it knows the applicant, then reports the status.
  pub post-parses :
      (params : HostedPageParams) (status : VerificationStatus) (id : String)
      (applicant : MockApplicant) (s : MockState) (headers : WebhookHeaders)
      → ((algorithm secret body : String)
          → given (some (deps.hmac_hex algorithm secret body)) ≡ true)
      → ((bytes : List ℕ) → deps.timing_safe_equal bytes bytes ≡ true)
      → ((text : String) → deps.text_of (str text) ≡ ok text)
      → deps.json_parse (deps.stringify (post_value deps params status))
        ≡ some (post_value deps params status)
      → params.applicant_id ≡ some id
      → given (some id) ≡ true
      → lookup id s.applicants ≡ some applicant
      → headers "x-mock-signature" ≡ some (single (post deps params status).signature)
      → let body : String = (post deps params status).body in
        let done : Result (Option WebhookEvent) × MockState = parse_webhook_event deps body s in
        (verify_webhook deps headers body ≡ true)
        × (done.0 ≡ ok (some (posted_event id params status)))
        × (get_status id done.1 ≡ ok status)
  unfolding post
  post-parses params status id applicant s headers digests compares texts reads named full there
        signed =
      let parsed = parse-posted params status id s named full reads (texts (status_text status)) in
      (
        verify-signed headers _ signed (digests _ _ _) (compares _),
        ap (λ x. x.0) parsed,
        ap (λ x. get_status id x.1) parsed ∙ get_status-set id status applicant s there,
      )
