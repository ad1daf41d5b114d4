-- ===== src/Types.antt =====
-- packages/kyc-node/src/types.ts and packages/kyc-core/src/verification/types.ts: the normalized
-- vocabulary that both sides of the wire share. The two status types have the same six values.
pub mod Laws
use kyc.Common.{ℕ, String, Bool, true, false, Option, none, some, ◌==◌, if◌then◌else◌, eqb}
use kyc.Common.{Value, str}

pub data VerificationStatus : Type 0 where
  initial incomplete pending approved declined finally_rejected : VerificationStatus

-- Where a status stands in `VERIFICATION_STATUSES`.
abbrev pub index : VerificationStatus → ℕ
index initial = 0
index incomplete = 1
index pending = 2
index approved = 3
index declined = 4
index finally_rejected = 5

-- `a === b`
abbrev pub same_status : VerificationStatus → VerificationStatus → Bool
same_status a b = eqb (index a) (index b)

-- The string that stands for a status.
abbrev pub status_text : VerificationStatus → String
status_text initial = "initial"
status_text incomplete = "incomplete"
status_text pending = "pending"
status_text approved = "approved"
status_text declined = "declined"
status_text finally_rejected = "finallyRejected"

pub parse_status : String → Option VerificationStatus
parse_status s =
    if s == "initial"
    then some initial
    else if s == "incomplete"
    then some incomplete
    else if s == "pending"
    then some pending
    else if s == "approved"
    then some approved
    else if s == "declined"
    then some declined
    else if s == "finallyRejected"
    then some finally_rejected
    else none

-- `isVerificationStatus(value)`, with the status that the value then is.
unfoldable pub is_verification_status : Value → Option VerificationStatus
unfolding parse_status
is_verification_status (str s) = parse_status s
is_verification_status _ = none

-- `TERMINAL_STATUSES.has(status)`
abbrev pub is_terminal : VerificationStatus → Bool
is_terminal approved = true
is_terminal finally_rejected = true
is_terminal _ = false

pub data VerificationPlatform : Type 0 where
  web ios android : VerificationPlatform

abbrev pub platform_text : VerificationPlatform → String
platform_text web = "WEB"
platform_text ios = "IOS"
platform_text android = "ANDROID"

-- `isVerificationPlatform(value)`, with the platform that the value then is.
unfoldable pub is_verification_platform : Value → Option VerificationPlatform
is_verification_platform (str s) =
    if s == "WEB"
    then some web
    else if s == "IOS"
    then some ios
    else if s == "ANDROID"
    then some android
    else none
is_verification_platform _ = none

pub record CreateSessionOptions : Type 0 where
  pub platform : VerificationPlatform
  pub level_name : Option String
  pub locale : Option String

pub record TokenSubject : Type 0 where
  pub user_id : String
  pub provider_applicant_id : Option String

pub record ProviderSession : Type 0 where
  pub provider_applicant_id : Option String
  pub access_token : String
  pub expires_at : Option String

pub record ProviderToken : Type 0 where
  pub access_token : String
  pub expires_at : Option String

pub record UserStatusLookup : Type 0 where
  pub status : VerificationStatus
  pub provider_applicant_id : Option String
