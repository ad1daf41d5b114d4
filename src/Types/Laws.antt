-- ===== src/Types/Laws.antt =====
-- Narrowing `unknown` input to a status or a platform.
use kyc.Common.{◌≡◌, refl, ◌↔◌, true, some, Value, str, arith, eq_iff}
use kyc.Types.{
  VerificationStatus, initial, incomplete, pending, approved, declined, finally_rejected, index,
  same_status, status_text, is_verification_status,
}

index_injective : (a b : VerificationStatus) → index a ≡ index b → a ≡ b
index_injective a b h = ground arith

pub same_status_iff : (a b : VerificationStatus) → (same_status a b ≡ true) ↔ (a ≡ b)
same_status_iff a b = ground (arith, index_injective a b)

-- The wire string of a status reads back as that status.
pub is_verification_status-status_text :
    (s : VerificationStatus) → is_verification_status (str (status_text s)) ≡ some s
unfolding is_verification_status
is_verification_status-status_text initial = refl
is_verification_status-status_text incomplete = refl
is_verification_status-status_text pending = refl
is_verification_status-status_text approved = refl
is_verification_status-status_text declined = refl
is_verification_status-status_text finally_rejected = refl

-- Only the six wire strings are read as a status.
pub status_text-is_verification_status :
    (v : Value) (s : VerificationStatus)
    → is_verification_status v ≡ some s
    → v ≡ str (status_text s)
unfolding is_verification_status
status_text-is_verification_status (str t) s h = ground (
  arith,
  eq_iff t "initial",
  eq_iff t "incomplete",
  eq_iff t "pending",
  eq_iff t "approved",
  eq_iff t "declined",
  eq_iff t "finallyRejected",
)
status_text-is_verification_status _ s h = ground arith

-- A value is read as a status exactly when it is that status's wire string.
pub is_verification_status_iff :
    (v : Value) (s : VerificationStatus)
    → (is_verification_status v ≡ some s) ↔ (v ≡ str (status_text s))
is_verification_status_iff v s =
    (status_text-is_verification_status v s, λ h. rw h (is_verification_status-status_text s))
