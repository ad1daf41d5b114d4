-- ===== src/Validation.antt =====
-- packages/kyc-node/src/validation.ts: bounds on what a client sends. A body comes from the wire
-- unchecked, so the input is any value.
pub mod Laws
use kyc.Common.{
  ℕ, String, Bool, true, false, not, ◌&&◌, ◌||◌, Option, none, some, List, [], ◌∷◌, ◌==◌, ltb, leb,
  eqb, if◌then◌else◌, codes, truthy, length, is_blank, decimal, ◌<>◌, Value, undefined, null, str,
  property,
}
use kyc.Types.{VerificationPlatform, is_verification_platform}
use kyc.Errors.{create_error, validation_error, type_error}
use kyc.Action.{Result, ok, err}

abbrev pub max_level_name_length : ℕ
max_level_name_length = 100

abbrev pub max_locale_length : ℕ
max_locale_length = 35

abbrev pub is_lower : ℕ → Bool
is_lower c = leb b'a' c && leb c b'z'

abbrev pub is_upper : ℕ → Bool
is_upper c = leb b'A' c && leb c b'Z'

-- `LOCALE_PATTERN.test`, which is /^[a-z]{2}(-[A-Z]{2})?$/
abbrev pub locale_codes : List ℕ → Bool
locale_codes (a ∷ b ∷ []) = is_lower a && is_lower b
locale_codes (a ∷ b ∷ c ∷ d ∷ e ∷ []) =
    is_lower a && is_lower b && eqb c b'-' && is_upper d && is_upper e
locale_codes _ = false

unfoldable pub locale_pattern : String → Bool
locale_pattern s = locale_codes (codes s)

unfoldable pub require_id : String → String → Result String
require_id value name =
    if not (truthy value) || is_blank value
    then err (create_error validation_error (name <> " is required and cannot be empty"))
    else ok value

-- A value that is neither absent nor a string has no `trim`, and the call throws.
unfoldable pub optional_text : Value → String → ℕ → Result (Option String)
optional_text undefined name max_length = ok none
optional_text null name max_length = ok none
optional_text (str s) name max_length =
    if is_blank s
    then err (create_error validation_error (name <> " cannot be empty when provided"))
    else if ltb max_length (length s)
    then err (
        create_error validation_error
          (name <> " must be at most " <> decimal max_length <> " characters"))
    else ok (some s)
optional_text _ name max_length = err type_error

pub record ValidatedStartInput : Type 0 where
  pub platform : VerificationPlatform
  pub level_name : Option String
  pub locale : Option String

check_locale : Option String → Bool
unfolding locale_pattern
check_locale none = true
check_locale (some s) = locale_pattern s

infixl 5 ◌>>=◌
abbrev ◌>>=◌ : {A B : Type 0} → Result A → (A → Result B) → Result B
ok a >>= f = f a
err e >>= f = err e

unfoldable pub validate_start_input : Value → Result ValidatedStartInput
unfolding check_locale
validate_start_input input = elim (is_verification_platform (property "platform" input)) [
  | none ↦ err (create_error validation_error "platform must be one of WEB, IOS, ANDROID")
  | some platform ↦ do
    level_name ← optional_text (property "levelName" input) "levelName" max_level_name_length
    locale ← optional_text (property "locale" input) "locale" max_locale_length
    if check_locale locale
        then ok (record { platform = platform; level_name = level_name; locale = locale })
        else err (create_error validation_error "locale must look like \"en\" or \"en-US\"")
]
