-- ===== src/Validation/Laws.antt =====
-- packages/kyc-node/src/validation.ts: exactly which start inputs pass, and what is thrown on the
-- others.
use kyc.Common.{
  ℕ, ◌≤◌, String, ◌≡◌, refl, ◌↔◌, ◌⊎◌, inl, inr, false, true, Option, none, some, arith, Value,
  undefined, null, str, property, is_blank, is_blank-empty, length,
}
use kyc.Types.{is_verification_platform}
use kyc.Errors.{Thrown, get_error_code, type_error}
use kyc.Action.{ok, err}
use kyc.Validation.{
  ValidatedStartInput, max_level_name_length, max_locale_length, require_id, optional_text,
  check_locale, locale_pattern, validate_start_input,
}

-- An optional text: absent, or a string that is not blank and no longer than the limit.
abbrev pub IsText : Value → ℕ → Option String → Type 0
IsText v limit none = (v ≡ undefined) ⊎ (v ≡ null)
IsText v limit (some s) = (v ≡ str s) × (is_blank s ≡ false) × (length s ≤ limit)

abbrev pub IsLocale : Option String → Type 0
IsLocale none = Unit
IsLocale (some s) = locale_pattern s ≡ true

pub record IsAccepted (input : Value) (r : ValidatedStartInput) : Type 0 where
  pub platform : is_verification_platform (property "platform" input) ≡ some r.platform
  pub level_name : IsText (property "levelName" input) max_level_name_length r.level_name
  pub locale : IsText (property "locale" input) max_locale_length r.locale
  pub tag : IsLocale r.locale

optional_text_sound :
    (v : Value) (name : String) (limit : ℕ) (o : Option String)
    → optional_text v name limit ≡ ok o
    → IsText v limit o
unfolding optional_text
optional_text_sound undefined name limit none h = inl refl
optional_text_sound undefined name limit (some s) h = ground arith
optional_text_sound null name limit none h = inr refl
optional_text_sound null name limit (some s) h = ground arith
optional_text_sound (str t) name limit none h = ground arith
optional_text_sound (str t) name limit (some s) h = ground arith
optional_text_sound _ name limit o h = ground arith

optional_text_complete :
    (v : Value) (name : String) (limit : ℕ) (o : Option String)
    → IsText v limit o
    → optional_text v name limit ≡ ok o
unfolding optional_text
optional_text_complete undefined name limit none h = refl
optional_text_complete undefined name limit (some s) h = ground arith
optional_text_complete null name limit none h = refl
optional_text_complete null name limit (some s) h = ground arith
optional_text_complete (str t) name limit none h = ground arith
optional_text_complete (str t) name limit (some s) h = ground arith
optional_text_complete _ name limit none h = ground arith
optional_text_complete _ name limit (some s) h = ground arith

check_locale_iff : (o : Option String) → (check_locale o ≡ true) ↔ IsLocale o
unfolding check_locale
check_locale_iff none = (λ h. tt, λ h. refl)
check_locale_iff (some s) = (λ h. h, λ h. h)

validate_start_input_sound :
    (input : Value) (r : ValidatedStartInput)
    → validate_start_input input ≡ ok r
    → IsAccepted input r
unfolding validate_start_input
validate_start_input_sound input r h =
    let level = property "levelName" input in
    let locale = property "locale" input in
    record {
      platform = ground arith;
      level_name =
          optional_text_sound level "levelName" max_level_name_length r.level_name (ground arith);
      locale = optional_text_sound locale "locale" max_locale_length r.locale (ground arith);
      tag = (check_locale_iff r.locale).0 (ground arith);
    }

validate_start_input_complete :
    (input : Value) (r : ValidatedStartInput)
    → IsAccepted input r
    → validate_start_input input ≡ ok r
unfolding validate_start_input
validate_start_input_complete input r h = ground (
  arith,
  optional_text_complete _ "levelName" max_level_name_length r.level_name h.level_name,
  optional_text_complete _ "locale" max_locale_length r.locale h.locale,
  (check_locale_iff r.locale).1 h.tag,
)

-- A start input passes exactly when its platform is one of the three, and each optional text is
-- absent or is a string that is not blank and within its limit, the locale with the accepted shape;
-- the result then holds these same values.
pub validate_start_input_iff :
    (input : Value) (r : ValidatedStartInput)
    → (validate_start_input input ≡ ok r) ↔ IsAccepted input r
validate_start_input_iff input r =
    (validate_start_input_sound input r, validate_start_input_complete input r)

abbrev pub IsRefusal : Thrown → Type 0
IsRefusal e = (get_error_code e ≡ some "VALIDATION_ERROR") ⊎ (e ≡ type_error)

optional_text-IsRefusal :
    (v : Value) (name : String) (limit : ℕ) (e : Thrown)
    → optional_text v name limit ≡ err e
    → IsRefusal e
unfolding optional_text
optional_text-IsRefusal undefined name limit e h = ground arith
optional_text-IsRefusal (str t) name limit e h = ground arith
optional_text-IsRefusal _ name limit e h = ground arith

-- An input that does not pass is refused with the code VALIDATION_ERROR, or with the TypeError that
-- a text field of another type causes.
validate_start_input-IsRefusal :
    (input : Value) (e : Thrown) → validate_start_input input ≡ err e → IsRefusal e
unfolding validate_start_input
validate_start_input-IsRefusal input e h = ground (
  arith,
  optional_text-IsRefusal (property "levelName" input) "levelName" max_level_name_length e,
  optional_text-IsRefusal (property "locale" input) "locale" max_locale_length e,
)

-- An identifier passes exactly when it is not blank, and the empty one is blank.
require_id_iff :
    (value name : String) → (require_id value name ≡ ok value) ↔ (is_blank value ≡ false)
unfolding require_id
require_id_iff value name = ground (arith, is_blank-empty value)
