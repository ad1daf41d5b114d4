-- ===== src/Examples/Records.antt =====
-- The store, the validation of inputs, and the narrowing of values, at concrete inputs.
use kyc.Common.{◌≡◌, refl, ◌↔◌, inl, none, some, [], ◌∷◌, Value, str, obj, field, end}
use kyc.Types.{approved, pending, web, is_verification_platform}
use kyc.Errors.{Thrown, create_error, validation_error}
use kyc.Action.{ok, err}
use kyc.Audit.{AuditMetadata}
use kyc.Validation.{ValidatedStartInput, validate_start_input}
use kyc.Validation.Laws.{IsAccepted, validate_start_input_iff}
use kyc.Store.{
  Memory, SessionRecord, lookup, pick_session_for_applicant, find, newest_first, place, first,
}
use kyc.Store.Picked.{IsPicked, pick_session_for_applicant-picks}

abbrev older : SessionRecord
older = record {
  id = "a";
  user_id = "user-1";
  provider = "sumsub";
  provider_applicant_id = none;
  level_name = some "basic";
  locale = none;
  platform = web;
  status = pending;
  created_at = 1;
  updated_at = 1;
}

abbrev newer : SessionRecord
newer = record older { id = "b"; status = approved; created_at = 2 }

abbrev memory : Memory
memory = record { sessions = ("a", older) ∷ ("b", newer) ∷ []; audit = []; clock = 3 }

-- The older one is picked: the newer is finished, and no level is asked for.
picks_in_progress : pick_session_for_applicant (newer ∷ older ∷ []) none ≡ some older
unfolding pick_session_for_applicant newest_first place find first
picks_in_progress = refl

pick_session_for_applicant-picks_example :
    (r : SessionRecord) × (pick_session_for_applicant (newer ∷ older ∷ []) none ≡ some r)
    × IsPicked none (newer ∷ older ∷ []) r
pick_session_for_applicant-picks_example =
    pick_session_for_applicant-picks (newer ∷ older ∷ []) none newer (inl refl)

found_older : lookup "a" memory.sessions ≡ some older
unfolding lookup
found_older = refl

abbrev body : Value
body = obj (field "platform" (str "WEB") (field "locale" (str "en-US") end))

abbrev bad_body : Value
bad_body = obj (field "platform" (str "TV") end)

abbrev accepted : ValidatedStartInput
accepted = record { platform = web; level_name = none; locale = some "en-US" }

validate_start_input_iff_example :
    (validate_start_input body ≡ ok accepted) ↔ IsAccepted body accepted
validate_start_input_iff_example = validate_start_input_iff body accepted

abbrev platform_error : Thrown
platform_error = create_error validation_error "platform must be one of WEB, IOS, ANDROID"

refuses_platform : validate_start_input bad_body ≡ err platform_error
unfolding validate_start_input is_verification_platform
refuses_platform = refl

abbrev metadata : AuditMetadata
metadata = ("email", str "a@b.example") ∷ ("status", str "approved") ∷ []
