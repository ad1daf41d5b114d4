-- ===== src/Http/Results.antt =====
-- packages/kyc-node/src/handlers.ts: an HTTP outcome, and the outcome of a failure.
use kyc.Common.{
  ℕ, String, Option, none, some, List, [], ◌∷◌, if◌then◌else◌, given, Value, undefined, str, obj,
  field, end, Property, own, inherited, missing, look_up,
}
use kyc.Errors.{Thrown, get_error_code, message_of}
use kyc.Action.{ok, err, Action}

-- A status: a number, or the member of Object.prototype that the table of statuses inherits.
pub data HttpStatus : Type 0 where
  number : ℕ → HttpStatus
  inherited_member : HttpStatus

pub record HttpResult : Type 0 where
  pub status : HttpStatus
  pub body : Value

abbrev pub answer : ℕ → Value → HttpResult
answer status body = record { status = number status; body = body }

abbrev pub error_body : String → Value
error_body error = obj (field "error" (str error) end)

abbrev pub status_by_code : List (String × ℕ)
status_by_code =
    ("UNAUTHORIZED", 401)
    ∷ ("VALIDATION_ERROR", 400)
    ∷ ("SESSION_NOT_FOUND", 404)
    ∷ ("SESSION_CREATION_FAILED", 502)
    ∷ ("PROVIDER_UNAVAILABLE", 502)
    ∷ ("PERSISTENCE_FAILED", 500)
    ∷ []

abbrev pub opt_value : Option String → Value
opt_value none = undefined
opt_value (some s) = str s

abbrev pub coded_body : String → Option String → Value
coded_body code message = obj (field "error" (str code) (field "message" (opt_value message) end))

abbrev pub internal_error : HttpResult
internal_error = answer 500 (error_body "INTERNAL_ERROR")

abbrev pub by_status : String → Option String → Property ℕ → HttpResult
by_status code message (own status) = answer status (coded_body code message)
by_status code message inherited = record {
  status = inherited_member;
  body = coded_body code message;
}
by_status code message missing = internal_error

abbrev pub by_code : Option String → Option String → HttpResult
by_code none message = internal_error
by_code (some code) message =
    if given (some code)
    then by_status code message (look_up status_by_code code)
    else internal_error

unfoldable pub failed : Thrown → HttpResult
failed e = by_code (get_error_code e) (message_of e)

-- `try { return { status: 200, body: await call } } catch (error) { return failed(error) }`
abbrev pub respond : {S A : Type 0} → (A → Value) → Action S A → S → HttpResult × S
respond body call s =
    let (result, s') = call s in (elim result [ ok a ↦ answer 200 (body a) | err e ↦ failed e ], s')
