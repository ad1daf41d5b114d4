-- ===== src/Service/State.antt =====
-- packages/kyc-node/src/sessions.ts: what the service is built from, and the state that its calls
-- read and write. The host's clock, id generator, provider, store outages and effects are
-- parameters; what the service asked of the provider and of the host's effects is recorded.
use kyc.Common.{ℕ, suc, String, Option, none, some, List, ◌∷◌, if◌then◌else◌, given}
use kyc.Types.{
  VerificationStatus, CreateSessionOptions, TokenSubject, ProviderSession, ProviderToken,
  UserStatusLookup,
}
use kyc.Errors.{Thrown, errors, unauthorized, provider_unavailable, get_error_code}
use kyc.Action.{Result, ok, err, Action}
use kyc.Store.{Memory, SessionRecord, StatusWriteOutcome, restore}

pub data ProviderCall : Type 0 where
  create_session : String → CreateSessionOptions → ProviderCall
  refresh_token : TokenSubject → CreateSessionOptions → ProviderCall
  get_status : String → ProviderCall
  get_status_by_user_id : String → ProviderCall

-- `VerificationProvider`, as far as the service calls it. An answer may depend on every earlier
-- call, which the list holds newest first; `get_status_by_user_id` is the optional capability.
pub record Provider : Type 0 where
  pub create_session : List ProviderCall → String → CreateSessionOptions → Result ProviderSession
  pub refresh_token : List ProviderCall → TokenSubject → CreateSessionOptions → Result ProviderToken
  pub get_status : List ProviderCall → String → Result VerificationStatus
  pub get_status_by_user_id : Option (List ProviderCall → String → Result UserStatusLookup)

pub data StatusTransitionOutcome : Type 0 where
  write : StatusWriteOutcome → StatusTransitionOutcome
  rejected_unbound : StatusTransitionOutcome

pub record StatusTransition : Type 0 where
  pub outcome : StatusTransitionOutcome
  pub previous_status : VerificationStatus
  pub session : SessionRecord

pub data StatusSource : Type 0 where
  api webhook : StatusSource

-- The outcome of a committed change is always `updated`, so the event does not repeat it.
pub record StatusTransitionEvent : Type 0 where
  pub previous_status : VerificationStatus
  pub session : SessionRecord
  pub source : StatusSource
  pub reject_labels : Option (List String)

pub record ServiceDeps : Type 0 where
  pub provider : Provider
  pub provider_name : String
  pub public_base_url : String
  -- the values of `now()` and of `newId()`, one for each call
  pub now : ℕ → ℕ
  pub new_id : ℕ → String
  -- `effects.onStatusTransition`, and what it throws
  pub on_status_transition : Option (StatusTransitionEvent → Option Thrown)
  pub hosted_url_for : Option (String → String)
  -- `new URL(base).origin`, where the base parses
  pub url_origin : String → Option String
  -- what a store call throws before it does anything, by the number of earlier store calls
  pub store_fault : ℕ → Option Thrown

pub record World : Type 0 where
  pub store : Memory
  pub ids : ℕ
  pub store_calls : ℕ
  -- newest first
  pub calls : List ProviderCall
  pub effects : List StatusTransitionEvent

abbrev pub call_provider :
    {A : Type 0} → ProviderCall → (List ProviderCall → Result A) → Action World A
call_provider call answer w = (answer w.calls, record w { calls = call ∷ w.calls })

-- `store.transaction(fn)`: what the callback wrote is undone when it throws.
abbrev pub transaction : {A : Type 0} → Action World A → Action World A
transaction body w =
    let (r, w') = body w in
    elim r [ ok a ↦ (ok a, w') | err e ↦ (err e, record w' { store = restore w.store w'.store }) ]

module _ (deps : ServiceDeps) where
  -- A call of the store, which may be out of order.
  abbrev pub on_store : {A : Type 0} → Action Memory A → Action World A
  on_store call w = elim (deps.store_fault w.store_calls) [
    | some e ↦ (err e, record w { store_calls = suc w.store_calls })
    | none ↦
        let (r, m) = call w.store in (r, record w { store = m; store_calls = suc w.store_calls })
  ]

  abbrev pub new_id : Action World String
  new_id w = (ok (deps.new_id w.ids), record w { ids = suc w.ids })

  abbrev pub public_origin : String → String
  public_origin base = elim (deps.url_origin base) [ none ↦ base | some origin ↦ origin ]

abbrev pub require_user : Option String → Action World String
require_user none w = (err (errors unauthorized), w)
require_user (some user) w = (if given (some user) then ok user else err (errors unauthorized), w)

-- `getErrorCode(error) ?? 'UNKNOWN_ERROR'`
abbrev pub audit_code : Thrown → String
audit_code e = elim (get_error_code e) [ none ↦ "UNKNOWN_ERROR" | some code ↦ code ]

-- `getErrorCode(error) ? error : Errors.providerUnavailable()`
abbrev pub coded_or_unavailable : Thrown → Thrown
coded_or_unavailable e = if given (get_error_code e) then e else errors provider_unavailable
