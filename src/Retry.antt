-- ===== src/Retry.antt =====
-- packages/kyc-node/src/http.ts: errors of an upstream call, and the retry of a call that may
-- succeed later. A call acts on a state; the waits between attempts are recorded in milliseconds.
pub mod Attempts
use Prim.Native.Nat.{◌^◌}
use kyc.Common.{
  ℕ, zero, suc, ◌-◌, ◌*◌, String, Bool, true, false, not, ◌&&◌, ◌||◌, List, [], ◌∷◌, if◌then◌else◌,
  eqb, ltb, leb, includes,
}

-- A rejection: an `HttpError`, another `Error` with its name, or a value that is no error.
pub data CallError : Type 0 where
  http_error : (status : ℕ) (body : String) → CallError
  named_error : (name : String) → CallError
  not_error : CallError

pub record RetryConfig : Type 0 where
  pub max_attempts : ℕ
  pub base_delay : ℕ

abbrev pub retry_config : RetryConfig
retry_config = record { max_attempts = 3; base_delay = 500 }

unfoldable pub is_client_error : CallError → Bool
is_client_error (http_error status body) = leb 400 status && ltb status 500 && not (eqb status 429)
is_client_error _ = false

unfoldable pub is_not_found_error : CallError → Bool
is_not_found_error (http_error status body) = eqb status 404
is_not_found_error _ = false

abbrev pub network_error_names : List String
network_error_names = "TypeError" ∷ "TimeoutError" ∷ "AbortError" ∷ []

unfoldable pub is_network_error : CallError → Bool
is_network_error (http_error status body) = includes network_error_names "HttpError"
is_network_error (named_error name) = includes network_error_names name
is_network_error not_error = false

unfoldable pub should_retry : CallError → Bool
unfolding is_network_error
should_retry (http_error status body) = leb 500 status || eqb status 429
should_retry e = is_network_error e

pub data Outcome (A : Type 0) : Type 0 where
  returned : A → Outcome A
  failed : CallError → Outcome A

-- A retried call: its outcome, the state it leaves, and the waits, first one first.
pub record Retried (S A : Type 0) : Type 0 where
  pub outcome : Outcome A
  pub state : S
  pub slept : List ℕ

module _ {S A : Type 0} (fn : S → Outcome A × S) (config : RetryConfig) where
  -- `await sleep(...)`, except after the last attempt
  abbrev pub wait_after : ℕ → List ℕ → List ℕ
  wait_after attempt slept =
      if ltb attempt (config.max_attempts - 1)
      then (config.base_delay * 2 ^ attempt) ∷ slept
      else slept

  -- What one round makes of an answer, with the rounds that may follow.
  abbrev pub settle : ℕ → (CallError → S → Retried S A) → Outcome A × S → Retried S A
  settle attempt next (returned a, s') = record { outcome = returned a; state = s'; slept = [] }
  settle attempt next (failed e, s') = elim (should_retry e) [
    | false ↦ record { outcome = failed e; state = s'; slept = [] }
    | true ↦ let rest = next e s' in record rest { slept = wait_after attempt rest.slept }
  ]

  -- The rounds from `attempt` on, of which `left` are left.
  unfoldable pub retry_from : (left attempt : ℕ) → (last_error : CallError) → S → Retried S A
  retry_from zero attempt last_error s = record {
    outcome = failed last_error;
    state = s;
    slept = [];
  }
  retry_from (suc left) attempt last_error s = settle attempt (retry_from left (suc attempt)) (fn s)

  unfoldable pub with_retry : S → Retried S A
  unfolding retry_from
  with_retry s = retry_from config.max_attempts 0 not_error s
