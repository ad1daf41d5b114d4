-- ===== src/SessionToken.antt =====
-- packages/kyc-core/src/verification/sessionToken.ts, `createSessionTokenProvider`: an access token
-- for a native SDK, from a session that is started once and refreshed after. The host's two calls
-- are asynchronous, so their ends are events of their own, which come in any order.
pub mod Starts
use kyc.Common.{
  ℕ, zero, suc, ◌+◌, String, Bool, Option, none, some, List, [], ◌∷◌, if◌then◌else◌, given,
}

-- The promise in `starting`: pending, or settled while the callback of `finally` has not yet run.
pub data Starting : Type 0 where
  idle pending settled : Starting

-- The variables of the closure, and what was asked of the host: how often `start` was called, how
-- often it succeeded, how often the session was forgotten, and which ids were refreshed, newest
-- first.
pub record TokenProvider : Type 0 where
  pub session_id : Option String
  pub starting : Starting
  pub starts : ℕ
  pub started : ℕ
  pub rejected : ℕ
  pub resets : ℕ
  pub refreshed : List String

abbrev pub create_session_token_provider : TokenProvider
create_session_token_provider = record {
  session_id = none;
  starting = idle;
  starts = 0;
  started = 0;
  rejected = 0;
  resets = 0;
  refreshed = [];
}

pub data TokenEvent : Type 0 where
  -- a caller asks for a token, or forgets the session
  get_access_token reset : TokenEvent
  -- the callback of `then` runs, with the started session; or `start` rejects
  start_resolves : (session_id : String) → TokenEvent
  start_rejects : TokenEvent
  -- the callback of `finally` runs
  start_finishes : TokenEvent

abbrev pub is_idle : Starting → Bool
is_idle idle = Bool.true
is_idle _ = Bool.false

abbrev pub is_pending : Starting → Bool
is_pending pending = Bool.true
is_pending _ = Bool.false

-- `startOnce()`: a start under way is shared.
abbrev pub start_once : TokenProvider → TokenProvider
start_once p =
    if is_idle p.starting then record p { starting = pending; starts = suc p.starts } else p

-- `sessionId ? options.refresh(sessionId) : startOnce()`
abbrev pub token_for : Option String → TokenProvider → TokenProvider
token_for none p = start_once p
token_for (some id) p =
    if given (some id) then record p { refreshed = id ∷ p.refreshed } else start_once p

-- An end of a start that is not under way does not happen, and changes nothing.
unfoldable pub step : TokenEvent → TokenProvider → TokenProvider
step get_access_token p = token_for p.session_id p
step reset p = record p { session_id = none; resets = suc p.resets }
step (start_resolves id) p =
    if is_pending p.starting
    then record p { session_id = some id; starting = settled; started = suc p.started }
    else p
step start_rejects p =
    if is_pending p.starting then record p { starting = settled; rejected = suc p.rejected } else p
step start_finishes p = if is_pending p.starting then p else record p { starting = idle }

unfoldable pub run : List TokenEvent → TokenProvider → TokenProvider
unfolding step
run [] p = p
run (e ∷ es) p = run es (step e p)
