-- ===== src/Hook/State.antt =====
-- packages/kyc-react/src/useIdentityVerification.ts and useTokenRefresh.ts: the refs of the hook, and
-- the callbacks that act on them. A callback of the host that throws changes nothing here: each is
-- the last thing that its handler does, or is caught.
use kyc.Common.{
  ℕ, suc, String, Bool, true, false, ◌||◌, Option, none, some, List, [], ◌∷◌, if◌then◌else◌, given,
  or_else, eqb, is_some, Value, same_option, ◌&&◌,
}
use kyc.Types.{VerificationStatus}
use kyc.Client.{
  VerificationEvent, VerificationSession, IdentityVerificationResult, IdentityVerificationError,
  complete, MachineState, MachineAction, VerificationState, idle, VerificationEffect,
  VerificationPlan, status_change, completed, call_cancel, call_error, initial_machine_state,
  machine_reducer, failed, to_identity_verification_error, unknown_error_code,
}

-- What the hook asks of its source: the page's messages it reads, and whether it can be launched or
-- its token be refreshed.
pub record Source : Type 0 where
  pub launchable : Bool
  pub token_refreshable : Bool
  pub interpret : Value → Option VerificationEvent

-- The call that a run of `begin` waits for.
pub data Flight : Type 0 where
  landed checking_permissions checking_network acquiring launching : Flight

-- A refresh that has not settled: its number, and the session that it was asked for.
pub record PendingRefresh : Type 0 where
  pub number : ℕ
  pub session : VerificationSession

-- What was called outside of the hook.
pub data HostCall : Type 0 where
  on_complete : IdentityVerificationResult → HostCall
  on_error : IdentityVerificationError → HostCall
  on_cancel check_permissions fetch_network source_start : HostCall
  on_status_change : VerificationStatus → HostCall
  source_launch : VerificationSession → HostCall
  ask_refresh : (number : ℕ) → VerificationSession → HostCall
  -- the token that was handed to the page, and the origin that it was pinned to
  post_token : (token : String) → (origin : Option String) → HostCall

pub record Hook : Type 0 where
  pub source : Source
  pub machine : MachineState
  pub is_online : Bool
  pub mounted : Bool
  pub running : Bool
  pub flight : Flight
  -- the timers that are set, the one that can be cleared, and the number of the next one
  pub timers : List (ℕ × IdentityVerificationResult)
  pub complete_timeout : Option ℕ
  pub next_timer : ℕ
  -- the number of the newest refresh, and those that have not settled
  pub seq : ℕ
  pub refreshes : List PendingRefresh
  -- whether a page is attached
  pub frame : Bool
  -- what was called, newest first
  pub calls : List HostCall

abbrev pub initial_hook : Source → Bool → Hook
initial_hook source online = record {
  source = source;
  machine = initial_machine_state;
  is_online = online;
  mounted = true;
  running = false;
  flight = landed;
  timers = [];
  complete_timeout = none;
  next_timer = 0;
  seq = 0;
  refreshes = [];
  frame = false;
  calls = [];
}

abbrev pub call : HostCall → Hook → Hook
call c h = record h { calls = c ∷ h.calls }

unfoldable pub apply_action : MachineAction → Hook → Hook
apply_action action h = record h { machine = machine_reducer h.machine action }

unfoldable pub without_timer :
    ℕ → List (ℕ × IdentityVerificationResult) → List (ℕ × IdentityVerificationResult)
without_timer id [] = []
without_timer id ((k, r) ∷ timers) =
    let rest = without_timer id timers in if eqb k id then rest else (k, r) ∷ rest

abbrev pub clear_handle : Option ℕ → Hook → Hook
clear_handle none h = h
clear_handle (some id) h = record h { timers = without_timer id h.timers; complete_timeout = none }

unfoldable pub clear_complete_timeout : Hook → Hook
clear_complete_timeout h = clear_handle h.complete_timeout h

unfoldable pub fail_with : IdentityVerificationError → (keep_session : Bool) → Hook → Hook
unfolding apply_action
fail_with error keep_session h = call (on_error error) (apply_action (failed error keep_session) h)

-- `setTimeout`, whose handle replaces the one that was kept.
abbrev pub complete_later : IdentityVerificationResult → Hook → Hook
complete_later result h = record h {
  timers = (h.next_timer, result) ∷ h.timers;
  complete_timeout = some h.next_timer;
  next_timer = suc h.next_timer;
}

-- With the callback of `useTokenRefresh`.
unfoldable pub run_effect : (refresh : Hook → Hook) → VerificationEffect → Hook → Hook
run_effect refresh (status_change status) h = call (on_status_change status) h
run_effect refresh (completed result delayed) h =
    if delayed then complete_later result h else call (on_complete result) h
run_effect refresh call_cancel h = call on_cancel h
run_effect refresh (call_error error) h = call (on_error error) h
run_effect refresh VerificationEffect.refresh_token h = refresh h

abbrev pub apply_planned : Option MachineAction → Hook → Hook
unfolding apply_action
apply_planned none h = h
apply_planned (some action) h = apply_action action h

abbrev pub run_planned : (refresh : Hook → Hook) → Option VerificationEffect → Hook → Hook
unfolding run_effect
run_planned refresh none h = h
run_planned refresh (some effect) h = run_effect refresh effect h

unfoldable pub follow_plan : (refresh : Hook → Hook) → VerificationPlan → Hook → Hook
unfolding apply_planned run_planned
follow_plan refresh plan h = run_planned refresh plan.effect (apply_planned plan.action h)

-- `current.result !== null || current.status === 'idle' || current.status === 'error'`
abbrev pub is_at_rest : VerificationState → Bool
is_at_rest idle = true
is_at_rest VerificationState.error = true
is_at_rest _ = false

abbrev pub is_settled : MachineState → Bool
is_settled m = is_some m.result || is_at_rest m.status

-- `finally { runningRef.current = false }`
abbrev pub land : Hook → Hook
land h = record h { running = false; flight = landed }

-- What a rejection becomes: its code, if it has one, and its message.
abbrev pub caught_error : Option String → Option String → IdentityVerificationError
caught_error none message = to_identity_verification_error unknown_error_code message
caught_error (some code) message = to_identity_verification_error code message

-- `result.applicantId ? { ..., applicantId } : { ... }`
abbrev pub completion : IdentityVerificationResult → VerificationEvent
completion result =
    complete result.status (if given result.applicant_id then result.applicant_id else none)

-- `sessionId ?? url`
abbrev pub identity_of : VerificationSession → Option String
identity_of session = or_else session.session_id session.url

abbrev pub find_refresh : ℕ → List PendingRefresh → Option PendingRefresh
find_refresh number [] = none
find_refresh number (r ∷ rs) =
    let rest = find_refresh number rs in if eqb r.number number then some r else rest

abbrev pub without_refresh : ℕ → List PendingRefresh → List PendingRefresh
without_refresh number [] = []
without_refresh number (r ∷ rs) =
    let rest = without_refresh number rs in if eqb r.number number then rest else r ∷ rest

-- `current.refreshToken(session)`, as the newest refresh
abbrev pub ask_for : VerificationSession → Hook → Hook
ask_for session h = call (ask_refresh (suc h.seq) session) (record h {
  seq = suc h.seq;
  refreshes = (record { number = suc h.seq; session = session }) ∷ h.refreshes;
})

abbrev pub same_identity : Option VerificationSession → VerificationSession → Bool
same_identity none asked = false
same_identity (some session) asked = same_option (identity_of session) (identity_of asked)

-- Whether a refresh that has settled is still wanted.
abbrev pub is_current : PendingRefresh → Hook → Bool
is_current r h = h.mounted && eqb r.number h.seq

unfoldable pub refresh_failed : (message : Option String) → PendingRefresh → Hook → Hook
unfolding fail_with
refresh_failed message r h =
    if is_current r h
    then fail_with (to_identity_verification_error "TOKEN_REFRESH_FAILED" message) true h
    else h
