-- ===== src/Hook/Web.antt =====
-- packages/kyc-react/src/useIdentityVerification.ts and useTokenRefresh.ts: what is the browser's own -
-- navigator.onLine and its events, the refused camera that the page reports, and the origin that a
-- token is pinned to.
use kyc.Common.{
  String, Bool, true, false, not, ◌||◌, ◌==◌, Option, none, some, List, [], ◌∷◌, if◌then◌else◌,
  given,
}
use kyc.Client.{
  VerificationEvent, VerificationSession, VerificationState, loading, verifying, permission, denied,
  begin, go_offline, clear_session, plan_event, to_identity_verification_error,
}
use kyc.Hook.State.{
  Hook, HostCall, acquiring, post_token, source_start, call, apply_action, clear_complete_timeout,
  fail_with, follow_plan, land, ask_for,
}
use kyc.Hook.Flow.{FlowEvent, flow_step}

abbrev pub allowed_origin_of : Option VerificationSession → Option String
allowed_origin_of none = none
allowed_origin_of (some session) = session.allowed_origin

abbrev pub ask_refresh_of : Option VerificationSession → Hook → Hook
ask_refresh_of none h = h
ask_refresh_of (some session) h = ask_for session h

unfoldable pub refresh_token : Hook → Hook
unfolding fail_with
refresh_token h =
    if not h.source.token_refreshable || not (given (allowed_origin_of h.machine.session))
    then fail_with (to_identity_verification_error "TOKEN_EXPIRED" none) true h
    else ask_refresh_of h.machine.session h

-- `postMessage(createSetTokenMessage(token), allowedOrigin)`
abbrev pub post_pinned : String → VerificationSession → HostCall
post_pinned token session = post_token token session.allowed_origin

abbrev pub is_permission_denied : VerificationEvent → Bool
is_permission_denied (VerificationEvent.error code message) = code == "PERMISSION_DENIED"
is_permission_denied _ = false

unfoldable pub handle_event : VerificationEvent → Hook → Hook
unfolding apply_action follow_plan refresh_token
handle_event event h =
    if not h.mounted
    then h
    else if is_permission_denied event
    then apply_action (permission denied) h
    else follow_plan refresh_token (plan_event event h.machine.session) h

-- The start of `begin`, up to its first wait, with `navigator.onLine`.
unfoldable pub begin_run : (connected : Bool) → Hook → Hook
unfolding apply_action clear_complete_timeout
begin_run connected h =
    let started = apply_action begin (clear_complete_timeout (record h { running = true })) in
    if connected
    then call source_start (record started { flight = acquiring })
    else land (apply_action go_offline started)

-- `start`, which `retry` repeats.
unfoldable pub press_start : (connected : Bool) → Hook → Hook
unfolding begin_run
press_start connected h = if h.running then h else begin_run connected h

unfoldable pub press_restart : (connected : Bool) → Hook → Hook
unfolding begin_run apply_action
press_restart connected h =
    if h.running then h else begin_run connected (apply_action clear_session h)

abbrev pub is_on_screen : VerificationState → Bool
is_on_screen loading = true
is_on_screen verifying = true
is_on_screen VerificationState.pending = true
is_on_screen _ = false

-- `goOffline`, a listener until the hook is left.
unfoldable pub lose_connection : Hook → Hook
unfolding apply_action
lose_connection h =
    let parted = record h { is_online = false } in
    if not h.mounted
    then h
    else if is_on_screen h.machine.status
    then apply_action go_offline parted
    else parted

unfoldable pub regain_connection : Hook → Hook
regain_connection h = if not h.mounted then h else record h { is_online = true }

-- The presses, with `navigator.onLine` at their time.
pub data WebEvent : Type 0 where
  start_pressed retry_pressed restart_pressed : (connected : Bool) → WebEvent
  connection_lost connection_regained : WebEvent
  flow : FlowEvent → WebEvent

unfoldable pub step : WebEvent → Hook → Hook
unfolding press_start press_restart lose_connection regain_connection flow_step handle_event
    refresh_token
step (start_pressed connected) h = press_start connected h
step (retry_pressed connected) h = press_start connected h
step (restart_pressed connected) h = press_restart connected h
step connection_lost h = lose_connection h
step connection_regained h = regain_connection h
step (flow event) h = flow_step handle_event refresh_token post_pinned event h

unfoldable pub run : List WebEvent → Hook → Hook
run [] h = h
run (event ∷ events) h = run events (step event h)
