-- ===== src/Hook/Native.antt =====
-- packages/kyc-react-native/src/useIdentityVerification.ts and useTokenRefresh.ts: what is the React
-- Native package's own - the host's permission preflight, the answer of NetInfo, and the script that
-- hands a token to the page.
use kyc.Common.{
  String, Bool, true, false, not, ◌&&◌, Option, none, some, List, [], ◌∷◌, if◌then◌else◌,
}
use kyc.Client.{
  VerificationEvent, VerificationSession, PermissionReason, permission, begin, go_offline,
  clear_session, plan_event, to_identity_verification_error, unknown_error_code,
}
use kyc.Hook.State.{
  Flight, Hook, HostCall, checking_permissions, checking_network, acquiring, check_permissions,
  fetch_network, post_token, source_start, call, apply_action, clear_complete_timeout, fail_with,
  follow_plan, land, ask_for,
}
use kyc.Hook.Flow.{FlowEvent, flow_step}

-- What `NetInfo.fetch()` reports: whether there is a connection, and whether the internet is reached,
-- each of which may be unknown.
pub record NetInfoState : Type 0 where
  pub is_connected : Option Bool
  pub is_internet_reachable : Option Bool

abbrev or_false : Option Bool → Bool
or_false none = false
or_false (some b) = b

abbrev or_true : Option Bool → Bool
or_true none = true
or_true (some b) = b

-- `state.isConnected === true && state.isInternetReachable !== false`
unfoldable pub is_online : NetInfoState → Bool
is_online state = or_false state.is_connected && or_true state.is_internet_reachable

abbrev pub ask_refresh_of : Option VerificationSession → Hook → Hook
ask_refresh_of none h = h
ask_refresh_of (some session) h = ask_for session h

abbrev pub has_session : Option VerificationSession → Bool
has_session none = false
has_session (some session) = true

unfoldable pub refresh_token : Hook → Hook
unfolding fail_with
refresh_token h =
    if h.source.token_refreshable && has_session h.machine.session
    then ask_refresh_of h.machine.session h
    else fail_with (to_identity_verification_error "TOKEN_EXPIRED" none) true h

-- `injectJavaScript(createSetTokenScript(token))`, which no origin pins.
abbrev pub inject : String → VerificationSession → HostCall
inject token session = post_token token none

unfoldable pub handle_event : VerificationEvent → Hook → Hook
unfolding follow_plan refresh_token
handle_event event h =
    if not h.mounted then h else follow_plan refresh_token (plan_event event h.machine.session) h

-- `begin`, up to its first wait: `checks` is whether the host gave a `checkPermissions`.
unfoldable pub begin_run : (checks : Bool) → Hook → Hook
unfolding apply_action clear_complete_timeout
begin_run checks h =
    let started = apply_action begin (clear_complete_timeout (record h { running = true })) in
    if checks
    then call check_permissions (record started { flight = checking_permissions })
    else call fetch_network (record started { flight = checking_network })

abbrev pub ask_network : Hook → Hook
ask_network h = call fetch_network (record h { flight = checking_network })

-- After `await check()`; no reason is `granted`.
unfoldable pub permissions_answered : Option PermissionReason → Hook → Hook
unfolding apply_action
permissions_answered none h = if not h.mounted then land h else ask_network h
permissions_answered (some reason) h =
    land (if not h.mounted then h else apply_action (permission reason) h)

-- After `await isOnline()`
unfoldable pub network_answered : NetInfoState → Hook → Hook
unfolding apply_action is_online
network_answered state h =
    if not h.mounted
    then land h
    else if is_online state
    then call source_start (record h { flight = acquiring })
    else land (apply_action go_offline h)

-- The outer `catch` of `begin`.
unfoldable pub begin_threw : (message : Option String) → Hook → Hook
unfolding fail_with
begin_threw message h = land (
    if not h.mounted
    then h
    else fail_with (to_identity_verification_error unknown_error_code message) false h)

unfoldable pub press_start : (checks : Bool) → Hook → Hook
unfolding begin_run
press_start checks h = if h.running then h else begin_run checks h

unfoldable pub press_restart : (checks : Bool) → Hook → Hook
unfolding begin_run apply_action
press_restart checks h = if h.running then h else begin_run checks (apply_action clear_session h)

abbrev pub is_checking_permissions : Flight → Bool
is_checking_permissions checking_permissions = true
is_checking_permissions _ = false

abbrev pub is_checking_network : Flight → Bool
is_checking_network checking_network = true
is_checking_network _ = false

-- The two preflight calls, `check_permissions` and `fetch_network`, are answered by the four events
-- that are named for them.
pub data NativeEvent : Type 0 where
  start_pressed retry_pressed restart_pressed : (checks : Bool) → NativeEvent
  permissions_checked : Option PermissionReason → NativeEvent
  network_fetched : NetInfoState → NativeEvent
  permissions_check_threw network_fetch_threw : (message : Option String) → NativeEvent
  flow : FlowEvent → NativeEvent

unfoldable pub step : NativeEvent → Hook → Hook
unfolding press_start press_restart permissions_answered network_answered begin_threw flow_step
    handle_event refresh_token
step (start_pressed checks) h = press_start checks h
step (retry_pressed checks) h = press_start checks h
step (restart_pressed checks) h = press_restart checks h
step (permissions_checked answer) h =
    if is_checking_permissions h.flight then permissions_answered answer h else h
step (permissions_check_threw message) h =
    if is_checking_permissions h.flight then begin_threw message h else h
step (network_fetched state) h =
    if is_checking_network h.flight then network_answered state h else h
step (network_fetch_threw message) h =
    if is_checking_network h.flight then begin_threw message h else h
step (flow event) h = flow_step handle_event refresh_token inject event h

unfoldable pub run : List NativeEvent → Hook → Hook
run [] h = h
run (event ∷ events) h = run events (step event h)
