-- ===== src/Hook/Flow.antt =====
-- packages/kyc-react/src/useIdentityVerification.ts and useTokenRefresh.ts: what the hook of the web
-- does with what reaches it, where the React Native package's is the same.
use kyc.Common.{
  ℕ, String, Bool, true, false, not, ◌||◌, ◌&&◌, Option, none, some, List, [], ◌∷◌, if◌then◌else◌,
  eqb, Value,
}
use kyc.Client.{
  VerificationEvent, VerificationSession, IdentityVerificationResult, start_session, cancelled,
  call_cancel,
}
use kyc.Hook.State.{
  Source, Flight, acquiring, launching, PendingRefresh, HostCall, Hook, call, apply_action,
  without_timer, clear_complete_timeout, fail_with, run_effect, is_settled, land, caught_error,
  completion, find_refresh, without_refresh, same_identity, is_current, refresh_failed,
  source_launch, on_complete,
}

-- What reaches the hook on both platforms. A call that was made is answered by the events
-- `session_acquired` to `refresh_rejected`, whose texts are the code and the message of a rejection.
pub data FlowEvent : Type 0 where
  cancel_pressed entered left : FlowEvent
  rerendered : Source → FlowEvent
  frame_changed : Bool → FlowEvent
  message_posted : Value → FlowEvent
  event_given : VerificationEvent → FlowEvent
  session_acquired : VerificationSession → FlowEvent
  acquisition_failed launch_failed : (code message : Option String) → FlowEvent
  launch_ended : IdentityVerificationResult → FlowEvent
  timer_fired : ℕ → FlowEvent
  token_refreshed : (number : ℕ) → (token : String) → FlowEvent
  refresh_rejected : (number : ℕ) → (message : Option String) → FlowEvent

unfoldable pub is_acquiring : Flight → Bool
is_acquiring acquiring = true
is_acquiring _ = false

unfoldable pub is_launching : Flight → Bool
is_launching launching = true
is_launching _ = false

unfoldable pub press_cancel : (refresh : Hook → Hook) → Hook → Hook
unfolding apply_action run_effect
press_cancel refresh h =
    run_effect refresh call_cancel (apply_action cancelled (clear_complete_timeout h))

-- The end of `launch`, in `runLaunch`.
unfoldable pub launch_resolved :
    (handle_event : VerificationEvent → Hook → Hook) → IdentityVerificationResult → Hook → Hook
launch_resolved handle_event result h =
    if not h.mounted || is_settled h.machine then h else handle_event (completion result) h

unfoldable pub launch_rejected : (code message : Option String) → Hook → Hook
unfolding fail_with
launch_rejected code message h =
    if not h.mounted || is_settled h.machine
    then h
    else fail_with (caught_error code message) false h

-- The rest of `begin`, once `start` has resolved.
unfoldable pub acquired : VerificationSession → Hook → Hook
unfolding apply_action
acquired session h =
    let shown = apply_action (start_session session) h in
    if not h.mounted
    then land h
    else if h.source.launchable
    then call (source_launch session) (record shown { flight = launching })
    else land shown

unfoldable pub acquisition_rejected : (code message : Option String) → Hook → Hook
unfolding fail_with
acquisition_rejected code message h =
    land (if not h.mounted then h else fail_with (caught_error code message) false h)

-- The callback of `setTimeout`.
abbrev pub find_timer :
    ℕ → List (ℕ × IdentityVerificationResult) → Option IdentityVerificationResult
find_timer id [] = none
find_timer id ((k, r) ∷ timers) =
    let rest = find_timer id timers in if eqb k id then some r else rest

abbrev pub complete_now : IdentityVerificationResult → Hook → Hook
complete_now result h = if h.mounted then call (on_complete result) h else h

abbrev pub fire : ℕ → Option IdentityVerificationResult → Hook → Hook
fire id none h = h
fire id (some result) h =
    complete_now result (record h { timers = without_timer id h.timers; complete_timeout = none })

unfoldable pub fire_timer : ℕ → Hook → Hook
fire_timer id h = fire id (find_timer id h.timers) h

unfoldable pub unmount : Hook → Hook
unmount h = clear_complete_timeout (record h { mounted = false })

-- A refresh that settles, which is then no longer pending.
abbrev pub settle_refresh : (PendingRefresh → Hook → Hook) → Option PendingRefresh → Hook → Hook
settle_refresh settle none h = h
settle_refresh settle (some r) h =
    settle r (record h { refreshes = without_refresh r.number h.refreshes })

-- The token of a refresh, with what hands it to the page.
unfoldable pub refresh_resolved :
    (post : String → VerificationSession → HostCall) → String → PendingRefresh → Hook → Hook
refresh_resolved post token r h =
    if is_current r h && same_identity h.machine.session r.session && h.frame
    then call (post token r.session) h
    else h

unfoldable pub read_message :
    (handle_event : VerificationEvent → Hook → Hook) → Option VerificationEvent → Hook → Hook
read_message handle_event none h = h
read_message handle_event (some event) h = handle_event event h

-- One event, with the platform's `handleEvent`, `refreshToken` and way to hand a token to the page.
unfoldable pub flow_step :
    (handle_event : VerificationEvent → Hook → Hook) (refresh : Hook → Hook)
    (post : String → VerificationSession → HostCall)
    → FlowEvent
    → Hook
    → Hook
unfolding press_cancel read_message acquired acquisition_rejected launch_resolved launch_rejected
    fire_timer refresh_resolved refresh_failed unmount
flow_step handle_event refresh post cancel_pressed h = press_cancel refresh h
flow_step handle_event refresh post entered h = record h { mounted = true }
flow_step handle_event refresh post left h = unmount h
flow_step handle_event refresh post (rerendered source) h = record h { source = source }
flow_step handle_event refresh post (frame_changed attached) h = record h { frame = attached }
flow_step handle_event refresh post (message_posted raw) h =
    read_message handle_event (h.source.interpret raw) h
flow_step handle_event refresh post (event_given event) h = handle_event event h
flow_step handle_event refresh post (session_acquired session) h =
    if is_acquiring h.flight then acquired session h else h
flow_step handle_event refresh post (acquisition_failed code message) h =
    if is_acquiring h.flight then acquisition_rejected code message h else h
flow_step handle_event refresh post (launch_ended result) h =
    if is_launching h.flight then land (launch_resolved handle_event result h) else h
flow_step handle_event refresh post (launch_failed code message) h =
    if is_launching h.flight then land (launch_rejected code message h) else h
flow_step handle_event refresh post (timer_fired id) h = fire_timer id h
flow_step handle_event refresh post (token_refreshed number token) h =
    settle_refresh (refresh_resolved post token) (find_refresh number h.refreshes) h
flow_step handle_event refresh post (refresh_rejected number message) h =
    settle_refresh (refresh_failed message) (find_refresh number h.refreshes) h
