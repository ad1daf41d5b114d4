-- ===== src/Hook/NativeSteps.antt =====
-- packages/kyc-react-native/src/useIdentityVerification.ts: what stands over every event that reaches
-- the hook of React Native.
use kyc.Common.{◌≡◌, refl, ℕ, String, Bool, true, false, not, ◌&&◌, Option, none, some, if-holds}
use kyc.Client.{
  VerificationEvent, VerificationSession, PermissionReason, begin, permission, plan_event,
  clear_session, start_session,
}
use kyc.Hook.State.{
  source_launch, check_permissions, fetch_network, Flight, checking_permissions, checking_network,
  launching, landed, Hook, apply_action, clear_complete_timeout, find_refresh, ask_for, land,
  caught_error,
}
use kyc.Hook.Flow.{
  cancel_pressed, entered, left, rerendered, frame_changed, message_posted, event_given,
  session_acquired, acquisition_failed, launch_failed, launch_ended, timer_fired, token_refreshed,
  refresh_rejected, acquired, acquisition_rejected, is_acquiring, is_launching, flow_step, unmount,
}
use kyc.Hook.Keeps.{
  clear_complete_timeout-keeps, fail_with-keeps, fire_timer-keeps, launch_rejected-keeps,
  refresh_failed-keeps, follow_plan-keeps, press_cancel-keeps, launch_resolved-keeps,
  read_message-keeps,
}
use kyc.Hook.Steps.{IsViewing, settle_refresh-keeps}
use kyc.Hook.Native.{
  NetInfoState, NativeEvent, start_pressed, retry_pressed, restart_pressed, permissions_checked,
  network_fetched, permissions_check_threw, network_fetch_threw, flow, ask_refresh_of, has_session,
  refresh_token, handle_event, begin_run, permissions_answered, begin_threw,
  is_checking_permissions, is_checking_network, step,
}

-- A predicate that stands whatever the hook's source and its surroundings, wherever its run is, and
-- whatever session a refresh is asked for.
pub record IsRoaming (P : Hook → Type 0) : Type 0 where
  pub viewing : IsViewing P
  pub asks : (session : VerificationSession) (h : Hook) → P h → P (ask_for session h)
  pub flights :
      (running : Bool) (flight : Flight) (h : Hook)
      → P h
      → P (record h { running = running; flight = flight })

module _ (P : Hook → Type 0) (roaming : IsRoaming P) where
  refresh_token-keeps : (h : Hook) → P h → P (refresh_token h)
  unfolding refresh_token
  refresh_token-keeps h p =
      if-holds P (h.source.token_refreshable && has_session h.machine.session)
        (ask_refresh_of-keeps h.machine.session)
        (fail_with-keeps P roaming.viewing.asking.steady _ true h p)
    where
      ask_refresh_of-keeps : (session : Option VerificationSession) → P (ask_refresh_of session h)
      ask_refresh_of-keeps none = p
      ask_refresh_of-keeps (some session) = roaming.asks session h p

  handle_event-keeps : (event : VerificationEvent) (h : Hook) → P h → P (handle_event event h)
  unfolding handle_event
  handle_event-keeps event h p = if-holds P (not h.mounted) p (
      follow_plan-keeps P roaming.viewing.asking.steady refresh_token refresh_token-keeps
        (plan_event event h.machine.session) h p)

  land-keeps : (h : Hook) → P h → P (land h)
  land-keeps h p = roaming.flights false landed h p

  begin_run-keeps : (checks : Bool) (h : Hook) → P h → P (begin_run checks h)
  unfolding begin_run
  begin_run-keeps checks h p =
      let begun = roaming.viewing.asking.steady.acts begin _ (
        clear_complete_timeout-keeps P roaming.viewing.asking.steady _
          (roaming.flights true h.flight h p)) in
      let started = apply_action begin (clear_complete_timeout (record h { running = true })) in
      if-holds P checks
        (roaming.viewing.asking.steady.calls check_permissions _ refl
          (roaming.flights started.running checking_permissions started begun))
        (roaming.viewing.asking.steady.calls fetch_network _ refl
          (roaming.flights started.running checking_network started begun))

  permissions_answered-keeps :
      (answer : Option PermissionReason) (h : Hook) → P h → P (permissions_answered answer h)
  unfolding permissions_answered
  permissions_answered-keeps none h p = if-holds P (not h.mounted) (land-keeps h p) (
      roaming.viewing.asking.steady.calls fetch_network _ refl
        (roaming.flights h.running checking_network h p))
  permissions_answered-keeps (some reason) h p =
      land-keeps _
        (if-holds P (not h.mounted) p (roaming.viewing.asking.steady.acts (permission reason) h p))

  begin_threw-keeps : (message : Option String) (h : Hook) → P h → P (begin_threw message h)
  unfolding begin_threw
  begin_threw-keeps message h p =
      land-keeps _
        (if-holds P (not h.mounted) p (fail_with-keeps P roaming.viewing.asking.steady _ false h p))

  acquired-keeps : (session : VerificationSession) (h : Hook) → P h → P (acquired session h)
  unfolding acquired
  acquired-keeps session h p =
      let shown = roaming.viewing.asking.steady.acts (start_session session) h p in
      if-holds P (not h.mounted) (land-keeps h p) (
        if-holds P h.source.launchable
          (roaming.viewing.asking.steady.calls (source_launch session) _ refl
            (roaming.flights h.running launching _ shown))
          (land-keeps _ shown))

  acquisition_rejected-keeps :
      (code message : Option String) (h : Hook) → P h → P (acquisition_rejected code message h)
  unfolding acquisition_rejected
  acquisition_rejected-keeps code message h p = land-keeps _ (
      if-holds P (not h.mounted) p
        (fail_with-keeps P roaming.viewing.asking.steady (caught_error code message) false h p))

  -- Every event but a token and an answer of the network.
  pub step-keeps :
      (event : NativeEvent) (h : Hook)
      → ((number : ℕ) (token : String)
          → event ≡ flow (token_refreshed number token)
          → P (step event h))
      → ((state : NetInfoState) → event ≡ network_fetched state → P (step event h))
      → P h
      → P (step event h)
  unfolding step flow_step unmount
  step-keeps (start_pressed checks) h tokens nets p =
      if-holds P h.running p (begin_run-keeps checks h p)
  step-keeps (retry_pressed checks) h tokens nets p =
      if-holds P h.running p (begin_run-keeps checks h p)
  step-keeps (restart_pressed checks) h tokens nets p =
      if-holds P h.running p
        (begin_run-keeps checks _ (roaming.viewing.asking.steady.acts clear_session h p))
  step-keeps (permissions_checked answer) h tokens nets p =
      if-holds P (is_checking_permissions h.flight) (permissions_answered-keeps answer h p) p
  step-keeps (permissions_check_threw message) h tokens nets p =
      if-holds P (is_checking_permissions h.flight) (begin_threw-keeps message h p) p
  step-keeps (network_fetched state) h tokens nets p = nets state refl
  step-keeps (network_fetch_threw message) h tokens nets p =
      if-holds P (is_checking_network h.flight) (begin_threw-keeps message h p) p
  step-keeps (flow cancel_pressed) h tokens nets p =
      press_cancel-keeps P roaming.viewing.asking.steady refresh_token refresh_token-keeps h p
  step-keeps (flow entered) h tokens nets p =
      roaming.viewing.views h.source h.is_online true h.frame h p
  step-keeps (flow left) h tokens nets p =
      clear_complete_timeout-keeps P roaming.viewing.asking.steady _
        (roaming.viewing.views h.source h.is_online false h.frame h p)
  step-keeps (flow (rerendered source)) h tokens nets p =
      roaming.viewing.views source h.is_online h.mounted h.frame h p
  step-keeps (flow (frame_changed attached)) h tokens nets p =
      roaming.viewing.views h.source h.is_online h.mounted attached h p
  step-keeps (flow (message_posted raw)) h tokens nets p =
      read_message-keeps P roaming.viewing.asking.steady handle_event handle_event-keeps
        (h.source.interpret raw) h p
  step-keeps (flow (event_given event)) h tokens nets p = handle_event-keeps event h p
  step-keeps (flow (session_acquired session)) h tokens nets p =
      if-holds P (is_acquiring h.flight) (acquired-keeps session h p) p
  step-keeps (flow (acquisition_failed code message)) h tokens nets p =
      if-holds P (is_acquiring h.flight) (acquisition_rejected-keeps code message h p) p
  step-keeps (flow (launch_ended result)) h tokens nets p =
      if-holds P (is_launching h.flight)
        (land-keeps _ (
          launch_resolved-keeps P roaming.viewing.asking.steady handle_event handle_event-keeps
            result h p))
        p
  step-keeps (flow (launch_failed code message)) h tokens nets p =
      if-holds P (is_launching h.flight)
        (land-keeps _ (launch_rejected-keeps P roaming.viewing.asking.steady code message h p)) p
  step-keeps (flow (timer_fired id)) h tokens nets p =
      fire_timer-keeps P roaming.viewing.asking.steady id h p
  step-keeps (flow (token_refreshed number token)) h tokens nets p = tokens number token refl
  step-keeps (flow (refresh_rejected number message)) h tokens nets p =
      settle_refresh-keeps P roaming.viewing _
        (refresh_failed-keeps P roaming.viewing.asking.steady message)
        (find_refresh number h.refreshes) h p
