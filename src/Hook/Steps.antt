-- ===== src/Hook/Steps.antt =====
-- packages/kyc-react/src/useIdentityVerification.ts: what stands over every event that reaches the
-- hook of the web.
use kyc.Common.{
  ◌≡◌, refl, ℕ, String, Bool, true, false, not, ◌||◌, Option, none, some, given, if-holds,
  if-holds_by, arith,
}
use kyc.Client.{
  VerificationEvent, VerificationSession, begin, go_offline, permission, denied, plan_event,
  clear_session, start_session,
}
use kyc.Hook.State.{
  source_start, source_launch, PendingRefresh, Source, Flight, acquiring, launching, landed, Hook,
  call, without_refresh, find_refresh, ask_for, land, caught_error,
}
use kyc.Hook.Flow.{
  cancel_pressed, entered, left, rerendered, frame_changed, message_posted, event_given,
  session_acquired, acquisition_failed, launch_failed, launch_ended, timer_fired, token_refreshed,
  refresh_rejected, acquired, acquisition_rejected, is_acquiring, is_launching, flow_step, unmount,
  settle_refresh,
}
use kyc.Hook.Keeps.{
  IsSteady, clear_complete_timeout-keeps, fail_with-keeps, fire_timer-keeps, launch_rejected-keeps,
  refresh_failed-keeps, follow_plan-keeps, press_cancel-keeps, launch_resolved-keeps,
  read_message-keeps,
}
use kyc.Hook.Web.{
  WebEvent, start_pressed, retry_pressed, restart_pressed, connection_lost, connection_regained,
  flow, allowed_origin_of, ask_refresh_of, refresh_token, handle_event, is_permission_denied,
  begin_run, press_start, press_restart, lose_connection, regain_connection, is_on_screen, step,
}

-- A predicate that also stands when a refresh is asked for, with an origin to pin its token to.
pub record IsAsking (P : Hook → Type 0) : Type 0 where
  pub steady : IsSteady P
  pub asks :
      (session : VerificationSession) (h : Hook)
      → given session.allowed_origin ≡ true
      → P h
      → P (ask_for session h)

-- A predicate that stands, too, whatever the hook's source and what surrounds it, and when a refresh
-- has settled.
pub record IsViewing (P : Hook → Type 0) : Type 0 where
  pub asking : IsAsking P
  pub views :
      (source : Source) (online mounted frame : Bool) (h : Hook)
      → P h
      → P (record h { source = source; is_online = online; mounted = mounted; frame = frame })
  pub settles :
      (number : ℕ) (h : Hook)
      → P h
      → P (record h { refreshes = without_refresh number h.refreshes })

-- And, last, wherever its run is, and when a start is called.
pub record IsStanding (P : Hook → Type 0) : Type 0 where
  pub viewing : IsViewing P
  pub flights :
      (running : Bool) (flight : Flight) (h : Hook)
      → P h
      → P (record h { running = running; flight = flight })
  pub starts : (h : Hook) → P h → P (call source_start h)

module _ (P : Hook → Type 0) (asking : IsAsking P) where
  pub refresh_token-keeps : (h : Hook) → P h → P (refresh_token h)
  unfolding refresh_token
  refresh_token-keeps h p =
      if-holds_by P
        (not h.source.token_refreshable || not (given (allowed_origin_of h.machine.session)))
        (λ _. fail_with-keeps P asking.steady _ true h p)
        (λ e. ask_refresh_of-keeps h.machine.session (ground arith))
    where
      ask_refresh_of-keeps :
          (session : Option VerificationSession)
          → given (allowed_origin_of session) ≡ true
          → P (ask_refresh_of session h)
      ask_refresh_of-keeps none g = p
      ask_refresh_of-keeps (some session) g = asking.asks session h g p

  pub handle_event-keeps : (event : VerificationEvent) (h : Hook) → P h → P (handle_event event h)
  unfolding handle_event
  handle_event-keeps event h p = if-holds P (not h.mounted) p (
      if-holds P (is_permission_denied event) (asking.steady.acts (permission denied) h p) (
        follow_plan-keeps P asking.steady refresh_token refresh_token-keeps
          (plan_event event h.machine.session) h p))

module _ (P : Hook → Type 0) (viewing : IsViewing P) where
  pub lose_connection-keeps : (h : Hook) → P h → P (lose_connection h)
  unfolding lose_connection
  lose_connection-keeps h p =
      let parted = viewing.views h.source false h.mounted h.frame h p in
      if-holds P (not h.mounted) p (
        if-holds P (is_on_screen h.machine.status) (viewing.asking.steady.acts go_offline _ parted)
          parted)

  pub regain_connection-keeps : (h : Hook) → P h → P (regain_connection h)
  unfolding regain_connection
  regain_connection-keeps h p =
      if-holds P (not h.mounted) p (viewing.views h.source true h.mounted h.frame h p)

  pub settle_refresh-keeps :
      (settle : PendingRefresh → Hook → Hook)
      → ((r : PendingRefresh) (h : Hook) → P h → P (settle r h))
      → (found : Option PendingRefresh) (h : Hook) → P h
      → P (settle_refresh settle found h)
  settle_refresh-keeps settle kept none h p = p
  settle_refresh-keeps settle kept (some r) h p = kept r _ (viewing.settles r.number h p)

module _ (P : Hook → Type 0) (standing : IsStanding P) where
  land-keeps : (h : Hook) → P h → P (land h)
  land-keeps h p = standing.flights false landed h p

  fly-keeps : (flight : Flight) (h : Hook) → P h → P (record h { flight = flight })
  fly-keeps flight h p = standing.flights h.running flight h p

  begin_run-keeps : (connected : Bool) (h : Hook) → P h → P (begin_run connected h)
  unfolding begin_run
  begin_run-keeps connected h p =
      let begun = standing.viewing.asking.steady.acts begin _ (
        clear_complete_timeout-keeps P standing.viewing.asking.steady _
          (standing.flights true h.flight h p)) in
      if-holds P connected (standing.starts _ (fly-keeps acquiring _ begun))
        (land-keeps _ (standing.viewing.asking.steady.acts go_offline _ begun))

  press_start-keeps : (connected : Bool) (h : Hook) → P h → P (press_start connected h)
  unfolding press_start
  press_start-keeps connected h p = if-holds P h.running p (begin_run-keeps connected h p)

  press_restart-keeps : (connected : Bool) (h : Hook) → P h → P (press_restart connected h)
  unfolding press_restart
  press_restart-keeps connected h p =
      if-holds P h.running p
        (begin_run-keeps connected _ (standing.viewing.asking.steady.acts clear_session h p))

  acquired-keeps : (session : VerificationSession) (h : Hook) → P h → P (acquired session h)
  unfolding acquired
  acquired-keeps session h p =
      let shown = standing.viewing.asking.steady.acts (start_session session) h p in
      if-holds P (not h.mounted) (land-keeps h p) (
        if-holds P h.source.launchable
          (standing.viewing.asking.steady.calls (source_launch session) _ refl
            (fly-keeps launching _ shown))
          (land-keeps _ shown))

  acquisition_rejected-keeps :
      (code message : Option String) (h : Hook) → P h → P (acquisition_rejected code message h)
  unfolding acquisition_rejected
  acquisition_rejected-keeps code message h p = land-keeps _ (
      if-holds P (not h.mounted) p
        (fail_with-keeps P standing.viewing.asking.steady (caught_error code message) false h p))

  -- Every event but a token that arrives.
  pub step-keeps :
      (event : WebEvent) (h : Hook)
      → ((number : ℕ) (token : String)
          → event ≡ flow (token_refreshed number token)
          → P (step event h))
      → P h
      → P (step event h)
  unfolding step flow_step unmount
  step-keeps (start_pressed connected) h tokens p = press_start-keeps connected h p
  step-keeps (retry_pressed connected) h tokens p = press_start-keeps connected h p
  step-keeps (restart_pressed connected) h tokens p = press_restart-keeps connected h p
  step-keeps connection_lost h tokens p = lose_connection-keeps P standing.viewing h p
  step-keeps connection_regained h tokens p = regain_connection-keeps P standing.viewing h p
  step-keeps (flow cancel_pressed) h tokens p =
      press_cancel-keeps P standing.viewing.asking.steady refresh_token
        (refresh_token-keeps P standing.viewing.asking) h p
  step-keeps (flow entered) h tokens p =
      standing.viewing.views h.source h.is_online true h.frame h p
  step-keeps (flow left) h tokens p =
      clear_complete_timeout-keeps P standing.viewing.asking.steady _
        (standing.viewing.views h.source h.is_online false h.frame h p)
  step-keeps (flow (rerendered source)) h tokens p =
      standing.viewing.views source h.is_online h.mounted h.frame h p
  step-keeps (flow (frame_changed attached)) h tokens p =
      standing.viewing.views h.source h.is_online h.mounted attached h p
  step-keeps (flow (message_posted raw)) h tokens p =
      read_message-keeps P standing.viewing.asking.steady handle_event
        (handle_event-keeps P standing.viewing.asking) (h.source.interpret raw) h p
  step-keeps (flow (event_given event)) h tokens p =
      handle_event-keeps P standing.viewing.asking event h p
  step-keeps (flow (session_acquired session)) h tokens p =
      if-holds P (is_acquiring h.flight) (acquired-keeps session h p) p
  step-keeps (flow (acquisition_failed code message)) h tokens p =
      if-holds P (is_acquiring h.flight) (acquisition_rejected-keeps code message h p) p
  step-keeps (flow (launch_ended result)) h tokens p =
      if-holds P (is_launching h.flight)
        (land-keeps _ (
          launch_resolved-keeps P standing.viewing.asking.steady handle_event
            (handle_event-keeps P standing.viewing.asking) result h p))
        p
  step-keeps (flow (launch_failed code message)) h tokens p =
      if-holds P (is_launching h.flight)
        (land-keeps _ (launch_rejected-keeps P standing.viewing.asking.steady code message h p)) p
  step-keeps (flow (timer_fired id)) h tokens p =
      fire_timer-keeps P standing.viewing.asking.steady id h p
  step-keeps (flow (token_refreshed number token)) h tokens p = tokens number token refl
  step-keeps (flow (refresh_rejected number message)) h tokens p =
      settle_refresh-keeps P standing.viewing _
        (refresh_failed-keeps P standing.viewing.asking.steady message)
        (find_refresh number h.refreshes) h p
