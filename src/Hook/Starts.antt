-- ===== src/Hook/Starts.antt =====
-- packages/kyc-react/src/useIdentityVerification.ts: when the hook of the web asks its source for a
-- session, and how a run of `begin` ends.
use kyc.Common.{
  ◌≡◌, refl, sym, ◌∙◌, ap, subst, ℕ, suc, ◌+◌, ◌≤◌, String, Bool, true, false, not, ◌&&◌, Option,
  List, [], ◌∷◌, if-holds, if-holds_by, arith,
}
use kyc.Client.{VerificationSession, begin, go_offline, start_session, clear_session}
use kyc.Hook.State.{
  same_identity, is_current, PendingRefresh, Source, Flight, landed, checking_permissions,
  checking_network, acquiring, launching, Hook, initial_hook, call, apply_action, source_launch,
  clear_complete_timeout, land, fail_with, find_refresh, caught_error,
}
use kyc.Hook.Flow.{
  cancel_pressed, entered, left, rerendered, frame_changed, message_posted, event_given,
  session_acquired, acquisition_failed, launch_failed, launch_ended, timer_fired, refresh_rejected,
  token_refreshed, flow_step, acquired, acquisition_rejected, is_acquiring, is_launching, unmount,
  refresh_resolved, settle_refresh,
}
use kyc.Hook.Web.{
  WebEvent, start_pressed, retry_pressed, restart_pressed, connection_lost, connection_regained,
  flow, step, run, post_pinned, handle_event, refresh_token, begin_run, press_start, press_restart,
}
use kyc.Hook.Keeps.{
  clear_complete_timeout-keeps, fail_with-keeps, fire_timer-keeps, launch_rejected-keeps,
  refresh_failed-keeps, press_cancel-keeps, launch_resolved-keeps, read_message-keeps,
}
use kyc.Hook.Steps.{
  IsViewing, handle_event-keeps, refresh_token-keeps, lose_connection-keeps,
  regain_connection-keeps, settle_refresh-keeps,
}
use kyc.Hook.Counted.{
  is_start, starts, is_landed, credit, credits, answers, IsAt, IsAt-IsViewing, itself-IsAt, waiting,
  IsInOrder, stays, ends, asks, lands,
}

-- What a run that is not under way leaves unanswered.
landed-spent :
    (answered : ℕ) (h : Hook) → IsInOrder answered h → h.running ≡ false → starts h.calls ≤ answered
landed-spent answered h o idle = spent h.flight (sym idle ∙ o.flag) o.count
  where
    spent :
        (flight : Flight)
        → false ≡ not (is_landed flight)
        → starts h.calls ≤ answered + waiting flight
        → starts h.calls ≤ answered
    spent landed e count = omega arith
    spent acquiring e count = cc
    spent launching e count = cc
    spent checking_permissions e count = cc
    spent checking_network e count = cc

begin_run-IsInOrder :
    (answered : ℕ) (connected : Bool) (h : Hook)
    → starts h.calls ≤ answered
    → IsInOrder answered (begin_run connected h)
unfolding begin_run apply_action
begin_run-IsInOrder answered connected h spent =
    let begun = apply_action begin (clear_complete_timeout (record h { running = true })) in
    let cleared =
      clear_complete_timeout-keeps (IsAt (starts h.calls) h.flight true)
        (IsAt-IsViewing (starts h.calls) h.flight true).asking.steady (record h { running = true })
        (record { count = refl; place = refl; flag = refl }) in
    let paid = subst (λ n. n ≤ answered) (sym cleared.count) spent in
    if-holds (IsInOrder answered) connected (asks answered begun paid cleared.flag)
      (ends answered (apply_action go_offline begun) paid)

press_start-IsInOrder :
    (answered : ℕ) (connected : Bool) (h : Hook)
    → IsInOrder answered h
    → IsInOrder answered (press_start connected h)
unfolding press_start
press_start-IsInOrder answered connected h o =
    if-holds_by (IsInOrder answered) h.running (λ e. o)
      (λ e. begin_run-IsInOrder answered connected h (landed-spent answered h o e))

press_restart-IsInOrder :
    (answered : ℕ) (connected : Bool) (h : Hook)
    → IsInOrder answered h
    → IsInOrder answered (press_restart connected h)
unfolding press_restart apply_action
press_restart-IsInOrder answered connected h o =
    if-holds_by (IsInOrder answered) h.running (λ e. o)
      (λ e.
        begin_run-IsInOrder answered connected (apply_action clear_session h)
          (landed-spent answered h o e))

acquired-IsInOrder :
    (answered : ℕ) (session : VerificationSession) (h : Hook)
    → IsInOrder answered h
    → h.flight ≡ acquiring
    → IsInOrder (suc answered) (acquired session h)
unfolding acquired apply_action starts is_start
acquired-IsInOrder answered session h o at =
    let shown = apply_action (start_session session) h in
    let count = subst (λ f. starts h.calls ≤ answered + waiting f) at o.count in
    let paid : starts h.calls ≤ suc answered = omega arith in
    if-holds (IsInOrder (suc answered)) (not h.mounted) (ends (suc answered) h paid) (
      if-holds (IsInOrder (suc answered)) h.source.launchable
        {x = call (source_launch session) (record shown { flight = launching })}
        (record {
          flag = o.flag ∙ ap (λ f. not (is_landed f)) at;
          place = refl;
          count = omega arith;
        })
        (ends (suc answered) shown paid))

acquisition_rejected-IsInOrder :
    (answered : ℕ) (code message : Option String) (h : Hook)
    → IsInOrder answered h
    → h.flight ≡ acquiring
    → IsInOrder (suc answered) (acquisition_rejected code message h)
unfolding acquisition_rejected
acquisition_rejected-IsInOrder answered code message h o at =
    let count = subst (λ f. starts h.calls ≤ answered + waiting f) at o.count in
    let paid : starts h.calls ≤ suc answered = omega arith in
    let steady = (IsAt-IsViewing (starts h.calls) h.flight h.running).asking.steady in
    let error = caught_error code message in
    if-holds (λ k. IsInOrder (suc answered) (land k)) (not h.mounted) (ends (suc answered) h paid)
      (ends (suc answered) (fail_with error false h) (
        subst (λ n. n ≤ suc answered)
          (sym
            (fail_with-keeps (IsAt (starts h.calls) h.flight h.running) steady error false h
              (itself-IsAt h)).count)
          paid))

-- An answer is one more, also where nothing waits for it.
one_more : (answered : ℕ) (h : Hook) → IsInOrder answered h → IsInOrder (suc answered) h
one_more answered h o =
    let count = o.count in record { flag = o.flag; place = o.place; count = omega arith }

acquiring-at : (flight : Flight) → is_acquiring flight ≡ true → flight ≡ acquiring
unfolding is_acquiring
acquiring-at acquiring e = refl
acquiring-at landed e = cc
acquiring-at launching e = cc
acquiring-at checking_permissions e = cc
acquiring-at checking_network e = cc

launching-waiting : (flight : Flight) → is_launching flight ≡ true → waiting flight ≡ 0
unfolding is_launching
launching-waiting acquiring e = cc
launching-waiting landed e = refl
launching-waiting launching e = refl
launching-waiting checking_permissions e = refl
launching-waiting checking_network e = refl

token-IsAt :
    (token : String) (h : Hook) (found : Option PendingRefresh)
    → IsAt
        (starts h.calls)
        h.flight
        h.running
        (settle_refresh (refresh_resolved post_pinned token) found h)
unfolding refresh_resolved starts is_start
token-IsAt token h found =
    settle_refresh-keeps here (IsAt-IsViewing (starts h.calls) h.flight h.running)
      (refresh_resolved post_pinned token)
      (λ r k q.
        if-holds here (is_current r k && same_identity k.machine.session r.session && k.frame)
          {x = call (post_pinned token r.session) k}
          (record { count = q.count; place = q.place; flag = q.flag }) q)
      found h (itself-IsAt h)
  where
    here : Hook → Type 0
    here = IsAt (starts h.calls) h.flight h.running

step-IsInOrder :
    (event : WebEvent) (answered : ℕ) (h : Hook)
    → IsInOrder answered h
    → IsInOrder (credit event answered) (step event h)
unfolding step flow_step unmount refresh_resolved credit starts is_start
step-IsInOrder event answered h o = by_event event
  where
    here : Hook → Type 0
    here = IsAt (starts h.calls) h.flight h.running

    viewing : IsViewing (IsAt (starts h.calls) h.flight h.running)
    viewing = IsAt-IsViewing (starts h.calls) h.flight h.running

    by_event : (event : WebEvent) → IsInOrder (credit event answered) (step event h)
    by_event (start_pressed connected) = press_start-IsInOrder answered connected h o
    by_event (retry_pressed connected) = press_start-IsInOrder answered connected h o
    by_event (restart_pressed connected) = press_restart-IsInOrder answered connected h o
    by_event connection_lost =
        stays answered h _ o (lose_connection-keeps here viewing h (itself-IsAt h))
    by_event connection_regained =
        stays answered h _ o (regain_connection-keeps here viewing h (itself-IsAt h))
    by_event (flow cancel_pressed) = stays answered h _ o (
        press_cancel-keeps here viewing.asking.steady refresh_token
          (refresh_token-keeps here viewing.asking) h (itself-IsAt h))
    by_event (flow entered) =
        stays answered h _ o (viewing.views h.source h.is_online true h.frame h (itself-IsAt h))
    by_event (flow left) = stays answered h _ o (
        clear_complete_timeout-keeps here viewing.asking.steady _
          (viewing.views h.source h.is_online false h.frame h (itself-IsAt h)))
    by_event (flow (rerendered source)) =
        stays answered h _ o (viewing.views source h.is_online h.mounted h.frame h (itself-IsAt h))
    by_event (flow (frame_changed attached)) =
        stays answered h _ o
          (viewing.views h.source h.is_online h.mounted attached h (itself-IsAt h))
    by_event (flow (message_posted raw)) = stays answered h _ o (
        read_message-keeps here viewing.asking.steady handle_event
          (handle_event-keeps here viewing.asking) (h.source.interpret raw) h (itself-IsAt h))
    by_event (flow (event_given event)) =
        stays answered h _ o (handle_event-keeps here viewing.asking event h (itself-IsAt h))
    by_event (flow (session_acquired session)) =
        if-holds_by (IsInOrder (suc answered)) (is_acquiring h.flight)
          (λ e. acquired-IsInOrder answered session h o (acquiring-at h.flight e))
          (λ e. one_more answered h o)
    by_event (flow (acquisition_failed code message)) =
        if-holds_by (IsInOrder (suc answered)) (is_acquiring h.flight)
          (λ e. acquisition_rejected-IsInOrder answered code message h o (acquiring-at h.flight e))
          (λ e. one_more answered h o)
    by_event (flow (launch_ended result)) =
        if-holds_by (IsInOrder answered) (is_launching h.flight)
          (λ e. lands answered h _ o (launching-waiting h.flight e) (
            launch_resolved-keeps here viewing.asking.steady handle_event
              (handle_event-keeps here viewing.asking) result h (itself-IsAt h)))
          (λ e. o)
    by_event (flow (launch_failed code message)) =
        if-holds_by (IsInOrder answered) (is_launching h.flight)
          (λ e.
            lands answered h _ o (launching-waiting h.flight e)
              (launch_rejected-keeps here viewing.asking.steady code message h (itself-IsAt h)))
          (λ e. o)
    by_event (flow (timer_fired id)) =
        stays answered h _ o (fire_timer-keeps here viewing.asking.steady id h (itself-IsAt h))
    by_event (flow (token_refreshed number token)) =
        stays answered h _ o (token-IsAt token h (find_refresh number h.refreshes))
    by_event (flow (refresh_rejected number message)) = stays answered h _ o (
        settle_refresh-keeps here viewing _
          (refresh_failed-keeps here viewing.asking.steady message)
          (find_refresh number h.refreshes) h (itself-IsAt h))

pub run-IsInOrder :
    (events : List WebEvent) (answered : ℕ) (h : Hook)
    → IsInOrder answered h
    → IsInOrder (credits events answered) (run events h)
unfolding run credits
run-IsInOrder [] answered h o = o
run-IsInOrder (event ∷ events) answered h o =
    run-IsInOrder events (credit event answered) (step event h) (step-IsInOrder event answered h o)

pub initial_hook-IsInOrder :
    (source : Source) (online : Bool) → IsInOrder 0 (initial_hook source online)
unfolding starts
initial_hook-IsInOrder source online = record { flag = refl; place = refl; count = omega arith }

-- Whatever reaches the hook of the web: a run is marked as running exactly while it waits for a call,
-- and the source was asked for a session at most as often as it has answered, plus once while it is
-- being asked.
pub run_in_order :
    (events : List WebEvent) (source : Source) (online : Bool)
    → let h = run events (initial_hook source online) in
      (h.running ≡ not (is_landed h.flight)) × (starts h.calls ≤ answers events + waiting h.flight)
run_in_order events source online =
    let o =
      run-IsInOrder events 0 (initial_hook source online) (initial_hook-IsInOrder source online) in
    (o.flag, o.count)
