-- ===== src/Hook/Silent.antt =====
-- packages/kyc-react/src/useIdentityVerification.ts and useTokenRefresh.ts: what the host and the page
-- still hear of the hook of the web once it is unmounted.
use kyc.Common.{
  ◌≡◌, refl, sym, ◌∙◌, subst, ℕ, Bool, true, false, not, ◌||◌, ◌&&◌, Option, none, some, List, [],
  ◌∷◌, if◌then◌else◌, if-holds, if-holds_by, All, arith,
}
use kyc.Client.{begin, go_offline, clear_session, IdentityVerificationResult, VerificationEvent}
use kyc.Hook.State.{
  acquiring, completion, HostCall, post_token, PendingRefresh, Hook, on_complete, on_error,
  on_status_change, source_launch, land, find_refresh, call, without_refresh, clear_handle,
  clear_complete_timeout, refresh_failed, is_current, same_identity, is_settled, apply_action,
  source_start, caught_error, fail_with, run_effect,
}
use kyc.Hook.Flow.{
  cancel_pressed, entered, left, rerendered, frame_changed, message_posted, event_given,
  session_acquired, acquisition_failed, launch_failed, launch_ended, timer_fired, refresh_rejected,
  token_refreshed, flow_step, acquired, acquisition_rejected, is_acquiring, is_launching, unmount,
  refresh_resolved, settle_refresh, launch_resolved, launch_rejected, read_message, fire_timer,
  fire, find_timer, press_cancel,
}
use kyc.Hook.Web.{
  WebEvent, start_pressed, retry_pressed, restart_pressed, connection_lost, connection_regained,
  flow, step, run, post_pinned, handle_event, begin_run, press_start, press_restart,
  lose_connection, regain_connection,
}

-- What is told of a verification: its outcome, its failure, its status, and what starts it.
abbrev pub is_told : HostCall → Bool
is_told (on_complete result) = true
is_told (on_error error) = true
is_told (on_status_change status) = true
is_told (source_launch session) = true
is_told (post_token token origin) = true
is_told _ = false

unfoldable pub told : List HostCall → List HostCall
told [] = []
told (c ∷ cs) = let rest = told cs in if is_told c then c ∷ rest else rest

-- Every event but the one that mounts the hook again.
abbrev pub is_away : WebEvent → Bool
is_away (flow entered) = false
is_away _ = true

-- The hook is unmounted, and this was told.
record IsSilent (said : List HostCall) (h : Hook) : Type 0 where
  away : h.mounted ≡ false
  same : told h.calls ≡ said

clear_complete_timeout-IsSilent :
    (said : List HostCall) (h : Hook) → IsSilent said h → IsSilent said (clear_complete_timeout h)
unfolding clear_complete_timeout
clear_complete_timeout-IsSilent said h s = clear h.complete_timeout
  where
    clear : (handle : Option ℕ) → IsSilent said (clear_handle handle h)
    clear none = s
    clear (some id) = record { away = s.away; same = s.same }

unmounted-handle_event :
    (event : VerificationEvent) (h : Hook) → h.mounted ≡ false → handle_event event h ≡ h
unfolding handle_event
unmounted-handle_event event h away = rw away refl

-- A callback that first asks whether the hook is mounted, alone or with another test.
unmounted :
    (said : List HostCall) (h : Hook) (rest : Bool) (k : Hook)
    → IsSilent said h
    → IsSilent said (if not h.mounted || rest then h else k)
unmounted said h rest k s =
    if-holds_by (IsSilent said) (not h.mounted || rest) (λ e. s)
      (λ e. let away = s.away in absurd (cc))

begin_run-IsSilent :
    (said : List HostCall) (connected : Bool) (h : Hook)
    → IsSilent said h
    → IsSilent said (begin_run connected h)
unfolding begin_run apply_action told
begin_run-IsSilent said connected h s =
    let begun = apply_action begin (clear_complete_timeout (record h { running = true })) in
    let cleared =
      clear_complete_timeout-IsSilent said (record h { running = true })
        (record { away = s.away; same = s.same }) in
    if-holds (IsSilent said) connected {x = call source_start (record begun { flight = acquiring })}
      {y = land (apply_action go_offline begun)}
      (record { away = cleared.away; same = cleared.same })
      (record { away = cleared.away; same = cleared.same })

fire_timer-IsSilent :
    (said : List HostCall) (id : ℕ) (h : Hook) → IsSilent said h → IsSilent said (fire_timer id h)
unfolding fire_timer
fire_timer-IsSilent said id h s = fires (find_timer id h.timers)
  where
    fires : (found : Option IdentityVerificationResult) → IsSilent said (fire id found h)
    fires none = s
    fires (some result) =
        if-holds_by (IsSilent said) h.mounted (λ e. let away = s.away in absurd (cc))
          (λ e. record { away = s.away; same = s.same })

-- A refresh that settles says nothing where it is not current.
settle_refresh-IsSilent :
    (said : List HostCall) (settle : PendingRefresh → Hook → Hook)
    → ((r : PendingRefresh) (k : Hook) → IsSilent said k → IsSilent said (settle r k))
    → (found : Option PendingRefresh) (h : Hook) → IsSilent said h
    → IsSilent said (settle_refresh settle found h)
settle_refresh-IsSilent said settle kept none h s = s
settle_refresh-IsSilent said settle kept (some r) h s =
    kept r (record h { refreshes = without_refresh r.number h.refreshes })
      (record { away = s.away; same = s.same })

step-IsSilent :
    (event : WebEvent) (said : List HostCall) (h : Hook)
    → is_away event ≡ true
    → IsSilent said h
    → IsSilent said (step event h)
unfolding step flow_step press_start press_restart lose_connection regain_connection press_cancel
    run_effect read_message acquired acquisition_rejected launch_resolved launch_rejected
    refresh_resolved refresh_failed unmount apply_action told
step-IsSilent (start_pressed connected) said h a s =
    if-holds (IsSilent said) h.running s (begin_run-IsSilent said connected h s)
step-IsSilent (retry_pressed connected) said h a s =
    if-holds (IsSilent said) h.running s (begin_run-IsSilent said connected h s)
step-IsSilent (restart_pressed connected) said h a s = if-holds (IsSilent said) h.running s (
    begin_run-IsSilent said connected (apply_action clear_session h)
      (record { away = s.away; same = s.same }))
step-IsSilent connection_lost said h a s =
    if-holds_by (IsSilent said) (not h.mounted) (λ e. s) (λ e. let away = s.away in absurd cc)
step-IsSilent connection_regained said h a s =
    if-holds_by (IsSilent said) (not h.mounted) (λ e. s) (λ e. let away = s.away in absurd cc)
step-IsSilent (flow cancel_pressed) said h a s =
    let cleared = clear_complete_timeout-IsSilent said h s in
    record { away = cleared.away; same = cleared.same }
step-IsSilent (flow entered) said h a s = cc
step-IsSilent (flow left) said h a s =
    clear_complete_timeout-IsSilent said (record h { mounted = false })
      (record { away = refl; same = s.same })
step-IsSilent (flow (rerendered source)) said h a s = record { away = s.away; same = s.same }
step-IsSilent (flow (frame_changed attached)) said h a s = record { away = s.away; same = s.same }
step-IsSilent (flow (message_posted raw)) said h a s = reads (h.source.interpret raw)
  where
    reads : (read : Option VerificationEvent) → IsSilent said (read_message handle_event read h)
    reads none = s
    reads (some event) = subst (IsSilent said) (sym (unmounted-handle_event event h s.away)) s
step-IsSilent (flow (event_given event)) said h a s =
    subst (IsSilent said) (sym (unmounted-handle_event event h s.away)) s
step-IsSilent (flow (session_acquired session)) said h a s =
    if-holds (IsSilent said) (is_acquiring h.flight)
      (if-holds_by (IsSilent said) (not h.mounted) (λ e. record { away = s.away; same = s.same })
        (λ e. let away = s.away in absurd cc))
      s
step-IsSilent (flow (acquisition_failed code message)) said h a s =
    if-holds (IsSilent said) (is_acquiring h.flight)
      (if-holds_by (λ k. IsSilent said (land k)) (not h.mounted)
        (λ e. record { away = s.away; same = s.same }) (λ e. let away = s.away in absurd cc))
      s
step-IsSilent (flow (launch_ended result)) said h a s =
    let same = unmounted said h (is_settled h.machine) (handle_event (completion result) h) s in
    if-holds (IsSilent said) (is_launching h.flight) (record { away = same.away; same = same.same })
      s
step-IsSilent (flow (launch_failed code message)) said h a s =
    let same =
      unmounted said h (is_settled h.machine) (fail_with (caught_error code message) false h) s in
    if-holds (IsSilent said) (is_launching h.flight) (record { away = same.away; same = same.same })
      s
step-IsSilent (flow (timer_fired id)) said h a s = fire_timer-IsSilent said id h s
step-IsSilent (flow (token_refreshed number token)) said h a s =
    settle_refresh-IsSilent said (refresh_resolved post_pinned token)
      (λ r k q.
        if-holds_by (IsSilent said)
          (is_current r k && same_identity k.machine.session r.session && k.frame)
          (λ e. let away = q.away in absurd (ground arith)) (λ e. q))
      (find_refresh number h.refreshes) h s
step-IsSilent (flow (refresh_rejected number message)) said h a s =
    settle_refresh-IsSilent said (refresh_failed message)
      (λ r k q.
        if-holds_by (IsSilent said) (is_current r k)
          (λ e. let away = q.away in absurd (ground arith)) (λ e. q))
      (find_refresh number h.refreshes) h s

-- Once the hook of the web is unmounted, and until it is mounted again: whatever reaches it, no
-- onComplete, onError or onStatusChange of the host is called, no session is launched, and no token
-- is handed to the page.
pub run_silent :
    (events : List WebEvent) (h : Hook)
    → All (λ event. is_away event ≡ true) events
    → h.mounted ≡ false
    → told (run events h).calls ≡ told h.calls
unfolding run
run_silent [] h all away = refl
run_silent (event ∷ events) h (a, all) away =
    let s = step-IsSilent event (told h.calls) h a (record { away = away; same = refl }) in
    run_silent events (step event h) all s.away ∙ s.same
