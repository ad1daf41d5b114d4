-- ===== src/Hook/Keeps.antt =====
-- packages/kyc-react/src/useIdentityVerification.ts: what the callbacks of the hook leave as it was,
-- on both platforms.
use kyc.Common.{
  ◌≡◌, refl, ℕ, String, Bool, true, false, not, ◌||◌, Option, none, some, List, if-holds,
}
use kyc.Client.{
  VerificationEvent, IdentityVerificationResult, IdentityVerificationError, MachineAction,
  VerificationEffect, VerificationPlan, status_change, completed, call_cancel, call_error,
  cancelled,
}
use kyc.Hook.State.{
  HostCall, on_complete, on_error, on_cancel, source_start, on_status_change, post_token, Hook,
  call, apply_action, clear_handle, clear_complete_timeout, fail_with, run_effect, follow_plan,
  run_planned, apply_planned, PendingRefresh, refresh_failed, caught_error, completion, is_settled,
  is_current, without_timer,
}
use kyc.Hook.Flow.{
  press_cancel, launch_resolved, launch_rejected, fire_timer, fire, find_timer, read_message,
}

-- A call that neither asks for a session nor hands a token over.
abbrev pub is_plain : HostCall → Bool
is_plain source_start = false
is_plain (post_token token origin) = false
is_plain _ = true

-- A predicate that stands whatever action the machine takes, what is called - but for a start and for
-- a token - and which timers are set.
pub record IsSteady (P : Hook → Type 0) : Type 0 where
  pub acts : (action : MachineAction) (h : Hook) → P h → P (apply_action action h)
  pub calls : (c : HostCall) (h : Hook) → is_plain c ≡ true → P h → P (call c h)
  pub times :
      (ts : List (ℕ × IdentityVerificationResult)) (handle : Option ℕ) (next : ℕ) (h : Hook)
      → P h
      → P (record h { timers = ts; complete_timeout = handle; next_timer = next })

module _ (P : Hook → Type 0) (steady : IsSteady P) where
  pub clear_complete_timeout-keeps : (h : Hook) → P h → P (clear_complete_timeout h)
  unfolding clear_complete_timeout
  clear_complete_timeout-keeps h p = clear_handle-keeps h.complete_timeout
    where
      clear_handle-keeps : (handle : Option ℕ) → P (clear_handle handle h)
      clear_handle-keeps none = p
      clear_handle-keeps (some id) = steady.times (without_timer id h.timers) none h.next_timer h p

  pub fail_with-keeps :
      (error : IdentityVerificationError) (keep : Bool) (h : Hook)
      → P h
      → P (fail_with error keep h)
  unfolding fail_with
  fail_with-keeps error keep h p =
      steady.calls (on_error error) (apply_action (MachineAction.failed error keep) h) refl
        (steady.acts (MachineAction.failed error keep) h p)

  pub fire_timer-keeps : (id : ℕ) (h : Hook) → P h → P (fire_timer id h)
  unfolding fire_timer
  fire_timer-keeps id h p = fire-keeps (find_timer id h.timers)
    where
      fire-keeps : (found : Option IdentityVerificationResult) → P (fire id found h)
      fire-keeps none = p
      fire-keeps (some result) =
          let cleared = steady.times (without_timer id h.timers) none h.next_timer h p in
          if-holds P h.mounted (steady.calls (on_complete result) _ refl cleared) cleared

  pub launch_rejected-keeps :
      (code message : Option String) (h : Hook) → P h → P (launch_rejected code message h)
  unfolding launch_rejected
  launch_rejected-keeps code message h p =
      if-holds P (not h.mounted || is_settled h.machine) p
        (fail_with-keeps (caught_error code message) false h p)

  pub refresh_failed-keeps :
      (message : Option String) (r : PendingRefresh) (h : Hook)
      → P h
      → P (refresh_failed message r h)
  unfolding refresh_failed
  refresh_failed-keeps message r h p = if-holds P (is_current r h) (fail_with-keeps _ true h p) p

  module _ (refresh : Hook → Hook) (refreshes : (h : Hook) → P h → P (refresh h)) where
    run_effect-keeps :
        (effect : VerificationEffect) (h : Hook) → P h → P (run_effect refresh effect h)
    unfolding run_effect
    run_effect-keeps (status_change status) h p = steady.calls (on_status_change status) h refl p
    run_effect-keeps (completed result delayed) h p =
        if-holds P delayed (steady.times _ _ _ h p) (steady.calls (on_complete result) h refl p)
    run_effect-keeps call_cancel h p = steady.calls on_cancel h refl p
    run_effect-keeps (call_error error) h p = steady.calls (on_error error) h refl p
    run_effect-keeps VerificationEffect.refresh_token h p = refreshes h p

    pub follow_plan-keeps :
        (plan : VerificationPlan) (h : Hook) → P h → P (follow_plan refresh plan h)
    unfolding follow_plan
    follow_plan-keeps plan h p = run_planned-keeps plan.effect _ (apply_planned-keeps plan.action)
      where
        run_planned-keeps :
            (effect : Option VerificationEffect) (k : Hook) → P k → P (run_planned refresh effect k)
        run_planned-keeps none k q = q
        run_planned-keeps (some effect) k q = run_effect-keeps effect k q

        apply_planned-keeps : (action : Option MachineAction) → P (apply_planned action h)
        apply_planned-keeps none = p
        apply_planned-keeps (some action) = steady.acts action h p

    pub press_cancel-keeps : (h : Hook) → P h → P (press_cancel refresh h)
    unfolding press_cancel
    press_cancel-keeps h p =
        run_effect-keeps call_cancel _
          (steady.acts cancelled (clear_complete_timeout h) (clear_complete_timeout-keeps h p))

  module _ (handle_event : VerificationEvent → Hook → Hook)
      (handles : (event : VerificationEvent) (h : Hook) → P h → P (handle_event event h)) where
    pub launch_resolved-keeps :
        (result : IdentityVerificationResult) (h : Hook)
        → P h
        → P (launch_resolved handle_event result h)
    unfolding launch_resolved
    launch_resolved-keeps result h p =
        if-holds P (not h.mounted || is_settled h.machine) p (handles (completion result) h p)

    pub read_message-keeps :
        (event : Option VerificationEvent) (h : Hook) → P h → P (read_message handle_event event h)
    unfolding read_message
    read_message-keeps none h p = p
    read_message-keeps (some event) h p = handles event h p
