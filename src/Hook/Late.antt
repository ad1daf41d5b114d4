-- ===== src/Hook/Late.antt =====
-- packages/kyc-react/src/useIdentityVerification.ts: what a cancel of the web's hook does not retire.
use kyc.Common.{
  ◌≡◌, refl, sym, ◌∙◌, ap, subst, ℕ, suc, String, true, false, Option, some, [], ◌∷◌, or_else, eqb,
  arith,
}
use kyc.Types.{approved}
use kyc.Client.{
  VerificationSession, IdentityVerificationResult, complete, initial_machine_state, result_of,
  session_applicant, plan_event, machine_reducer, outcome, verifying,
}
use kyc.Hook.State.{
  complete_later, Hook, on_cancel, on_complete, apply_action, follow_plan, run_effect,
  clear_complete_timeout, acquiring, without_timer,
}
use kyc.Hook.Flow.{cancel_pressed, event_given, timer_fired, flow_step, press_cancel, fire_timer}
use kyc.Hook.Web.{flow, step, run, handle_event, refresh_token}

-- An approval, which a timer tells the host.
approval-later :
    (h : Hook) (id : Option String)
    → h.mounted ≡ true
    → let result = result_of approved (or_else id (session_applicant h.machine.session)) in
      handle_event (complete approved id) h
      ≡ complete_later result (apply_action (outcome result) h)
unfolding handle_event follow_plan run_effect apply_action plan_event
approval-later h id shown = rw shown refl

eqb_refl : (n : ℕ) → eqb n n ≡ true
eqb_refl n = ground arith

eqb-suc : (n : ℕ) → eqb n (suc n) ≡ false
eqb-suc n = ground arith

-- Two timers are set, of which only the second can be cleared.
abbrev approved_twice : Hook → (first second : IdentityVerificationResult) → Hook
unfolding apply_action
approved_twice h first second =
    complete_later second
      (apply_action (outcome second) (complete_later first (apply_action (outcome first) h)))

cancel-fires :
    (h : Hook) (first second : IdentityVerificationResult)
    → h.mounted ≡ true
    → let k =
        fire_timer h.next_timer (press_cancel refresh_token (approved_twice h first second)) in
      (k.calls ≡ on_complete first ∷ on_cancel ∷ h.calls) × (k.machine ≡ initial_machine_state)
unfolding approved_twice press_cancel fire_timer run_effect apply_action machine_reducer
    clear_complete_timeout without_timer
cancel-fires h first second shown =
    rw (eqb_refl (suc h.next_timer))
      (rw (eqb-suc h.next_timer) (rw (eqb_refl h.next_timer) (rw shown (refl, refl))))

-- A verification of a mounted hook that is told twice to be approved, as by a page that posts its
-- outcome again, and is then cancelled: the first of the two timers still fires, and calls onComplete
-- after onCancel, over the first screen.
pub run_completes_after_cancel :
    (h : Hook) (first second : Option String)
    → h.mounted ≡ true
    → let k =
        run
          (flow (event_given (complete approved first))
            ∷ flow (event_given (complete approved second))
            ∷ flow cancel_pressed
            ∷ flow (timer_fired h.next_timer)
            ∷ [])
          h in
      let result = result_of approved (or_else first (session_applicant h.machine.session)) in
      (k.calls ≡ on_complete result ∷ on_cancel ∷ h.calls) × (k.machine ≡ initial_machine_state)
unfolding run step flow_step approved_twice apply_action machine_reducer
run_completes_after_cancel h first second shown =
    let result = result_of approved (or_else first (session_applicant h.machine.session)) in
    let once = complete_later result (apply_action (outcome result) h) in
    let later = result_of approved (or_else second (session_applicant h.machine.session)) in
    let again : handle_event (complete approved second) (handle_event (complete approved first) h)
        ≡ approved_twice h result later =
      ap (handle_event (complete approved second)) (approval-later h first shown)
      ∙ approval-later once second shown in
    subst
      (λ (x : Hook).
        let k = fire_timer h.next_timer (press_cancel refresh_token x) in
        (k.calls ≡ on_complete result ∷ on_cancel ∷ h.calls) × (k.machine ≡ initial_machine_state))
      (sym again) (cancel-fires h result later shown)

-- What a cancel leaves to a run that is under way.
record IsUnderWay (h : Hook) : Type 0 where
  here : h.mounted ≡ true
  place : h.flight ≡ acquiring

abbrev Shows : VerificationSession → Hook → Type 0
Shows session k = (k.machine.status ≡ verifying) × (k.machine.session ≡ some session)
