-- ===== src/Hook/Ended.antt =====
-- packages/kyc-react/src/useIdentityVerification.ts: how a run of the hook of the web comes to its end.
use kyc.Common.{
  ◌≡◌, refl, ◌∙◌, ap, suc, String, Bool, true, false, not, ◌⊎◌, inl, inr, Option, List, if-holds,
  if-holds_by,
}
use kyc.Client.{VerificationSession, IdentityVerificationResult, start_session}
use kyc.Hook.State.{
  Source, Flight, landed, checking_permissions, checking_network, acquiring, launching, Hook,
  initial_hook, apply_action, call, source_launch,
}
use kyc.Hook.Flow.{
  session_acquired, acquisition_failed, launch_ended, launch_failed, flow_step, acquired,
  acquisition_rejected, is_acquiring, is_launching,
}
use kyc.Hook.Web.{WebEvent, start_pressed, flow, step, run, press_start, begin_run}
use kyc.Hook.Keeps.{clear_complete_timeout-keeps}
use kyc.Hook.Counted.{is_start, starts, is_landed, is_checking, IsAt, IsAt-IsViewing}
use kyc.Hook.Starts.{run-IsInOrder, initial_hook-IsInOrder}

-- What a call comes to: its result, or the code and the message of its rejection.
pub data Answer {ℓ} (A : Type ℓ) : Type ℓ where
  resolved : A → Answer A
  rejected : (code message : Option String) → Answer A

unfoldable pub start_answered : Answer VerificationSession → WebEvent
start_answered (resolved session) = flow (session_acquired session)
start_answered (rejected code message) = flow (acquisition_failed code message)

unfoldable pub launch_answered : Answer IdentityVerificationResult → WebEvent
launch_answered (resolved result) = flow (launch_ended result)
launch_answered (rejected code message) = flow (launch_failed code message)

-- No run is under way, or it waits for its launch.
abbrev IsLast : Hook → Type 0
IsLast h = ((h.flight ≡ landed) × (h.running ≡ false)) ⊎ (h.flight ≡ launching)

launch_answered-lands :
    (answer : Answer IdentityVerificationResult) (h : Hook)
    → IsLast h
    → (step (launch_answered answer) h).running ≡ false
unfolding launch_answered step flow_step is_launching
launch_answered-lands (resolved result) h last =
    if-holds_by (λ (k : Hook). k.running ≡ false) (is_launching h.flight) (λ e. refl)
      (λ e. elim last [ inl (place, flag) ↦ flag | inr place ↦ cc ])
launch_answered-lands (rejected code message) h last =
    if-holds_by (λ (k : Hook). k.running ≡ false) (is_launching h.flight) (λ e. refl)
      (λ e. elim last [ inl (place, flag) ↦ flag | inr place ↦ cc ])

unasked-IsLast :
    (h : Hook)
    → h.running ≡ not (is_landed h.flight)
    → is_checking h.flight ≡ false
    → is_acquiring h.flight ≡ false
    → IsLast h
unfolding is_acquiring
unasked-IsLast h flag place idle = at h.flight refl (ap is_checking refl ∙ place) idle
  where
    at :
        (flight : Flight)
        → h.flight ≡ flight
        → is_checking flight ≡ false
        → is_acquiring flight ≡ false
        → IsLast h
    at landed e c a = inl (e, flag ∙ ap (λ f. not (is_landed f)) e)
    at launching e c a = inr e
    at acquiring e c a = cc
    at checking_permissions e c a = cc
    at checking_network e c a = cc

acquired-IsLast : (session : VerificationSession) (h : Hook) → IsLast (acquired session h)
unfolding acquired apply_action
acquired-IsLast session h =
    let shown = apply_action (start_session session) h in
    if-holds IsLast (not h.mounted) (inl (refl, refl)) (
      if-holds IsLast h.source.launchable
        {x = call (source_launch session) (record shown { flight = launching })} (inr refl)
        (inl (refl, refl)))

start_answered-IsLast :
    (answer : Answer VerificationSession) (h : Hook)
    → h.running ≡ not (is_landed h.flight)
    → is_checking h.flight ≡ false
    → IsLast (step (start_answered answer) h)
unfolding start_answered step flow_step acquisition_rejected
start_answered-IsLast (resolved session) h flag place =
    if-holds_by IsLast (is_acquiring h.flight) (λ e. acquired-IsLast session h)
      (unasked-IsLast h flag place)
start_answered-IsLast (rejected code message) h flag place =
    if-holds_by IsLast (is_acquiring h.flight) (λ e. inl (refl, refl)) (unasked-IsLast h flag place)

press_start-asks :
    (h : Hook)
    → h.running ≡ false
    → starts (step (start_pressed true) h).calls ≡ suc (starts h.calls)
unfolding step press_start begin_run starts is_start apply_action
press_start-asks h idle =
    if-holds_by (λ (k : Hook). starts k.calls ≡ suc (starts h.calls)) h.running (λ e. cc)
      (λ e.
        ap suc
          (clear_complete_timeout-keeps (IsAt (starts h.calls) h.flight true)
            (IsAt-IsViewing (starts h.calls) h.flight true).asking.steady
            (record h { running = true })
            (record { count = refl; place = refl; flag = refl })).count)

-- Wherever the hook of the web has come to: once its source has answered a start, and then a launch,
-- each with a result or a rejection, no run is under way, and to press start on a connected device
-- asks the source for a session again, once.
pub run_ends :
    (events : List WebEvent) (source : Source) (online : Bool)
    (started : Answer VerificationSession) (launched : Answer IdentityVerificationResult)
    → let h = run events (initial_hook source online) in
      let k = step (launch_answered launched) (step (start_answered started) h) in
      (k.running ≡ false) × (starts (step (start_pressed true) k).calls ≡ suc (starts k.calls))
run_ends events source online started launched =
    let h = run events (initial_hook source online) in
    let o =
      run-IsInOrder events 0 (initial_hook source online) (initial_hook-IsInOrder source online) in
    let idle =
      launch_answered-lands launched (step (start_answered started) h)
        (start_answered-IsLast started h o.flag o.place) in
    (idle, press_start-asks _ idle)
