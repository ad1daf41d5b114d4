-- ===== src/Examples/Hooks.antt =====
-- Verifications in an app: on the web, and on React Native.
use kyc.Common.{◌≡◌, refl, ◌⊎◌, suc, ◌+◌, ◌≤◌, true, false, not, none, some, List, [], ◌∷◌, All}
use kyc.Types.{approved}
use kyc.Client.{
  VerificationSession, IdentityVerificationResult, complete, token_expired, initial_machine_state,
  result_of,
}
use kyc.Hook.State.{Source, Hook, initial_hook, acquiring, on_complete, on_cancel, checking_network}
use kyc.Hook.Flow.{
  cancel_pressed, frame_changed, event_given, session_acquired, launch_ended, timer_fired,
  token_refreshed,
}
use kyc.Hook.Web.{WebEvent, start_pressed, flow, step, run}
use kyc.Hook.Counted.{starts, answers, is_landed, waiting}
use kyc.Hook.Starts.{run_in_order}
use kyc.Hook.Ended.{resolved, rejected, start_answered, launch_answered, run_ends}
use kyc.Hook.Tokens.{posts, IsPinned, IsHandedOver, step-IsHandedOver, run-IsPinned}
use kyc.Hook.Silent.{told, run_silent}
use kyc.Hook.Late.{run_completes_after_cancel}
use kyc.Hook.Native.{NativeEvent, NetInfoState}
use kyc.Hook.Native
use kyc.Hook.Preflight.{IsCleared, step-IsCleared}

abbrev launched_source : Source
launched_source = record { launchable = true; token_refreshable = true; interpret = λ raw. none }

abbrev session : VerificationSession
session = record {
  provider = "sumsub";
  session_id = some "s-1";
  access_token = some "t-1";
  url = some "https://kyc.example/hosted/s-1";
  allowed_origin = some "https://kyc.example";
  applicant_id = none;
  status = none;
}

abbrev approval : IdentityVerificationResult
approval = record { status = approved; applicant_id = some "a-1" }

-- Two presses of start, a session, a token that the page asks for, and the approval.
abbrev verification : List WebEvent
verification =
    start_pressed true
    ∷ start_pressed true
    ∷ flow (session_acquired session)
    ∷ flow (frame_changed true)
    ∷ flow (event_given token_expired)
    ∷ flow (token_refreshed 1 "t-2")
    ∷ flow (launch_ended approval)
    ∷ flow (timer_fired 0)
    ∷ []

abbrev hook : Hook
hook = initial_hook launched_source true

run_in_order_example :
    ((run verification hook).running ≡ not (is_landed (run verification hook).flight))
    × (starts (run verification hook).calls
        ≤ answers verification + waiting (run verification hook).flight)
run_in_order_example = run_in_order verification launched_source true

abbrev pressed : List WebEvent
pressed = start_pressed true ∷ []

abbrev answered : Hook
answered =
    step (launch_answered (rejected none none))
      (step (start_answered (resolved session)) (run pressed hook))

run_ends_example :
    (answered.running ≡ false)
    × (starts (step (start_pressed true) answered).calls ≡ suc (starts answered.calls))
run_ends_example = run_ends pressed launched_source true (resolved session) (rejected none none)

abbrev asked : Hook
asked = record hook {
  machine = record hook.machine { session = some session };
  seq = 1;
  refreshes = record { number = 1; session = session } ∷ [];
  frame = true;
}

abbrev fresh_token : WebEvent
fresh_token = flow (token_refreshed 1 "t-2")

step-IsHandedOver_example :
    (posts (step fresh_token asked).calls ≡ posts asked.calls)
    ⊎ IsHandedOver fresh_token asked (step fresh_token asked)
step-IsHandedOver_example = step-IsHandedOver fresh_token asked

run-IsPinned_example : All IsPinned (posts (run verification hook).calls)
run-IsPinned_example = run-IsPinned verification launched_source true

abbrev left_hook : Hook
left_hook = record hook { mounted = false; flight = acquiring; running = true }

abbrev late_session : List WebEvent
late_session = flow (session_acquired session) ∷ flow (event_given token_expired) ∷ []

run_silent_example : told (run late_session left_hook).calls ≡ told left_hook.calls
run_silent_example = run_silent late_session left_hook (refl, (refl, tt)) refl

abbrev told_twice : Hook
told_twice =
    run
      (flow (event_given (complete approved none))
        ∷ flow (event_given (complete approved none))
        ∷ flow cancel_pressed
        ∷ flow (timer_fired 0)
        ∷ [])
      hook

run_completes_after_cancel_example :
    (told_twice.calls ≡ on_complete (result_of approved none) ∷ on_cancel ∷ [])
    × (told_twice.machine ≡ initial_machine_state)
run_completes_after_cancel_example = run_completes_after_cancel hook none none refl

abbrev starting : Hook
starting = record hook { flight = acquiring; running = true }

abbrev cancelled_hook : Hook
cancelled_hook = run (flow cancel_pressed ∷ []) starting

abbrev resumed_hook : Hook
resumed_hook = run (flow (session_acquired session) ∷ []) cancelled_hook

abbrev reached : NetInfoState
reached = record { is_connected = some true; is_internet_reachable = none }

abbrev checking : Hook
checking = record hook { flight = checking_network; running = true }

abbrev reached_event : NativeEvent
reached_event = NativeEvent.network_fetched reached

step-IsCleared_example :
    (starts (Native.step reached_event checking).calls ≡ starts checking.calls)
    ⊎ IsCleared reached_event checking (Native.step reached_event checking)
step-IsCleared_example = step-IsCleared reached_event checking

abbrev native_token : NativeEvent
native_token = NativeEvent.flow (token_refreshed 1 "t-2")
