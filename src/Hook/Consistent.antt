-- ===== src/Hook/Consistent.antt =====
-- packages/kyc-react/src/useIdentityVerification.ts: the screens that the hook of the web comes to.
use kyc.Common.{sym, subst, String, Bool, List, [], ◌∷◌, if-holds, Option, some, none}
use kyc.Client.Reachable.{IsConsistent, machine_reducer-IsConsistent}
use kyc.Hook.State.{Source, Hook, initial_hook, apply_action, find_refresh, PendingRefresh}
use kyc.Hook.Flow.{refresh_resolved, settle_refresh}
use kyc.Hook.Web.{WebEvent, step, run, post_pinned}
use kyc.Hook.Steps.{IsStanding, step-keeps}

abbrev ShowsConsistent : Hook → Type 0
ShowsConsistent h = IsConsistent h.machine

ShowsConsistent-IsStanding : IsStanding ShowsConsistent
unfolding apply_action
ShowsConsistent-IsStanding = record {
  viewing = record {
    asking = record {
      steady = record {
        acts = λ action h p. machine_reducer-IsConsistent h.machine action p;
        calls = λ c h q p. p;
        times = λ ts handle next h p. p;
      };
      asks = λ session h g p. p;
    };
    views = λ source online mounted frame h p. p;
    settles = λ number h p. p;
  };
  flights = λ running flight h p. p;
  starts = λ h p. p;
}

step-ShowsConsistent :
    (event : WebEvent) (h : Hook) → ShowsConsistent h → ShowsConsistent (step event h)
unfolding step refresh_resolved
step-ShowsConsistent event h p =
    step-keeps ShowsConsistent ShowsConsistent-IsStanding event h
      (λ number token e.
        subst (λ x. ShowsConsistent (step x h)) (sym e)
          (settles (find_refresh number h.refreshes) token))
      p
  where
    settles :
        (found : Option PendingRefresh) (token : String)
        → ShowsConsistent (settle_refresh (refresh_resolved post_pinned token) found h)
    settles none token = p
    settles (some r) token = if-holds ShowsConsistent _ p p

run-ShowsConsistent :
    (events : List WebEvent) (h : Hook) → ShowsConsistent h → ShowsConsistent (run events h)
unfolding run
run-ShowsConsistent [] h p = p
run-ShowsConsistent (event ∷ events) h p =
    run-ShowsConsistent events (step event h) (step-ShowsConsistent event h p)

-- Whatever reaches the hook of the web, in whatever order: an error screen has its error, a
-- permission screen its reason, and a success screen an approved result and no error.
run-IsConsistent :
    (events : List WebEvent) (source : Source) (online : Bool)
    → IsConsistent (run events (initial_hook source online)).machine
run-IsConsistent events source online =
    run-ShowsConsistent events (initial_hook source online)
      (record { failure = λ h. cc; refusal = λ h. cc; approval = λ h. cc })
