-- ===== src/Hook/Preflight.antt =====
-- packages/kyc-react-native/src/useIdentityVerification.ts and useTokenRefresh.ts: what comes before
-- the hook of React Native asks for a session, and which tokens it hands to the page.
use kyc.Common.{
  ◌≡◌, refl, sym, ◌∙◌, subst, ℕ, suc, String, true, not, ◌&&◌, ◌⊎◌, inl, inr, Option, none, some,
  List, ◌∷◌, if-holds, if-holds_by, arith,
}
use kyc.Client.{go_offline}
use kyc.Hook.State.{
  Flight, landed, checking_permissions, checking_network, acquiring, launching, PendingRefresh,
  Hook, call, apply_action, source_start, find_refresh, same_identity, is_current, land,
}
use kyc.Hook.Flow.{
  cancel_pressed, entered, left, rerendered, frame_changed, message_posted, event_given,
  session_acquired, acquisition_failed, launch_failed, launch_ended, timer_fired, refresh_rejected,
  token_refreshed, flow_step, refresh_resolved, settle_refresh,
}
use kyc.Hook.Counted.{is_start, starts, starts_plain}
use kyc.Hook.Tokens.{posted, posts, PostsAre, PostsAre-IsStanding, eqb-eq}
use kyc.Hook.NativeSteps.{IsRoaming, step-keeps}
use kyc.Hook.Native.{
  NetInfoState, NativeEvent, start_pressed, retry_pressed, restart_pressed, permissions_checked,
  permissions_check_threw, network_fetched, network_fetch_threw, flow, is_online, inject,
  network_answered, is_checking_network, step,
}

-- Whether a step answers the network's question, or a refresh with a token.
data Kind (event : NativeEvent) : Type 0 where
  networked : (state : NetInfoState) → event ≡ network_fetched state → Kind event
  tokened : (number : ℕ) (token : String) → event ≡ flow (token_refreshed number token) → Kind event
  plain :
      ((number : ℕ) (token : String) → event ≡ flow (token_refreshed number token) → ⊥)
      → ((state : NetInfoState) → event ≡ network_fetched state → ⊥)
      → Kind event

event-Kind : (event : NativeEvent) → Kind event
event-Kind (network_fetched state) = networked state refl
event-Kind (flow (token_refreshed number token)) = tokened number token refl
event-Kind (start_pressed checks) = plain (λ n t e. cc) (λ s e. cc)
event-Kind (retry_pressed checks) = plain (λ n t e. cc) (λ s e. cc)
event-Kind (restart_pressed checks) = plain (λ n t e. cc) (λ s e. cc)
event-Kind (permissions_checked answer) = plain (λ n t e. cc) (λ s e. cc)
event-Kind (permissions_check_threw message) = plain (λ n t e. cc) (λ s e. cc)
event-Kind (network_fetch_threw message) = plain (λ n t e. cc) (λ s e. cc)
event-Kind (flow cancel_pressed) = plain (λ n t e. cc) (λ s e. cc)
event-Kind (flow entered) = plain (λ n t e. cc) (λ s e. cc)
event-Kind (flow left) = plain (λ n t e. cc) (λ s e. cc)
event-Kind (flow (rerendered source)) = plain (λ n t e. cc) (λ s e. cc)
event-Kind (flow (frame_changed attached)) = plain (λ n t e. cc) (λ s e. cc)
event-Kind (flow (message_posted raw)) = plain (λ n t e. cc) (λ s e. cc)
event-Kind (flow (event_given event)) = plain (λ n t e. cc) (λ s e. cc)
event-Kind (flow (session_acquired session)) = plain (λ n t e. cc) (λ s e. cc)
event-Kind (flow (acquisition_failed code message)) = plain (λ n t e. cc) (λ s e. cc)
event-Kind (flow (launch_ended result)) = plain (λ n t e. cc) (λ s e. cc)
event-Kind (flow (launch_failed code message)) = plain (λ n t e. cc) (λ s e. cc)
event-Kind (flow (timer_fired id)) = plain (λ n t e. cc) (λ s e. cc)
event-Kind (flow (refresh_rejected number message)) = plain (λ n t e. cc) (λ s e. cc)

abbrev StartsAre : ℕ → Hook → Type 0
StartsAre n h = starts h.calls ≡ n

StartsAre-IsRoaming : (n : ℕ) → IsRoaming (StartsAre n)
unfolding apply_action starts is_start
StartsAre-IsRoaming n = record {
  viewing = record {
    asking = record {
      steady = record {
        acts = λ action h p. p;
        calls = λ c h q p. starts_plain c h.calls q ∙ p;
        times = λ ts handle next h p. p;
      };
      asks = λ session h g p. p;
    };
    views = λ source online mounted frame h p. p;
    settles = λ number h p. p;
  };
  asks = λ session h p. p;
  flights = λ running flight h p. p;
}

PostsAre-IsRoaming : (ps : List (String × Option String)) → IsRoaming (PostsAre ps)
unfolding apply_action posts posted
PostsAre-IsRoaming ps = record {
  viewing = (PostsAre-IsStanding ps).viewing;
  asks = λ session h p. p;
  flights = λ running flight h p. p;
}

-- That an event makes the hook ask its source for a session: a network that is reached, which the run
-- of the mounted hook had asked about.
pub record IsCleared (event : NativeEvent) (h k : Hook) : Type 0 where
  pub state : NetInfoState
  pub answers : event ≡ network_fetched state
  pub reached : is_online state ≡ true
  pub asked : h.flight ≡ checking_network
  pub is_shown : h.mounted ≡ true
  pub once : starts k.calls ≡ suc (starts h.calls)
  pub place : k.flight ≡ acquiring

abbrev Starts : NativeEvent → Hook → Hook → Type 0
Starts event h k = (starts k.calls ≡ starts h.calls) ⊎ IsCleared event h k

checking_network-at :
    (flight : Flight) → is_checking_network flight ≡ true → flight ≡ checking_network
checking_network-at checking_network e = refl
checking_network-at landed e = cc
checking_network-at checking_permissions e = cc
checking_network-at acquiring e = cc
checking_network-at launching e = cc

network_fetched-Starts :
    (state : NetInfoState) (h : Hook)
    → Starts (network_fetched state) h (step (network_fetched state) h)
unfolding step network_answered starts is_start apply_action
network_fetched-Starts state h =
    if-holds_by (Starts (network_fetched state) h) (is_checking_network h.flight)
      (λ asked.
        if-holds_by (Starts (network_fetched state) h) (not h.mounted) (λ e. inl refl)
          (λ shown.
            if-holds_by (Starts (network_fetched state) h) (is_online state)
              {x = call source_start (record h { flight = acquiring })}
              {y = land (apply_action go_offline h)}
              (λ reached. inr (record {
                state = state;
                answers = refl;
                reached = reached;
                asked = checking_network-at h.flight asked;
                is_shown = ground arith;
                once = refl;
                place = refl;
              }))
              (λ e. inl refl)))
      (λ e. inl refl)

settle_refresh-starts :
    (token : String) (h : Hook) (found : Option PendingRefresh)
    → starts (settle_refresh (refresh_resolved inject token) found h).calls ≡ starts h.calls
unfolding refresh_resolved starts is_start
settle_refresh-starts token h none = refl
settle_refresh-starts token h (some r) =
    if-holds (StartsAre (starts h.calls))
      (is_current r h && same_identity h.machine.session r.session && h.frame) refl refl

-- At any step of the hook of React Native, either its source is not asked for a session, or it is
-- asked once, because the step says that the network is reached, which the run under way had asked
-- about, while the hook is mounted.
pub step-IsCleared :
    (event : NativeEvent) (h : Hook)
    → (starts (step event h).calls ≡ starts h.calls) ⊎ IsCleared event h (step event h)
unfolding step flow_step
step-IsCleared event h = elim (event-Kind event) [
  | networked state e ↦ subst (λ x. Starts x h (step x h)) (sym e) (network_fetched-Starts state h)
  | tokened number token e ↦
      subst (λ x. Starts x h (step x h)) (sym e)
        (inl (settle_refresh-starts token h (find_refresh number h.refreshes)))
  | plain not_token not_network ↦ inl (
      step-keeps (StartsAre (starts h.calls)) (StartsAre-IsRoaming (starts h.calls)) event h
        (λ number token e. absurd (not_token number token e))
        (λ state e. absurd (not_network state e)) refl)
]

-- That an event hands a token to the page: the token of the newest refresh, which it answers, while
-- the hook is mounted and its session is the one that the refresh was for.
pub record IsInjected (event : NativeEvent) (h k : Hook) : Type 0 where
  pub token : String
  pub number : ℕ
  pub refresh : PendingRefresh
  pub answers : event ≡ flow (token_refreshed number token)
  pub asked : find_refresh number h.refreshes ≡ some refresh
  pub is_newest : refresh.number ≡ h.seq
  pub is_shown : h.mounted ≡ true
  pub is_of_session : same_identity h.machine.session refresh.session ≡ true
  pub is_handed : posts k.calls ≡ (token, none) ∷ posts h.calls

abbrev Injects : NativeEvent → Hook → Hook → Type 0
Injects event h k = (posts k.calls ≡ posts h.calls) ⊎ IsInjected event h k

settle_refresh-Injects :
    (number : ℕ) (token : String) (h : Hook) (found : Option PendingRefresh)
    → find_refresh number h.refreshes ≡ found
    → Injects
        (flow (token_refreshed number token))
        h
        (settle_refresh (refresh_resolved inject token) found h)
unfolding refresh_resolved posts posted
settle_refresh-Injects number token h none asked = inl refl
settle_refresh-Injects number token h (some r) asked =
    if-holds_by (Injects (flow (token_refreshed number token)) h)
      (is_current r h && same_identity h.machine.session r.session && h.frame)
      (λ e. inr (record {
        token = token;
        number = number;
        refresh = r;
        answers = refl;
        asked = asked;
        is_newest = eqb-eq r.number h.seq (ground arith);
        is_shown = ground arith;
        is_of_session = ground arith;
        is_handed = refl;
      }))
      (λ e. inl refl)

network_fetched-posts :
    (state : NetInfoState) (h : Hook) → posts (step (network_fetched state) h).calls ≡ posts h.calls
unfolding step network_answered posts posted apply_action
network_fetched-posts state h =
    let same = PostsAre (posts h.calls) in
    if-holds same (is_checking_network h.flight)
      (if-holds same (not h.mounted) refl (
        if-holds same (is_online state) {x = call source_start (record h { flight = acquiring })}
          {y = land (apply_action go_offline h)} refl refl))
      refl

-- At any step of the hook of React Native, either no token is handed to the page, or one: that of the
-- newest refresh, which the step answers, while the hook is mounted and its session is the one that
-- the refresh was asked for, by its id or else its URL.
step-IsInjected :
    (event : NativeEvent) (h : Hook)
    → (posts (step event h).calls ≡ posts h.calls) ⊎ IsInjected event h (step event h)
unfolding step flow_step
step-IsInjected event h = elim (event-Kind event) [
  | networked state e ↦
      subst (λ x. Injects x h (step x h)) (sym e) (inl (network_fetched-posts state h))
  | tokened number token e ↦
      subst (λ x. Injects x h (step x h)) (sym e)
        (settle_refresh-Injects number token h (find_refresh number h.refreshes) refl)
  | plain not_token not_network ↦ inl (
      step-keeps (PostsAre (posts h.calls)) (PostsAre-IsRoaming (posts h.calls)) event h
        (λ number token e. absurd (not_token number token e))
        (λ state e. absurd (not_network state e)) refl)
]
