-- ===== src/Hook/Tokens.antt =====
-- packages/kyc-react/src/useTokenRefresh.ts: which tokens the hook of the web hands to the page, and
-- to what origin.
use kyc.Common.{
  ◌≡◌, refl, sym, ◌∙◌, subst, ℕ, String, Bool, true, ◌&&◌, ◌⊎◌, inl, inr, Option, none, some, List,
  [], ◌∷◌, given, eqb, All, if-holds, if-holds_by, arith,
}
use kyc.Hook.State.{
  HostCall, post_token, PendingRefresh, Source, Hook, initial_hook, apply_action, find_refresh,
  without_refresh, same_identity, is_current, on_complete, on_error, on_cancel, check_permissions,
  fetch_network, source_start, on_status_change, source_launch, ask_refresh,
}
use kyc.Hook.Flow.{
  cancel_pressed, entered, left, rerendered, frame_changed, message_posted, event_given,
  session_acquired, acquisition_failed, launch_failed, launch_ended, timer_fired, refresh_rejected,
  token_refreshed, flow_step, refresh_resolved, settle_refresh,
}
use kyc.Hook.Web.{
  WebEvent, start_pressed, retry_pressed, restart_pressed, connection_lost, connection_regained,
  flow, step, run, post_pinned,
}
use kyc.Hook.Keeps.{is_plain}
use kyc.Hook.Steps.{IsStanding, step-keeps}

-- The tokens that were handed to the page, each with the origin that it was pinned to.
unfoldable pub posted : HostCall → List (String × Option String) → List (String × Option String)
posted (post_token token origin) rest = (token, origin) ∷ rest
posted _ rest = rest

unfoldable pub posts : List HostCall → List (String × Option String)
unfolding posted
posts [] = []
posts (c ∷ cs) = posted c (posts cs)

posted_plain :
    (c : HostCall) (rest : List (String × Option String)) → is_plain c ≡ true → posted c rest ≡ rest
unfolding posted
posted_plain (on_complete result) rest h = refl
posted_plain (on_error error) rest h = refl
posted_plain on_cancel rest h = refl
posted_plain check_permissions rest h = refl
posted_plain fetch_network rest h = refl
posted_plain source_start rest h = refl
posted_plain (on_status_change status) rest h = refl
posted_plain (source_launch session) rest h = refl
posted_plain (ask_refresh number session) rest h = refl
posted_plain (post_token token origin) rest h = cc

abbrev pub PostsAre : List (String × Option String) → Hook → Type 0
PostsAre ps h = posts h.calls ≡ ps

pub PostsAre-IsStanding : (ps : List (String × Option String)) → IsStanding (PostsAre ps)
unfolding apply_action posts posted
PostsAre-IsStanding ps = record {
  viewing = record {
    asking = record {
      steady = record {
        acts = λ action h p. p;
        calls = λ c h q p. posted_plain c (posts h.calls) q ∙ p;
        times = λ ts handle next h p. p;
      };
      asks = λ session h g p. p;
    };
    views = λ source online mounted frame h p. p;
    settles = λ number h p. p;
  };
  flights = λ running flight h p. p;
  starts = λ h p. p;
}

-- That an event hands a token to the page: the token of the refresh that it answers, pinned to the
-- origin of the session that this refresh was for.
pub record IsHandedOver (event : WebEvent) (h k : Hook) : Type 0 where
  pub token : String
  pub number : ℕ
  pub refresh : PendingRefresh
  pub answers : event ≡ flow (token_refreshed number token)
  pub asked : find_refresh number h.refreshes ≡ some refresh
  pub is_newest : refresh.number ≡ h.seq
  pub is_shown : h.mounted ≡ true
  pub is_of_session : same_identity h.machine.session refresh.session ≡ true
  pub is_pinned : posts k.calls ≡ (token, refresh.session.allowed_origin) ∷ posts h.calls

-- Whether a step answers a refresh with a token.
token-cases :
    (event : WebEvent)
    → ((number : ℕ) (token : String) → event ≡ flow (token_refreshed number token) → ⊥)
      ⊎ ((number : ℕ) × ((token : String) × (event ≡ flow (token_refreshed number token))))
token-cases (start_pressed connected) = inl (λ n t e. cc)
token-cases (retry_pressed connected) = inl (λ n t e. cc)
token-cases (restart_pressed connected) = inl (λ n t e. cc)
token-cases connection_lost = inl (λ n t e. cc)
token-cases connection_regained = inl (λ n t e. cc)
token-cases (flow cancel_pressed) = inl (λ n t e. cc)
token-cases (flow entered) = inl (λ n t e. cc)
token-cases (flow left) = inl (λ n t e. cc)
token-cases (flow (rerendered source)) = inl (λ n t e. cc)
token-cases (flow (frame_changed attached)) = inl (λ n t e. cc)
token-cases (flow (message_posted raw)) = inl (λ n t e. cc)
token-cases (flow (event_given given_event)) = inl (λ n t e. cc)
token-cases (flow (session_acquired session)) = inl (λ n t e. cc)
token-cases (flow (acquisition_failed code message)) = inl (λ n t e. cc)
token-cases (flow (launch_ended result)) = inl (λ n t e. cc)
token-cases (flow (launch_failed code message)) = inl (λ n t e. cc)
token-cases (flow (timer_fired id)) = inl (λ n t e. cc)
token-cases (flow (refresh_rejected number message)) = inl (λ n t e. cc)
token-cases (flow (token_refreshed number token)) = inr (number, (token, refl))

pub eqb-eq : (a b : ℕ) → eqb a b ≡ true → a ≡ b
eqb-eq a b h = ground arith

abbrev Delivers : WebEvent → Hook → Hook → Type 0
Delivers event h k = (posts k.calls ≡ posts h.calls) ⊎ IsHandedOver event h k

settle_refresh-Delivers :
    (number : ℕ) (token : String) (h : Hook) (found : Option PendingRefresh)
    → find_refresh number h.refreshes ≡ found
    → Delivers
        (flow (token_refreshed number token))
        h
        (settle_refresh (refresh_resolved post_pinned token) found h)
unfolding refresh_resolved posts posted
settle_refresh-Delivers number token h none asked = inl refl
settle_refresh-Delivers number token h (some r) asked =
    if-holds_by (Delivers (flow (token_refreshed number token)) h)
      (is_current r h && same_identity h.machine.session r.session && h.frame)
      (λ e. inr (record {
        token = token;
        number = number;
        refresh = r;
        answers = refl;
        asked = asked;
        is_newest = eqb-eq r.number h.seq (ground arith);
        is_shown = ground arith;
        is_of_session = ground arith;
        is_pinned = refl;
      }))
      (λ e. inl refl)

-- At any step of the hook of the web, either no token is handed to the page, or one: that of the
-- newest refresh, which the step answers, while the hook is mounted and its session is the one that
-- the refresh was asked for, by its id or else its URL; and it is pinned to that session's origin.
pub step-IsHandedOver :
    (event : WebEvent) (h : Hook)
    → (posts (step event h).calls ≡ posts h.calls) ⊎ IsHandedOver event h (step event h)
unfolding step flow_step
step-IsHandedOver event h = elim (token-cases event) [
  | inl other ↦ inl (
      step-keeps (PostsAre (posts h.calls)) (PostsAre-IsStanding (posts h.calls)) event h
        (λ number token e. absurd (other number token e)) refl)
  | inr (number, (token, e)) ↦
      subst (λ x. Delivers x h (step x h)) (sym e)
        (settle_refresh-Delivers number token h (find_refresh number h.refreshes) refl)
]

-- A token that was handed over is pinned to an origin, and so is each that is awaited.
abbrev pub IsPinned : (String × Option String) → Type 0
IsPinned (token, origin) = given origin ≡ true

abbrev IsPinnable : PendingRefresh → Type 0
IsPinnable r = given r.session.allowed_origin ≡ true

abbrev ArePinned : Hook → Type 0
ArePinned h = All IsPinned (posts h.calls) × All IsPinnable h.refreshes

without_refresh-All :
    (P : PendingRefresh → Type 0) (number : ℕ) (rs : List PendingRefresh)
    → All P rs
    → All P (without_refresh number rs)
without_refresh-All P number [] all = all
without_refresh-All P number (r ∷ rs) (p, ps) =
    let rest = without_refresh-All P number rs ps in
    if-holds (All P) (eqb r.number number) rest (p, rest)

abbrev Found : (PendingRefresh → Type 0) → Option PendingRefresh → Type 0
Found P none = Unit
Found P (some r) = P r

find_refresh-Found :
    (P : PendingRefresh → Type 0) (number : ℕ) (rs : List PendingRefresh)
    → All P rs
    → Found P (find_refresh number rs)
find_refresh-Found P number [] all = tt
find_refresh-Found P number (r ∷ rs) (p, ps) =
    if-holds (Found P) (eqb r.number number) p (find_refresh-Found P number rs ps)

ArePinned-IsStanding : IsStanding ArePinned
unfolding apply_action posts posted
ArePinned-IsStanding = record {
  viewing = record {
    asking = record {
      steady = record {
        acts = λ action h p. p;
        calls = λ c h q p. (subst (All IsPinned) (sym (posted_plain c (posts h.calls) q)) p.0, p.1);
        times = λ ts handle next h p. p;
      };
      asks = λ session h g p. (p.0, (g, p.1));
    };
    views = λ source online mounted frame h p. p;
    settles = λ number h p. (p.0, without_refresh-All IsPinnable number h.refreshes p.1);
  };
  flights = λ running flight h p. p;
  starts = λ h p. p;
}

step-ArePinned : (event : WebEvent) (h : Hook) → ArePinned h → ArePinned (step event h)
unfolding step flow_step posts posted refresh_resolved
step-ArePinned event h p =
    step-keeps ArePinned ArePinned-IsStanding event h
      (λ number token e.
        subst (λ x. ArePinned (step x h)) (sym e)
          (settles number token (find_refresh number h.refreshes)
            (find_refresh-Found IsPinnable number h.refreshes p.1)))
      p
  where
    settles :
        (number : ℕ) (token : String) (found : Option PendingRefresh)
        → Found IsPinnable found
        → ArePinned (settle_refresh (refresh_resolved post_pinned token) found h)
    settles number token none fits = p
    settles number token (some r) fits =
        let rest = without_refresh-All IsPinnable r.number h.refreshes p.1 in
        if-holds ArePinned (is_current r h && same_identity h.machine.session r.session && h.frame)
          ((fits, p.0), rest) (p.0, rest)

run-ArePinned : (events : List WebEvent) (h : Hook) → ArePinned h → ArePinned (run events h)
unfolding run
run-ArePinned [] h p = p
run-ArePinned (event ∷ events) h p = run-ArePinned events (step event h) (step-ArePinned event h p)

-- Whatever reaches the hook of the web: no token is handed to a page without an origin to pin it to,
-- none and an empty one counting as no origin.
pub run-IsPinned :
    (events : List WebEvent) (source : Source) (online : Bool)
    → All IsPinned (posts (run events (initial_hook source online)).calls)
unfolding posts
run-IsPinned events source online = (run-ArePinned events (initial_hook source online) (tt, tt)).0
