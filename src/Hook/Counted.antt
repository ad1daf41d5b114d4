-- ===== src/Hook/Counted.antt =====
-- packages/kyc-react/src/useIdentityVerification.ts: how often the hook of the web asked its source
-- for a session, where its run is, and what a start and an end of a run do to that.
use kyc.Common.{
  ◌≡◌, refl, sym, ◌∙◌, ap, subst, ℕ, suc, ◌+◌, ◌≤◌, Bool, true, false, not, List, [], ◌∷◌,
  if◌then◌else◌, arith,
}
use kyc.Hook.State.{
  HostCall, post_token, Flight, landed, checking_permissions, checking_network, acquiring, Hook,
  call, apply_action, on_complete, on_error, on_cancel, check_permissions, fetch_network,
  source_start, on_status_change, source_launch, ask_refresh, land,
}
use kyc.Hook.Flow.{session_acquired, acquisition_failed}
use kyc.Hook.Web.{WebEvent, flow}
use kyc.Hook.Keeps.{is_plain}
use kyc.Hook.Steps.{IsViewing}

unfoldable pub is_start : HostCall → Bool
is_start source_start = true
is_start _ = false

-- How often the source was asked for a session.
unfoldable pub starts : List HostCall → ℕ
starts [] = 0
starts (c ∷ cs) = let rest = starts cs in if is_start c then suc rest else rest

is_start_plain : (c : HostCall) → is_plain c ≡ true → is_start c ≡ false
unfolding is_start
is_start_plain (on_complete result) h = refl
is_start_plain (on_error error) h = refl
is_start_plain on_cancel h = refl
is_start_plain check_permissions h = refl
is_start_plain fetch_network h = refl
is_start_plain (on_status_change status) h = refl
is_start_plain (source_launch session) h = refl
is_start_plain (ask_refresh number session) h = refl
is_start_plain (post_token token origin) h = refl
is_start_plain source_start h = cc

pub starts_plain :
    (c : HostCall) (cs : List HostCall) → is_plain c ≡ true → starts (c ∷ cs) ≡ starts cs
unfolding starts
starts_plain c cs q = rw (is_start_plain c q) refl

abbrev pub is_landed : Flight → Bool
is_landed landed = true
is_landed _ = false

-- How often the source answered, once an event has come.
unfoldable pub credit : WebEvent → ℕ → ℕ
credit (flow (session_acquired session)) answered = suc answered
credit (flow (acquisition_failed code message)) answered = suc answered
credit _ answered = answered

unfoldable pub credits : List WebEvent → ℕ → ℕ
credits [] answered = answered
credits (event ∷ events) answered = credits events (credit event answered)

abbrev pub answers : List WebEvent → ℕ
answers events = credits events 0

-- Where a run is, and how many starts there were.
pub record IsAt (n : ℕ) (flight : Flight) (running : Bool) (h : Hook) : Type 0 where
  pub count : starts h.calls ≡ n
  pub place : h.flight ≡ flight
  pub flag : h.running ≡ running

pub IsAt-IsViewing : (n : ℕ) (flight : Flight) (running : Bool) → IsViewing (IsAt n flight running)
unfolding apply_action starts is_start
IsAt-IsViewing n flight running = record {
  asking = record {
    steady = record {
      acts = λ action h p. record { count = p.count; place = p.place; flag = p.flag };
      calls = λ c h q p. record {
        count = starts_plain c h.calls q ∙ p.count;
        place = p.place;
        flag = p.flag;
      };
      times = λ ts handle next h p. record { count = p.count; place = p.place; flag = p.flag };
    };
    asks = λ session h g p. record { count = p.count; place = p.place; flag = p.flag };
  };
  views =
      λ source online mounted frame h p. record { count = p.count; place = p.place; flag = p.flag };
  settles = λ number h p. record { count = p.count; place = p.place; flag = p.flag };
}

pub itself-IsAt : (h : Hook) → IsAt (starts h.calls) h.flight h.running h
itself-IsAt h = record { count = refl; place = refl; flag = refl }

-- How many starts the source has not answered.
abbrev pub waiting : Flight → ℕ
waiting acquiring = 1
waiting _ = 0

-- A place where the web's hook may be.
abbrev pub is_checking : Flight → Bool
is_checking checking_permissions = true
is_checking checking_network = true
is_checking _ = false

-- A run is marked while it waits for a call, and no start is made before the last one was answered.
pub record IsInOrder (answered : ℕ) (h : Hook) : Type 0 where
  pub flag : h.running ≡ not (is_landed h.flight)
  pub place : is_checking h.flight ≡ false
  pub count : starts h.calls ≤ answered + waiting h.flight

pub stays :
    (answered : ℕ) (h k : Hook)
    → IsInOrder answered h
    → IsAt (starts h.calls) h.flight h.running k
    → IsInOrder answered k
stays answered h k o a = record {
  flag = a.flag ∙ o.flag ∙ ap (λ f. not (is_landed f)) (sym a.place);
  place = ap is_checking a.place ∙ o.place;
  count =
      subst (λ f. starts k.calls ≤ answered + waiting f) (sym a.place)
        (subst (λ n. n ≤ answered + waiting h.flight) (sym a.count) o.count);
}

-- A run that ends, and one that asks for a session.
pub ends : (answered : ℕ) (k : Hook) → starts k.calls ≤ answered → IsInOrder answered (land k)
ends answered k spent = record { flag = refl; place = refl; count = omega arith }

pub asks :
    (answered : ℕ) (k : Hook)
    → starts k.calls ≤ answered
    → k.running ≡ true
    → IsInOrder answered (call source_start (record k { flight = acquiring }))
unfolding starts is_start
asks answered k spent flag = record { flag = flag; place = refl; count = omega arith }

pub lands :
    (answered : ℕ) (h k : Hook)
    → IsInOrder answered h
    → waiting h.flight ≡ 0
    → IsAt (starts h.calls) h.flight h.running k
    → IsInOrder answered (land k)
lands answered h k o w a =
    let count = o.count in let same = a.count in ends answered k (omega arith)
