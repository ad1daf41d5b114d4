-- ===== src/Service/Shown.antt =====
-- packages/kyc-node/src/sessions.ts, `hostedPage`: which session's page is rendered.
use kyc.Common.{
  String, ◌≡◌, subst, ◌∙◌, ap, ◌⊎◌, inl, inr, Bool-cases, true, false, Option, none, some, eq_iff,
  arith,
}
use kyc.Types.{is_terminal}
use kyc.Errors.{Thrown}
use kyc.Action.{Result, ok, err, Action, gets, pure, try_catch, ◌>>=◌}
use kyc.Store.{SessionRecord, lookup, get_session_by_id}
use kyc.Service.State.{ServiceDeps, World, on_store}
use kyc.Service.Requests.{
  HostedPageDecision, page, not_found, bad_gateway, mint_token, is_shown, render, render_found,
  hosted_page,
}
use kyc.Service.Rules.{>>=-ok}
use kyc.Service.Sound.{on_store-ok}

caught :
    {S A : Type 0} (x : Result A × S) (handle : Thrown → Action S A) (a : A)
    → (elim x.0 as (λ r. Result A × S) [ ok b ↦ (ok b, x.1) | err e ↦ handle e x.1 ]).0 ≡ ok a
    → (x.0 ≡ ok a) ⊎ ((e : Thrown) × ((handle e x.1).0 ≡ ok a))
caught (ok b, s) handle a h = inl h
caught (err e, s) handle a h = inr (e, h)

module _ (deps : ServiceDeps) where
  -- A session of this service's provider that is not finished.
  abbrev pub IsLiveSession : SessionRecord → Type 0
  IsLiveSession s = (s.provider ≡ deps.provider_name) × (is_terminal s.status ≡ false)

  shown-IsLiveSession : (s : SessionRecord) → is_shown deps s ≡ true → IsLiveSession s
  shown-IsLiveSession s h = ((eq_iff s.provider deps.provider_name).0 (ground arith), ground arith)

  abbrev rendered : SessionRecord → Action World HostedPageDecision
  rendered s =
      try_catch (do token ← mint_token deps s.user_id s; pure (page s token.access_token))
        (λ _. pure bad_gateway)

  same_page : (s r : SessionRecord) (t token : String) → ok (page s t) ≡ ok (page r token) → s ≡ r
  same_page s r t token h = cc

  rendered-page :
      (s r : SessionRecord) (token : String) (w : World)
      → (rendered s w).0 ≡ ok (page r token)
      → s ≡ r
  rendered-page s r token w h =
      let minted : Action World HostedPageDecision =
        mint_token deps s.user_id s >>= λ t. pure (page s t.access_token) in
      elim (caught (minted w) (λ _. pure bad_gateway) (page r token) h) [
        | inl there ↦
            let (t, got, rest, _) =
              >>=-ok (mint_token deps s.user_id s) (λ t. pure (page s t.access_token)) w
                (page r token) there in
            same_page s r t.access_token token rest
        | inr (e, failure) ↦ absurd (cc)
      ]

  render-page :
      (s r : SessionRecord) (token : String) (w : World)
      → (render deps s w).0 ≡ ok (page r token)
      → (s ≡ r) × IsLiveSession s
  render-page s r token w h = elim (Bool-cases (is_shown deps s)) [
    | inl shown ↦ (rendered-page s r token w (rw shown at h), shown-IsLiveSession s shown)
    | inr hidden ↦
        let gone : (pure not_found w).0 ≡ ok (page r token) = rw hidden at h in absurd (cc)
  ]

  render_found-page :
      (o : Option SessionRecord) (r : SessionRecord) (token : String) (w : World)
      → (render_found deps o w).0 ≡ ok (page r token)
      → (o ≡ some r) × IsLiveSession r
  render_found-page none r token w h = absurd (cc)
  render_found-page (some s) r token w h =
      let (same, live) = render-page s r token w h in (ap some same, subst IsLiveSession same live)

  -- A page is rendered only for the session that stands under the id, when that session is of this
  -- service's provider and is not finished.
  pub hosted_page-IsLiveSession :
      (id : String) (w : World) (r : SessionRecord) (token : String)
      → (hosted_page deps id w).0 ≡ ok (page r token)
      → (lookup id w.store.sessions ≡ some r) × IsLiveSession r
  unfolding hosted_page get_session_by_id
  hosted_page-IsLiveSession id w r token h =
      let (found, got, rest, _) =
        >>=-ok (on_store deps (gets (get_session_by_id id))) (render_found deps) w (page r token)
          h in
      let (read, _) = on_store-ok deps (gets (get_session_by_id id)) w found got in
      let (there, live) = render_found-page found r token _ rest in
      let kept : lookup id w.store.sessions ≡ found = cc in (kept ∙ there, live)
