-- ===== src/Http/Shown.antt =====
-- packages/kyc-node/src/handlers.ts, `hostedPageHttp`, over the service: what a browser is shown.
use kyc.Common.{String, ◌≡◌, refl, subst, ◌⊎◌, inl, inr, some}
use kyc.Action.{Result, ok, err}
use kyc.Store.{SessionRecord, lookup}
use kyc.Service.{ServiceDeps, World, HostedPageDecision, hosted_page}
use kyc.Service.Shown.{IsLiveSession, hosted_page-IsLiveSession}
use kyc.Http.Endpoints.{
  HostedPageRenderer, HostedPageHttpResult, page_params, decided, hosted_page_http,
}

module _ (deps : ServiceDeps) (render_not_found_page : String → String) where
  -- The provider's page of the session under the id, which is live, or the not-found page.
  abbrev pub IsShown : HostedPageRenderer → String → String → World → HostedPageHttpResult → Type 0
  IsShown page id nonce w r =
      ((s : SessionRecord) × ((token : String) × ((lookup id w.store.sessions ≡ some s)
            × IsLiveSession deps s
            × (r.status ≡ 200)
            × (r.html ≡ page.render (page_params s token nonce)))))
      ⊎ (((r.status ≡ 404) ⊎ (r.status ≡ 502)) × (r.html ≡ render_not_found_page nonce))

  decision-IsShown :
      (page : HostedPageRenderer) (id nonce : String) (w : World) (decision : HostedPageDecision)
      → (hosted_page deps id w).0 ≡ ok decision
      → IsShown page id nonce w (decided deps render_not_found_page page nonce decision)
  decision-IsShown page id nonce w HostedPageDecision.not_found h = inr (inl refl, refl)
  decision-IsShown page id nonce w HostedPageDecision.bad_gateway h = inr (inr refl, refl)
  decision-IsShown page id nonce w (HostedPageDecision.page s token) h =
      let (there, live) = hosted_page-IsLiveSession deps id w s token h in
      inl (s, (token, (there, live, refl, refl)))

  answer-IsShown :
      (page : HostedPageRenderer) (id nonce : String) (w : World) (r : HostedPageHttpResult)
      (o : Result HostedPageDecision)
      → (hosted_page deps id w).0 ≡ o
      → (elim o as (λ x. Result HostedPageHttpResult) [
        | err e ↦ err e
        | ok decision ↦ ok (decided deps render_not_found_page page nonce decision)
      ])
        ≡ ok r
      → IsShown page id nonce w r
  answer-IsShown page id nonce w r (err e) given_decision h = absurd (cc)
  answer-IsShown page id nonce w r (ok decision) given_decision h =
      let same : decided deps render_not_found_page page nonce decision ≡ r = cc in
      subst (λ x. IsShown page id nonce w x) same
        (decision-IsShown page id nonce w decision given_decision)

  -- A request for a hosted page that is answered shows the provider's page, with status 200, only for
  -- the session that stands under the id, of this service's provider and not finished; any other
  -- answer is the not-found page, with status 404 or 502.
  pub hosted_page_http-IsShown :
      (page : HostedPageRenderer) (id nonce : String) (w : World) (r : HostedPageHttpResult)
      → (hosted_page_http deps render_not_found_page (some page) id nonce w).0 ≡ ok r
      → IsShown page id nonce w r
  unfolding hosted_page_http
  hosted_page_http-IsShown page id nonce w r h =
      answer-IsShown page id nonce w r (hosted_page deps id w).0 refl h
