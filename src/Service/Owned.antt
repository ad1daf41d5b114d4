-- ===== src/Service/Owned.antt =====
-- packages/kyc-node/src/sessions.ts: whose session a call is about, and which sessions still get a
-- token of the provider.
use kyc.Common.{
  String, ◌≡◌, refl, ap, sym, ◌∙◌, Bool, Bool-cases, inl, inr, true, false, Option, none, some,
  ◌==◌, eq_iff, arith, if◌then◌else◌, [], ◌∷◌, str,
}
use kyc.Types.{is_terminal}
use kyc.Errors.{Thrown}
use kyc.Action.{ok, err, Action, gets, from_result, try_catch, throw, pure, ◌>>=◌, ◌>>◌}
use kyc.Validation.{require_id}
use kyc.Store.{SessionRecord, lookup, keep_if, get_session_by_id_for_user}
use kyc.Service.State.{ServiceDeps, World, on_store, require_user, coded_or_unavailable}
use kyc.Service.Transition.{audit}
use kyc.Audit.{token_refreshed}
use kyc.Service.Requests.{
  SessionView, view, reconcile, require_owned, found_or_throw, mint_token, issue_token, refresh,
  status,
}
use kyc.Service.Rules.{>>=-ok}
use kyc.Service.Sound.{on_store-ok}

-- The session that stands under an id, of a user.
unfoldable pub IsOwned : Option String → String → World → SessionRecord → Type 0
IsOwned user id w r = (user ≡ some r.user_id) × (lookup id w.store.sessions ≡ some r)

same_user : (s r : SessionRecord) → s ≡ r → s.user_id ≡ r.user_id
same_user s r h = ap (λ x. x.user_id) h

keep_if_own :
    (user : String) (o : Option SessionRecord) (r : SessionRecord)
    → keep_if (λ s. s.user_id == user) o ≡ some r
    → (o ≡ some r) × (user ≡ r.user_id)
keep_if_own user none r h = absurd (cc)
keep_if_own user (some s) r h = elim (Bool-cases (s.user_id == user)) [
  | inl e ↦
      let kept : some s ≡ some r = rw e at h in
      let same : s ≡ r = cc in (kept, sym ((eq_iff s.user_id user).0 e) ∙ same_user s r same)
  | inr e ↦ absurd (ground arith)
]

require_user_ok :
    (user : Option String) (w : World) (owner : String)
    → (require_user user w).0 ≡ ok owner
    → (user ≡ some owner) × ((require_user user w).1 ≡ w)
require_user_ok none w owner h = absurd (cc)
require_user_ok (some u) w owner h = (ground arith, refl)

require_id_ok : (value name id : String) → require_id value name ≡ ok id → value ≡ id
unfolding require_id
require_id_ok value name id h = ground arith

moved :
    (id checked : String) (w w' : World) (r : SessionRecord)
    → id ≡ checked
    → w' ≡ w
    → lookup checked w'.store.sessions ≡ some r
    → lookup id w.store.sessions ≡ some r
moved id checked w w' r key same h = rw (key, ← same) h

abbrev guarded : Bool → Thrown → Action World (Unit {0})
guarded b e w = (if b then err e else ok tt, w)

not_refused :
    {A : Type 0} (b : Bool) (e : Thrown) (k : Action World A) (w : World) (a : A)
    → ((guarded b e >>= λ _. k) w).0 ≡ ok a
    → b ≡ false
not_refused true e k w a h = absurd (cc)
not_refused false e k w a h = refl

module _ (deps : ServiceDeps) where
  found_or_throw_ok :
      (o : Option SessionRecord) (w : World) (r : SessionRecord)
      → (found_or_throw deps o w).0 ≡ ok r
      → o ≡ some r
  found_or_throw_ok none w r h = absurd (cc)
  found_or_throw_ok (some s) w r h = cc

  require_owned_ok :
      (id user : String) (w : World) (r : SessionRecord)
      → (require_owned deps id user w).0 ≡ ok r
      → (lookup id w.store.sessions ≡ some r) × (user ≡ r.user_id)
  unfolding require_owned get_session_by_id_for_user
  require_owned_ok id user w r h =
      let (found, got, rest, _) =
        >>=-ok (on_store deps (gets (get_session_by_id_for_user id user))) (found_or_throw deps) w r
          h in
      let (read, _) = on_store-ok deps (gets (get_session_by_id_for_user id user)) w found got in
      let is_there = found_or_throw_ok found _ r rest in
      let kept : keep_if (λ s. s.user_id == user) (lookup id w.store.sessions) ≡ some r = cc in
      keep_if_own user (lookup id w.store.sessions) r kept

  abbrev after_id :
      {A : Type 0} → (String → SessionRecord → Action World A) → String → String → Action World A
  after_id rest owner checked = require_owned deps checked owner >>= rest owner

  abbrev after_user :
      {A : Type 0}
      → String
      → String
      → (String → SessionRecord → Action World A)
      → String
      → Action World A
  after_user id name rest owner = from_result (require_id id name) >>= after_id rest owner

  -- The first steps of `refresh` and of `status`: the session is the caller's, and the state that the
  -- rest starts from.
  steps-IsOwned :
      {A : Type 0} (user : Option String) (id name : String)
      (rest : String → SessionRecord → Action World A) (w : World) (a : A)
      → ((require_user user >>= after_user id name rest) w).0 ≡ ok a
      → (r : SessionRecord) × IsOwned user id w r
        × ((owner : String) × (w' : World) × ((rest owner r w').0 ≡ ok a))
  unfolding IsOwned
  steps-IsOwned user id name rest w a h =
      let (owner, got, rest₁, _) = >>=-ok (require_user user) (after_user id name rest) w a h in
      let (named, same) = require_user_ok user w owner got in
      let w₁ : World = (require_user user w).1 in
      let (checked, passed, rest₂, _) =
        >>=-ok (from_result (require_id id name)) (after_id rest owner) w₁ a rest₁ in
      let (r, found, rest₃, _) =
        >>=-ok (require_owned deps checked owner) (rest owner) w₁ a rest₂ in
      let (there, mine) = require_owned_ok checked owner w₁ r found in
      let key = require_id_ok id name checked passed in
      (r, (named ∙ ap some mine, moved id checked w w₁ r key same there), (owner, _, rest₃))

  -- What `refresh` does for a session that is not finished.
  abbrev audited_token : String → SessionRecord → Action World String
  audited_token owner session = do
    token ← try_catch (mint_token deps owner session) (λ e. throw (coded_or_unavailable e))
    audit deps session.id token_refreshed (("userId", str owner) ∷ ("source", str "api") ∷ [])
    pure token.access_token

  issue_token_ok :
      (owner : String) (r : SessionRecord) (w : World) (token : String)
      → (issue_token deps owner r w).0 ≡ ok token
      → is_terminal r.status ≡ false
  unfolding issue_token
  issue_token_ok owner r w token h =
      not_refused (is_terminal r.status) _ (audited_token owner r) w token h

  -- A refresh that returns a token was asked for by the owner of the session under the id, and the
  -- session was not finished.
  pub refresh-IsOwned :
      (user : Option String) (session : String) (w : World) (token : String)
      → (refresh deps user session w).0 ≡ ok token
      → (r : SessionRecord) × IsOwned user session w r × (is_terminal r.status ≡ false)
  unfolding refresh
  refresh-IsOwned user session w token h =
      let (r, owned, (owner, w', rest)) =
        steps-IsOwned user session "sessionId" (issue_token deps) w token h in
      (r, owned, issue_token_ok owner r w' token rest)

  -- A read of a status that returns was asked for by the owner of the session under the id.
  status-IsOwned :
      (user : Option String) (id : String) (w : World) (seen : SessionView)
      → (status deps user id w).0 ≡ ok seen
      → (r : SessionRecord) × IsOwned user id w r
  unfolding status
  status-IsOwned user id w seen h =
      let (r, owned, _) =
        steps-IsOwned user id "id"
          (λ _ session. reconcile deps session >>= λ current. pure (view current)) w seen h in
      (r, owned)
