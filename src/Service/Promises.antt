-- ===== src/Service/Promises.antt =====
-- packages/kyc-node/src/sessions.ts: what the service promises over any sequence of its calls,
-- whatever the provider answers, the host's effects throw, and the store's outages are.
use kyc.Common.{
  ℕ, String, ◌≡◌, refl, Bool, true, inl, inr, Option, some, List, [], ◌∷◌, ◌++◌, Value,
}
use kyc.Types.{VerificationStatus, is_terminal}
use kyc.Audit.{AuditEntry}
use kyc.Store.{SessionRecord, lookup}
use kyc.Store.Writes.{Continues}
use kyc.Service.State.{World, ServiceDeps, StatusSource}
use kyc.Service.Transition.{ApplyStatusTransitionOptions, apply_status_transition}
use kyc.Service.Requests.{start, refresh, status, latest_for_user, hosted_page}
use kyc.Service.Webhook.{WebhookEvent, handle_webhook_event}
use kyc.Service.Replay.{replay, status_in}
use kyc.Service.Sound.{IsSound, Leads, Leads-IsPreorder}
use kyc.Service.Kept.{apply_status_transition-Kept}
use kyc.Service.Serving.{
  start-Kept, refresh-Kept, status-Kept, latest_for_user-Kept, hosted_page-Kept,
  handle_webhook_event-Kept,
}

-- A call of the `VerificationService` interface.
pub data ServiceCall : Type 0 where
  start_session : (user : Option String) (body : Value) → ServiceCall
  refresh_session : (user : Option String) (session : String) → ServiceCall
  read_status : (user : Option String) (session : String) → ServiceCall
  read_latest : (user : Option String) (reconcile : Bool) → ServiceCall
  deliver : WebhookEvent → ServiceCall
  show_page : (session : String) → ServiceCall
  apply :
      (session : String) (status : VerificationStatus) (source : StatusSource)
      (options : ApplyStatusTransitionOptions)
      → ServiceCall

module _ (deps : ServiceDeps) where
  -- The state after one call, whatever the call returns or throws.
  unfoldable pub serve : ServiceCall → World → World
  serve (start_session user body) w = (start deps user body w).1
  serve (refresh_session user session) w = (refresh deps user session w).1
  serve (read_status user session) w = (status deps user session w).1
  serve (read_latest user heal) w = (latest_for_user deps user heal w).1
  serve (deliver event) w = (handle_webhook_event deps event w).1
  serve (show_page session) w = (hosted_page deps session w).1
  serve (apply session to source options) w =
      (apply_status_transition deps session to source options w).1

  unfoldable pub run : List ServiceCall → World → World
  run [] w = w
  run (call ∷ calls) w = run calls (serve call w)

module _ (deps : ServiceDeps) (unrepeated : (j k : ℕ) → deps.new_id j ≡ deps.new_id k → j ≡ k) where
  serve-Leads :
      (call : ServiceCall) (w : World)
      → IsSound deps w
      → IsSound deps (serve deps call w) × Leads w (serve deps call w)
  unfolding serve
  serve-Leads (start_session user body) w i = (start-Kept deps unrepeated user body).keeps w i
  serve-Leads (refresh_session user session) w i = (refresh-Kept deps user session).keeps w i
  serve-Leads (read_status user session) w i = (status-Kept deps user session).keeps w i
  serve-Leads (read_latest user heal) w i = (latest_for_user-Kept deps user heal).keeps w i
  serve-Leads (deliver event) w i = (handle_webhook_event-Kept deps event).keeps w i
  serve-Leads (show_page session) w i = (hosted_page-Kept deps session).keeps w i
  serve-Leads (apply session to source options) w i =
      (apply_status_transition-Kept deps session to source options).keeps w i

  run-Leads :
      (calls : List ServiceCall) (w : World)
      → IsSound deps w
      → IsSound deps (run deps calls w) × Leads w (run deps calls w)
  unfolding run
  run-Leads [] w i = (i, Leads-IsPreorder.reflexive w)
  run-Leads (call ∷ calls) w i =
      let (j, p) = serve-Leads call w i in
      let (k, q) = run-Leads calls (serve deps call w) j in
      (k, Leads-IsPreorder.transitive w (serve deps call w) _ p q)

  -- From a sound state, with ids that do not repeat, a session that is approved or finally rejected
  -- is still there after any sequence of calls, with that same status.
  pub run_keeps_terminal :
      (calls : List ServiceCall) (w : World) (id : String) (r : SessionRecord)
      → IsSound deps w
      → lookup id w.store.sessions ≡ some r
      → is_terminal r.status ≡ true
      → (r' : SessionRecord) × (lookup id (run deps calls w).store.sessions ≡ some r')
        × (r'.status ≡ r.status)
  run_keeps_terminal calls w id r i found over =
      let (r', kept, c) = (run-Leads calls w i).1.store.sessions id r found in
      (r', kept, elim c.final [ inl live ↦ absurd (cc) | inr same ↦ same ])

  -- From a sound state, with ids that do not repeat, a session that is there stays there over any
  -- sequence of calls, with the same id, user, provider, level, locale, platform and creation time;
  -- an applicant bound to it stays bound.
  pub run_keeps_session :
      (calls : List ServiceCall) (w : World) (id : String) (r : SessionRecord)
      → IsSound deps w
      → lookup id w.store.sessions ≡ some r
      → (r' : SessionRecord) × (lookup id (run deps calls w).store.sessions ≡ some r')
        × Continues r r'
  run_keeps_session calls w id r i found = (run-Leads calls w i).1.store.sessions id r found

  -- From a sound state, with ids that do not repeat, the status that the session table holds after
  -- any sequence of calls, transactions that rolled back included, is for every session the one that
  -- a replay of the audit trail's `status_updated` rows gives.
  pub run-replay :
      (calls : List ServiceCall) (w : World) (id : String)
      → IsSound deps w
      → replay id (run deps calls w).store.audit ≡ status_in id (run deps calls w).store.sessions
  run-replay calls w id i = (run-Leads calls w i).0.audited id

  -- From a sound state, with ids that do not repeat, any sequence of calls only adds to the end of
  -- the audit trail.
  pub run_appends :
      (calls : List ServiceCall) (w : World)
      → IsSound deps w
      → (added : List AuditEntry) × ((run deps calls w).store.audit ≡ w.store.audit ++ added)
  run_appends calls w i = (run-Leads calls w i).1.store.audit

  pub run-IsSound :
      (calls : List ServiceCall) (w : World) → IsSound deps w → IsSound deps (run deps calls w)
  run-IsSound calls w i = (run-Leads calls w i).0

-- Before any call there is nothing in the store, and the state is sound.
abbrev pub no_world : World
no_world = record {
  store = record { sessions = []; audit = []; clock = 0 };
  ids = 0;
  store_calls = 0;
  calls = [];
  effects = [];
}

pub no_world-IsSound : (deps : ServiceDeps) → IsSound deps no_world
unfolding lookup replay
no_world-IsSound deps = record { fresh = λ k le. refl; keyed = λ id r h. cc; audited = λ id. refl }
