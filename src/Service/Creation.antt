-- ===== src/Service/Creation.antt =====
-- packages/kyc-node/src/sessions.ts, the transaction in `start`: a new session keeps the service's
-- invariant, given that the id generator does not repeat itself.
use kyc.Common.{
  ℕ, suc, ◌≤◌, ◌<◌, String, ◌≡◌, refl, sym, ap, subst₂, ap₂, ◌∙◌, inl, inr, none, some, List, [],
  ◌∷◌, ◌++◌, arith, ◌==◌, eq_iff, if◌then◌else◌,
}
use kyc.Types.{initial}
use kyc.Audit.{AuditEntry, AuditAction, AuditMetadata, session_created}
use kyc.Action.{ok, Action, pure, ◌>>◌}
use kyc.Validation.{ValidatedStartInput}
use kyc.Store.{Memory, SessionRecord, create_session, lookup, insert, lookup-insert}
use kyc.Store.Writes.{Continues-refl}
use kyc.Service.State.{World, ServiceDeps, on_store, new_id}
use kyc.Service.Transition.{audit}
use kyc.Service.Requests.{new_session, created_metadata, persist_body, persist_session}
use kyc.Service.Rules.{Keeps, Commits, IsPreorder, Keeps-pure, Keeps-bind, >>=-ok}
use kyc.Service.Replay.{replay, replay_other}
use kyc.Service.Sound.{
  IsSound, Leads, store_up, on_store-ok, on_store-cases, entry_of, audit-IsAudited,
}
use kyc.Service.Changes.{status_in-insert}
use kyc.Service.Transactions.{transaction-Keeps}

abbrev Climbs : World → World → Type 0
Climbs w w' = w.ids ≤ w'.ids

Climbs-IsPreorder : IsPreorder Climbs
Climbs-IsPreorder = record { reflexive = λ w. omega arith; transitive = λ w v u p q. omega arith }

ok-injective : {A : Type 0} {a b : A} → ok a ≡ ok b → b ≡ a
ok-injective h = cc

abbrev Any : World → Type 0
Any w = Unit

module _ (deps : ServiceDeps) (unrepeated : (j k : ℕ) → deps.new_id j ≡ deps.new_id k → j ≡ k) where
  -- A row under an id that was still to be given out.
  added :
      (r : SessionRecord) (k : ℕ) (w w' : World)
      → IsSound deps w
      → w.ids ≤ k
      → k < w'.ids
      → r.id ≡ deps.new_id k
      → r.status ≡ initial
      → w'.store.sessions ≡ insert r.id r w.store.sessions
      → ((id : String) → replay id w'.store.audit ≡ replay id w.store.audit)
      → IsSound deps w'
  added r k w w' i le lt named begun written told =
      let free : lookup r.id w.store.sessions ≡ none = rw named (i.fresh k le) in
      record {
        fresh = λ j later.
            rw (written, lookup-insert)
              (ground
                (arith, eq_iff r.id (deps.new_id j), unrepeated k j, i.fresh j (omega arith)));
        keyed = λ id x h.
            let row : (if r.id == id then some r else lookup id w.store.sessions) ≡ some x =
              sym (lookup-insert r.id id r w.store.sessions) ∙ (rw written at h) in
            ground (arith, eq_iff r.id id, i.keyed id x);
        audited = λ id.
            rw (written, status_in-insert)
              (rw (told id) (ground (arith, eq_iff r.id id, i.audited id)));
      }

  added-Leads :
      (r : SessionRecord) (w w' : World) (trail : List AuditEntry)
      → lookup r.id w.store.sessions ≡ none
      → w'.store.sessions ≡ insert r.id r w.store.sessions
      → w'.store.audit ≡ w.store.audit ++ trail
      → w.ids ≤ w'.ids
      → Leads w w'
  added-Leads r w w' trail free written grew le = record {
    store = record {
      sessions = λ id x h.
          (x, rw (written, lookup-insert) (ground (arith, eq_iff r.id id)), Continues-refl x);
      audit = (trail, grew);
    };
    ids = le;
  }

  on_store-Climbs : {A : Type 0} (call : Action Memory A) → Keeps Any Climbs (on_store deps call)
  on_store-Climbs call = record {
    keeps = λ w i. elim (on_store-cases deps call w) [
      | inl up ↦ rw up (tt, omega arith)
      | inr (e, down) ↦ rw down (tt, omega arith)
    ];
  }

  new_id-Climbs : Keeps Any Climbs (new_id deps)
  new_id-Climbs = record { keeps = λ w i. (tt, omega arith) }

  audit-Climbs :
      (session : String) (action : AuditAction) (metadata : AuditMetadata)
      → Keeps Any Climbs (audit deps session action metadata)
  audit-Climbs session action metadata = record {
    keeps = λ w i.
        let (sessions, ids, written) = audit-IsAudited deps session action metadata w in
        (tt, omega arith);
  }

  persist_body-Climbs :
      (owner : String) (input : ValidatedStartInput)
      → Keeps Any Climbs (persist_body deps owner input)
  unfolding persist_body
  persist_body-Climbs owner input = Keeps-bind Any Climbs Climbs-IsPreorder new_id-Climbs (λ id.
      Keeps-bind Any Climbs Climbs-IsPreorder
        (on_store-Climbs (create_session deps.now (new_session deps owner input id)))
        (λ created.
          Keeps-bind Any Climbs Climbs-IsPreorder
            (audit-Climbs created.id session_created (created_metadata deps owner input))
            (λ _. Keeps-pure Any Climbs Climbs-IsPreorder created)))

  -- The state after the first row of a session and its audit entry.
  abbrev placed : String → ValidatedStartInput → World → SessionRecord × World
  placed owner input w =
      let w1 = record w { ids = suc w.ids } in
      let s = new_session deps owner input (deps.new_id w.ids) in
      let r : SessionRecord = record {
        id = s.id;
        user_id = s.user_id;
        provider = s.provider;
        provider_applicant_id = none;
        level_name = s.level_name;
        locale = s.locale;
        platform = s.platform;
        status = initial;
        created_at = deps.now w.store.clock;
        updated_at = deps.now w.store.clock;
      } in
      (r, (store_up deps (create_session deps.now s) w1).1)

  placed_tables :
      (owner : String) (input : ValidatedStartInput) (w : World)
      → let (row, w1) = placed owner input w in
        (w1.store.sessions ≡ insert row.id row w.store.sessions)
        × (w1.store.audit ≡ w.store.audit)
        × (w1.ids ≡ suc w.ids)
  unfolding create_session
  placed_tables owner input w = (refl, refl, refl)

  persist_body-steps :
      (owner : String) (input : ValidatedStartInput) (w : World) (r : SessionRecord)
      → (persist_body deps owner input w).0 ≡ ok r
      → let (row, w1) = placed owner input w in
        let log = audit deps row.id session_created (created_metadata deps owner input) in
        ((log w1).0 ≡ ok tt) × (persist_body deps owner input w ≡ (ok row, (log w1).1))
  unfolding persist_body create_session
  persist_body-steps owner input w r h =
      let id = deps.new_id w.ids in
      let create = create_session deps.now (new_session deps owner input id) in
      let log = λ (c : SessionRecord).
        audit deps c.id session_created (created_metadata deps owner input) in
      let w0 = record w { ids = suc w.ids } in
      let (row, returned, rest, bound) =
        >>=-ok (on_store deps create) (λ c. log c >> pure c) w0 r h in
      let (made, up) = on_store-ok deps create w0 row returned in
      let first = (placed owner input w).0 in
      let v0 = (on_store deps create w0).1 in
      let v1 = (store_up deps create w0).1 in
      let there : v0 ≡ v1 = ap (λ p. p.1) up in
      let same : row ≡ first = ok-injective made in
      let (u, ran, _, followed) = >>=-ok (log row) (λ _. pure row) v0 r rest in
      (
        subst₂ (λ c v. (log c v).0 ≡ ok tt) same there ran,
        bound ∙ followed ∙ ap₂ (λ c v. (ok c, (log c v).1)) same there,
      )

  persist_body-Commits :
      (owner : String) (input : ValidatedStartInput)
      → Commits (IsSound deps) Leads (persist_body deps owner input)
  persist_body-Commits owner input = record {
    commits = λ w r i h.
        let (row, w1) = placed owner input w in
        let (ran, all) = persist_body-steps owner input w r h in
        let (sessions, ids, written) =
          audit-IsAudited deps row.id session_created (created_metadata deps owner input) w1 in
        let (made, same, taken) = placed_tables owner input w in
        let log = audit deps row.id session_created (created_metadata deps owner input) in
        let w2 = (log w1).1 in
        let e = entry_of deps w1 row.id session_created (created_metadata deps owner input) in
        let grew : w2.store.audit ≡ w.store.audit ++ (e ∷ []) = elim written [
          | inl (_, trail) ↦ trail ∙ ap (λ l. l ++ (e ∷ [])) same
          | inr ((_, threw), _) ↦ absurd (cc)
        ] in
        let result : IsSound deps w2 × Leads w w2 = (
          added row w.ids w w2 i (omega arith) (omega arith) refl refl (sessions ∙ made)
              (λ id. rw grew (replay_other id w.store.audit e refl)),
          added-Leads row w w2 (e ∷ []) (i.fresh w.ids (omega arith)) (sessions ∙ made) grew
              (omega arith),
        ) in
        rw all result;
  }

  -- Creating a session keeps the invariant, whether it commits or rolls back.
  pub persist_session-Keeps :
      (owner : String) (input : ValidatedStartInput)
      → Keeps (IsSound deps) Leads (persist_session deps owner input)
  unfolding persist_session
  persist_session-Keeps owner input =
      transaction-Keeps deps (persist_body deps owner input) (persist_body-Commits owner input)
        (λ w. ((persist_body-Climbs owner input).keeps w tt).1)
