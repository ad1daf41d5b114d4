-- ===== src/Service/Sound.antt =====
-- The invariant of the service's state, and the order of its states, with the primitive calls that
-- keep both.
use kyc.Common.{
  ℕ, suc, ◌≤◌, String, ◌≡◌, refl, sym, ◌∙◌, ◌⊎◌, inl, inr, false, none, some, List, [], ◌∷◌, ◌++◌,
  arith, Option-cases,
}
use mathlib.Core.List.{append-nil}
use kyc.Errors.{Thrown}
use kyc.Audit.{AuditAction, AuditMetadata, NewAuditEntry, AuditEntry, sanitize_audit_metadata}
use kyc.Action.{Result, ok, err, Action, gets}
use kyc.Store.{Memory, SessionRecord, lookup, append_audit_entry}
use kyc.Store.Writes.{grown, Extends, Extends-refl, Extends-trans}
use kyc.Service.State.{World, ServiceDeps, ProviderCall, call_provider, on_store, new_id}
use kyc.Service.Transition.{audit}
use kyc.Service.Rules.{Keeps, IsPreorder}
use kyc.Service.Replay.{is_status_updated, replay, replay_other, status_in}

-- Later: the store has gone on from the earlier one, and ids are never given out again.
pub record Leads (w w' : World) : Type 0 where
  pub store : Extends w.store w'.store
  pub ids : w.ids ≤ w'.ids

pub Leads-IsPreorder : IsPreorder Leads
Leads-IsPreorder = record {
  reflexive = λ w. record { store = Extends-refl w.store; ids = omega arith };
  transitive = λ w v u p q. record {
    store = Extends-trans p.store q.store;
    ids = let a = p.ids in let b = q.ids in omega arith;
  };
}

module _ (deps : ServiceDeps) where
  -- No id that is still to be given out is taken, every session stands under its own id, and its
  -- status is the one that the audit trail tells.
  pub record IsSound (w : World) : Type 0 where
    pub fresh : (k : ℕ) → w.ids ≤ k → lookup (deps.new_id k) w.store.sessions ≡ none
    pub keyed : (id : String) (r : SessionRecord) → lookup id w.store.sessions ≡ some r → r.id ≡ id
    pub audited : (id : String) → replay id w.store.audit ≡ status_in id w.store.sessions

  -- A call that leaves the sessions, and what the trail tells of statuses, as they were.
  pub still :
      (w w' : World) (added : List AuditEntry)
      → w'.store.sessions ≡ w.store.sessions
      → w'.store.audit ≡ w.store.audit ++ added
      → ((id : String) → replay id w'.store.audit ≡ replay id w.store.audit)
      → w.ids ≤ w'.ids
      → IsSound w
      → IsSound w' × Leads w w'
  still w w' added sessions trail told ids i = (
    record {
      fresh = λ k le. rw sessions (i.fresh k (omega arith));
      keyed = λ id r h. i.keyed id r (rw sessions at h);
      audited = λ id. rw sessions (told id ∙ i.audited id);
    },
    record { store = grown w.store w'.store added sessions trail; ids = ids },
  )

  -- Where neither table is touched.
  pub same_tables :
      (w w' : World)
      → w'.store.sessions ≡ w.store.sessions
      → w'.store.audit ≡ w.store.audit
      → w.ids ≤ w'.ids
      → IsSound w
      → IsSound w' × Leads w w'
  same_tables w w' sessions trail ids i =
      still w w' [] sessions (trail ∙ sym (append-nil _)) (λ id. rw trail refl) ids i

  abbrev pub store_up : {A : Type 0} → Action Memory A → World → Result A × World
  store_up call w =
      let (r, m) = call w.store in (r, record w { store = m; store_calls = suc w.store_calls })

  -- A store call is carried out, or throws and changes nothing.
  pub on_store-cases :
      {A : Type 0} (call : Action Memory A) (w : World)
      → (on_store deps call w ≡ store_up call w)
        ⊎ ((e : Thrown) × (on_store deps call w
              ≡ (err e, record w { store_calls = suc w.store_calls })))
  on_store-cases call w = elim (Option-cases (deps.store_fault w.store_calls)) [
    | inl up ↦ inl (rw (up, on_store) refl)
    | inr (e, down) ↦ inr (e, rw (down, on_store) refl)
  ]

  pub on_store-ok :
      {A : Type 0} (call : Action Memory A) (w : World) (a : A)
      → (on_store deps call w).0 ≡ ok a
      → ((call w.store).0 ≡ ok a) × (on_store deps call w ≡ store_up call w)
  on_store-ok call w a h = elim (on_store-cases call w) [
    | inl up ↦ (rw up at h, up)
    | inr (e, down) ↦ let thrown = rw down at h in cc
  ]

  -- So what holds after a store call that is carried out holds after any.
  pub on_store-Keeps :
      {A : Type 0} (call : Action Memory A)
      → ((w : World) → IsSound w → IsSound (store_up call w).1 × Leads w (store_up call w).1)
      → Keeps IsSound Leads (on_store deps call)
  on_store-Keeps call h = record {
    keeps = λ w i. elim (on_store-cases call w) [
      | inl up ↦ rw up (h w i)
      | inr (e, down) ↦ rw down (same_tables w _ refl refl (omega arith) i)
    ];
  }

  pub on_store-gets-Keeps :
      {A : Type 0} (f : Memory → A) → Keeps IsSound Leads (on_store deps (gets f))
  on_store-gets-Keeps f = on_store-Keeps (gets f) (λ w i. same_tables w _ refl refl (omega arith) i)

  pub call_provider-Keeps :
      {A : Type 0} (call : ProviderCall) (answer : List ProviderCall → Result A)
      → Keeps IsSound Leads (call_provider call answer)
  call_provider-Keeps call answer = record {
    keeps = λ w i. same_tables w _ refl refl (omega arith) i;
  }

  pub new_id-Keeps : Keeps IsSound Leads (new_id deps)
  new_id-Keeps = record { keeps = λ w i. same_tables w _ refl refl (omega arith) i }

  -- The row that `audit` writes.
  abbrev pub entry_of : World → String → AuditAction → AuditMetadata → AuditEntry
  entry_of w session action metadata = record {
    id = deps.new_id w.ids;
    session_id = session;
    action = action;
    timestamp = deps.now w.store.clock;
    metadata = sanitize_audit_metadata metadata;
  }

  -- An audit call writes its row and returns, or throws and writes nothing; it takes an id.
  abbrev IsAudited :
      World → String → AuditAction → AuditMetadata → Result (Unit {0}) × World → Type 0
  IsAudited w session action metadata (r, w') =
      (w'.store.sessions ≡ w.store.sessions)
      × (w'.ids ≡ suc w.ids)
      × (((r ≡ ok tt)
            × (w'.store.audit ≡ w.store.audit ++ (entry_of w session action metadata ∷ [])))
          ⊎ (((e : Thrown) × (r ≡ err e)) × (w'.store.audit ≡ w.store.audit)))

  pub audit-IsAudited :
      (session : String) (action : AuditAction) (metadata : AuditMetadata) (w : World)
      → IsAudited w session action metadata (audit deps session action metadata w)
  unfolding audit append_audit_entry
  audit-IsAudited session action metadata w =
      let e : NewAuditEntry = record {
        id = deps.new_id w.ids;
        session_id = session;
        action = action;
        metadata = sanitize_audit_metadata metadata;
      } in
      let w1 = record w { ids = suc w.ids } in
      elim (on_store-cases (append_audit_entry deps.now e) w1) [
        | inl up ↦ rw up (refl, refl, inl (refl, refl))
        | inr (x, down) ↦ rw down (refl, refl, inr ((x, refl), refl))
      ]

  -- An audit row of any kind but a status change tells nothing of a status.
  pub audit-Keeps :
      (session : String) (action : AuditAction) (metadata : AuditMetadata)
      → is_status_updated action ≡ false
      → Keeps IsSound Leads (audit deps session action metadata)
  audit-Keeps session action metadata other = record {
    keeps = λ w i.
        let (sessions, ids, written) = audit-IsAudited session action metadata w in
        let later : w.ids ≤ (audit deps session action metadata w).1.ids = omega arith in
        elim written [
          | inl (_, trail) ↦
              still w _ (entry_of w session action metadata ∷ []) sessions trail
                (λ id. rw trail (replay_other id w.store.audit _ other)) later i
          | inr (_, trail) ↦ same_tables w _ sessions trail later i
        ];
  }
