-- ===== src/Service/Changes.antt =====
-- packages/kyc-node/src/sessions.ts: a status write with its audit row keeps the service's invariant,
-- and so does binding an applicant.
use kyc.Common.{
  suc, ◌≤◌, String, ◌≡◌, refl, sym, ap, subst, ◌∙◌, inl, inr, Bool, true, false, Option, some, List,
  [], ◌∷◌, ◌++◌, arith, ◌==◌, eq_iff, if◌then◌else◌, Option-cases,
}
use kyc.Types.{VerificationStatus, is_verification_status}
use kyc.Types.Laws.{is_verification_status-status_text}
use kyc.Audit.{
  AuditEntry, status_updated, webhook_rejected, sanitize_audit_metadata, metadata_value,
}
use kyc.Action.{ok, Action, pure, ◌>>◌}
use kyc.Store.{
  Map, SessionRecord, StatusWrite, updated, unchanged, rejected_terminal, StatusWriteOutcome,
  lookup, insert, lookup-insert, bind_applicant_id, update_session_status,
}
use kyc.Store.Writes.{update_session_status-IsWrite}
use kyc.Store.Binding.{
  bind_applicant_id-Extends, bind_applicant_id-IsBound, bind_applicant_id_missing,
}
use kyc.Service.State.{
  World, ServiceDeps, StatusSource, api, webhook, StatusTransition, write, on_store,
}
use kyc.Service.Transition.{audit_outcome, change_metadata, write_bound, labels_entry}
use kyc.Service.Rules.{Keeps-pure, Keeps, >>=-ok}
use kyc.Service.Replay.{replay, replay-append, replay_entry, status_in}
use kyc.Service.Sound.{
  IsSound, Leads, Leads-IsPreorder, same_tables, store_up, on_store-ok, on_store-Keeps, entry_of,
  audit-IsAudited, audit-Keeps,
}

pub status_in-insert :
    (id key : String) (r : SessionRecord) (sessions : Map SessionRecord)
    → status_in id (insert key r sessions) ≡ (if key == id then r.status else status_in id sessions)
status_in-insert id key r sessions = ground (arith, lookup-insert key id r sessions)

module _ (deps : ServiceDeps) where
  -- A row replaced by one of the same id, under a trail that tells of its status.
  pub replaced :
      (key : String) (r r' : SessionRecord) (w w' : World)
      → lookup key w.store.sessions ≡ some r
      → r'.id ≡ r.id
      → w'.store.sessions ≡ insert key r' w.store.sessions
      → ((id : String)
          → replay id w'.store.audit ≡ (if key == id then r'.status else replay id w.store.audit))
      → w.ids ≤ w'.ids
      → IsSound deps w
      → IsSound deps w'
  replaced key r r' w w' found same written told ids i = record {
    fresh = λ k le.
        rw (written, lookup-insert)
          (ground (arith, eq_iff key (deps.new_id k), i.fresh k (omega arith)));
    keyed = λ id x h.
        let row : (if key == id then some r' else lookup id w.store.sessions) ≡ some x =
          sym (lookup-insert key id r' w.store.sessions) ∙ (rw written at h) in
        ground (arith, eq_iff key id, i.keyed id x, i.keyed key r found);
    audited = λ id. rw (written, status_in-insert) (rw (told id, i.audited id) refl);
  }

  bind_applicant_id-step :
      (id applicant : String) (w : World)
      → IsSound deps w
      → let w' = (store_up deps (bind_applicant_id deps.now id applicant) w).1 in
        IsSound deps w' × Leads w w'
  bind_applicant_id-step id applicant w i = elim (Option-cases (lookup id w.store.sessions)) [
    | inl missing ↦
        rw (bind_applicant_id_missing deps.now id applicant w.store missing)
          (same_tables deps w _ refl refl (omega arith) i)
    | inr (r, found) ↦
        let (r', returned, done) =
          bind_applicant_id-IsBound deps.now id applicant w.store r found in
        let extends = bind_applicant_id-Extends deps.now id applicant w.store in
        (
          elim done [
            | inl (free, new, written, trail) ↦
                replaced id r r' w _ found (rw new refl) written
                  (λ j. rw (trail, new) (ground (arith, eq_iff id j, i.audited j))) (omega arith) i
            | inr (taken, old, same) ↦
                (same_tables deps w _ (rw same refl) (rw same refl) (omega arith) i).0
          ],
          record { store = extends; ids = omega arith },
        )
  ]

  pub bind_applicant_id-Keeps :
      (id applicant : String)
      → Keeps (IsSound deps) Leads (on_store deps (bind_applicant_id deps.now id applicant))
  bind_applicant_id-Keeps id applicant =
      on_store-Keeps deps (bind_applicant_id deps.now id applicant)
        (bind_applicant_id-step id applicant)

  -- The row of a status change reads back as the status that it was written for.
  entry_status :
      (w : World) (id : String) (status previous : VerificationStatus) (source : StatusSource)
      (labels : Option (List String))
      → is_verification_status (
          metadata_value "status" (
            sanitize_audit_metadata (change_metadata status previous source (labels_entry labels))))
        ≡ some status
  unfolding sanitize_audit_metadata
  entry_status w id status previous source labels = is_verification_status-status_text status

  abbrev recorded :
      String
      → VerificationStatus
      → StatusSource
      → Option (List String)
      → StatusWrite
      → Action World (Unit {0})
  recorded id status source labels done =
      audit_outcome deps id status done.previous_status labels done.outcome source

  abbrev transition_of : StatusWrite → StatusTransition
  transition_of done = record {
    outcome = write done.outcome;
    previous_status = done.previous_status;
    session = done.session;
  }

  -- A status write that returns is the store's write and then its audit row.
  pub write_bound-steps :
      (id : String) (status : VerificationStatus) (source : StatusSource)
      (labels : Option (List String)) (w : World) (t : StatusTransition)
      → (write_bound deps id status source labels w).0 ≡ ok t
      → let update = update_session_status deps.now id status in
        let w1 = (store_up deps update w).1 in
        (done : StatusWrite) × ((update w.store).0 ≡ ok done)
        × ((recorded id status source labels done w1).0 ≡ ok tt)
        × (write_bound deps id status source labels w
            ≡ (ok (transition_of done), (recorded id status source labels done w1).1))
  unfolding write_bound
  write_bound-steps id status source labels w t h =
      let update = update_session_status deps.now id status in
      let (done, returned, rest, bound) =
        >>=-ok (on_store deps update)
          (λ done. recorded id status source labels done >> pure (transition_of done)) w t h in
      let (written, up) = on_store-ok deps update w done returned in
      let row = recorded id status source labels done in
      let w1 = (on_store deps update w).1 in
      let (u, ran, _, followed) = >>=-ok row (λ _. pure (transition_of done)) w1 t rest in
      let there : w1 ≡ (store_up deps update w).1 = ap (λ p. p.1) up in
      (
        done,
        written,
        subst (λ v. (row v).0 ≡ ok tt) there ran,
        bound ∙ followed ∙ ap (λ v. (ok (transition_of done), (row v).1)) there,
      )

  abbrev is_updated : StatusWriteOutcome → Bool
  is_updated updated = true
  is_updated _ = false

  -- The row of a write that changed nothing tells of no status.
  audit_outcome-Keeps :
      (id : String) (status previous : VerificationStatus) (labels : Option (List String))
      (outcome : StatusWriteOutcome) (source : StatusSource)
      → is_updated outcome ≡ false
      → Keeps (IsSound deps) Leads (audit_outcome deps id status previous labels outcome source)
  unfolding audit_outcome
  audit_outcome-Keeps id status previous labels updated source h = cc
  audit_outcome-Keeps id status previous labels unchanged source h =
      Keeps-pure (IsSound deps) Leads Leads-IsPreorder tt
  audit_outcome-Keeps id status previous labels rejected_terminal api h =
      Keeps-pure (IsSound deps) Leads Leads-IsPreorder tt
  audit_outcome-Keeps id status previous labels rejected_terminal webhook h =
      audit-Keeps deps id webhook_rejected _ refl

  abbrev change_entry :
      String
      → VerificationStatus
      → VerificationStatus
      → StatusSource
      → Option (List String)
      → World
      → AuditEntry
  change_entry id status previous source labels w =
      entry_of deps w id status_updated
        (change_metadata status previous source (labels_entry labels))

  replay_entry-change_entry :
      (j id : String) (current status previous : VerificationStatus) (source : StatusSource)
      (labels : Option (List String)) (w : World)
      → replay_entry j current (change_entry id status previous source labels w)
        ≡ (if id == j then status else current)
  replay_entry-change_entry j id current status previous source labels w =
      ground (arith, entry_status w id status previous source labels)

  -- The row of a change tells of just this change.
  audit_outcome-updated :
      (id : String) (status previous : VerificationStatus) (labels : Option (List String))
      (source : StatusSource) (w : World)
      → (audit_outcome deps id status previous labels updated source w).0 ≡ ok tt
      → let w' = (audit_outcome deps id status previous labels updated source w).1 in
        (w'.store.sessions ≡ w.store.sessions)
        × (w'.ids ≡ suc w.ids)
        × (w'.store.audit ≡ w.store.audit ++ (change_entry id status previous source labels w ∷ []))
  unfolding audit_outcome
  audit_outcome-updated id status previous labels source w ran =
      let (sessions, ids, written) = audit-IsAudited deps id status_updated _ w in
      (sessions, ids, elim written [ inl (_, trail) ↦ trail | inr ((e, threw), _) ↦ absurd (cc) ])

  change-IsSound :
      (id : String) (status previous : VerificationStatus) (source : StatusSource)
      (labels : Option (List String)) (r r' : SessionRecord) (w w1 : World)
      → IsSound deps w
      → lookup id w.store.sessions ≡ some r
      → r'.id ≡ r.id
      → r'.status ≡ status
      → w1.store.sessions ≡ insert id r' w.store.sessions
      → w1.store.audit ≡ w.store.audit
      → w.ids ≤ w1.ids
      → (audit_outcome deps id status previous labels updated source w1).0 ≡ ok tt
      → IsSound deps (audit_outcome deps id status previous labels updated source w1).1
  change-IsSound id status previous source labels r r' w w1 i found same took written kept le ran =
      let (sessions, ids, trail) = audit_outcome-updated id status previous labels source w1 ran in
      replaced id r r' w _ found same (sessions ∙ written)
        (λ j.
          rw (trail, kept)
            (replay-append j w.store.audit _
              ∙ replay_entry-change_entry j id _ status previous source labels w1
              ∙ rw took refl))
        (omega arith) i

  -- What a write and its row do to the tables, by the outcome.
  pub changed :
      (id : String) (status : VerificationStatus) (source : StatusSource)
      (labels : Option (List String)) (done : StatusWrite) (w : World)
      → IsSound deps w
      → let w1 = (store_up deps (update_session_status deps.now id status) w).1 in
        (update_session_status deps.now id status w.store).0 ≡ ok done
        → (recorded id status source labels done w1).0 ≡ ok tt
        → IsSound deps (recorded id status source labels done w1).1
  changed id status source labels done w i h ran =
      let w1 = (store_up deps (update_session_status deps.now id status) w).1 in
      let quiet = λ (kept : w1.store ≡ w.store) (calm : is_updated done.outcome ≡ false).
        ((audit_outcome-Keeps id status done.previous_status labels done.outcome source calm).keeps
          w1 (same_tables deps w w1 (rw kept refl) (rw kept refl) (omega arith) i).0).0 in
      let (r, found, previous, trail, outcome) =
        update_session_status-IsWrite deps.now id status w.store done h in
      elim outcome [
        | inl (e, live, moved, session, written) ↦
            subst
              (λ o.
                (audit_outcome deps id status done.previous_status labels o source w1).0 ≡ ok tt
                → IsSound deps
                    (audit_outcome deps id status done.previous_status labels o source w1).1)
              (sym e)
              (change-IsSound id status done.previous_status source labels r done.session w w1 i
                found (ap (λ x. x.id) session) (ap (λ x. x.status) session) written trail
                (omega arith))
              ran
        | inr (inl (e, same, session, kept)) ↦ quiet kept (rw e refl)
        | inr (inr (e, over, moved, session, kept)) ↦ quiet kept (rw e refl)
      ]
