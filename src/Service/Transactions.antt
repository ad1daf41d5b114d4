-- ===== src/Service/Transactions.antt =====
-- packages/kyc-node/src/sessions.ts: the transaction of a status write keeps the service's invariant,
-- whether it commits or rolls back.
use kyc.Common.{
  ◌≤◌, String, ◌≡◌, refl, sym, ◌∙◌, inl, inr, Option, none, some, List, [], ◌∷◌, arith, truthy,
  same_option,
}
use mathlib.Core.List.{append-nil}
use kyc.Types.{VerificationStatus}
use kyc.Audit.{AuditAction, AuditMetadata, webhook_rejected}
use kyc.Action.{Result, ok, err, Action}
use kyc.Store.{
  Memory, SessionRecord, StatusWriteOutcome, updated, unchanged, rejected_terminal,
  bind_applicant_id, update_session_status, restore,
}
use kyc.Store.Writes.{grown, Extends, Extends-refl, update_session_status-Extends}
use kyc.Store.Binding.{bind_applicant_id-Extends}
use kyc.Service.State.{World, ServiceDeps, StatusSource, api, webhook, transaction, on_store}
use kyc.Service.Transition.{
  audit, audit_outcome, write_bound, write_unbound, bind_then_write, write_body, write_status,
  ApplyStatusTransitionOptions,
}
use kyc.Service.Rules.{
  Keeps, Commits, Keeps-pure, Keeps-bind, Keeps-if, Commits-bind, Commits-if, Commits-of_Keeps,
}
use kyc.Service.Sound.{
  IsSound, Leads, Leads-IsPreorder, same_tables, on_store-cases, entry_of, audit-IsAudited,
  audit-Keeps,
}
use kyc.Service.Changes.{bind_applicant_id-Keeps, write_bound-steps, changed}

abbrev Any : World → Type 0
Any w = Unit

abbrev GoesOn : {A : Type 0} → Action World A → Type 0
GoesOn m = Keeps Any Leads m

module _ (deps : ServiceDeps) where
  on_store-Leads :
      {A : Type 0} (call : Action Memory A)
      → ((m : Memory) → Extends m (call m).1)
      → GoesOn (on_store deps call)
  on_store-Leads call h = record {
    keeps = λ w i. elim (on_store-cases deps call w) [
      | inl up ↦ rw up (tt, record { store = h w.store; ids = omega arith })
      | inr (e, down) ↦ rw down (tt, record { store = Extends-refl w.store; ids = omega arith })
    ];
  }

  audit-Leads :
      (session : String) (action : AuditAction) (metadata : AuditMetadata)
      → GoesOn (audit deps session action metadata)
  audit-Leads session action metadata = record {
    keeps = λ w i.
        let (sessions, ids, written) = audit-IsAudited deps session action metadata w in
        let e = entry_of deps w session action metadata in
        (
          tt,
          record {
            store = elim written [
              | inl (_, trail) ↦ grown w.store _ (e ∷ []) sessions trail
              | inr (_, trail) ↦ grown w.store _ [] sessions (trail ∙ sym (append-nil _))
            ];
            ids = omega arith;
          },
        );
  }

  -- A transaction keeps the invariant if its body does so where it returns, and gives no id out again.
  pub transaction-Keeps :
      {A : Type 0} (body : Action World A)
      → Commits (IsSound deps) Leads body
      → ((w : World) → w.ids ≤ (body w).1.ids)
      → Keeps (IsSound deps) Leads (transaction body)
  transaction-Keeps {A} body commit climbs = record {
    keeps = λ w i. go w (body w).0 (body w).1 i (λ a e. commit.commits w a i e) (climbs w);
  }
    where
      go :
          (w : World) (r : Result A) (w' : World)
          → IsSound deps w
          → ((a : A) → r ≡ ok a → IsSound deps w' × Leads w w')
          → w.ids ≤ w'.ids
          → let done : Result A × World = elim r [
            | ok a ↦ (ok a, w')
            | err e ↦ (err e, record w' { store = restore w.store w'.store })
          ] in
            IsSound deps done.1 × Leads w done.1
      go w (ok a) w' i h le = h a refl
      go w (err e) w' i h le = same_tables deps w _ refl refl le i

  audit_outcome-Leads :
      (id : String) (status previous : VerificationStatus) (labels : Option (List String))
      (outcome : StatusWriteOutcome) (source : StatusSource)
      → GoesOn (audit_outcome deps id status previous labels outcome source)
  unfolding audit_outcome
  audit_outcome-Leads id status previous labels updated source = audit-Leads id _ _
  audit_outcome-Leads id status previous labels rejected_terminal webhook = audit-Leads id _ _
  audit_outcome-Leads id status previous labels rejected_terminal api =
      Keeps-pure Any Leads Leads-IsPreorder tt
  audit_outcome-Leads id status previous labels unchanged source =
      Keeps-pure Any Leads Leads-IsPreorder tt

  write_bound-Leads :
      (id : String) (status : VerificationStatus) (source : StatusSource)
      (labels : Option (List String))
      → GoesOn (write_bound deps id status source labels)
  unfolding write_bound
  write_bound-Leads id status source labels =
      Keeps-bind Any Leads Leads-IsPreorder
        (on_store-Leads (update_session_status deps.now id status)
          (update_session_status-Extends deps.now id status))
        (λ done.
          Keeps-bind Any Leads Leads-IsPreorder
            (audit_outcome-Leads id status done.previous_status labels done.outcome source)
            (λ _. Keeps-pure Any Leads Leads-IsPreorder _))

  write_bound-Commits :
      (id : String) (status : VerificationStatus) (source : StatusSource)
      (labels : Option (List String))
      → Commits (IsSound deps) Leads (write_bound deps id status source labels)
  write_bound-Commits id status source labels = record {
    commits = λ w t i h.
        let (done, written, ran, all) = write_bound-steps deps id status source labels w t h in
        (
          rw all (changed deps id status source labels done w i written ran),
          ((write_bound-Leads id status source labels).keeps w tt).1,
        );
  }

  write_unbound-Keeps :
      (id : String) (status : VerificationStatus) (source : StatusSource) (bound : SessionRecord)
      → Keeps (IsSound deps) Leads (write_unbound deps id status source bound)
  unfolding write_unbound
  write_unbound-Keeps id status source bound =
      Keeps-bind (IsSound deps) Leads Leads-IsPreorder (audit-Keeps deps id webhook_rejected _ refl)
        (λ _. Keeps-pure (IsSound deps) Leads Leads-IsPreorder _)

  write_unbound-Leads :
      (id : String) (status : VerificationStatus) (source : StatusSource) (bound : SessionRecord)
      → GoesOn (write_unbound deps id status source bound)
  unfolding write_unbound
  write_unbound-Leads id status source bound =
      Keeps-bind Any Leads Leads-IsPreorder (audit-Leads id _ _)
        (λ _. Keeps-pure Any Leads Leads-IsPreorder _)

  module _ (id : String) (status : VerificationStatus) (source : StatusSource)
      (labels : Option (List String)) where
    bind_then_write-Commits :
        (applicant : String)
        → Commits (IsSound deps) Leads (bind_then_write deps id status source labels applicant)
    unfolding bind_then_write
    bind_then_write-Commits applicant =
        Commits-bind (IsSound deps) Leads Leads-IsPreorder
          (bind_applicant_id-Keeps deps id applicant)
          (λ bound.
            Commits-if (IsSound deps) Leads Leads-IsPreorder
              (same_option bound.provider_applicant_id (some applicant))
              (write_bound-Commits id status source labels)
              (Commits-of_Keeps (IsSound deps) Leads Leads-IsPreorder
                (write_unbound-Keeps id status source bound)))

    bind_then_write-Leads :
        (applicant : String) → GoesOn (bind_then_write deps id status source labels applicant)
    unfolding bind_then_write
    bind_then_write-Leads applicant =
        Keeps-bind Any Leads Leads-IsPreorder
          (on_store-Leads (bind_applicant_id deps.now id applicant)
            (bind_applicant_id-Extends deps.now id applicant))
          (λ bound.
            Keeps-if Any Leads Leads-IsPreorder
              (same_option bound.provider_applicant_id (some applicant))
              (write_bound-Leads id status source labels)
              (write_unbound-Leads id status source bound))

    write_body-Commits :
        (applicant : Option String)
        → Commits (IsSound deps) Leads (write_body deps id status source labels applicant)
    unfolding write_body
    write_body-Commits none = write_bound-Commits id status source labels
    write_body-Commits (some applicant) =
        Commits-if (IsSound deps) Leads Leads-IsPreorder (truthy applicant)
          (bind_then_write-Commits applicant) (write_bound-Commits id status source labels)

    write_body-Leads :
        (applicant : Option String) → GoesOn (write_body deps id status source labels applicant)
    unfolding write_body
    write_body-Leads none = write_bound-Leads id status source labels
    write_body-Leads (some applicant) =
        Keeps-if Any Leads Leads-IsPreorder (truthy applicant) (bind_then_write-Leads applicant)
          (write_bound-Leads id status source labels)

  -- A status write, of whatever outcome and however it ends, keeps the invariant, and every session
  -- and the trail go on.
  pub write_status-Keeps :
      (id : String) (status : VerificationStatus) (source : StatusSource)
      (options : ApplyStatusTransitionOptions)
      → Keeps (IsSound deps) Leads (write_status deps id status source options)
  unfolding write_status
  write_status-Keeps id status source options =
      transaction-Keeps
        (write_body deps id status source options.reject_labels options.bind_applicant_id)
        (write_body-Commits id status source options.reject_labels options.bind_applicant_id)
        (λ w.
          ((write_body-Leads id status source options.reject_labels options.bind_applicant_id).keeps
            w tt).1.ids)
