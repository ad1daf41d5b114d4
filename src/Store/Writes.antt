-- ===== src/Store/Writes.antt =====
-- packages/kyc-node/src/store.ts: what the writes of the in-memory store may change of a session
-- that is there, and what they never do.
use kyc.Common.{
  ℕ, String, ◌≡◌, refl, sym, ap, ◌∙◌, ◌≢◌, ◌⊎◌, inl, inr, true, false, none, some, List, [], ◌++◌,
  arith, ◌==◌, eq_iff, Bool-cases, Option-cases,
}
use mathlib.Core.List.{append-nil, append_assoc}
use kyc.Types.{VerificationStatus, is_terminal, same_status}
use kyc.Types.Laws.{same_status_iff}
use kyc.Audit.{AuditEntry}
use kyc.Action.{ok, err}
use kyc.Store.Entries.{lookup, insert, lookup-insert}
use kyc.Store.Order.{SessionRecord}
use kyc.Store.InMemory.{
  Memory, StatusWrite, updated, unchanged, rejected_terminal, update_session_status,
  write_session_status, not_found,
}

-- A later version of a session: who it is of, and how it was asked for, are as they were; an
-- applicant once bound stays; a terminal status stays.
pub record Continues (r r' : SessionRecord) : Type 0 where
  pub id : r'.id ≡ r.id
  pub user_id : r'.user_id ≡ r.user_id
  pub provider : r'.provider ≡ r.provider
  pub level_name : r'.level_name ≡ r.level_name
  pub locale : r'.locale ≡ r.locale
  pub platform : r'.platform ≡ r.platform
  pub created_at : r'.created_at ≡ r.created_at
  pub applicant :
      (r.provider_applicant_id ≡ none) ⊎ (r'.provider_applicant_id ≡ r.provider_applicant_id)
  pub final : (is_terminal r.status ≡ false) ⊎ (r'.status ≡ r.status)

pub Continues-refl : (r : SessionRecord) → Continues r r
Continues-refl r = record {
  id = refl;
  user_id = refl;
  provider = refl;
  level_name = refl;
  locale = refl;
  platform = refl;
  created_at = refl;
  applicant = inr refl;
  final = inr refl;
}

pub Continues-trans : {r s t : SessionRecord} → Continues r s → Continues s t → Continues r t
Continues-trans p q = ground arith

-- Every session of the first state is in the second, in a later version, and the audit trail has
-- only grown.
pub record Extends (m m' : Memory) : Type 0 where
  pub sessions :
      (id : String) (r : SessionRecord)
      → lookup id m.sessions ≡ some r
      → (r' : SessionRecord) × (lookup id m'.sessions ≡ some r') × Continues r r'
  pub audit : (added : List AuditEntry) × (m'.audit ≡ m.audit ++ added)

pub Extends-refl : (m : Memory) → Extends m m
Extends-refl m = record {
  sessions = λ id r h. (r, h, Continues-refl r);
  audit = ([], sym (append-nil m.audit));
}

pub Extends-trans : {m n o : Memory} → Extends m n → Extends n o → Extends m o
Extends-trans p q = record {
  sessions = λ id r h.
      let (s, hs, cs) = p.sessions id r h in
      let (t, ht, ct) = q.sessions id s hs in (t, ht, Continues-trans cs ct);
  audit = (
    p.audit.0 ++ q.audit.0,
    q.audit.1 ∙ ap (λ l. l ++ q.audit.0) p.audit.1 ∙ append_assoc _ p.audit.0 q.audit.0,
  );
}

-- Where only the audit trail grows.
pub grown :
    (m m' : Memory) (added : List AuditEntry)
    → m'.sessions ≡ m.sessions
    → m'.audit ≡ m.audit ++ added
    → Extends m m'
grown m m' added same trail = record {
  sessions = λ id r h. (r, rw same h, Continues-refl r);
  audit = (added, trail);
}

-- A write of a later version under a key that is there.
pub insert-Extends :
    (key : String) (r r' : SessionRecord) (m m' : Memory)
    → lookup key m.sessions ≡ some r
    → Continues r r'
    → m'.sessions ≡ insert key r' m.sessions
    → m'.audit ≡ m.audit
    → Extends m m'
insert-Extends key r r' m m' found c written same = record {
  sessions = λ id s h. elim (Bool-cases (key == id)) [
    | inl e ↦
        let same_record : r ≡ s = ground (arith, eq_iff key id) in
        (r', rw (written, lookup-insert, e) refl, rw (← same_record) c)
    | inr e ↦ (s, rw (written, lookup-insert, e) h, Continues-refl s)
  ];
  audit = ([], same ∙ sym (append-nil m.audit));
}

-- What a status write did to the row of `id`, by its outcome.
abbrev pub IsWrite :
    ℕ → String → VerificationStatus → SessionRecord → StatusWrite → Memory → Memory → Type 0
IsWrite time id status r done m m' =
    ((done.outcome ≡ updated)
      × (is_terminal r.status ≡ false)
      × (r.status ≢ status)
      × (done.session ≡ record r { status = status; updated_at = time })
      × (m'.sessions ≡ insert id done.session m.sessions))
    ⊎ ((done.outcome ≡ unchanged) × (r.status ≡ status) × (done.session ≡ r) × (m' ≡ m))
    ⊎ ((done.outcome ≡ rejected_terminal)
        × (is_terminal r.status ≡ true)
        × (r.status ≢ status)
        × (done.session ≡ r)
        × (m' ≡ m))

module _ (now : ℕ → ℕ) where
  write_session_status-IsWrite :
      (id : String) (status : VerificationStatus) (r : SessionRecord) (m : Memory)
      (done : StatusWrite)
      → (write_session_status now id status r m).0 ≡ ok done
      → IsWrite (now m.clock) id status r done m (write_session_status now id status r m).1
  unfolding write_session_status
  write_session_status-IsWrite id status r m done h =
      elim (Bool-cases (same_status r.status status)) [
        | inl same ↦ inr (
            inl
              (ground arith, (same_status_iff r.status status).0 same, ground arith, ground arith))
        | inr different ↦
            let changed : r.status ≢ status =
              λ e. cc ((same_status_iff r.status status).1 e, different) in
            elim (Bool-cases (is_terminal r.status)) [
              | inl over ↦ inr (inr (ground arith, over, changed, ground arith, ground arith))
              | inr live ↦ inl (ground arith, live, changed, ground arith, ground arith)
            ]
      ]

  write_session_status_keeps :
      (id : String) (status : VerificationStatus) (r : SessionRecord) (m : Memory)
      (done : StatusWrite)
      → (write_session_status now id status r m).0 ≡ ok done
      → (done.previous_status ≡ r.status)
        × ((write_session_status now id status r m).1.audit ≡ m.audit)
  unfolding write_session_status
  write_session_status_keeps id status r m done h = (ground arith, ground arith)

  pub update_session_status_found :
      (id : String) (status : VerificationStatus) (m : Memory) (r : SessionRecord)
      → lookup id m.sessions ≡ some r
      → update_session_status now id status m ≡ write_session_status now id status r m
  unfolding update_session_status
  update_session_status_found id status m r found = ground arith

  -- Without the session the write throws and changes nothing.
  pub update_session_status_missing :
      (id : String) (status : VerificationStatus) (m : Memory)
      → lookup id m.sessions ≡ none
      → update_session_status now id status m ≡ (err not_found, m)
  unfolding update_session_status
  update_session_status_missing id status m missing = ground arith

  -- A status write that returns found the session, reports the status that it held, leaves the
  -- audit trail alone, and changed the row exactly when its outcome is `updated`.
  pub update_session_status-IsWrite :
      (id : String) (status : VerificationStatus) (m : Memory) (done : StatusWrite)
      → (update_session_status now id status m).0 ≡ ok done
      → (r : SessionRecord) × (lookup id m.sessions ≡ some r)
        × (done.previous_status ≡ r.status)
        × ((update_session_status now id status m).1.audit ≡ m.audit)
        × IsWrite (now m.clock) id status r done m (update_session_status now id status m).1
  update_session_status-IsWrite id status m done h = elim (Option-cases (lookup id m.sessions)) [
    | inl missing ↦ absurd (cc (update_session_status_missing id status m missing))
    | inr (r, found) ↦
        let step = update_session_status_found id status m r found in
        let written : (write_session_status now id status r m).0 ≡ ok done = rw step at h in
        let (previous, audit) = write_session_status_keeps id status r m done written in
        (
          r,
          found,
          previous,
          rw step audit,
          rw step (write_session_status-IsWrite id status r m done written),
        )
  ]

  write_session_status_ok :
      (id : String) (status : VerificationStatus) (r : SessionRecord) (m : Memory)
      → (done : StatusWrite) × ((write_session_status now id status r m).0 ≡ ok done)
  unfolding write_session_status
  write_session_status_ok id status r m = elim (Bool-cases (same_status r.status status)) [
    | inl same ↦ rw same (_, refl)
    | inr different ↦ rw different (elim (Bool-cases (is_terminal r.status)) [
      | inl over ↦ rw over (_, refl)
      | inr live ↦ rw live (_, refl)
    ])
  ]

  -- A status write on a session that is there returns: it reports the status that the session held
  -- and leaves the audit trail alone, and it changed the row exactly when its outcome is `updated`,
  -- which takes a session that is not terminal and another status.
  update_session_status-returns :
      (id : String) (status : VerificationStatus) (m : Memory) (r : SessionRecord)
      → lookup id m.sessions ≡ some r
      → (done : StatusWrite) × ((update_session_status now id status m).0 ≡ ok done)
        × (done.previous_status ≡ r.status)
        × ((update_session_status now id status m).1.audit ≡ m.audit)
        × IsWrite (now m.clock) id status r done m (update_session_status now id status m).1
  update_session_status-returns id status m r found =
      let (done, returned) = write_session_status_ok id status r m in
      let (previous, trail) = write_session_status_keeps id status r m done returned in
      rw (update_session_status_found id status m r found)
        (done, returned, previous, trail, write_session_status-IsWrite id status r m done returned)

  write_session_status-Extends :
      (id : String) (status : VerificationStatus) (r : SessionRecord) (m : Memory)
      → lookup id m.sessions ≡ some r
      → Extends m (write_session_status now id status r m).1
  unfolding write_session_status
  write_session_status-Extends id status r m found =
      elim (Bool-cases (same_status r.status status)) [
        | inl same ↦ rw same (Extends-refl m)
        | inr different ↦ rw different (elim (Bool-cases (is_terminal r.status)) [
          | inl over ↦ rw over (Extends-refl m)
          | inr live ↦ rw live (
              insert-Extends id r _ m _ found
                (record {
                  id = refl;
                  user_id = refl;
                  provider = refl;
                  level_name = refl;
                  locale = refl;
                  platform = refl;
                  created_at = refl;
                  applicant = inr refl;
                  final = inl live;
                })
                refl refl)
        ])
      ]

  pub update_session_status-Extends :
      (id : String) (status : VerificationStatus) (m : Memory)
      → Extends m (update_session_status now id status m).1
  update_session_status-Extends id status m = elim (Option-cases (lookup id m.sessions)) [
    | inl missing ↦ rw (update_session_status_missing id status m missing) (Extends-refl m)
    | inr (r, found) ↦
        rw (update_session_status_found id status m r found)
          (write_session_status-Extends id status r m found)
  ]
