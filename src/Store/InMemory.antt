-- ===== src/Store/InMemory.antt =====
-- packages/kyc-node/src/store.ts, `createMemorySessionStore`: the two tables, and the operations.
-- The clock is the count of the readings made of `now`, which is a parameter; a date is its number
-- of milliseconds.
use kyc.Common.{
  ℕ, suc, String, Bool, not, ◌&&◌, Option, none, some, List, [], ◌∷◌, ◌++◌, ◌==◌, if◌then◌else◌,
  same_option, is_some,
}
use mathlib.Core.List.{reverse}
use kyc.Types.{VerificationStatus, initial, VerificationPlatform, same_status, is_terminal}
use kyc.Errors.{Thrown, object, absent}
use kyc.Audit.{NewAuditEntry, AuditEntry}
use kyc.Action.{ok, Action, ◌>>=◌, throw}
use kyc.Store.Entries.{Map, lookup, insert, values}
use kyc.Store.Order.{SessionRecord, first, filter, newest_first, pick_session_for_applicant}

pub record NewSession : Type 0 where
  pub id : String
  pub user_id : String
  pub provider : String
  pub platform : VerificationPlatform
  pub level_name : Option String
  pub locale : Option String
  pub provider_applicant_id : Option String

pub data StatusWriteOutcome : Type 0 where
  updated unchanged rejected_terminal : StatusWriteOutcome

pub record StatusWrite : Type 0 where
  pub outcome : StatusWriteOutcome
  pub previous_status : VerificationStatus
  pub session : SessionRecord

pub record Memory : Type 0 where
  pub sessions : Map SessionRecord
  -- oldest first
  pub audit : List AuditEntry
  pub clock : ℕ

abbrev pub not_found : Thrown
not_found = object absent absent "Verification session not found"

abbrev pub set_session : String → SessionRecord → Memory → Memory
set_session id r m = record m { sessions = insert id r m.sessions }

-- The snapshot is written back when the callback throws; the clock is no part of it.
abbrev pub restore : Memory → Memory → Memory
restore before after = record after { sessions = before.sessions; audit = before.audit }

-- `require(id)`
abbrev pub require : String → Action Memory SessionRecord
require id m = elim (lookup id m.sessions) [ none ↦ throw not_found m | some r ↦ (ok r, m) ]

unfoldable pub get_session_by_id : String → Memory → Option SessionRecord
get_session_by_id id m = lookup id m.sessions

-- `record && test(record) ? { ...record } : null`
abbrev pub keep_if : (SessionRecord → Bool) → Option SessionRecord → Option SessionRecord
keep_if test none = none
keep_if test (some r) = if test r then some r else none

unfoldable pub get_session_by_id_for_user : String → String → Memory → Option SessionRecord
get_session_by_id_for_user id user m = keep_if (λ r. r.user_id == user) (lookup id m.sessions)

unfoldable pub get_session_by_provider_applicant_id :
    String → Option String → Memory → Option SessionRecord
get_session_by_provider_applicant_id applicant level_name m =
    pick_session_for_applicant
      (filter (λ r. same_option r.provider_applicant_id (some applicant)) (values m.sessions))
      level_name

unfoldable pub get_latest_unbound_session_for_user : String → String → Memory → Option SessionRecord
get_latest_unbound_session_for_user user provider m = first (
    newest_first (
      filter
        (λ r. r.user_id == user && r.provider == provider && not (is_some r.provider_applicant_id))
        (values m.sessions)))

unfoldable pub get_latest_session_for_user : String → String → Memory → Option SessionRecord
get_latest_session_for_user user provider m =
    first
      (newest_first (filter (λ r. r.user_id == user && r.provider == provider) (values m.sessions)))

unfoldable pub entries_of : String → List AuditEntry → List AuditEntry
entries_of session [] = []
entries_of session (e ∷ es) =
    if e.session_id == session then e ∷ entries_of session es else entries_of session es

-- newest first
unfoldable pub list_audit_entries : String → Memory → List AuditEntry
list_audit_entries session m = reverse (entries_of session m.audit)

module _ (now : ℕ → ℕ) where
  -- `now()`
  abbrev pub read_clock : Action Memory ℕ
  read_clock m = (ok (now m.clock), record m { clock = suc m.clock })

  unfoldable pub create_session : NewSession → Action Memory SessionRecord
  create_session d m =
      let timestamp = now m.clock in
      let r : SessionRecord = record {
        id = d.id;
        user_id = d.user_id;
        provider = d.provider;
        provider_applicant_id = d.provider_applicant_id;
        level_name = d.level_name;
        locale = d.locale;
        platform = d.platform;
        status = initial;
        created_at = timestamp;
        updated_at = timestamp;
      } in
      (ok r, set_session d.id r (record m { clock = suc m.clock }))

  -- The conditional write on the row that `require` found: the same status is no change, and a
  -- terminal one is not left.
  unfoldable pub write_session_status :
      String → VerificationStatus → SessionRecord → Action Memory StatusWrite
  write_session_status id status current m =
      let same : StatusWrite = record {
        outcome = unchanged;
        previous_status = current.status;
        session = current;
      } in
      let next : SessionRecord = record current { status = status; updated_at = now m.clock } in
      if same_status current.status status
      then (ok same, m)
      else if is_terminal current.status
      then (ok (record same { outcome = rejected_terminal }), m)
      else (
        ok (record { outcome = updated; previous_status = current.status; session = next }),
        set_session id next (record m { clock = suc m.clock }),
      )

  unfoldable pub update_session_status : String → VerificationStatus → Action Memory StatusWrite
  update_session_status id status = do current ← require id; write_session_status id status current

  -- The row that `require` found, unless another applicant holds it already.
  unfoldable pub write_applicant_id : String → String → SessionRecord → Action Memory SessionRecord
  write_applicant_id id applicant current m =
      let bound : SessionRecord = record current {
        provider_applicant_id = some applicant;
        updated_at = now m.clock;
      } in
      if is_some current.provider_applicant_id
        && not (same_option current.provider_applicant_id (some applicant))
      then (ok current, m)
      else (ok bound, set_session id bound (record m { clock = suc m.clock }))

  unfoldable pub bind_applicant_id : String → String → Action Memory SessionRecord
  bind_applicant_id id applicant = do current ← require id; write_applicant_id id applicant current

  unfoldable pub append_audit_entry : NewAuditEntry → Action Memory (Unit {0})
  append_audit_entry e m =
      let entry : AuditEntry = record {
        id = e.id;
        session_id = e.session_id;
        action = e.action;
        timestamp = now m.clock;
        metadata = e.metadata;
      } in
      (ok tt, record m { audit = m.audit ++ (entry ∷ []); clock = suc m.clock })
