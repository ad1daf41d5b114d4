-- ===== src/Service/Replay.antt =====
-- The statuses that the audit trail of packages/kyc-node tells of, by its `status_updated` rows
-- alone: an account of the sessions that knows nothing of the session table.
use kyc.Common.{
  String, ◌≡◌, refl, Bool, true, false, ◌&&◌, Option, none, some, List, [], ◌∷◌, ◌++◌, arith, ◌==◌,
  if◌then◌else◌,
}
use kyc.Types.{VerificationStatus, initial, is_verification_status}
use kyc.Audit.{AuditAction, status_updated, metadata_value, AuditEntry}
use kyc.Store.{Map, SessionRecord, lookup}

abbrev pub is_status_updated : AuditAction → Bool
is_status_updated status_updated = true
is_status_updated _ = false

-- The status that an entry says a session took.
abbrev pub status_change : String → AuditEntry → Option VerificationStatus
status_change id e =
    if e.session_id == id && is_status_updated e.action
    then is_verification_status (metadata_value "status" e.metadata)
    else none

abbrev pub replay_entry : String → VerificationStatus → AuditEntry → VerificationStatus
replay_entry id current e = elim (status_change id e) [ none ↦ current | some s ↦ s ]

replay_from : String → VerificationStatus → List AuditEntry → VerificationStatus
replay_from id current [] = current
replay_from id current (e ∷ es) = replay_from id (replay_entry id current e) es

-- The status that the trail, oldest entry first, leaves a session in.
unfoldable pub replay : String → List AuditEntry → VerificationStatus
unfolding replay_from
replay id trail = replay_from id initial trail

-- The status that the table has for a session; one that is not there counts as initial.
abbrev pub status_in : String → Map SessionRecord → VerificationStatus
status_in id sessions = elim (lookup id sessions) [ none ↦ initial | some r ↦ r.status ]

replay_from-append :
    (id : String) (current : VerificationStatus) (trail : List AuditEntry) (e : AuditEntry)
    → replay_from id current (trail ++ (e ∷ [])) ≡ replay_entry id (replay_from id current trail) e
unfolding replay_from
replay_from-append id current [] e = refl
replay_from-append id current (x ∷ trail) e =
    replay_from-append id (replay_entry id current x) trail e

pub replay-append :
    (id : String) (trail : List AuditEntry) (e : AuditEntry)
    → replay id (trail ++ (e ∷ [])) ≡ replay_entry id (replay id trail) e
unfolding replay
replay-append id trail e = replay_from-append id initial trail e

-- Entries of other kinds tell nothing of a status.
pub replay_other :
    (id : String) (trail : List AuditEntry) (e : AuditEntry)
    → is_status_updated e.action ≡ false
    → replay id (trail ++ (e ∷ [])) ≡ replay id trail
replay_other id trail e h = rw (replay-append id trail e) (ground arith)
