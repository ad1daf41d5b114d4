-- ===== src/Client/Reachable.antt =====
-- packages/kyc-core/src/verification/machine.ts: what every state of the screen that actions lead to
-- satisfies.
use kyc.Common.{◌≡◌, refl, none, some, List, [], ◌∷◌, arith}
use kyc.Types.{approved}
use kyc.Types.Laws.{same_status_iff}
use kyc.Client.Vocabulary.{IdentityVerificationResult}
use kyc.Client.Machine.{
  VerificationState, permission_denied, success, MachineState, MachineAction, begin, go_offline,
  await_review, cancelled, clear_session, permission, start_session, applicant, outcome, failed,
  IdentityVerificationError, PermissionReason, initial_machine_state, machine_reducer,
}

-- The screen of a failure has its error, the screen of a refused permission its reason, and the
-- screen of a success a result that is approved, and no error.
pub record IsConsistent (s : MachineState) : Type 0 where
  pub failure :
      s.status ≡ VerificationState.error → (e : IdentityVerificationError) × (s.error ≡ some e)
  pub refusal :
      s.status ≡ permission_denied → (r : PermissionReason) × (s.permission_reason ≡ some r)
  pub approval :
      s.status ≡ success
      → ((r : IdentityVerificationResult) × (s.result ≡ some r) × (r.status ≡ approved))
        × (s.error ≡ none)

pub machine_reducer-IsConsistent :
    (s : MachineState) (a : MachineAction) → IsConsistent s → IsConsistent (machine_reducer s a)
unfolding machine_reducer
machine_reducer-IsConsistent s begin c = record {
  failure = λ h. cc;
  refusal = λ h. cc;
  approval = λ h. cc;
}
machine_reducer-IsConsistent s (permission r) c = record {
  failure = λ h. cc;
  refusal = λ h. (r, refl);
  approval = λ h. cc;
}
machine_reducer-IsConsistent s go_offline c = record {
  failure = λ h. cc;
  refusal = λ h. cc;
  approval = λ h. cc;
}
machine_reducer-IsConsistent s (start_session x) c = record {
  failure = λ h. cc;
  refusal = λ h. cc;
  approval = λ h. cc;
}
machine_reducer-IsConsistent s (applicant x) c = record {
  failure = c.failure;
  refusal = c.refusal;
  approval = c.approval;
}
machine_reducer-IsConsistent s await_review c = record {
  failure = λ h. cc;
  refusal = λ h. cc;
  approval = λ h. cc;
}
machine_reducer-IsConsistent s (outcome r) c = record {
  failure = λ h. absurd (ground arith);
  refusal = λ h. absurd (ground arith);
  approval = λ h. ((r, refl, (same_status_iff r.status approved).0 (ground arith)), refl);
}
machine_reducer-IsConsistent s cancelled c = record {
  failure = λ h. cc;
  refusal = λ h. cc;
  approval = λ h. cc;
}
machine_reducer-IsConsistent s (failed e keep) c = record {
  failure = λ h. (e, refl);
  refusal = λ h. cc;
  approval = λ h. cc;
}
machine_reducer-IsConsistent s clear_session c = record {
  failure = c.failure;
  refusal = c.refusal;
  approval = c.approval;
}

-- The state that a sequence of actions leads to, from the idle screen.
pub reduce_all : MachineState → List MachineAction → MachineState
reduce_all s [] = s
reduce_all s (a ∷ as') = reduce_all (machine_reducer s a) as'

reduce_all-IsConsistent :
    (s : MachineState) (actions : List MachineAction)
    → IsConsistent s
    → IsConsistent (reduce_all s actions)
unfolding reduce_all
reduce_all-IsConsistent s [] c = c
reduce_all-IsConsistent s (a ∷ rest) c =
    reduce_all-IsConsistent (machine_reducer s a) rest (machine_reducer-IsConsistent s a c)

-- Whatever actions follow the idle screen: an error screen has its error, a permission screen its
-- reason, and a success screen an approved result and no error.
reduce_all-initial-IsConsistent :
    (actions : List MachineAction) → IsConsistent (reduce_all initial_machine_state actions)
reduce_all-initial-IsConsistent actions =
    reduce_all-IsConsistent initial_machine_state actions
      (record { failure = λ h. cc; refusal = λ h. cc; approval = λ h. cc })
