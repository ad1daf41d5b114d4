-- ===== src/Client/Plans.antt =====
-- packages/kyc-core/src/verification/machine.ts: the two halves of a plan - the action the reducer
-- applies and the effect the host performs - tell the same story.
use kyc.Common.{◌≡◌, refl, ◌⊎◌, inl, inr, Bool, true, false, Option, none, some, arith, Bool-cases}
use kyc.Types.{VerificationStatus, approved, same_status}
use kyc.Types.Laws.{same_status_iff}
use kyc.Client.Vocabulary.{VerificationEvent, IdentityVerificationResult}
use kyc.Client.Machine.{
  IdentityVerificationError, to_identity_verification_error, VerificationState, success,
  MachineState, MachineAction, VerificationEffect, initial_machine_state, machine_reducer,
  plan_event,
}

-- What the reducer does with the action of a plan, if the plan has one.
unfoldable pub advance : MachineState → Option MachineAction → MachineState
advance s none = s
advance s (some a) = machine_reducer s a

-- The effect that an event is owed: it carries what the event says.
unfoldable pub IsEffectOf : VerificationEvent → Option VerificationEffect → Type 0
IsEffectOf (VerificationEvent.applicant_loaded id) effect = effect ≡ none
IsEffectOf VerificationEvent.submitted effect =
    effect ≡ some (VerificationEffect.status_change VerificationStatus.pending)
IsEffectOf (VerificationEvent.status_changed s) effect =
    effect ≡ some (VerificationEffect.status_change s)
IsEffectOf (VerificationEvent.complete s id) effect =
    (r : IdentityVerificationResult) × ((delayed : Bool) × ((effect
          ≡ some (VerificationEffect.completed r delayed))
        × (r.status ≡ s)))
IsEffectOf VerificationEvent.cancel effect = effect ≡ some VerificationEffect.call_cancel
IsEffectOf VerificationEvent.token_expired effect = effect ≡ some VerificationEffect.refresh_token
IsEffectOf VerificationEvent.session_expired effect =
    (e : IdentityVerificationError) × ((effect ≡ some (VerificationEffect.call_error e))
      × (e.code ≡ "TOKEN_EXPIRED"))
IsEffectOf (VerificationEvent.error code message) effect =
    (e : IdentityVerificationError) × ((effect ≡ some (VerificationEffect.call_error e))
      × (e.code ≡ code))

-- What an effect tells the host about the screen's next state.
unfoldable pub Announces : Option VerificationEffect → MachineState → MachineState → Type 0
Announces none old new =
    (new.status ≡ old.status) × (new.result ≡ old.result) × (new.error ≡ old.error)
Announces (some (VerificationEffect.status_change s)) old new =
    (((s ≡ VerificationStatus.pending) × (new.status ≡ VerificationState.pending))
      ⊎ ((s ≡ VerificationStatus.pending → ⊥) × (new.status ≡ old.status)))
    × (new.session ≡ old.session)
    × (new.result ≡ old.result)
    × (new.error ≡ old.error)
Announces (some (VerificationEffect.completed r delayed)) old new =
    (new.result ≡ some r)
    × (new.error ≡ none)
    × (new.session ≡ old.session)
    × (((delayed ≡ true) × (new.status ≡ success) × (r.status ≡ approved))
        ⊎ ((delayed ≡ false)
            × (new.status ≡ VerificationState.pending)
            × (r.status ≡ approved → ⊥)))
Announces (some VerificationEffect.call_cancel) old new = new ≡ initial_machine_state
Announces (some VerificationEffect.refresh_token) old new = new ≡ old
Announces (some (VerificationEffect.call_error e)) old new =
    (new.status ≡ VerificationState.error) × (new.error ≡ some e) × (new.result ≡ none)

-- For every event of every session: the plan's effect is the event's own, with its status or its
-- error code, and what it tells the host is what the screen shows once the reducer has applied the
-- plan's action. A status change to pending shows the screen pending, one to any other status leaves
-- the screen's status, and both leave session, result and error as they were. A completed effect
-- carries the result of the screen, and is delayed exactly when the screen shows a success, whose
-- result is approved; an error effect carries the screen's error; a cancel leads to the first
-- screen; and a token refresh, like a plan without an effect, leaves status, result and error as
-- they were.
pub plan_event-Announces :
    (state : MachineState) (event : VerificationEvent)
    → IsEffectOf event (plan_event event state.session).effect
      × Announces
          (plan_event event state.session).effect
          state
          (advance state (plan_event event state.session).action)
unfolding plan_event machine_reducer advance Announces IsEffectOf to_identity_verification_error
plan_event-Announces state (VerificationEvent.applicant_loaded id) = (refl, (refl, refl, refl))
plan_event-Announces state VerificationEvent.submitted =
    (refl, (inl (refl, refl), refl, refl, refl))
plan_event-Announces state (VerificationEvent.status_changed s) = (
  refl,
  elim (Bool-cases (same_status s VerificationStatus.pending)) [
    | inl h ↦
        rw h (inl ((same_status_iff s VerificationStatus.pending).0 h, refl), refl, refl, refl)
    | inr h ↦ rw h (
      inr (λ e. let same = (same_status_iff s VerificationStatus.pending).1 e in cc, refl),
      refl,
      refl,
      refl,
    )
  ],
)
plan_event-Announces state (VerificationEvent.complete s id) = (
  (_, (_, (refl, refl))),
  (
    refl,
    refl,
    refl,
    elim (Bool-cases (same_status s approved)) [
      | inl h ↦ inl (h, ground arith, (same_status_iff s approved).0 h)
      | inr h ↦ inr (h, ground arith, λ e. ground (arith, same_status_iff s approved))
    ],
  ),
)
plan_event-Announces state VerificationEvent.cancel = (refl, refl)
plan_event-Announces state VerificationEvent.token_expired = (refl, refl)
plan_event-Announces state VerificationEvent.session_expired =
    ((_, (refl, refl)), (refl, refl, refl))
plan_event-Announces state (VerificationEvent.error code message) =
    ((_, (refl, refl)), (refl, refl, refl))
