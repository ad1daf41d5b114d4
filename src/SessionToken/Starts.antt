-- ===== src/SessionToken/Starts.antt =====
-- packages/kyc-core/src/verification/sessionToken.ts: how many sessions the token provider starts,
-- over every order of calls, ends of starts, and resets.
use kyc.Common.{
  ℕ, ◌+◌, ◌≤◌, ◌≡◌, refl, true, Option, none, some, String, List, [], ◌∷◌, All, given, arith,
}
use kyc.SessionToken.{
  Starting, pending, TokenProvider, TokenEvent, get_access_token, reset, start_resolves,
  start_rejects, start_finishes, token_for, step, run, create_session_token_provider,
}

abbrev pub held : Option String → ℕ
held none = 0
held (some id) = 1

abbrev pub under_way : Starting → ℕ
under_way pending = 1
under_way _ = 0

-- A started session has an id.
abbrev pub IsNamed : TokenEvent → Type 0
IsNamed (start_resolves id) = given (some id) ≡ true
IsNamed _ = Unit

-- No session is held while a start is pending. Every start has succeeded, failed, or is the one
-- under way; and every one that succeeded was forgotten since, or is the one that is held.
pub record IsSingle (p : TokenProvider) : Type 0 where
  pub named : (id : String) → p.session_id ≡ some id → given (some id) ≡ true
  pub exclusive : under_way p.starting + held p.session_id ≤ 1
  pub ended : p.starts ≡ p.started + p.rejected + under_way p.starting
  pub counted : p.started ≤ p.resets + held p.session_id

token_for-IsSingle :
    (p : TokenProvider) (o : Option String)
    → p.session_id ≡ o
    → IsSingle p
    → IsSingle (token_for o p)
token_for-IsSingle p none h i = ground arith
token_for-IsSingle p (some id) h i =
    let full = i.named id h in
    rw full
      (record { named = i.named; exclusive = i.exclusive; ended = i.ended; counted = i.counted })

resolve-IsSingle :
    (id : String) (p : TokenProvider)
    → given (some id) ≡ true
    → IsSingle p
    → IsSingle (step (start_resolves id) p)
unfolding step
resolve-IsSingle id p n i = ground arith

step-IsSingle : (e : TokenEvent) (p : TokenProvider) → IsNamed e → IsSingle p → IsSingle (step e p)
unfolding step
step-IsSingle get_access_token p n i = token_for-IsSingle p p.session_id refl i
step-IsSingle reset p n i = ground arith
step-IsSingle (start_resolves id) p n i = resolve-IsSingle id p n i
step-IsSingle start_rejects p n i = ground arith
step-IsSingle start_finishes p n i = ground arith

at_most_one : (n m : ℕ) (o : Option String) → n ≤ m + held o → n ≤ m + 1
at_most_one n m none h = omega arith
at_most_one n m (some id) h = omega arith

run-IsSingle :
    (events : List TokenEvent) (p : TokenProvider)
    → All IsNamed events
    → IsSingle p
    → IsSingle (run events p)
unfolding run
run-IsSingle [] p n i = i
run-IsSingle (e ∷ es) p n i = run-IsSingle es (step e p) n.1 (step-IsSingle e p n.0 i)

-- In whatever order callers ask for tokens and forget the session, and starts end, with an id that
-- is not empty where they succeed: every start that was made has succeeded, failed, or is the only
-- one under way; and at most one more has succeeded than times the session was forgotten.
pub run_starts :
    (events : List TokenEvent)
    → All IsNamed events
    → let p : TokenProvider = run events create_session_token_provider in
      (p.starts ≡ p.started + p.rejected + under_way p.starting) × (p.started ≤ p.resets + 1)
run_starts events named =
    let i = run-IsSingle events create_session_token_provider named (record {
      named = λ id h. cc;
      exclusive = omega arith;
      ended = omega arith;
      counted = omega arith;
    }) in
    let counted = i.counted in
    (i.ended, at_most_one _ _ (run events create_session_token_provider).session_id counted)

-- A session that is forgotten while its start is pending comes back: once the start succeeds, with
-- an id that is not empty, the next call refreshes that session, and no start was made since.
pub run_reset_while_pending :
    (p : TokenProvider) (id : String)
    → p.starting ≡ pending
    → given (some id) ≡ true
    → let q : TokenProvider =
        run
          (reset ∷ get_access_token ∷ start_resolves id ∷ start_finishes ∷ get_access_token ∷ [])
          p in
      (q.starts ≡ p.starts) × (q.refreshed ≡ id ∷ p.refreshed) × (q.session_id ≡ some id)
unfolding run step
run_reset_while_pending p id busy named = ground arith
