-- ===== src/Retry/Attempts.antt =====
-- packages/kyc-node/src/http.ts, `withRetry`: which calls are made, what comes of them, and how long
-- it waits in between.
use Prim.Native.Nat.{◌^◌}
use kyc.Common.{
  ℕ, zero, suc, ◌+◌, ◌-◌, ◌*◌, ◌≤◌, ◌<◌, ◌≡◌, refl, sym, subst, ap, ◌⊎◌, inl, inr, Bool-cases, true,
  false, List, [], ◌∷◌, ltb, arith,
}
use kyc.Retry.{
  CallError, not_error, RetryConfig, Outcome, returned, failed, Retried, should_retry, wait_after,
  settle, retry_from, with_retry,
}

-- A failure that a later attempt may not have.
abbrev pub IsTransient : {A : Type 0} → Outcome A → Type 0
IsTransient (returned a) = ⊥
IsTransient (failed e) = should_retry e ≡ true

-- An outcome that ends the rounds by itself.
abbrev pub IsDecisive : {A : Type 0} → Outcome A → Type 0
IsDecisive (returned a) = Unit
IsDecisive (failed e) = should_retry e ≡ false

-- The waits after the attempts from `attempt` on, `n` of them.
pub waits : (base attempt n : ℕ) → List ℕ
waits base attempt zero = []
waits base attempt (suc n) = (base * 2 ^ attempt) ∷ waits base (suc attempt) n

unfoldable pub total : List ℕ → ℕ
total [] = 0
total (x ∷ xs) = x + total xs

delay_doubles : (base attempt : ℕ) → base * 2 ^ suc attempt ≡ 2 * (base * 2 ^ attempt)
delay_doubles base attempt = grind arith

at_zero : (n end : ℕ) → 0 + n ≡ end → n ≡ end
at_zero n end h = omega arith

total-waits :
    (base attempt n end : ℕ)
    → n + attempt ≡ end
    → total (waits base attempt n) + base * 2 ^ attempt ≡ base * 2 ^ end
unfolding total waits
total-waits base attempt zero end h = rw (at_zero attempt end h) (omega arith)
total-waits base attempt (suc n) end h =
    omega (arith, total-waits base (suc attempt) n end (omega arith), delay_doubles base attempt)

delay_grows : (base n more end : ℕ) → more + n ≡ end → base * 2 ^ n ≤ base * 2 ^ end
delay_grows base n zero end h = rw (at_zero n end h) (omega arith)
delay_grows base n (suc more) end h =
    let e : base * 2 ^ n ≤ base * 2 ^ (more + n) = delay_grows base n more (more + n) refl in
    let h' : suc (more + n) ≡ end = omega arith in
    rw (← h') (omega (arith, e, delay_doubles base (more + n)))

module _ {S A : Type 0} (fn : S → Outcome A × S) (config : RetryConfig) where
  -- The state after a number of calls, whatever they answer.
  unfoldable pub after_calls : ℕ → S → S
  after_calls zero s = s
  after_calls (suc n) s = after_calls n (fn s).1

  -- What the call number `n` answers, from 0.
  abbrev pub answer : ℕ → S → Outcome A
  answer n s = (fn (after_calls n s)).0

  -- The rounds end with the call number `last`: every call before it failed in a way that is
  -- retried, its own outcome is the result, and it was decisive or the last that is allowed.
  pub record IsRetried (left attempt : ℕ) (s : S) (r : Retried S A) : Type 0 where
    pub last : ℕ
    pub bounded : last < left
    pub retried : (j : ℕ) → j < last → IsTransient (answer j s)
    pub outcome : r.outcome ≡ answer last s
    pub state : r.state ≡ after_calls (suc last) s
    pub ended : IsDecisive (answer last s) ⊎ (suc last ≡ left)
    pub slept : r.slept ≡ waits config.base_delay attempt last

  at_once :
      (left attempt : ℕ) (s s' : S) (o : Outcome A)
      → fn s ≡ (o, s')
      → IsDecisive o ⊎ (1 ≡ suc left)
      → IsRetried (suc left) attempt s (record { outcome = o; state = s'; slept = [] })
  unfolding after_calls waits
  at_once left attempt s s' o h d = record {
    last = 0;
    bounded = omega arith;
    retried = λ j lt. absurd (omega arith);
    outcome = ap (λ x. x.0) (sym h);
    state = ap (λ x. x.1) (sym h);
    ended = rw (ap (λ x. x.0) h) d;
    slept = refl;
  }

  retried_first :
      (s : S) {e : CallError}
      → (fn s).0 ≡ failed e
      → should_retry e ≡ true
      → (last : ℕ) → ((j : ℕ) → j < last → IsTransient (answer j (fn s).1))
      → (k : ℕ) → k < suc last
      → IsTransient (answer k s)
  unfolding after_calls
  retried_first s h transient last later zero lt = rw h transient
  retried_first s h transient last later (suc k) lt = later k (omega arith)

  -- A round that is retried, before rounds that end as they should.
  one_more :
      (left attempt : ℕ) (s s' : S) (e : CallError) (r : Retried S A)
      → fn s ≡ (failed e, s')
      → should_retry e ≡ true
      → suc attempt + suc left ≡ config.max_attempts
      → IsRetried (suc left) (suc attempt) s' r
      → IsRetried
          (suc (suc left))
          attempt
          s
          (record r { slept = wait_after fn config attempt r.slept })
  unfolding after_calls waits
  one_more left attempt s s' e r h transient m i =
      let j : IsRetried (suc left) (suc attempt) (fn s).1 r =
        subst (λ t. IsRetried (suc left) (suc attempt) t r) (ap (λ x. x.1) (sym h)) i in
      let waited : ltb attempt (config.max_attempts - 1) ≡ true = ground arith in
      record {
        last = suc j.last;
        bounded = let b = j.bounded in omega arith;
        retried = λ k lt. retried_first s (ap (λ x. x.0) h) transient j.last j.retried k lt;
        outcome = j.outcome;
        state = j.state;
        ended = elim j.ended [ inl d ↦ inl d | inr f ↦ inr (ap suc f) ];
        slept = rw (waited, j.slept) refl;
      }

  retry-IsRetried :
      (left attempt : ℕ) (s s' : S) (e : CallError)
      → fn s ≡ (failed e, s')
      → should_retry e ≡ true
      → attempt + suc left ≡ config.max_attempts
      → ((s' : S) (e : CallError)
          → 0 < left
          → IsRetried left (suc attempt) s' (retry_from fn config left (suc attempt) e s'))
      → IsRetried (suc left) attempt s (
          let rest : Retried S A = retry_from fn config left (suc attempt) e s' in
          record rest { slept = wait_after fn config attempt rest.slept })
  unfolding retry_from
  retry-IsRetried zero attempt s s' e h t m ih =
      let last : ltb attempt (config.max_attempts - 1) ≡ false = ground arith in
      rw last (at_once zero attempt s s' (failed e) h (inr refl))
  retry-IsRetried (suc left) attempt s s' e h t m ih =
      one_more left attempt s s' e _ h t (omega arith) (ih s' e (omega arith))

  settle-IsRetried :
      (left attempt : ℕ) (s : S) (x : Outcome A × S)
      → fn s ≡ x
      → attempt + suc left ≡ config.max_attempts
      → ((s' : S) (e : CallError)
          → 0 < left
          → IsRetried left (suc attempt) s' (retry_from fn config left (suc attempt) e s'))
      → IsRetried
          (suc left)
          attempt
          s
          (settle fn config attempt (retry_from fn config left (suc attempt)) x)
  unfolding retry_from
  settle-IsRetried left attempt s (returned a, s') h m ih =
      at_once left attempt s s' (returned a) h (inl tt)
  settle-IsRetried left attempt s (failed e, s') h m ih = elim (Bool-cases (should_retry e)) [
    | inl t ↦ rw (t, settle) (retry-IsRetried left attempt s s' e h t m ih)
    | inr f ↦ rw (f, settle) (at_once left attempt s s' (failed e) h (inl f))
  ]

  retry_from-IsRetried :
      (left attempt : ℕ) (e : CallError) (s : S)
      → attempt + left ≡ config.max_attempts
      → 0 < left
      → IsRetried left attempt s (retry_from fn config left attempt e s)
  unfolding retry_from
  retry_from-IsRetried zero attempt e s m lt = absurd (omega arith)
  retry_from-IsRetried (suc left) attempt e s m lt =
      settle-IsRetried left attempt s (fn s) refl m
        (λ s' e' more. retry_from-IsRetried left (suc attempt) e' s' (omega arith) more)

  -- With at least one attempt allowed, a retried call ends after at most that many attempts. Every
  -- attempt before the last failed with an error that is retried, the last one's outcome and state
  -- are the result's, and it succeeded, failed with an error that is not retried, or was the last
  -- one allowed. In between it waited the base delay, doubled after each attempt.
  pub with_retry-IsRetried :
      (s : S) → 0 < config.max_attempts → IsRetried config.max_attempts 0 s (with_retry fn config s)
  unfolding with_retry
  with_retry-IsRetried s lt =
      retry_from-IsRetried config.max_attempts 0 not_error s (omega arith) lt

  -- The waits of a retried call stay below the base delay times 2 to the number of attempts less
  -- one: with the delay that follows the last attempt they would come to at most that.
  total-with_retry-le :
      (s : S)
      → 0 < config.max_attempts
      → total (with_retry fn config s).slept + config.base_delay
        ≤ config.base_delay * 2 ^ (config.max_attempts - 1)
  total-with_retry-le s lt =
      let r = with_retry-IsRetried s lt in
      let bounded = r.bounded in
      let sum = total-waits config.base_delay 0 r.last r.last (omega arith) in
      let grows =
        delay_grows config.base_delay r.last (config.max_attempts - 1 - r.last)
          (config.max_attempts - 1) (omega arith) in
      rw r.slept (omega (arith, sum, grows))
