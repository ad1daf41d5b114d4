-- ===== src/Action.antt =====
-- A call that reads and writes a state, and returns or throws. What was written before a throw
-- stays written, as in the source; a transaction rolls back by itself.
use kyc.Errors.{Thrown}

pub data Result (A : Type 0) : Type 0 where
  ok : A → Result A
  err : Thrown → Result A

abbrev pub Action : Type 0 → Type 0 → Type 0
Action S A = S → Result A × S

module _ {S A : Type 0} where
  abbrev pub pure : A → Action S A
  pure a s = (ok a, s)

  abbrev pub throw : Thrown → Action S A
  throw e s = (err e, s)

  abbrev pub gets : (S → A) → Action S A
  gets f s = (ok (f s), s)

  -- `return` of a call that may throw
  abbrev pub from_result : Result A → Action S A
  from_result r s = (r, s)

  -- `try { m } catch (error) { handle(error) }`
  abbrev pub try_catch : Action S A → (Thrown → Action S A) → Action S A
  try_catch m handle s = let (r, s') = m s in elim r [ ok a ↦ (ok a, s') | err e ↦ handle e s' ]

infixl 5 ◌>>=◌ ◌>>◌
abbrev pub ◌>>=◌ : {S A B : Type 0} → Action S A → (A → Action S B) → Action S B
◌>>=◌ m f s = let (r, s') = m s in elim r [ ok a ↦ f a s' | err e ↦ (err e, s') ]

abbrev pub ◌>>◌ : {S A B : Type 0} → Action S A → Action S B → Action S B
m >> k = m >>= λ _. k

abbrev pub modify : {S : Type 0} → (S → S) → Action S (Unit {0})
modify f s = (ok tt, f s)
