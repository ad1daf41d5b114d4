-- ===== src/Service/Rules.antt =====
-- How a property of the service's state passes through its calls: an invariant that every call
-- keeps, with a relation between the states before and after it, which composes.
use kyc.Common.{◌≡◌, refl, Bool, true, false, if◌then◌else◌}
use kyc.Errors.{Thrown}
use kyc.Action.{Result, ok, err, Action, pure, throw, from_result, try_catch, ◌>>=◌}

-- Whether the call returns or throws, the invariant holds after it, and the states are related.
pub record Keeps {S A : Type 0} (I : S → Type 0) (R : S → S → Type 0) (m : Action S A)
    : Type 0 where
  pub keeps : (s : S) → I s → I (m s).1 × R s (m s).1

-- So where the call returns.
pub record Commits {S A : Type 0} (I : S → Type 0) (R : S → S → Type 0) (m : Action S A)
    : Type 0 where
  pub commits : (s : S) (a : A) → I s → (m s).0 ≡ ok a → I (m s).1 × R s (m s).1

pub record IsPreorder {S : Type 0} (R : S → S → Type 0) : Type 0 where
  pub reflexive : (s : S) → R s s
  pub transitive : (s t u : S) → R s t → R t u → R s u

module _ {S : Type 0} (I : S → Type 0) (R : S → S → Type 0) (o : IsPreorder R) where
  pub Keeps-pure : {A : Type 0} (a : A) → Keeps I R (pure {S = S} a)
  Keeps-pure a = record { keeps = λ s i. (i, o.reflexive s) }

  pub Keeps-throw : {A : Type 0} (e : Thrown) → Keeps I R (throw {S = S} {A = A} e)
  Keeps-throw e = record { keeps = λ s i. (i, o.reflexive s) }

  pub Keeps-from_result : {A : Type 0} (r : Result A) → Keeps I R (from_result {S = S} r)
  Keeps-from_result r = record { keeps = λ s i. (i, o.reflexive s) }

  module _ {A B : Type 0} where
    after_bind :
        (f : A → Action S B) (s t : S) (r : Result A)
        → ((a : A) → Keeps I R (f a))
        → I t × R s t
        → let done : Result B × S = elim r [ ok a ↦ f a t | err e ↦ (err e, t) ] in
          I done.1 × R s done.1
    after_bind f s t (ok a) k (i, p) =
        let (j, q) = (k a).keeps t i in (j, o.transitive s t (f a t).1 p q)
    after_bind f s t (err e) k h = h

    pub Keeps-bind :
        {m : Action S A} {f : A → Action S B}
        → Keeps I R m
        → ((a : A) → Keeps I R (f a))
        → Keeps I R (m >>= f)
    Keeps-bind {m} {f} h k = record {
      keeps = λ s i. after_bind f s (m s).1 (m s).0 k (h.keeps s i);
    }

    after_commit :
        (f : A → Action S B) (s t : S) (r : Result A) (b : B)
        → ((a : A) → Commits I R (f a))
        → I t × R s t
        → let done : Result B × S = elim r [ ok a ↦ f a t | err e ↦ (err e, t) ] in
          done.0 ≡ ok b → I done.1 × R s done.1
    after_commit f s t (ok a) b k (i, p) e =
        let (j, q) = (k a).commits t b i e in (j, o.transitive s t (f a t).1 p q)
    after_commit f s t (err x) b k h e = h

    pub Commits-bind :
        {m : Action S A} {f : A → Action S B}
        → Keeps I R m
        → ((a : A) → Commits I R (f a))
        → Commits I R (m >>= f)
    Commits-bind {m} {f} h k = record {
      commits = λ s b i. after_commit f s (m s).1 (m s).0 b k (h.keeps s i);
    }

  pub Commits-of_Keeps : {A : Type 0} {m : Action S A} → Keeps I R m → Commits I R m
  Commits-of_Keeps h = record { commits = λ s a i _. h.keeps s i }

  module _ {A : Type 0} where
    after_catch :
        (handle : Thrown → Action S A) (s t : S) (r : Result A)
        → ((e : Thrown) → Keeps I R (handle e))
        → I t × R s t
        → let done : Result A × S = elim r [ ok a ↦ (ok a, t) | err e ↦ handle e t ] in
          I done.1 × R s done.1
    after_catch handle s t (ok a) k h = h
    after_catch handle s t (err e) k (i, p) =
        let (j, q) = (k e).keeps t i in (j, o.transitive s t (handle e t).1 p q)

    pub Keeps-try_catch :
        {m : Action S A} {handle : Thrown → Action S A}
        → Keeps I R m
        → ((e : Thrown) → Keeps I R (handle e))
        → Keeps I R (try_catch m handle)
    Keeps-try_catch {m} {handle} h k = record {
      keeps = λ s i. after_catch handle s (m s).1 (m s).0 k (h.keeps s i);
    }

    pub Commits-if :
        (b : Bool) {m n : Action S A}
        → Commits I R m
        → Commits I R n
        → Commits I R (if b then m else n)
    Commits-if true h k = h
    Commits-if false h k = k

    pub Keeps-if :
        (b : Bool) {m n : Action S A} → Keeps I R m → Keeps I R n → Keeps I R (if b then m else n)
    Keeps-if true h k = h
    Keeps-if false h k = k

-- A bind that returns is a call that returned, and then the rest.
pub >>=-ok :
    {S A B : Type 0} (m : Action S A) (f : A → Action S B) (s : S) (b : B)
    → ((m >>= f) s).0 ≡ ok b
    → (a : A) × ((m s).0 ≡ ok a) × ((f a (m s).1).0 ≡ ok b) × ((m >>= f) s ≡ f a (m s).1)
>>=-ok {S} {A} {B} m f s b h = go (m s).0 (m s).1 h
  where
    go :
        (r : Result A) (t : S)
        → (let done : Result B × S = elim r [ ok a ↦ f a t | err e ↦ (err e, t) ] in done.0 ≡ ok b)
        → (a : A) × (r ≡ ok a)
          × ((f a t).0 ≡ ok b)
          × ◌≡◌ {A = Result B × S} (elim r [ ok a ↦ f a t | err e ↦ (err e, t) ]) (f a t)
    go (ok a) t k = (a, refl, k, refl)
    go (err e) t k = cc
