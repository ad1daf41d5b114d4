-- ===== src/Store/Newest.antt =====
-- packages/kyc-node/src/store.ts: which of several sessions `pickSessionForApplicant` and the two
-- "latest" lookups return, against a description that knows nothing of sorting.
use kyc.Common.{
  sym, ◌∙◌, ap, ℕ, ◌≤◌, ◌≡◌, refl, ◌↔◌, ◌⊎◌, inl, inr, Bool, true, false, none, some, List, [], ◌∷◌,
  arith, leb, All, Bool-cases,
}
use kyc.Store.Order.{SessionRecord, find, filter, place, newest_first, first}

-- `r` is one of the records.
abbrev pub IsAmong : SessionRecord → List SessionRecord → Type 0
IsAmong r [] = ⊥
IsAmong r (x ∷ xs) = (r ≡ x) ⊎ IsAmong r xs

-- Among the records that pass the test, none is newer than `r`, which is one of them.
pub record IsNewest (test : SessionRecord → Bool) (records : List SessionRecord) (r : SessionRecord)
    : Type 0 where
  pub among : IsAmong r records
  pub passes : test r ≡ true
  pub newest : (x : SessionRecord) → IsAmong x records → test x ≡ true → x.created_at ≤ r.created_at

-- Newest first: each record is at least as new as all that follow.
abbrev IsDescending : List SessionRecord → Type 0
IsDescending [] = Unit
IsDescending (x ∷ xs) = All (λ y. y.created_at ≤ x.created_at) xs × IsDescending xs

All-place :
    (P : SessionRecord → Type 0) (r : SessionRecord) (xs : List SessionRecord)
    → P r
    → All P xs
    → All P (place r xs)
unfolding place
All-place P r [] p h = (p, tt)
All-place P r (x ∷ xs) p h = ground (arith, All-place P r xs p h.1)

All-weaken :
    (n m : ℕ) (xs : List SessionRecord)
    → n ≤ m
    → All (λ y. y.created_at ≤ n) xs
    → All (λ y. y.created_at ≤ m) xs
All-weaken n m [] le h = tt
All-weaken n m (x ∷ xs) le h = (omega arith, All-weaken n m xs le h.1)

place-IsDescending :
    (r : SessionRecord) (xs : List SessionRecord) → IsDescending xs → IsDescending (place r xs)
unfolding place
place-IsDescending r [] h = (tt, tt)
place-IsDescending r (x ∷ xs) h = elim (Bool-cases (leb x.created_at r.created_at)) [
  | inl older ↦
      rw older ((ground arith, All-weaken x.created_at r.created_at xs (ground arith) h.0), h)
  | inr newer ↦ rw newer (
    All-place (λ y. y.created_at ≤ x.created_at) r xs (ground arith) h.0,
    place-IsDescending r xs h.1,
  )
]

newest_first-IsDescending : (rs : List SessionRecord) → IsDescending (newest_first rs)
unfolding newest_first
newest_first-IsDescending [] = tt
newest_first-IsDescending (r ∷ rs) =
    place-IsDescending r (newest_first rs) (newest_first-IsDescending rs)

IsAmong-place :
    (y r : SessionRecord) (xs : List SessionRecord) → IsAmong y (place r xs) ↔ IsAmong y (r ∷ xs)
unfolding place
IsAmong-place y r [] = (λ h. h, λ h. h)
IsAmong-place y r (x ∷ xs) = ground (arith, IsAmong-place y r xs)

IsAmong-newest_first :
    (y : SessionRecord) (rs : List SessionRecord) → IsAmong y (newest_first rs) ↔ IsAmong y rs
unfolding newest_first
IsAmong-newest_first y [] = (λ h. h, λ h. h)
IsAmong-newest_first y (r ∷ rs) =
    ground (arith, IsAmong-place y r (newest_first rs), IsAmong-newest_first y rs)

All-IsAmong :
    (n : ℕ) (x : SessionRecord) (xs : List SessionRecord)
    → All (λ y. y.created_at ≤ n) xs
    → IsAmong x xs
    → x.created_at ≤ n
All-IsAmong n x (y ∷ ys) h (inl e) = rw e h.0
All-IsAmong n x (y ∷ ys) h (inr m) = All-IsAmong n x ys h.1 m
All-IsAmong n x [] h m = absurd m

-- In a descending list the first record that passes is a newest one.
find-IsNewest :
    (test : SessionRecord → Bool) (xs : List SessionRecord) (r : SessionRecord)
    → IsDescending xs
    → find test xs ≡ some r
    → IsNewest test xs r
unfolding find
find-IsNewest test [] r d h = ground arith
find-IsNewest test (x ∷ xs) r d h = elim (Bool-cases (test x)) [
  | inl yes_x ↦
      let e : x ≡ r = ground arith in
      rw (← e) (record {
        among = inl refl;
        passes = yes_x;
        newest = λ y m _. elim m [
          | inl same ↦ rw same (omega arith)
          | inr later ↦ All-IsAmong x.created_at y xs d.0 later
        ];
      })
  | inr no_x ↦
      let ih = find-IsNewest test xs r d.1 (ground arith) in
      record {
        among = inr ih.among;
        passes = ih.passes;
        newest = λ y m t. elim m [
          | inl same ↦ absurd (cc (ap test same))
          | inr later ↦ ih.newest y later t
        ];
      }
]

find-none :
    (test : SessionRecord → Bool) (xs : List SessionRecord) (x : SessionRecord)
    → find test xs ≡ none
    → IsAmong x xs
    → test x ≡ false
unfolding find
find-none test (y ∷ ys) x h (inl e) = rw e (ground arith)
find-none test (y ∷ ys) x h (inr m) = ground (arith, find-none test ys x)
find-none test [] x h m = absurd m

module _ (test : SessionRecord → Bool) (rs : List SessionRecord) where
  -- A lookup over the sorted records finds a newest of those that pass.
  pub find-newest_first :
      (r : SessionRecord) → find test (newest_first rs) ≡ some r → IsNewest test rs r
  find-newest_first r h =
      let n = find-IsNewest test (newest_first rs) r (newest_first-IsDescending rs) h in
      record {
        among = (IsAmong-newest_first r rs).0 n.among;
        passes = n.passes;
        newest = λ x m t. n.newest x ((IsAmong-newest_first x rs).1 m) t;
      }

  -- It finds nothing only where none passes.
  pub find-none-newest_first :
      (x : SessionRecord) → find test (newest_first rs) ≡ none → IsAmong x rs → test x ≡ false
  find-none-newest_first x h m =
      find-none test (newest_first rs) x h ((IsAmong-newest_first x rs).1 m)

-- The first record is the first that passes a test that all pass.
pub first-eq-find : (xs : List SessionRecord) → first xs ≡ find (λ _. true) xs
unfolding first find
first-eq-find [] = refl
first-eq-find (x ∷ xs) = refl

IsAmong-filter :
    (test : SessionRecord → Bool) (x : SessionRecord) (rs : List SessionRecord)
    → IsAmong x (filter test rs) ↔ (IsAmong x rs × (test x ≡ true))
unfolding filter
IsAmong-filter test x [] = ground arith
IsAmong-filter test x (r ∷ rs) = ground (arith, IsAmong-filter test x rs, λ (e : x ≡ r). ap test e)

-- The newest of the filtered records is the newest of those that pass.
pub first-newest_first-filter :
    (test : SessionRecord → Bool) (rs : List SessionRecord) (r : SessionRecord)
    → first (newest_first (filter test rs)) ≡ some r
    → IsNewest test rs r
first-newest_first-filter test rs r h =
    let n = find-newest_first (λ _. true) (filter test rs) r (sym (first-eq-find _) ∙ h) in
    let here = (IsAmong-filter test r rs).0 n.among in
    record {
      among = here.0;
      passes = here.1;
      newest = λ x m t. n.newest x ((IsAmong-filter test x rs).1 (m, t)) refl;
    }

pub first-none-newest_first-filter :
    (test : SessionRecord → Bool) (rs : List SessionRecord) (x : SessionRecord)
    → first (newest_first (filter test rs)) ≡ none
    → IsAmong x rs
    → test x ≡ false
first-none-newest_first-filter test rs x h m = elim (Bool-cases (test x)) [
  | inl passes ↦ absurd (
      cc (
        find-none-newest_first (λ _. true) (filter test rs) x (sym (first-eq-find _) ∙ h)
          ((IsAmong-filter test x rs).1 (m, passes))))
  | inr fails ↦ fails
]
