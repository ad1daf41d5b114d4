-- ===== src/Store/Binding.antt =====
-- packages/kyc-node/src/store.ts, `bindApplicantId`: an applicant is bound to a session that has
-- none, and never taken from it.
use kyc.Common.{
  ℕ, String, ◌≡◌, refl, ◌⊎◌, inl, inr, Bool, true, false, not, ◌&&◌, none, some, arith, eq_iff,
  same_option, is_some, Bool-cases, Option-cases,
}
use kyc.Action.{ok, err}
use kyc.Store.Entries.{lookup, insert}
use kyc.Store.Order.{SessionRecord}
use kyc.Store.InMemory.{Memory, bind_applicant_id, write_applicant_id, not_found}
use kyc.Store.Writes.{Extends, Extends-refl, insert-Extends}

-- The applicant that a row holds is none, or the one that is to be bound.
abbrev pub is_free : SessionRecord → String → Bool
is_free r applicant =
    not (
      is_some r.provider_applicant_id && not (same_option r.provider_applicant_id (some applicant)))

pub is_free-applicant :
    (r : SessionRecord) (applicant : String)
    → is_free r applicant ≡ true
    → (r.provider_applicant_id ≡ none) ⊎ (some applicant ≡ r.provider_applicant_id)
is_free-applicant r applicant h = elim (Option-cases r.provider_applicant_id) [
  | inl unbound ↦ inl unbound
  | inr (held, e) ↦ inr (ground (arith, eq_iff held applicant))
]

-- What binding did to the row of `id`.
abbrev pub IsBound : ℕ → String → String → SessionRecord → SessionRecord → Memory → Memory → Type 0
IsBound time id applicant r r' m m' =
    ((is_free r applicant ≡ true)
      × (r' ≡ record r { provider_applicant_id = some applicant; updated_at = time })
      × (m'.sessions ≡ insert id r' m.sessions)
      × (m'.audit ≡ m.audit))
    ⊎ ((is_free r applicant ≡ false) × (r' ≡ r) × (m' ≡ m))

module _ (now : ℕ → ℕ) where
  bind_applicant_id_found :
      (id applicant : String) (m : Memory) (r : SessionRecord)
      → lookup id m.sessions ≡ some r
      → bind_applicant_id now id applicant m ≡ write_applicant_id now id applicant r m
  unfolding bind_applicant_id
  bind_applicant_id_found id applicant m r found = ground arith

  -- Without the session the binding throws and changes nothing.
  pub bind_applicant_id_missing :
      (id applicant : String) (m : Memory)
      → lookup id m.sessions ≡ none
      → bind_applicant_id now id applicant m ≡ (err not_found, m)
  unfolding bind_applicant_id
  bind_applicant_id_missing id applicant m missing = ground arith

  write_applicant_id-IsBound :
      (id applicant : String) (r r' : SessionRecord) (m : Memory)
      → (write_applicant_id now id applicant r m).0 ≡ ok r'
      → IsBound (now m.clock) id applicant r r' m (write_applicant_id now id applicant r m).1
  unfolding write_applicant_id
  write_applicant_id-IsBound id applicant r r' m h = elim (Bool-cases (is_free r applicant)) [
    | inl free ↦ inl (free, ground arith, ground arith, ground arith)
    | inr taken ↦ inr (taken, ground arith, ground arith)
  ]

  write_applicant_id_ok :
      (id applicant : String) (r : SessionRecord) (m : Memory)
      → (r' : SessionRecord) × ((write_applicant_id now id applicant r m).0 ≡ ok r')
  unfolding write_applicant_id
  write_applicant_id_ok id applicant r m = elim (Bool-cases (is_free r applicant)) [
    | inl free ↦ (
      record r { provider_applicant_id = some applicant; updated_at = now m.clock },
      ground arith,
    )
    | inr taken ↦ (r, ground arith)
  ]

  -- Binding returns the row of a session that is there. A row without an applicant, or with this
  -- one, then holds the applicant; one with another applicant is as it was, and so is the store.
  pub bind_applicant_id-IsBound :
      (id applicant : String) (m : Memory) (r : SessionRecord)
      → lookup id m.sessions ≡ some r
      → (r' : SessionRecord) × ((bind_applicant_id now id applicant m).0 ≡ ok r')
        × IsBound (now m.clock) id applicant r r' m (bind_applicant_id now id applicant m).1
  bind_applicant_id-IsBound id applicant m r found =
      let (r', returned) = write_applicant_id_ok id applicant r m in
      rw (bind_applicant_id_found id applicant m r found)
        (r', returned, write_applicant_id-IsBound id applicant r r' m returned)

  IsBound-Extends :
      (time : ℕ) (id applicant : String) (r r' : SessionRecord) (m m' : Memory)
      → lookup id m.sessions ≡ some r
      → IsBound time id applicant r r' m m'
      → Extends m m'
  IsBound-Extends time id applicant r r' m m' found (inl (free, new, written, same)) =
      insert-Extends id r r' m m' found
        (rw new (record {
          id = refl;
          user_id = refl;
          provider = refl;
          level_name = refl;
          locale = refl;
          platform = refl;
          created_at = refl;
          applicant = is_free-applicant r applicant free;
          final = inr refl;
        }))
        written same
  IsBound-Extends time id applicant r r' m m' found (inr (taken, old, same)) =
      rw same (Extends-refl m)

  pub bind_applicant_id-Extends :
      (id applicant : String) (m : Memory) → Extends m (bind_applicant_id now id applicant m).1
  bind_applicant_id-Extends id applicant m = elim (Option-cases (lookup id m.sessions)) [
    | inl missing ↦ rw (bind_applicant_id_missing id applicant m missing) (Extends-refl m)
    | inr (r, found) ↦
        let (r', _, done) = bind_applicant_id-IsBound id applicant m r found in
        IsBound-Extends _ id applicant r r' m _ found done
  ]
