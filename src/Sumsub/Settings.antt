-- ===== src/Sumsub/Settings.antt =====
-- packages/kyc-node/src/providers/sumsub/config.ts: what the settings come to, and which environment
-- passes the check at boot.
use text.Mathlib.TextLemmas.{nil-append, cons-append}
use kyc.Common.{
  ℕ, zero, suc, ◌≤◌, ◌<◌, String, ◌≡◌, refl, ap, sym, ◌∙◌, ◌↔◌, inl, inr, Bool, Bool-cases, true,
  false, not, Option, none, some, List, [], ◌∷◌, ◌<>◌, All, all, codes, given, eqb, ltb, arith,
}
use kyc.Action.{ok}
use kyc.Sumsub.Config.{
  SumsubConfig, SumsubConfigKey, sumsub_credentials, Env, is_slash, size, is_slash_at, trimmed_end,
  slice_to, strip_trailing_slashes, is_unset, missing_sumsub_config, assert_sumsub_config,
  nothing_missing, filled, sumsub_config_from_env,
}

-- `value.slice(end)`
slice_from : ℕ → String → String
slice_from zero value = value
slice_from (suc n) String.[] = ""
slice_from (suc n) (String.◌∷◌ c rest) = slice_from n rest

slice_to-slice_from : (n : ℕ) (v : String) → slice_to n v <> slice_from n v ≡ v
unfolding slice_from
slice_to-slice_from zero v = nil-append v
slice_to-slice_from (suc n) String.[] = refl
slice_to-slice_from (suc n) (String.◌∷◌ c rest) =
    cons-append c _ _ ∙ ap (String.◌∷◌ c) (slice_to-slice_from n rest)

-- Every character is a slash.
abbrev pub all_slashes : String → Bool
all_slashes s = all (λ c. eqb c b'/') (codes s)

-- From `from` on, there are slashes only.
slashes_after :
    (n : ℕ) (v : String)
    → ((j : ℕ) → n ≤ j → j < size v → is_slash_at j v ≡ true)
    → all_slashes (slice_from n v) ≡ true
unfolding slice_from is_slash_at
slashes_after zero String.[] h = refl
slashes_after zero (String.◌∷◌ c rest) h =
    let here : is_slash c ≡ true = h 0 (omega arith) (omega arith) in
    let later = slashes_after zero rest (λ j ge lt. h (suc j) (omega arith) (omega arith)) in
    rw (here, later) refl
slashes_after (suc n) String.[] h = refl
slashes_after (suc n) (String.◌∷◌ c rest) h =
    slashes_after n rest (λ j ge lt. h (suc j) (omega arith) (omega arith))

slash_before :
    (n : ℕ) (v : String) → suc n ≤ size v → is_slash_at n (slice_to (suc n) v) ≡ is_slash_at n v
unfolding is_slash_at
slash_before zero String.[] h = absurd (omega arith)
slash_before zero (String.◌∷◌ c rest) h = refl
slash_before (suc n) String.[] h = refl
slash_before (suc n) (String.◌∷◌ c rest) h = slash_before n rest (omega arith)

size-slice_to : (n : ℕ) (v : String) → n ≤ size v → size (slice_to n v) ≡ n
size-slice_to zero v h = refl
size-slice_to (suc n) String.[] h = absurd (omega arith)
size-slice_to (suc n) (String.◌∷◌ c rest) h = ap suc (size-slice_to n rest (omega arith))

-- The loop stops at `end`, from the length `n`: only slashes follow, and none stands just before.
record IsEnd (n end : ℕ) (v : String) : Type 0 where
  below : end ≤ n
  slashes : (j : ℕ) → end ≤ j → j < n → is_slash_at j v ≡ true
  stops : (k : ℕ) → end ≡ suc k → is_slash_at k v ≡ false

suc_injective : (n k : ℕ) → suc n ≡ suc k → n ≡ k
suc_injective n k h = omega arith

slash_up_to :
    (n end : ℕ) (v : String)
    → ((j : ℕ) → end ≤ j → j < n → is_slash_at j v ≡ true)
    → is_slash_at n v ≡ true
    → (j : ℕ) → end ≤ j
    → j < suc n
    → is_slash_at j v ≡ true
slash_up_to n end v h slash j ge lt = elim (Bool-cases (ltb j n)) [
  | inl less ↦ h j ge (ground arith)
  | inr not_less ↦ let same : n ≡ j = ground arith in rw (← same) slash
]

trimmed_end-IsEnd : (n : ℕ) (v : String) → IsEnd n (trimmed_end n v) v
unfolding trimmed_end
trimmed_end-IsEnd zero v = record {
  below = omega arith;
  slashes = λ j ge lt. absurd (omega arith);
  stops = λ k h. absurd (omega arith);
}
trimmed_end-IsEnd (suc n) v = elim (Bool-cases (is_slash_at n v)) [
  | inl slash ↦
      let i = trimmed_end-IsEnd n v in
      let below = i.below in
      rw slash (record {
        below = omega arith;
        slashes = λ j ge lt. slash_up_to n (trimmed_end n v) v i.slashes slash j ge lt;
        stops = i.stops;
      })
  | inr other ↦ rw other (record {
    below = omega arith;
    slashes = λ j ge lt. absurd (omega arith);
    stops = λ k h. rw (← suc_injective n k h) other;
  })
]

stops_at :
    (k end : ℕ) (v : String)
    → end ≡ suc k
    → end ≤ size v
    → ((j : ℕ) → end ≡ suc j → is_slash_at j v ≡ false)
    → is_slash_at k (slice_to end v) ≡ false
stops_at k end v h le stops =
    let enough : suc k ≤ size v = omega arith in rw h (slash_before k v enough ∙ stops k h)

-- A text without its trailing slashes: what was taken off is slashes only, and what is left does not
-- end with one.
pub record IsTrimmed (value trimmed : String) : Type 0 where
  pub rest : String
  pub split : value ≡ trimmed <> rest
  pub slashes : all_slashes rest ≡ true
  pub stops : (k : ℕ) → size trimmed ≡ suc k → is_slash_at k trimmed ≡ false

-- The base URL is read with its trailing slashes, and only these, taken off.
strip_trailing_slashes-IsTrimmed : (value : String) → IsTrimmed value (strip_trailing_slashes value)
unfolding strip_trailing_slashes
strip_trailing_slashes-IsTrimmed value =
    let i = trimmed_end-IsEnd (size value) value in
    let end = trimmed_end (size value) value in
    let length_same = size-slice_to end value i.below in
    record {
      rest = slice_from end value;
      split = sym (slice_to-slice_from end value);
      slashes = slashes_after end value i.slashes;
      stops = λ k h. stops_at k end value (sym length_same ∙ h) i.below i.stops;
    }

missing-none :
    (config : SumsubConfig) (required : List SumsubConfigKey)
    → (missing_sumsub_config config required ≡ [])
      ↔ All (λ key. is_unset config key ≡ false) required
unfolding missing_sumsub_config
missing-none config [] = (λ h. tt, λ h. refl)
missing-none config (key ∷ required) = elim (Bool-cases (is_unset config key)) [
  | inl unset ↦ rw unset (λ h. absurd (cc), λ h. absurd (cc))
  | inr set ↦
      rw set
        (λ h. (refl, (missing-none config required).0 h), λ h. (missing-none config required).1 h.1)
]

pub nothing_missing_iff :
    (missing : List String) → (nothing_missing missing ≡ ok tt) ↔ (missing ≡ [])
nothing_missing_iff [] = (λ h. refl, λ h. refl)
nothing_missing_iff (name ∷ names) = (λ h. absurd (cc), λ h. absurd (cc))

set_iff : (o : Option String) → (not (given (filled o)) ≡ false) ↔ (given o ≡ true)
set_iff none = (λ h. absurd (cc), λ h. absurd (cc))
set_iff (some s) = elim (Bool-cases (given (some s))) [
  | inl h ↦ rw (h, h) (λ g. refl, λ g. refl)
  | inr h ↦ rw h (λ g. absurd (cc), λ g. absurd (cc))
]

-- An environment passes the check of the three credentials at boot exactly when each of their
-- variables is set and is not empty.
assert_sumsub_config_iff :
    (parse_int : String → Option ℕ) (env : Env)
    → (assert_sumsub_config (sumsub_config_from_env parse_int env) sumsub_credentials ≡ ok tt) ↔ (
        (given (env "SUMSUB_APP_TOKEN") ≡ true)
        × (given (env "SUMSUB_SECRET_KEY") ≡ true)
        × (given (env "SUMSUB_WEBHOOK_SECRET") ≡ true))
unfolding assert_sumsub_config sumsub_config_from_env
assert_sumsub_config_iff parse_int env =
    let config = sumsub_config_from_env parse_int env in
    let missing = missing_sumsub_config config sumsub_credentials in
    let passes = nothing_missing_iff missing in
    let sets = missing-none config sumsub_credentials in
    (
      λ h.
          let set = sets.0 (passes.0 h) in
          (
            (set_iff (env "SUMSUB_APP_TOKEN")).0 set.0,
            (set_iff (env "SUMSUB_SECRET_KEY")).0 set.1.0,
            (set_iff (env "SUMSUB_WEBHOOK_SECRET")).0 set.1.1.0,
          ),
      λ h. passes.1 (
          sets.1 (
            (set_iff (env "SUMSUB_APP_TOKEN")).1 h.0,
            (
              (set_iff (env "SUMSUB_SECRET_KEY")).1 h.1,
              ((set_iff (env "SUMSUB_WEBHOOK_SECRET")).1 h.2, tt),
            ),
          )),
    )
