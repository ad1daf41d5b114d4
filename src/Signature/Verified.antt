-- ===== src/Signature/Verified.antt =====
-- packages/kyc-node/src/signature.ts, `verifyHexDigest`: exactly which webhooks pass.
use kyc.Common.{
  ℕ, String, ◌≡◌, refl, sym, ◌∙◌, ap, ◌↔◌, ◌⊎◌, inl, inr, Bool, true, false, Bool-cases, Option,
  none, some, List, given, is_blank, is_blank-empty, eqb, arith,
}
use kyc.Signature.{
  VerifyHexDigestArgs, digest_algorithms, own_entry, algorithm_name, count,
  timing_safe_equal_string, verify_with, verify_signature, verify_secret, verify_hex_digest,
}

-- With a secret, a webhook is signed when its algorithm is one of the three and its signature is the
-- HMAC of its body under that secret, which is not blank.
pub IsSigned :
    (hmac_hex : (algorithm secret body : String) → String) → VerifyHexDigestArgs → String → Type 0
IsSigned hmac_hex args secret =
    (hash : String) × (signature : String) × (own_entry (algorithm_name args.algorithm)
        digest_algorithms
      ≡ some hash)
    × (args.signature ≡ some signature)
    × (is_blank signature ≡ false)
    × (signature ≡ hmac_hex hash secret args.body)

none_is_some : (s : String) → none ≡ some s → ⊥
none_is_some s h = cc

pub some_injective : {a b : String} → some a ≡ some b → a ≡ b
some_injective h = cc

module _ (hmac_hex : (algorithm secret body : String) → String) (buffer_from : String → List ℕ)
    (timing_safe_equal : List ℕ → List ℕ → Bool)
    (same_bytes : (a b : String) → buffer_from a ≡ buffer_from b → a ≡ b)
    (compares : (a b : List ℕ) → count a ≡ count b → (timing_safe_equal a b ≡ true) ↔ (a ≡ b)) where
  unequal : (a b : String) → a ≡ b → eqb (count (buffer_from a)) (count (buffer_from b)) ≡ false → ⊥
  unequal a b h e =
      let same : count (buffer_from a) ≡ count (buffer_from b) =
        ap (λ s. count (buffer_from s)) h in
      absurd (ground arith)

  equal_iff :
      (a b : String)
      → (timing_safe_equal_string hmac_hex buffer_from timing_safe_equal a b ≡ true) ↔ (a ≡ b)
  unfolding timing_safe_equal_string
  equal_iff a b = elim (Bool-cases (eqb (count (buffer_from a)) (count (buffer_from b)))) [
    | inl e ↦ rw e (
      λ h. same_bytes a b ((compares (buffer_from a) (buffer_from b) (ground arith)).0 h),
      λ h. (compares (buffer_from a) (buffer_from b) (ground arith)).1 (ap buffer_from h),
    )
    | inr e ↦ rw e (λ h. absurd (ground arith), λ h. absurd (unequal a b h e))
  ]

  verify_signature_iff :
      (o : Option String) (digest : String)
      → (verify_signature hmac_hex buffer_from timing_safe_equal o digest ≡ true) ↔ (
          (signature : String) × (o ≡ some signature)
          × (is_blank signature ≡ false)
          × (signature ≡ digest))
  verify_signature_iff none digest =
      (λ h. absurd (ground arith), λ p. absurd (none_is_some p.0 p.1))
  verify_signature_iff (some s) digest = ground (arith, equal_iff s digest, is_blank-empty s)

  verify_with_iff :
      (o signature : Option String) (secret body : String)
      → (verify_with hmac_hex buffer_from timing_safe_equal o signature secret body ≡ true) ↔ (
          (hash : String) × (s : String) × (o ≡ some hash)
          × (signature ≡ some s)
          × (is_blank s ≡ false)
          × (s ≡ hmac_hex hash secret body))
  verify_with_iff none signature secret body =
      (λ h. absurd (ground arith), λ p. absurd (none_is_some p.0 p.2))
  verify_with_iff (some hash) signature secret body = (
    λ h.
        let (s, held, full, same) =
          (verify_signature_iff signature (hmac_hex hash secret body)).0 h in
        (hash, s, refl, held, full, same),
    λ (hash', s, named, held, full, same).
        (verify_signature_iff signature (hmac_hex hash secret body)).1
          (s, held, full, same ∙ ap (λ x. hmac_hex x secret body) (sym (some_injective named))),
  )

  verify_secret_iff :
      (args : VerifyHexDigestArgs) (o : Option String)
      → (verify_secret hmac_hex buffer_from timing_safe_equal args o ≡ true) ↔ (
          ((given o ≡ false) × (args.allow_missing_secret ≡ true))
          ⊎ ((secret : String) × (o ≡ some secret)
              × (given o ≡ true)
              × IsSigned hmac_hex args secret))
  unfolding IsSigned
  verify_secret_iff args none =
      (λ h. inl (refl, h), λ p. elim p [ inl q ↦ q.1 | inr q ↦ absurd (none_is_some q.0 q.1) ])
  verify_secret_iff args (some secret) = elim (Bool-cases (given (some secret))) [
    | inl g ↦ rw g (
      (λ h. inr (secret, refl, refl, (verify_with_iff _ args.signature secret args.body).0 h)),
      (λ p. elim p [
        | inl q ↦ absurd (ground arith)
        | inr (other, same, _, signed) ↦
            (verify_with_iff _ args.signature secret args.body).1 (rw (some_injective same) signed)
      ]),
    )
    | inr g ↦
        rw g ((λ h. inl (refl, h)), (λ p. elim p [ inl q ↦ q.1 | inr q ↦ absurd (ground arith) ]))
  ]

  -- Where texts of the same bytes are the same and the comparison says whether bytes of one length
  -- are equal: a webhook passes exactly when no secret is configured (an empty one counts as none)
  -- and the host allows that, or when it is signed with the secret.
  pub verify_hex_digest_iff :
      (args : VerifyHexDigestArgs)
      → (verify_hex_digest hmac_hex buffer_from timing_safe_equal args ≡ true) ↔ (
          ((given args.secret ≡ false) × (args.allow_missing_secret ≡ true))
          ⊎ ((secret : String) × (args.secret ≡ some secret)
              × (given args.secret ≡ true)
              × IsSigned hmac_hex args secret))
  unfolding verify_hex_digest
  verify_hex_digest_iff args = verify_secret_iff args args.secret
