-- ===== src/Examples/Signed.antt =====
-- A webhook that is signed, with a digest and a comparison of bytes that are simple to compute.
use text.Mathlib.TextEquality.{Char-path}
use kyc.Common.{
  ℕ, String, ◌≡◌, refl, ap₂, ◌↔◌, ◌⊎◌, Bool, true, false, ◌&&◌, some, List, [], ◌∷◌, eqb, codes,
  given, ◌<>◌, arith,
}
use kyc.Signature.{count, VerifyHexDigestArgs, verify_hex_digest}
use kyc.Signature.Verified.{IsSigned, verify_hex_digest_iff}

abbrev pub equal_bytes : List ℕ → List ℕ → Bool
equal_bytes [] [] = true
equal_bytes (a ∷ as') (b ∷ bs) = eqb a b && equal_bytes as' bs
equal_bytes _ _ = false

head_equal : (a b : ℕ) (as' bs : List ℕ) → a ∷ as' ≡ b ∷ bs → (a ≡ b) × (as' ≡ bs)
head_equal a b as' bs h = (cc, cc)

equal_bytes_sound : (a b : List ℕ) → equal_bytes a b ≡ true → a ≡ b
equal_bytes_sound [] [] h = refl
equal_bytes_sound [] (b ∷ bs) h = absurd (ground arith)
equal_bytes_sound (a ∷ as') [] h = absurd (ground arith)
equal_bytes_sound (a ∷ as') (b ∷ bs) h =
    ap₂ (λ x xs. x ∷ xs) (ground arith) (equal_bytes_sound as' bs (ground arith))

pub equal_bytes_refl : (a : List ℕ) → equal_bytes a a ≡ true
equal_bytes_refl [] = refl
equal_bytes_refl (a ∷ as') = ground (arith, equal_bytes_refl as')

equal_bytes_complete : (a b : List ℕ) → a ≡ b → equal_bytes a b ≡ true
equal_bytes_complete a b h = rw h (equal_bytes_refl b)

pub codes_injective : (s t : String) → codes s ≡ codes t → s ≡ t
codes_injective String.[] String.[] h = refl
codes_injective String.[] (String.◌∷◌ d t) h = absurd (cc)
codes_injective (String.◌∷◌ c s) String.[] h = absurd (cc)
codes_injective (String.◌∷◌ c s) (String.◌∷◌ d t) h =
    let (first, rest) = head_equal _ _ _ _ h in
    ap₂ String.◌∷◌ (Char-path c d first) (codes_injective s t rest)

pub equal_bytes_iff : (a b : List ℕ) → count a ≡ count b → (equal_bytes a b ≡ true) ↔ (a ≡ b)
equal_bytes_iff a b same = (equal_bytes_sound a b, equal_bytes_complete a b)

abbrev pub digest : (algorithm secret body : String) → String
digest algorithm secret body = algorithm <> secret <> body

abbrev signed : VerifyHexDigestArgs
signed = record {
  signature = some "sha256key{}";
  algorithm = some "HMAC_SHA256_HEX";
  body = "{}";
  secret = some "key";
  allow_missing_secret = false;
}

verify_hex_digest_iff_example : (verify_hex_digest digest codes equal_bytes signed ≡ true) ↔ (
    ((given signed.secret ≡ false) × (signed.allow_missing_secret ≡ true))
    ⊎ ((secret : String) × (signed.secret ≡ some secret)
        × (given signed.secret ≡ true)
        × IsSigned digest signed secret))
verify_hex_digest_iff_example =
    verify_hex_digest_iff digest codes equal_bytes codes_injective equal_bytes_iff signed
