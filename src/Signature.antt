-- ===== src/Signature.antt =====
-- packages/kyc-node/src/signature.ts: the digest of a webhook's raw body. Node's HMAC, the bytes of
-- a text and the comparison of bytes in constant time are parameters; logging is left out.
pub mod Verified
use kyc.Common.{
  ℕ, ◌+◌, String, Bool, true, false, not, ◌&&◌, ◌||◌, Option, none, some, List, [], ◌∷◌,
  if◌then◌else◌, ◌==◌, eqb, given, is_blank,
}

abbrev pub digest_algorithms : List (String × String)
digest_algorithms =
    ("HMAC_SHA1_HEX", "sha1") ∷ ("HMAC_SHA256_HEX", "sha256") ∷ ("HMAC_SHA512_HEX", "sha512") ∷ []

abbrev pub default_digest_algorithm : String
default_digest_algorithm = "HMAC_SHA256_HEX"

pub record VerifyHexDigestArgs : Type 0 where
  pub signature : Option String
  pub algorithm : Option String
  pub body : String
  pub secret : Option String
  pub allow_missing_secret : Bool

-- The table's own entry of a name, which `Object.hasOwn` asks for first.
unfoldable pub own_entry : String → List (String × String) → Option String
own_entry name [] = none
own_entry name ((k, hash) ∷ table) = if k == name then some hash else own_entry name table

abbrev pub algorithm_name : Option String → String
algorithm_name none = default_digest_algorithm
algorithm_name (some name) = name

abbrev pub count : List ℕ → ℕ
count [] = 0
count (b ∷ bs) = 1 + count bs

module _ (hmac_hex : (algorithm secret body : String) → String) (buffer_from : String → List ℕ)
    (timing_safe_equal : List ℕ → List ℕ → Bool) where
  unfoldable pub timing_safe_equal_string : String → String → Bool
  timing_safe_equal_string a b =
      if not (eqb (count (buffer_from a)) (count (buffer_from b)))
      then false
      else timing_safe_equal (buffer_from a) (buffer_from b)

  abbrev pub verify_signature : Option String → (digest : String) → Bool
  verify_signature none digest = false
  verify_signature (some signature) digest =
      if not (given (some signature)) || is_blank signature
      then false
      else timing_safe_equal_string signature digest

  abbrev pub verify_with : Option String → Option String → (secret body : String) → Bool
  verify_with none signature secret body = false
  verify_with (some hash) signature secret body =
      verify_signature signature (hmac_hex hash secret body)

  abbrev pub verify_secret : VerifyHexDigestArgs → Option String → Bool
  verify_secret args none = args.allow_missing_secret
  verify_secret args (some secret) =
      if not (given (some secret))
      then args.allow_missing_secret
      else verify_with (own_entry (algorithm_name args.algorithm) digest_algorithms) args.signature
          secret args.body

  unfoldable pub verify_hex_digest : VerifyHexDigestArgs → Bool
  verify_hex_digest args = verify_secret args args.secret
