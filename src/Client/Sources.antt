-- ===== src/Client/Sources.antt =====
-- packages/kyc-core/src/verification/hostedSource.ts and proxySource.ts: where a session comes from.
-- What the host's `getSession` and the Apollo client answer are parameters.
use Prim.Native.Char.{Char, code}
use kyc.Common.{
  ℕ, ◌+◌, ◌<>◌, String, Bool, not, ◌&&◌, ◌||◌, Option, none, some, List, [], ◌∷◌, if◌then◌else◌,
  given, or_else, eqb, leb,
}
use kyc.Types.{VerificationPlatform}
use kyc.Client.Vocabulary.{VerificationSession}

-- What a source resolves to; it rejects with a code, or with whatever the host's callback threw.
pub data Sourced (A : Type 0) : Type 0 where
  resolved : A → Sourced A
  rejected : (code : String) (message : Option String) → Sourced A
  foreign : Sourced A

-- hostedSource.ts

pub record HostedSourceOptions : Type 0 where
  pub url : Option String
  pub get_session : Option (Sourced VerificationSession)
  pub allowed_origin : Option String
  pub provider : Option String

abbrev pub lower : ℕ → ℕ
lower c = if leb b'A' c && leb c b'Z' then c + 32 else c

abbrev pub with_first : Char → Option (String × String) → Option (String × String)
with_first c none = none
with_first c (some (taken, rest)) = some (String.◌∷◌ c taken, rest)

-- The start of a text that is these letters in either case, and what follows it.
abbrev pub take_letters : List ℕ → String → Option (String × String)
take_letters [] s = some ("", s)
take_letters (p ∷ ps) String.[] = none
take_letters (p ∷ ps) (String.◌∷◌ c s) =
    let rest = with_first c (take_letters ps s) in if eqb (lower (code c)) p then rest else none

-- `[^/?#]`
abbrev pub is_host_code : ℕ → Bool
is_host_code c = not (eqb c b'/' || eqb c b'?' || eqb c b'#')

abbrev pub host_of : String → String
host_of String.[] = ""
host_of (String.◌∷◌ c s) =
    let rest = host_of s in if is_host_code (code c) then String.◌∷◌ c rest else ""

abbrev pub origin_after : Option (String × String) → Option String
origin_after none = none
origin_after (some (scheme, rest)) =
    if given (some (host_of rest)) then some (scheme <> host_of rest) else none

-- `/^(https?:\/\/[^/?#]+)/i.exec(url)?.[1]`
unfoldable pub origin_of : String → Option String
origin_of url = origin_after (
    or_else (take_letters (b'h' ∷ b't' ∷ b't' ∷ b'p' ∷ b's' ∷ b':' ∷ b'/' ∷ b'/' ∷ []) url)
      (take_letters (b'h' ∷ b't' ∷ b't' ∷ b'p' ∷ b':' ∷ b'/' ∷ b'/' ∷ []) url))

abbrev pub pinned :
    HostedSourceOptions → VerificationSession → Option String → Sourced VerificationSession
pinned options session none =
    rejected "VALIDATION_ERROR" (some "getSession() returned a session without a url")
pinned options session (some url) =
    if given (some url)
    then resolved (record session {
      allowed_origin =
          or_else session.allowed_origin (or_else options.allowed_origin (origin_of url));
    })
    else rejected "VALIDATION_ERROR" (some "getSession() returned a session without a url")

abbrev pub fetched : HostedSourceOptions → Sourced VerificationSession → Sourced VerificationSession
fetched options foreign = foreign
fetched options (rejected code message) = rejected code message
fetched options (resolved session) = pinned options session session.url

abbrev pub no_source : Sourced VerificationSession
no_source =
    rejected "VALIDATION_ERROR"
      (some "createHostedSource requires either a url or a getSession callback")

abbrev pub from_url : HostedSourceOptions → Option String → Sourced VerificationSession
from_url options none = no_source
from_url options (some url) =
    if given (some url)
    then resolved (record {
      provider = elim options.provider [ none ↦ "hosted" | some provider ↦ provider ];
      session_id = none;
      access_token = none;
      url = some url;
      allowed_origin = or_else options.allowed_origin (origin_of url);
      applicant_id = none;
      status = none;
    })
    else no_source

unfoldable pub resolve_session : HostedSourceOptions → Sourced VerificationSession
unfolding origin_of
resolve_session options = elim options.get_session [
  | some answer ↦ fetched options answer
  | none ↦ from_url options options.url
]

-- proxySource.ts

-- A mutation's data, the first error of an answer of GraphQL errors with its code, or another
-- rejection with the message that it has if it is an `Error`.
pub data ApolloAnswer (A : Type 0) : Type 0 where
  data_of : Option A → ApolloAnswer A
  graphql_errors : (code : Option String) (message : String) → ApolloAnswer A
  failure : (message : Option String) → ApolloAnswer A

-- `error.errors[0]?.extensions?.code || fallback`
abbrev pub get_apollo_error_code : Option String → String → String
get_apollo_error_code none fallback = fallback
get_apollo_error_code (some code) fallback = if given (some code) then code else fallback

pub record ProxySourceOptions : Type 0 where
  pub platform : VerificationPlatform
  pub level_name : Option String
  pub locale : Option String

-- What the mutations were sent with.
pub data Mutation : Type 0 where
  session_start : ProxySourceOptions → Mutation
  session_refresh : (session_id : String) → Mutation

unfoldable pub started : ApolloAnswer VerificationSession → Sourced VerificationSession
started (data_of none) = rejected "SESSION_CREATION_FAILED" none
started (data_of (some session)) = resolved session
started (graphql_errors code message) =
    rejected (get_apollo_error_code code "SESSION_CREATION_FAILED") (some message)
started (failure message) = rejected "SESSION_CREATION_FAILED" message

unfoldable pub refreshed : ApolloAnswer String → Sourced String
refreshed (data_of none) = rejected "TOKEN_REFRESH_FAILED" none
refreshed (data_of (some token)) =
    if given (some token) then resolved token else rejected "TOKEN_REFRESH_FAILED" none
refreshed (graphql_errors code message) =
    rejected (get_apollo_error_code code "TOKEN_REFRESH_FAILED") (some message)
refreshed (failure message) = rejected "TOKEN_REFRESH_FAILED" message

module _ (mutate_start : List Mutation → ProxySourceOptions → ApolloAnswer VerificationSession)
    (mutate_refresh : List Mutation → String → ApolloAnswer String) where
  unfoldable pub proxy_start :
      ProxySourceOptions → List Mutation → Sourced VerificationSession × List Mutation
  unfolding started
  proxy_start options sent = (started (mutate_start sent options), session_start options ∷ sent)

  abbrev pub refresh_with : Option String → List Mutation → Sourced String × List Mutation
  unfolding refreshed
  refresh_with none sent =
      (rejected "TOKEN_REFRESH_FAILED" (some "the session has no sessionId to refresh"), sent)
  refresh_with (some id) sent =
      if given (some id)
      then (refreshed (mutate_refresh sent id), session_refresh id ∷ sent)
      else (rejected "TOKEN_REFRESH_FAILED" (some "the session has no sessionId to refresh"), sent)

  unfoldable pub proxy_refresh_token :
      VerificationSession → List Mutation → Sourced String × List Mutation
  unfolding refresh_with
  proxy_refresh_token previous = refresh_with previous.session_id
