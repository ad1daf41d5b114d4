-- ===== src/Lib.antt =====
-- A model of the identity-verification packages: the backend service of packages/kyc-node, the
-- client's side of it in packages/kyc-core, the hooks of packages/kyc-react and
-- packages/kyc-react-native over that, and the rate limiter, the
-- boot checks and the routes of packages/kyc-service.
--
-- The parts and their files:
--   Common        shared names, Boolean tests, JavaScript strings and values of type `unknown`
--   Types         packages/kyc-node/src/types.ts, statuses, platforms, the provider's results
--   Errors        packages/kyc-node/src/errors.ts, coded errors and what `getErrorCode` reads
--   Action        promises that resolve or reject, as functions of a state, with throw and catch
--   Validation    packages/kyc-node/src/validation.ts
--   Audit         packages/kyc-node/src/audit.ts, `sanitizeAuditMetadata`
--   Store         packages/kyc-node/src/store.ts, `pickSessionForApplicant` and the operations of
--                 `createMemorySessionStore`: Entries is the map, Order the sort, InMemory the
--                 operations; Newest, Picked, Writes and Binding are about them
--   Signature     packages/kyc-node/src/signature.ts, the digest of a webhook's body
--   Service       packages/kyc-node/src/sessions.ts, `createVerificationService`: State is what it
--                 is built from, Transition the single write path, Requests the client's calls,
--                 Webhook the provider's; Rules to Promises, Owned and Shown, are
--                 about them
--   Retry         packages/kyc-node/src/http.ts, `withRetry`; Attempts is about it
--   Http          packages/kyc-node/src/handlers.ts and pages.ts: Results is the table of statuses,
--                 Endpoints the session, webhook and page endpoints, Tokens the mint endpoint,
--                 Fetch the handlers of a request, App the token surface; Guards, Surface, Origins,
--                 Minting and Shown are about them
--   Registry      packages/kyc-node/src/registry.ts and production.ts; Boot is about them
--   Mock          packages/kyc-node/src/providers/mock/provider.ts; Posted is about it
--   Html          packages/kyc-node/src/html.ts; Inert is about it
--   Client        packages/kyc-core/src/verification: Machine is machine.ts, Bridge is bridge.ts,
--                 Messages is messages.ts, Sources hostedSource.ts and proxySource.ts,
--                 Labels labels.ts; Reachable, Plans and Envelopes are about them
--   SessionToken  packages/kyc-core/src/verification/sessionToken.ts; Starts is about it
--   Sumsub        Mapping is packages/kyc-core/src/providers/sumsub/mapping.ts; Config, Client,
--                 Provider and Webhooks are config.ts, client.ts and provider.ts of
--                 packages/kyc-node/src/providers/sumsub; Verdicts, Settings, Asked, Answers and
--                 Outcomes are about them
--   Hook          packages/kyc-react/src and packages/kyc-react-native/src, the files
--                 useIdentityVerification.ts and useTokenRefresh.ts: State is the refs and what acts
--                 on them, Flow the callbacks that both platforms share, Web and Native what each
--                 has of its own; Keeps, Steps and NativeSteps say what stands over a step, Counted,
--                 Starts, Ended, Tokens, Silent, Consistent and Late are about the hook of the web,
--                 and Preflight is about that of React Native
--   Limit         packages/kyc-service/src/server.ts and proxy.ts, `createRateLimiter`,
--                 `sweepWindows` and the client that is counted; Windows, Bursts and Minutes are
--                 about them
--   Deployment    packages/kyc-service/src: env.ts, capabilities.ts and session.ts; Config is config.ts
--                 with providers/index.ts and providers/mock.ts, App is app.ts; Boot, Settings,
--                 Sessions and Policed are about them
--   Examples      runs at concrete inputs
--
-- How the parts interact: a call of the service (`start`, `refresh`, `status`, `latestForUser`,
-- `handleWebhookEvent`, `hostedPage`, `applyStatusTransition`) is an action on a `World`, which has
-- the store's two tables, the number of ids given out, the number of store calls made, and what was
-- asked of the provider and of the host's effects. Every status change goes through
-- `apply_status_transition`. `serve` is one call of any kind, whatever it returns or throws, and
-- `run` is a sequence of calls. The endpoints of Http call the service, or the provider alone where
-- a host only mints tokens; `sumsub_provider` is the adapter as that provider, whose state is the list
-- of the requests made.
--
-- A hook is a state and the events that reach it, in any order: presses, the page's messages, the
-- connection, a timer that fires, and the ends of the calls that it made. What it calls is kept in a
-- list. An event that ends a call which the hook does not wait for changes nothing. The hook applies
-- Client's `machine_reducer` and follows its plans.
--
-- Parameters: the provider's answers (which may depend on all earlier calls), the clock, the id
-- generator, the host's effects and hosted URL, `new URL(base).origin`, `JSON.parse`, the HMAC, and
-- the outages of the store (any store call may throw before it does anything); for the adapter
-- and the endpoints `fetch`, the readers and the writer of JSON, `encodeURIComponent`, `toUpperCase`,
-- `Number.parseInt`, `toISOString`, jose's `jwtVerify`, the host's authentication and level hook, and
-- the page renderer.
-- The token provider's host is the order in which its calls end. Ids of sessions do
-- not repeat: where a theorem needs it, this is a hypothesis.
--
-- Bounds: numbers are natural numbers, used for times in milliseconds and for lengths; nothing here
-- wraps around. No definition takes fuel but the printing of a decimal number, which has sixteen
-- digits, enough below 2 ^ 53. A retried call recurs on the attempts left.
--
-- Not modelled: logging and tracing; calls that interleave (one call of the service ends before the
-- next begins); strings with a lone surrogate; a callback of the host that throws into a hook, and
-- React's re-rendering; rate limits that are no whole numbers; the knex store, Express, GraphQL, the
-- screens, hosted pages, and the rest of the reference service's process code; and a response of
-- Sumsub's API with a status from 200 to 299 whose JSON lacks a field that the client's cast asks for.
pub mod Common
pub mod Errors
pub mod Types
pub mod Action
pub mod Validation
pub mod Audit
pub mod Store
pub mod Retry
pub mod Signature
pub mod Service
pub mod Client
pub mod SessionToken
pub mod Sumsub
pub mod Http
pub mod Registry
pub mod Limit
pub mod Deployment
pub mod Mock
pub mod Html
pub mod Hook
mod Examples
