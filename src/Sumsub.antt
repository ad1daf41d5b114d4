-- ===== src/Sumsub.antt =====
-- packages/kyc-core/src/providers/sumsub and packages/kyc-node/src/providers/sumsub: the provider's
-- vocabulary in terms of ours, its settings, its REST client, and the adapter over them.
mod Mapping
mod Config
mod Client
mod Provider
mod Webhooks
pub mod Verdicts
pub mod Settings
pub mod Answers
pub mod Asked
pub mod Outcomes
unfoldable pub use Mapping.*
unfoldable pub use Config.*
unfoldable pub use Client.*
unfoldable pub use Provider.*
unfoldable pub use Webhooks.*
