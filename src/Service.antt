-- ===== src/Service.antt =====
-- packages/kyc-node/src/sessions.ts: the verification service.
mod State
mod Transition
mod Requests
mod Webhook
pub mod Rules
pub mod Replay
pub mod Sound
pub mod Changes
pub mod Transactions
pub mod Creation
pub mod Kept
pub mod Serving
pub mod Promises
pub mod Owned
pub mod Shown
pub use State.*
unfoldable pub use Transition.*
unfoldable pub use Requests.*
unfoldable pub use Webhook.*
