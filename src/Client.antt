-- ===== src/Client.antt =====
-- packages/kyc-core: the client's side of a verification - its vocabulary, the state machine of the
-- screen, and the protocol of the hosted page.
mod Vocabulary
mod Messages
mod Machine
mod Bridge
mod Sources
mod Labels
pub mod Reachable
pub mod Plans
pub mod Envelopes
pub use Vocabulary.*
unfoldable pub use Messages.*
unfoldable pub use Machine.*
unfoldable pub use Bridge.*
unfoldable pub use Sources.*
unfoldable pub use Labels.*
