-- ===== src/Http.antt =====
-- packages/kyc-node/src/handlers.ts and pages.ts: the endpoints that a host serves, as functions of a request.
mod Pages
mod Results
mod Endpoints
mod Tokens
mod Fetch
mod App
pub mod Guards
pub mod Surface
pub mod Origins
pub mod Minting
pub mod Shown
unfoldable pub use Pages.*
unfoldable pub use Results.*
unfoldable pub use Endpoints.*
unfoldable pub use Tokens.*
unfoldable pub use Fetch.*
unfoldable pub use App.*
