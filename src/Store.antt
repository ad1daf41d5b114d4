-- ===== src/Store.antt =====
-- packages/kyc-node/src/store.ts: the session store and its in-memory implementation.
mod Entries
mod Order
mod InMemory
pub mod Newest
pub mod Picked
pub mod Writes
pub mod Binding
unfoldable pub use Entries.{Map, lookup, insert, values}
pub use Entries.{lookup-insert}
pub use Order.{SessionRecord}
unfoldable pub use Order.{find, filter, place, newest_first, first, pick_session_for_applicant}
unfoldable pub use InMemory.*
