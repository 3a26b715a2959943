-- ===== src/Client.antt =====
-- client/: what a client does with the responses of a server, and what a server sends it.
pub mod Wire
mod Defs
mod Future
pub mod Waiting
pub mod Query
pub mod Routes
pub mod Serve
pub mod Router
pub mod Replies
pub mod Commands
pub mod Remote
pub mod Cancel
pub mod Background
pub mod Creation
pub mod P2p
unfoldable pub use Defs.*
unfoldable pub use Future.*
