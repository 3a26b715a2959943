-- ===== src/Api.antt =====
-- api/volume_server.go: the handlers of requests.
mod Server
pub mod Async
pub mod Answers
pub mod P2p
unfoldable pub use Async.*
unfoldable pub use Server.*
