-- ===== src/Api/P2p.antt =====
-- api/p2p_server.go: the address at which peers reach the server.
mod Defs
pub mod Found
unfoldable pub use Defs.*
