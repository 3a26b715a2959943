-- ===== src/Volume/Driver/Btrfs.antt =====
-- volume/driver/btrfs.go: subvolumes and snapshots.
mod Defs
pub mod Subvolumes
pub mod Order
pub mod Cleared
unfoldable pub use Defs.*
