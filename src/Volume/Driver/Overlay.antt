-- ===== src/Volume/Driver/Overlay.antt =====
-- volume/driver/overlay_linux.go: data directories that are mounts of layers.
mod Defs
pub mod Parents
pub mod Root
pub mod Mounted
pub mod Loops
pub mod Served
pub mod Recovered
pub mod Destroy
unfoldable pub use Defs.*
