-- ===== src/Volume/Metadata.antt =====
-- volume/metadata.go: the two JSON files in the directory of a volume.
pub mod Json
mod Defs
pub mod Stored
unfoldable pub use Defs.*
