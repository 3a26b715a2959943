-- ===== src/Volume/Repository/Descendants.antt =====
-- `DestroyVolumeAndDescendants` of volume/repository.go.
mod Defs
pub mod Pruned
pub mod Fuel
unfoldable pub use Defs.*
