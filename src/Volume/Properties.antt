-- ===== src/Volume/Properties.antt =====
-- volume/properties.go and api/query.go: the properties of a volume, a Go map from names to values,
-- and the query of a list request that is turned into one.
mod Defs
pub mod Subset
pub mod Update
pub mod Query
unfoldable pub use Defs.*
