-- ===== src/Volume/Filesystem.antt =====
-- volume/filesystem.go: a volume is made in init/, renamed into live/ when it is whole, and renamed
-- into dead/ when it is destroyed.
mod Defs
pub mod Values
pub mod Frame
unfoldable pub use Defs.*
