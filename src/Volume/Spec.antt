-- ===== src/Volume/Spec.antt =====
-- The repository as a map from handles to properties, flags and parents, and that the code is one.
mod Meaning
pub mod New
pub mod SetUp
pub mod Create
pub mod Represents
pub mod Made
pub mod Creates
pub mod Steps
pub mod Parents
pub mod Refines
pub mod Listed
unfoldable pub use Meaning.*
