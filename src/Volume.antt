-- ===== src/Volume.antt =====
-- The package volume/.
pub mod Properties
pub mod Metadata
pub mod Filesystem
pub mod Strategy
pub mod Driver
pub mod Repository
pub mod Spec
pub mod Promise
pub mod Locker
