-- ===== src/Volume/Driver.antt =====
-- volume/driver/: the drivers that make the data directories of volumes.
pub mod Naive
pub mod Overlay
pub mod Btrfs
