-- ===== src/Startup.antt =====
-- What the server does when it starts: baggageclaimcmd/driver_linux.go and fs/btrfs.go.
pub mod Image
pub mod Selection
pub mod Chosen
