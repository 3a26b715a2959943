-- ===== src/Examples.antt =====
-- Runs of the code at concrete inputs.
mod Wire
mod Setting
mod Volumes
mod Owners
mod Tables
mod Locks
mod Requests
mod Rows
mod Calls
mod Descendants
mod Layers
mod Sessions
mod Drivers
mod Peers
