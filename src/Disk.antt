-- ===== src/Disk.antt =====
-- The part of the machine that baggageclaim changes: the directories init/, live/ and dead/ under
-- the volumes directory, the calls of Go's os package on them, and how a call can fail.
pub mod World
pub mod Action
pub mod Calls
pub mod Frame
pub mod FrameCalls
pub mod Failing
pub mod Runs
