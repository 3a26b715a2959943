-- ===== src/Volume/Repository.antt =====
-- volume/repository.go: the operations that the server calls, on top of the file system, the
-- metadata, the strategies, the namespacers and the streamers.
mod Defs
mod Streaming
pub mod Streams
pub mod Frame
pub mod Reads
pub mod Create
pub mod Created
pub mod Destroy
pub mod Update
pub mod Descendants
unfoldable pub use Defs.*
unfoldable pub use Streaming.*
