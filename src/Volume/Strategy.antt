-- ===== src/Volume/Strategy.antt =====
-- How a new volume gets its contents: volume/strategerizer.go, volume/empty_strategy.go,
-- volume/cow_strategy.go, volume/import_strategy.go, and the requests that client.go encodes.
pub mod Host
pub mod Strategerizer
mod Defs
pub mod Frame
unfoldable pub use Defs.*
