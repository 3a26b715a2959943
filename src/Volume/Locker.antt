-- ===== src/Volume/Locker.antt =====
-- volume/locker.go: a lock for each key, made when it is first wanted and dropped when nobody wants it
-- any more. `Lock` and `Unlock` each have two steps that other goroutines see: the part under the
-- manager's mutex, and the send to, or the receive from, the channel of the entry.
pub mod Count
mod Defs
pub mod Invariant
pub mod Safety
unfoldable pub use Defs.*
