-- ===== src/Wire.antt =====
-- rsyncwire/wire.go: the connection, its integers, and the multiplexed messages.
mod Encoding
mod Stream
mod Numbers
mod Message
pub mod Sent
pub mod Received
pub mod Takes
pub mod RoundTrip
pub mod Frames
unfoldable pub use Encoding.*
unfoldable pub use Stream.*
unfoldable pub use Numbers.*
pub use Message.*
