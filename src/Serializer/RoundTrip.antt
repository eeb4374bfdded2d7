-- ===== src/Serializer/RoundTrip.antt =====
-- The decoders of serializer.cpp against its encoders.
mod Wellformed
mod Chain
mod Packets
mod Whole
mod Sizes
pub use Wellformed.*
pub use Chain.*
pub use Packets.*
pub use Whole.*
pub use Sizes.*
