-- ===== src/Serializer/Reads.antt =====
-- What it means that a reader undoes a writer, for one value and in sequence.
mod Sequence
mod Head
mod Values
pub use Sequence.*
unfoldable pub use Head.*
pub use Values.*
