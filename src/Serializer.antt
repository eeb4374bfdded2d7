-- ===== src/Serializer.antt =====
-- modules/blockchain/src/serializer.cpp: the deterministic CBOR codec.
-- `|` of parts that share no bit is written `+`, `x >> k` is `x / 2 ^ k` and `x & (2 ^ k - 1)` is
-- `x % 2 ^ k`. A writer is the list of the bytes that it appends.
pub mod Writer
pub mod Encode
pub mod Reader
pub mod Decode
pub mod Reads
pub mod RoundTrip
