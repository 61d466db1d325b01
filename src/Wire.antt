-- ===== src/Wire.antt =====
-- Reading and writing of bytes: include/bitcoin/bitcoin/impl/utility.
pub mod Endian
pub mod Serializer
pub mod Deserializer
pub mod RoundTrip
pub mod Strings
pub mod Sizes
pub mod Sequences
mod Tests
