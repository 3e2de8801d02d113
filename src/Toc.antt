-- ===== src/Toc.antt =====
-- src/main.rs: the table of contents of a container.
pub mod Version
pub mod Flags
pub mod Header
pub mod ChunkType
pub mod ChunkId
pub mod Offsets
pub mod Block
pub mod Meta
pub mod Maps
pub mod File
pub mod Codec
pub mod RoundTrip
pub mod Read
