-- ===== src/Ser.antt =====
-- src/ser.rs: the traits `Readable` and `Writeable`, and their instances for the basic types.
pub mod Stream
pub mod Words
pub mod Arrays
pub mod BigEndian
pub mod Utf
pub mod Strings
