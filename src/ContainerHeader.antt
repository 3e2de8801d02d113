-- ===== src/ContainerHeader.antt =====
-- src/container_header.rs: the header chunk of a container.
pub mod BTreeMap
pub mod Store
pub mod Records
pub mod Header
