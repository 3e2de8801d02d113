-- ===== src/ContainerHeader/Store/RoundTrip.antt =====
-- `StoreEntries::deserialize` of src/container_header.rs on what `StoreEntries::serialize` wrote.
use retoc.Prelude.{ℕ}
use retoc.Version.{EIoContainerHeaderVersion}
use retoc.ContainerHeader.Store.{StoreEntry}
use retoc.ContainerHeader.Store.Resolve.{stored}

abbrev pub with_stored : EIoContainerHeaderVersion → ℕ × StoreEntry → ℕ × StoreEntry
with_stored version p = (p.0, stored version p.1)
