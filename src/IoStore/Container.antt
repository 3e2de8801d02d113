-- ===== src/IoStore/Container.antt =====
-- `IoStoreContainer` of src/iostore.rs: one table of contents with its file.
use retoc.Prelude.{map, ℕ, some, true, none, false, [], List, Bool}
use retoc.IoStore.{IoStoreContainer, ChunkInfo, PackageInfo}
use retoc.Outcome.{Outcome, ok, ◌>>=◌, ◌>>◌, not_found}
use mathlib.Core.Option.{Option}
use retoc.Toc.ChunkId.{FIoChunkIdRaw, FIoChunkId, get_raw, from_raw, with_version}
use retoc.Version.{EIoContainerHeaderVersion}
use retoc.Toc.Version.{EIoStoreTocVersion}
use retoc.Compression.{CompressionMethod}
use retoc.ContainerHeader.Header.{FIoContainerHeader, package_ids, get_store_entry}
use retoc.ContainerHeader.Store.{StoreEntry}
use retoc.Toc.File.{Config}
use retoc.Outcome
use retoc.Toc.Read
use retoc.ContainerHeader.Header
use mathlib.Core.Option

unfoldable pub container_file_version : IoStoreContainer → Option EIoStoreTocVersion
container_file_version self = some self.toc.version

unfoldable pub container_header_version : IoStoreContainer → Option EIoContainerHeaderVersion
container_header_version self =
    Option.map (λ (h : FIoContainerHeader). h.version) self.container_header

abbrev is_some {ℓ} : {A : Type ℓ} → Option A → Bool
is_some none = false
is_some (some a) = true

-- `toc.chunk_id_map.get`; hashing an id goes through its raw bytes.
unfoldable pub index_of : IoStoreContainer → FIoChunkId → Outcome (Option ℕ)
index_of self chunk_id = do
  raw ← get_raw (with_version chunk_id self.toc.version)
  ok (self.toc.chunk_id_map raw.id)

unfoldable pub has_chunk_id : IoStoreContainer → FIoChunkId → Outcome Bool
has_chunk_id self chunk_id = do index ← index_of self chunk_id; ok (is_some index)

unfoldable pub has_chunk_id_raw : IoStoreContainer → FIoChunkIdRaw → Outcome Bool
has_chunk_id_raw self chunk_id_raw = do
  chunk_id ← from_raw chunk_id_raw self.toc.version
  has_chunk_id self chunk_id

unfoldable pub chunks_all : IoStoreContainer → List ChunkInfo
chunks_all self = map (λ id. record { id = id; container = self }) self.toc.chunks

unfoldable pub chunks : IoStoreContainer → List ChunkInfo
chunks self = chunks_all self

abbrev ids_of : Option FIoContainerHeader → List ℕ
ids_of none = []
ids_of (some header) = package_ids header

unfoldable pub packages_all : IoStoreContainer → List PackageInfo
packages_all self = map (λ id. record { id = id; container = self }) (ids_of self.container_header)

unfoldable pub packages : IoStoreContainer → List PackageInfo
packages self = packages_all self

unfoldable pub package_store_entry : IoStoreContainer → ℕ → Option StoreEntry
package_store_entry self package_id =
    Option.bind self.container_header λ (h : FIoContainerHeader). get_store_entry h package_id

unfoldable pub lookup_package_redirect : IoStoreContainer → ℕ → Option ℕ
lookup_package_redirect self source_package_id =
    Option.bind self.container_header
      λ (h : FIoContainerHeader). Header.lookup_package_redirect h source_package_id

module _ {Key : Type 0} (decrypt_block : Key → List ℕ → List ℕ)
    (decompress : CompressionMethod → List ℕ → ℕ → Outcome (List ℕ)) (config : Config Key) where
  unfoldable pub read : IoStoreContainer → FIoChunkId → Outcome (List ℕ)
  read self chunk_id = do
    index ← index_of self chunk_id
    i ← Outcome.context not_found index
    Read.read decrypt_block decompress self.toc config self.cas i

  unfoldable pub read_raw : IoStoreContainer → FIoChunkIdRaw → Outcome (List ℕ)
  read_raw self chunk_id_raw = do
    chunk_id ← from_raw chunk_id_raw self.toc.version
    read self chunk_id
