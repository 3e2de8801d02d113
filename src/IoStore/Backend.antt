-- ===== src/IoStore/Backend.antt =====
-- `IoStoreBackend` of src/iostore.rs: the containers of a directory, the highest priority first.
use retoc.Prelude.{map, ℕ, [], some, ◌∷◌, none, Bool, List, ◌==◌, list_eq}
use retoc.Outcome.{Outcome, ok, ◌>>=◌, ◌>>◌, invalid_data, not_found, err}
use retoc.IoStore.{
  IoStoreContainer, IoStoreBackend, find_map, ChunkInfo, any, PackageInfo, unique, flat_map, find,
}
use retoc.Version.{EIoContainerHeaderVersion, header_repr}
use retoc.Toc.Version.{EIoStoreTocVersion, repr}
use retoc.Toc.ChunkId.{FIoChunkId, FIoChunkIdRaw, with_version, get_raw, debug}
use mathlib.Core.Option.{Option}
use retoc.IoStore.Priority.{sort_by, sort_container_name}
use retoc.Compression.{CompressionMethod}
use retoc.ContainerHeader.Store.{StoreEntry}
use retoc.Toc.File.{Config}
use retoc.Outcome
use retoc.IoStore.Container

abbrev same_file : EIoStoreTocVersion → EIoStoreTocVersion → Bool
same_file a b = repr a == repr b

abbrev same_header : EIoContainerHeaderVersion → EIoContainerHeaderVersion → Bool
same_header a b = header_repr a == header_repr b

-- The version so far, or that of this container where there is none; another version is an error.
unfoldable pub agree : {V : Type 0} → (V → V → Bool) → Option V → V → Outcome (Option V)
agree same none this = ok (some this)
agree same (some previous) this = do
  Outcome.ensure invalid_data (same this previous)
  ok (some previous)

unfoldable pub agree_header :
    Option EIoContainerHeaderVersion
    → Option EIoContainerHeaderVersion
    → Outcome (Option EIoContainerHeaderVersion)
agree_header previous none = ok previous
agree_header previous (some this) = agree same_header previous this

-- The loop over the containers, with the versions of those before.
unfoldable pub check_versions :
    Option EIoStoreTocVersion
    → Option EIoContainerHeaderVersion
    → List IoStoreContainer
    → Outcome (Unit {0})
check_versions version header [] = ok tt
check_versions version header (container ∷ containers) = do
  this ← Outcome.unwrap (Container.container_file_version container)
  next ← agree same_file version this
  next_header ← agree_header header (Container.container_header_version container)
  check_versions next next_header containers

-- `open`, from the opened containers on.
unfoldable pub open_containers : List IoStoreContainer → Outcome IoStoreBackend
open_containers containers = do
  check_versions none none containers
  ok (record {
    containers = sort_by (λ (c : IoStoreContainer). sort_container_name c.name) containers;
  })

unfoldable pub container_file_version : IoStoreBackend → Option EIoStoreTocVersion
container_file_version self = first_version self.containers
  where
    first_version : List IoStoreContainer → Option EIoStoreTocVersion
    first_version [] = none
    first_version (c ∷ cs) = Container.container_file_version c

unfoldable pub container_header_version : IoStoreBackend → Option EIoContainerHeaderVersion
container_header_version self = find_map Container.container_header_version self.containers

unfoldable pub with_file_version : Option EIoStoreTocVersion → FIoChunkId → FIoChunkId
with_file_version none chunk_id = chunk_id
with_file_version (some version) chunk_id = with_version chunk_id version

unfoldable pub has_chunk_id : IoStoreBackend → FIoChunkId → Outcome Bool
has_chunk_id self chunk_id = any (λ c. Container.has_chunk_id c chunk_id) self.containers

unfoldable pub has_chunk_id_raw : IoStoreBackend → FIoChunkIdRaw → Outcome Bool
has_chunk_id_raw self chunk_id_raw =
    any (λ c. Container.has_chunk_id_raw c chunk_id_raw) self.containers

unfoldable pub chunks_all : IoStoreBackend → List ChunkInfo
chunks_all self = flat_map Container.chunks_all self.containers

-- The chunks with what they are compared and hashed by.
unfoldable pub keyed : List ChunkInfo → Outcome (List (List ℕ × ChunkInfo))
keyed [] = ok []
keyed (chunk ∷ chunks) = do raw ← get_raw chunk.id; rest ← keyed chunks; ok ((raw.id, chunk) ∷ rest)

unfoldable pub chunks : IoStoreBackend → Outcome (List ChunkInfo)
chunks self = do
  all ← keyed (chunks_all self)
  ok (map (λ p. p.1) (unique list_eq (λ p. p.0) [] all))

unfoldable pub packages : IoStoreBackend → List PackageInfo
packages self = flat_map Container.packages self.containers

unfoldable pub packages_all : IoStoreBackend → List PackageInfo
packages_all self =
    unique ◌==◌ (λ (p : PackageInfo). p.id) [] (flat_map Container.packages self.containers)

unfoldable pub package_store_entry : IoStoreBackend → ℕ → Option StoreEntry
package_store_entry self package_id =
    find_map (λ c. Container.package_store_entry c package_id) self.containers

unfoldable pub lookup_package_redirect : IoStoreBackend → ℕ → Option ℕ
lookup_package_redirect self source_package_id =
    find_map (λ c. Container.lookup_package_redirect c source_package_id) self.containers

-- `with_context`, whose text is made only for a chunk that was not found: the id is formatted.
unfoldable pub with_chunk_id : {A : Type 0} → FIoChunkId → Option A → Outcome A
with_chunk_id chunk_id none = do debug chunk_id; err not_found
with_chunk_id chunk_id (some a) = ok a

module _ {Key : Type 0} (decrypt_block : Key → List ℕ → List ℕ)
    (decompress : CompressionMethod → List ℕ → ℕ → Outcome (List ℕ)) (config : Config Key) where
  unfoldable pub read : IoStoreBackend → FIoChunkId → Outcome (List ℕ)
  read self chunk_id = do
    let stamped = with_file_version (container_file_version self) chunk_id
    found ← find (λ c. Container.has_chunk_id c stamped) self.containers
    container ← with_chunk_id stamped found
    Container.read decrypt_block decompress config container stamped

  unfoldable pub read_raw : IoStoreBackend → FIoChunkIdRaw → Outcome (List ℕ)
  read_raw self chunk_id_raw = do
    found ← find (λ c. Container.has_chunk_id_raw c chunk_id_raw) self.containers
    container ← Outcome.context not_found found
    Container.read_raw decrypt_block decompress config container chunk_id_raw
