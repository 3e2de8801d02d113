-- ===== src/Tests/Stores.antt =====
-- The theorems on stores of several containers, on container headers and on versions.
use retoc.Version.{
  package_file_version, container_header_version, ue5_4, soft_package_references, no_export_info,
  toc_version, header_repr, EIoContainerHeaderVersion,
}
use retoc.Zen.Versioning.{extra_dependencies, FZenPackageVersioningInfo}
use retoc.Prelude.{
  ℕ, List, [], ◌∷◌, some, none, codes, refl, map, false, true, ◌≡◌, ◌+◌, ◌==◌, if◌then◌else◌, ◌*◌,
  ◌↔◌, ◌≢◌, list_eq,
}
use retoc.Outcome.{ok, err, invalid_data, not_found}
use retoc.Toc.ChunkId.{create, FIoChunkId, get_raw, with_version}
use retoc.IoStore.Backend.{
  packages_all, with_file_version, open_containers, check_versions, agree, agree_header,
}
use retoc.Toc.Version.{
  repr, on_demand_meta_data, partition_size, EIoStoreTocVersion, replace_io_chunk_hash_with_io_hash,
}
use retoc.IoStore.Priority.{
  place, Descending, sort_container_name, sort_by, lower, version_of, strip_patch,
}
use retoc.IoStore.Unique.{Distinct, packages_all-Distinct}
use mathlib.Core.List.{Perm, set}
use retoc.VersionHeuristics.{
  heuristic_zen_package_version, heuristic_zen_package_version-container,
  heuristic_zen_package_version-eq-err,
}
use retoc.Toc.File.{Config}
use retoc.IoStore.{IoStoreBackend, IoStoreContainer, contains, PackageInfo}
use retoc.ContainerHeader.Header.{
  add_package_redirect, FIoContainerHeader, add_localized_package, add_localized_package_twice,
  from_name, lookup_package_redirect-add_package_redirect,
}
use retoc.Toc.ChunkType.{bulk_data}
use retoc.IoStore.Lookup.{read-first, read-missing}
use retoc.Ser.Arrays.{All}
use retoc.Ser.Stream.{to_le_bytes}
use retoc.IoStore.Opening.{FileIs, HeaderIs, open_containers-eq-ok}
use retoc.Writer
use retoc.Toc.ChunkId
use retoc.Toc.ChunkType
use retoc.IoStore.Backend
use retoc.ContainerHeader.Header
use retoc.IoStore.Container

heuristic_zen_package_version-container_example :
    (info : FZenPackageVersioningInfo) × (heuristic_zen_package_version none
        (toc_version ue5_4)
        (container_header_version ue5_4)
        true
      ≡ ok info)
    × (package_file_version ue5_4 ≡ ok info.package_file_version)
    × (info.zen_version ≡ extra_dependencies)
heuristic_zen_package_version-container_example = heuristic_zen_package_version-container ue5_4

heuristic_zen_package_version-eq-err_example :
    heuristic_zen_package_version none on_demand_meta_data soft_package_references false
      ≡ err invalid_data
    ↔ (header_repr soft_package_references ≡ header_repr soft_package_references)
      × (repr on_demand_meta_data ≢ repr replace_io_chunk_hash_with_io_hash)
heuristic_zen_package_version-eq-err_example =
    heuristic_zen_package_version-eq-err on_demand_meta_data soft_package_references false

-- A name map in which no name is known.
abbrev header : FIoContainerHeader
header = Header.new no_export_info 5

abbrev sum_hash : List ℕ → ℕ
sum_hash [] = 7
sum_hash (b ∷ bs) = b + 2 * sum_hash bs

lookup_package_redirect-add_package_redirect_example :
    Header.lookup_package_redirect (add_package_redirect sum_hash header (codes "/Game/A") 42) 13
    ≡ (if 13 == from_name sum_hash (codes "/Game/A")
        then some 42
        else Header.lookup_package_redirect header 13)
lookup_package_redirect-add_package_redirect_example =
    lookup_package_redirect-add_package_redirect sum_hash header (codes "/Game/A") 42 13

abbrev chunk : FIoChunkId
chunk = create 1 0 bulk_data

-- A container without chunks, and one with the chunk.
abbrev bare : IoStoreContainer
bare = record {
  name = codes "pak0";
  toc = (Writer.new partition_size 1 (codes "../")).toc;
  cas = [];
  container_header = none;
}

abbrev full : IoStoreContainer
full = record bare {
  name = codes "global";
  toc = record (Writer.new partition_size 1 (codes "../")).toc { chunk_id_map = λ k. some 0 };
}

abbrev both : IoStoreBackend
both = record { containers = bare ∷ full ∷ [] }

bare_has :
    Container.has_chunk_id bare (with_file_version (Backend.container_file_version both) chunk)
    ≡ ok false
unfolding Container.has_chunk_id Container.index_of Backend.container_file_version
    Container.container_file_version with_file_version get_raw with_version create to_le_bytes
    ChunkType.value ChunkId.stamp ChunkType.from_repr Writer.new
bare_has = refl

full_has :
    Container.has_chunk_id full (with_file_version (Backend.container_file_version both) chunk)
    ≡ ok true
unfolding Container.has_chunk_id Container.index_of Backend.container_file_version
    Container.container_file_version with_file_version get_raw with_version create to_le_bytes
    ChunkType.value ChunkId.stamp ChunkType.from_repr Writer.new
full_has = refl

abbrev no_keys : Config ℕ
no_keys = record { aes_keys = λ g. none }

read-first_example :
    Backend.read (λ k b. b) (λ m b n. ok b) no_keys both chunk
    ≡ Container.read
        (λ k b. b)
        (λ m b n. ok b)
        no_keys
        full
        (with_file_version (Backend.container_file_version both) chunk)
read-first_example =
    read-first (λ k b. b) (λ m b n. ok b) no_keys both chunk (bare ∷ []) [] full refl (bare_has, tt)
      full_has

abbrev lone : IoStoreBackend
lone = record { containers = bare ∷ [] }

lone_has :
    Container.has_chunk_id bare (with_file_version (Backend.container_file_version lone) chunk)
    ≡ ok false
unfolding Container.has_chunk_id Container.index_of Backend.container_file_version
    Container.container_file_version with_file_version get_raw with_version create to_le_bytes
    ChunkType.value ChunkId.stamp ChunkType.from_repr Writer.new
lone_has = refl

lone_raw :
    get_raw (with_file_version (Backend.container_file_version lone) chunk)
    ≡ ok (record { id = set chunk.id 11 3 })
unfolding Backend.container_file_version Container.container_file_version with_file_version get_raw
    with_version create to_le_bytes ChunkType.value ChunkId.stamp ChunkType.from_repr Writer.new
lone_raw = refl

read-missing_example : Backend.read (λ k b. b) (λ m b n. ok b) no_keys lone chunk ≡ err not_found
read-missing_example =
    read-missing (λ k b. b) (λ m b n. ok b) no_keys lone chunk (record { id = set chunk.id 11 3 })
      lone_raw (lone_has, tt)

opened : open_containers (bare ∷ full ∷ []) ≡ ok (record { containers = full ∷ bare ∷ [] })
unfolding open_containers check_versions agree agree_header Container.container_file_version
    Container.container_header_version sort_by place lower sort_container_name version_of
    strip_patch list_eq Writer.new
opened = refl

open_containers-eq-ok_example :
    Perm (full ∷ bare ∷ []) (bare ∷ full ∷ [])
    × Descending (λ c. sort_container_name c.name) (full ∷ bare ∷ [])
    × ((v : EIoStoreTocVersion) × All (FileIs v) (bare ∷ full ∷ []))
    × ((h : EIoContainerHeaderVersion) × All
          (λ c. HeaderIs h (Container.container_header_version c))
          (bare ∷ full ∷ []))
open_containers-eq-ok_example =
    open_containers-eq-ok (bare ∷ full ∷ []) (record { containers = full ∷ bare ∷ [] }) opened

packages_all-Distinct_example :
    Distinct ◌==◌ (λ p. p.id) (packages_all both)
    × All
        (λ p.
          contains ◌==◌ (λ (q : PackageInfo). q.id) (map (λ q. q.id) (packages_all both)) p.id
          ≡ true)
        (Backend.packages both)
packages_all-Distinct_example = packages_all-Distinct both
