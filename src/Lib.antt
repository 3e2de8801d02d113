-- ===== src/Lib.antt =====
-- Verification of retoc, a tool that packs and unpacks the IoStore containers of Unreal Engine.
--
-- A container is a table of contents (.utoc) and the data of its chunks (.ucas). `Toc::de` and
-- `Toc::ser` of src/main.rs read and write the table; `IoStoreWriter` of src/iostore_writer.rs appends
-- chunks; `Toc::read` gets a chunk's data back. The parts use the codecs of src/ser.rs.
--
-- The files, and the code that they model:
--   Prelude, Outcome   shared: lists, integers, bits, and results. `Outcome` has the value of a Rust
--                      function, its error (`?` and `bail!`), a panic, or the end of the fuel.
--   Ser                src/ser.rs: a `Reader` takes the bytes that are left, a writer is the list of
--                      the bytes. Ser/Utf is what the code uses of the standard library's texts.
--   Compression        src/compression.rs: the names of the methods, and their table in a container.
--   Directory          the module `directory_index` of src/main.rs: codecs; Directory/Walk is
--                      `iter_root`, Directory/Add is `add_file`, and Directory/Forward is
--                      about the links that both keep.
--   Toc                src/main.rs: Toc/Version, Toc/Flags, Toc/Header, Toc/ChunkType, Toc/ChunkId,
--                      Toc/Offsets, Toc/Block and Toc/Meta are its parts, Toc/File and Toc/Codec the
--                      table, Toc/Maps its transient indexes, Toc/Read `Toc::read`.
--   Writer             src/iostore_writer.rs, without the container header. Writer/Blocks and
--                      Writer/ReadBack are about reading what it wrote.
--   NameMap            src/name_map.rs: mapped names; NameMap/Numbers is `break_down_name_string` of
--                      src/main.rs, NameMap/Store is `FNameMap`, and NameMap/Batch are the batches of
--                      names.
--   ScriptObjects      src/script_objects.rs: package object indexes and script objects.
--   Version            src/version.rs, and the versions of src/zen.rs and src/container_header.rs.
--   VersionHeuristics  src/version_heuristics.rs, for zen packages.
--   Zen                src/zen.rs: Zen/Summary, Zen/Versioning, Zen/Exports, Zen/Dependencies and
--                      Zen/PackageIndex are the parts of the header of a package.
--   ContainerHeader    src/container_header.rs: ContainerHeader/Store is `StoreEntries`, with
--                      Store/Layout, Store/Resolve and Store/RoundTrip about it,
--                      ContainerHeader/Records the other records, ContainerHeader/Header the header
--                      with its operations, and ContainerHeader/BTreeMap the ordered maps.
--   IoStore            src/iostore.rs: IoStore/Container is one container, IoStore/Backend a
--                      directory of them, IoStore/Priority their order. IoStore/Opening,
--                      IoStore/Lookup and IoStore/Unique are about opening, reading and listing.
--   LegacyAsset        src/legacy_asset.rs: LegacyAsset/Summary is the summary of a package, with
--                      Summary/RoundTrip and Summary/Stored about it, LegacyAsset/Versioning
--                      its versions, LegacyAsset/Imports and LegacyAsset/Objects are the
--                      imports and exports, LegacyAsset/Records the smaller records.
--   ZenConversion      src/zen_asset_conversion.rs: ZenConversion/Preload builds the dependency graph
--                      of the exports from the lists of a package, with Nodes, Known, Pushed,
--                      Reverse and Sound about it, ZenConversion/LoadOrder sorts it,
--                      with Verdict, Sorted, Rounds and Counting about the order, and
--                      ZenConversion/Bundles makes the bundles and arcs of the zen package from it.
--   ShaderLibrary      src/shader_library.rs: ShaderLibrary/Records and ShaderLibrary/Headers are the
--                      codecs of the library formats, ShaderLibrary/Groups the groups that shaders
--                      are packed in, with Groups/Kept about them, and ShaderLibrary/Sequences the
--                      search for a group's indices.
--   FilePool           src/file_pool.rs: the steps of threads that share the pool, with FilePool/Limit
--                      and FilePool/Waiting about them.
--   Tests              runs at concrete inputs.
--
-- Bytes and words are natural numbers, and a text is the list of its code points. Widths are written
-- out as remainders where the code truncates. Structures are records; a method that changes its
-- object returns the new one. AES, the decompressors, blake3, cityhash and the path library are
-- parameters. Hash maps are functions to an option, ordered maps lists of pairs in their order. Words
-- wrap as in a build without overflow checks.
--
-- Fuel: the walk of the directory index has a round for each entry, and one more for the end of
-- each list; `take_nodes` has a round for each node, of which each round takes one, and one more
-- for the end; `digits` has ten rounds, enough for a number of 32 bits; `chunks_of` has a round for
-- each byte.
--
-- Not modelled: the reading and writing of a whole container header, and of whole package headers of
-- both formats, which seek to their parts; name batches in parts; the conversion to legacy packages, and
-- of the conversion to zen packages all but the order of the exports and their dependencies; the layout
-- and the compression of shader code; the compact binary format; and the command line, with the
-- opening of files.
pub mod Prelude
pub mod Outcome
pub mod Ser
pub mod Compression
pub mod Directory
pub mod Toc
pub mod Writer
pub mod FilePool
pub mod Version
pub mod ScriptObjects
pub mod NameMap
pub mod Tests
pub mod Zen
pub mod ContainerHeader
pub mod VersionHeuristics
pub mod IoStore
pub mod ZenConversion
pub mod LegacyAsset
pub mod ShaderLibrary
