-- ===== src/Toc/Meta.antt =====
-- `FIoChunkHash` and `FIoStoreTocEntryMeta` of src/main.rs, with `read_meta` and `write_meta`. From
-- `ReplaceIoChunkHashWithIoHash` on a hash takes 20 bytes of the file, and 3 bytes are reserved.
use retoc.Toc.Version.{EIoStoreTocVersion, at_least, replace_io_chunk_hash_with_io_hash}
use retoc.Toc.Flags.{de_meta_flags, ser_flags, AreFlags, de_meta_flags-ser_flags}
use retoc.Ser.Arrays.{All, read_array, ser_array, read_array-ser_array}
use retoc.Ser.Stream.{Reader, RoundTrips, read_exact-append, ◌>>◌, ◌>>=◌, read_exact, pure}
use retoc.Prelude.{
  List, ℕ, length, Bool, if◌then◌else◌, take, ◌++◌, ◌≡◌, Bool-cases, true, inl, replicate,
  append_assoc, arith, length-take, inr, refl,
}
use retoc.Outcome.{ok}

pub record FIoStoreTocEntryMeta : Type 0 where
  pub chunk_hash : List ℕ
  pub flags : ℕ

-- `FIoChunkHash::from_blake3`
unfoldable pub from_blake3 : List ℕ → List ℕ
from_blake3 hash = take 20 hash ++ replicate 12 0

abbrev is_short : EIoStoreTocVersion → Bool
is_short version = at_least version replace_io_chunk_hash_with_io_hash

unfoldable pub de_meta : EIoStoreTocVersion → Reader FIoStoreTocEntryMeta
de_meta version =
    if is_short version
    then (do
      chunk_hash ← read_exact 20
      flags ← de_meta_flags
      read_exact 3
      pure (record { chunk_hash = chunk_hash ++ replicate 12 0; flags = flags }))
    else (do
      chunk_hash ← read_exact 32
      flags ← de_meta_flags
      pure (record { chunk_hash = chunk_hash; flags = flags }))

unfoldable pub read_meta : ℕ → EIoStoreTocVersion → Reader (List FIoStoreTocEntryMeta)
read_meta toc_entry_count version = read_array toc_entry_count (de_meta version)

unfoldable pub ser_meta : EIoStoreTocVersion → FIoStoreTocEntryMeta → List ℕ
ser_meta version meta =
    if is_short version
    then take 20 meta.chunk_hash ++ (ser_flags meta.flags ++ replicate 3 0)
    else meta.chunk_hash ++ ser_flags meta.flags

unfoldable pub write_meta : EIoStoreTocVersion → List FIoStoreTocEntryMeta → List ℕ
write_meta version metas = ser_array (ser_meta version) metas

-- What a file of this version can hold.
pub record IsMeta (version : EIoStoreTocVersion) (meta : FIoStoreTocEntryMeta) : Type 0 where
  pub long : length meta.chunk_hash ≡ 32
  pub flags : AreFlags 3 meta.flags
  pub short : is_short version ≡ true → take 20 meta.chunk_hash ++ replicate 12 0 ≡ meta.chunk_hash

de_meta-ser_meta :
    (version : EIoStoreTocVersion)
    → RoundTrips (de_meta version) (ser_meta version) (IsMeta version)
unfolding de_meta ser_meta
de_meta-ser_meta version meta rest h = elim (Bool-cases (is_short version)) [
  | inl s ↦ rw (
    s,
    append_assoc,
    append_assoc,
    read_exact-append 20 (take 20 meta.chunk_hash) (ser_flags meta.flags ++ (replicate 3 0 ++ rest))
        (omega (arith, length-take 20 meta.chunk_hash, h.long)),
    de_meta_flags-ser_flags meta.flags (replicate 3 0 ++ rest) h.flags,
    read_exact-append 3 (replicate 3 0) rest refl,
    h.short s,
  )
  | inr l ↦ rw (
    l,
    append_assoc,
    read_exact-append 32 meta.chunk_hash (ser_flags meta.flags ++ rest) h.long,
    de_meta_flags-ser_flags meta.flags rest h.flags,
  )
]

-- The metas of the chunks, each of which a file of the version can hold, are read back as they were
-- written.
pub read_meta-write_meta :
    (version : EIoStoreTocVersion) (metas : List FIoStoreTocEntryMeta) (rest : List ℕ)
    → All (IsMeta version) metas
    → read_meta (length metas) version (write_meta version metas ++ rest) ≡ ok (metas, rest)
unfolding read_meta write_meta
read_meta-write_meta version metas rest h =
    read_array-ser_array (de_meta version) (ser_meta version) (IsMeta version)
      (de_meta-ser_meta version) metas rest h
