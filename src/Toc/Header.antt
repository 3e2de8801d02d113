-- ===== src/Toc/Header.antt =====
-- `FIoStoreTocHeader` and `FGuid` of src/main.rs.
use retoc.Prelude.{
  ℕ, ◌^◌, ◌<◌, ◌≡◌, List, ◌++◌, length, append_assoc, codes, list_eq, ◌==◌, sym, list_eq_iff,
  ==_iff, arith, ◌∙◌, ap,
}
use retoc.Ser.Stream.{Reader, pure, ◌>>=◌, RoundTrips, read_exact, read_exact-append, lift}
use retoc.Ser.Words.{
  de_u8, ser_u8, de_u16, ser_u16, de_u32, ser_u32, de_u32-ser_u32, de_u64, ser_u64, de_u8-ser_u8,
  de_u16-ser_u16, de_u64-ser_u64,
}
use retoc.Ser.Arrays.{All, read_array, ser_array, read_array-ser_array}
use retoc.Toc.Version.{EIoStoreTocVersion, de_version, ser_version, de_version-ser_version}
use retoc.Toc.Flags.{de_container_flags, ser_flags, AreFlags, de_container_flags-ser_flags}
use retoc.Outcome.{Outcome, ensure, bad_magic, assert, ok, bind-eq-ok, bind}
use retoc.Outcome

pub record FGuid : Type 0 where
  pub a : ℕ
  pub b : ℕ
  pub c : ℕ
  pub d : ℕ

unfoldable pub de_guid : Reader FGuid
de_guid = do
  a ← de_u32
  b ← de_u32
  c ← de_u32
  d ← de_u32
  pure (record { a = a; b = b; c = c; d = d })

unfoldable pub ser_guid : FGuid → List ℕ
ser_guid g = ser_u32 g.a ++ (ser_u32 g.b ++ (ser_u32 g.c ++ ser_u32 g.d))

pub record IsGuid (g : FGuid) : Type 0 where
  pub a : g.a < 2 ^ 32
  pub b : g.b < 2 ^ 32
  pub c : g.c < 2 ^ 32
  pub d : g.d < 2 ^ 32

pub de_guid-ser_guid : RoundTrips de_guid ser_guid IsGuid
unfolding de_guid ser_guid
de_guid-ser_guid g rest h = simp (append_assoc, de_u32-ser_u32, h.a, h.b, h.c, h.d)

pub record FIoStoreTocHeader : Type 0 where
  pub toc_magic : List ℕ
  pub version : EIoStoreTocVersion
  pub reserved0 : ℕ
  pub reserved1 : ℕ
  pub toc_header_size : ℕ
  pub toc_entry_count : ℕ
  pub toc_compressed_block_entry_count : ℕ
  pub toc_compressed_block_entry_size : ℕ
  pub compression_method_name_count : ℕ
  pub compression_method_name_length : ℕ
  pub compression_block_size : ℕ
  pub directory_index_size : ℕ
  pub partition_count : ℕ
  pub container_id : ℕ
  pub encryption_key_guid : FGuid
  pub container_flags : ℕ
  pub reserved3 : ℕ
  pub reserved4 : ℕ
  pub toc_chunk_perfect_hash_seeds_count : ℕ
  pub partition_size : ℕ
  pub toc_chunks_without_perfect_hash_count : ℕ
  pub reserved7 : ℕ
  pub reserved8 : List ℕ

unfoldable pub read_fields : Reader FIoStoreTocHeader
read_fields = do
  toc_magic ← read_exact 16
  version ← de_version
  reserved0 ← de_u8
  reserved1 ← de_u16
  toc_header_size ← de_u32
  toc_entry_count ← de_u32
  toc_compressed_block_entry_count ← de_u32
  toc_compressed_block_entry_size ← de_u32
  compression_method_name_count ← de_u32
  compression_method_name_length ← de_u32
  compression_block_size ← de_u32
  directory_index_size ← de_u32
  partition_count ← de_u32
  container_id ← de_u64
  encryption_key_guid ← de_guid
  container_flags ← de_container_flags
  reserved3 ← de_u8
  reserved4 ← de_u16
  toc_chunk_perfect_hash_seeds_count ← de_u32
  partition_size ← de_u64
  toc_chunks_without_perfect_hash_count ← de_u32
  reserved7 ← de_u32
  reserved8 ← read_array 5 de_u64
  pure (record {
    toc_magic = toc_magic;
    version = version;
    reserved0 = reserved0;
    reserved1 = reserved1;
    toc_header_size = toc_header_size;
    toc_entry_count = toc_entry_count;
    toc_compressed_block_entry_count = toc_compressed_block_entry_count;
    toc_compressed_block_entry_size = toc_compressed_block_entry_size;
    compression_method_name_count = compression_method_name_count;
    compression_method_name_length = compression_method_name_length;
    compression_block_size = compression_block_size;
    directory_index_size = directory_index_size;
    partition_count = partition_count;
    container_id = container_id;
    encryption_key_guid = encryption_key_guid;
    container_flags = container_flags;
    reserved3 = reserved3;
    reserved4 = reserved4;
    toc_chunk_perfect_hash_seeds_count = toc_chunk_perfect_hash_seeds_count;
    partition_size = partition_size;
    toc_chunks_without_perfect_hash_count = toc_chunks_without_perfect_hash_count;
    reserved7 = reserved7;
    reserved8 = reserved8;
  })

unfoldable pub ser_header : FIoStoreTocHeader → List ℕ
ser_header h =
    h.toc_magic
    ++ (ser_version h.version
        ++ (ser_u8 h.reserved0
            ++ (ser_u16 h.reserved1
                ++ (ser_u32 h.toc_header_size
                    ++ (ser_u32 h.toc_entry_count
                        ++ (ser_u32 h.toc_compressed_block_entry_count
                            ++ (ser_u32 h.toc_compressed_block_entry_size
                                ++ (ser_u32 h.compression_method_name_count
                                    ++ (ser_u32 h.compression_method_name_length
                                        ++ (ser_u32 h.compression_block_size
                                            ++ (ser_u32 h.directory_index_size
                                                ++ (ser_u32 h.partition_count
                                                    ++ (ser_u64 h.container_id
                                                        ++ (ser_guid h.encryption_key_guid
                                                            ++ (ser_flags h.container_flags
                                                            ++ (ser_u8 h.reserved3
                                                            ++ (ser_u16 h.reserved4
                                                            ++ (ser_u32
                                                            h.toc_chunk_perfect_hash_seeds_count
                                                            ++ (ser_u64 h.partition_size
                                                            ++ (ser_u32
                                                            h.toc_chunks_without_perfect_hash_count
                                                            ++ (ser_u32 h.reserved7
                                                            ++ ser_array ser_u64
                                                            h.reserved8)))))))))))))))))))))

-- Every field holds a value of its type.
pub record IsHeader (h : FIoStoreTocHeader) : Type 0 where
  pub toc_magic : length h.toc_magic ≡ 16
  pub reserved0 : h.reserved0 < 256
  pub reserved1 : h.reserved1 < 2 ^ 16
  pub toc_header_size : h.toc_header_size < 2 ^ 32
  pub toc_entry_count : h.toc_entry_count < 2 ^ 32
  pub toc_compressed_block_entry_count : h.toc_compressed_block_entry_count < 2 ^ 32
  pub toc_compressed_block_entry_size : h.toc_compressed_block_entry_size < 2 ^ 32
  pub compression_method_name_count : h.compression_method_name_count < 2 ^ 32
  pub compression_method_name_length : h.compression_method_name_length < 2 ^ 32
  pub compression_block_size : h.compression_block_size < 2 ^ 32
  pub directory_index_size : h.directory_index_size < 2 ^ 32
  pub partition_count : h.partition_count < 2 ^ 32
  pub container_id : h.container_id < 2 ^ 64
  pub encryption_key_guid : IsGuid h.encryption_key_guid
  pub container_flags : AreFlags 15 h.container_flags
  pub reserved3 : h.reserved3 < 256
  pub reserved4 : h.reserved4 < 2 ^ 16
  pub toc_chunk_perfect_hash_seeds_count : h.toc_chunk_perfect_hash_seeds_count < 2 ^ 32
  pub partition_size : h.partition_size < 2 ^ 64
  pub toc_chunks_without_perfect_hash_count : h.toc_chunks_without_perfect_hash_count < 2 ^ 32
  pub reserved7 : h.reserved7 < 2 ^ 32
  pub reserved8 : (length h.reserved8 ≡ 5) × All (λ x. x < 2 ^ 64) h.reserved8

-- `-==--==--==--==-`
abbrev pub magic : List ℕ
magic = codes "-==--==--==--==-"

-- The checks that follow the fields: an error for a file of another kind, and an assertion.
unfoldable pub check_header : FIoStoreTocHeader → Outcome FIoStoreTocHeader
check_header res =
    Outcome.bind (ensure bad_magic (list_eq res.toc_magic magic))
      λ _. Outcome.bind (assert (res.toc_header_size == 0x90)) λ _. ok res

unfoldable pub de_header : Reader FIoStoreTocHeader
de_header = do res ← read_fields; lift (check_header res)

reserved8-array :
    (xs rest : List ℕ)
    → (length xs ≡ 5) × All (λ x. x < 2 ^ 64) xs
    → read_array 5 de_u64 (ser_array ser_u64 xs ++ rest) ≡ ok (xs, rest)
reserved8-array xs rest h =
    rw (sym h.0) (read_array-ser_array de_u64 ser_u64 (λ x. x < 2 ^ 64) de_u64-ser_u64 xs rest h.1)

-- `read_exact` and the array of `reserved8` at the lengths of the header.
read_fields-ser_header : RoundTrips read_fields ser_header IsHeader
unfolding read_fields ser_header
read_fields-ser_header h rest v = simp (
  append_assoc,
  read_exact-append 16,
  de_u8-ser_u8,
  de_u16-ser_u16,
  de_u32-ser_u32,
  de_u64-ser_u64,
  de_guid-ser_guid,
  de_container_flags-ser_flags,
  λ (x : EIoStoreTocVersion) (r : List ℕ). de_version-ser_version x r tt,
  reserved8-array h.reserved8 rest v.reserved8,
  v.toc_magic,
  v.reserved0,
  v.reserved1,
  v.toc_header_size,
  v.toc_entry_count,
  v.toc_compressed_block_entry_count,
  v.toc_compressed_block_entry_size,
  v.compression_method_name_count,
  v.compression_method_name_length,
  v.compression_block_size,
  v.directory_index_size,
  v.partition_count,
  v.container_id,
  v.encryption_key_guid,
  v.container_flags,
  v.reserved3,
  v.reserved4,
  v.toc_chunk_perfect_hash_seeds_count,
  v.partition_size,
  v.toc_chunks_without_perfect_hash_count,
  v.reserved7,
)

-- A header whose fields hold values of their types, with the magic and the size of the format, is
-- read back as it was written.
pub de_header-ser_header :
    (h : FIoStoreTocHeader) (rest : List ℕ)
    → IsHeader h
    → h.toc_magic ≡ magic
    → h.toc_header_size ≡ 0x90
    → de_header (ser_header h ++ rest) ≡ ok (h, rest)
unfolding de_header check_header
de_header-ser_header h rest v m n = rw (
  read_fields-ser_header h rest v,
  (list_eq_iff h.toc_magic magic).1 m,
  (==_iff h.toc_header_size 0x90).1 n,
)

check_header-eq-ok :
    (res h : FIoStoreTocHeader)
    → check_header res ≡ ok h
    → (h.toc_magic ≡ magic) × (h.toc_header_size ≡ 0x90)
unfolding check_header
check_header-eq-ok res h e = ground (arith, list_eq_iff res.toc_magic magic)

-- Whatever the bytes, a header that is accepted has the magic of the format and its size.
pub de_header_checks :
    (s rest : List ℕ) (h : FIoStoreTocHeader)
    → de_header s ≡ ok (h, rest)
    → (h.toc_magic ≡ magic) × (h.toc_header_size ≡ 0x90)
unfolding de_header
de_header_checks s rest h e =
    let (r, e₁, e₂) = bind-eq-ok (read_fields s) _ e in
    let (res, e₃, e₄) = bind-eq-ok (check_header r.0) _ e₂ in
    check_header-eq-ok r.0 h (e₃ ∙ ap (λ p. bind p (λ q. ok q.0)) e₄)
