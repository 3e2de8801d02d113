-- ===== src/Toc/Read.antt =====
-- `Toc::read` of src/main.rs, with `align_u64` and `align_usize`. The container file is the list of
-- its bytes. AES and the decompressors are parameters; a decompressor gets the size of its output.
use retoc.Outcome
use retoc.Outcome.{◌>>=◌, ◌>>◌, Outcome, ok, panicked, err, unexpected_eof}
use retoc.Toc.File.{Toc, Config, decrypt_blocks}
use retoc.Toc.Block.{FIoStoreTocCompressedBlockEntry}
use retoc.Compression.{CompressionMethod}
use retoc.Ser.BigEndian.{copy_from_slice}
use retoc.Prelude.{
  ◌∷◌, [], some, none, List, ℕ, length, ◌+◌, Option, if◌then◌else◌, bit_and, get_elem?, ◌==◌,
  replicate, ◌-◌, ltb, take, ◌^◌, ◌/◌, drop, leb,
}
use retoc.Toc.Offsets
use retoc.Toc.Block
use retoc.Toc.Flags

-- `(value + alignment - 1) & !(alignment - 1)` in 64 bits
unfoldable pub align : ℕ → ℕ → ℕ
align value alignment = bit_and (value + alignment - 1) (2 ^ 64 - alignment)

-- `seek` and `read_exact`; no bytes can be read anywhere.
unfoldable pub read_at : List ℕ → ℕ → ℕ → Outcome (List ℕ)
read_at cas offset n =
    if n == 0
    then ok []
    else if ltb (length cas) (offset + n)
    then err unexpected_eof
    else ok (take n (drop offset cas))

-- `&blocks[first..=last]`
unfoldable pub slice_inclusive {ℓ} : {A : Type ℓ} → List A → ℕ → ℕ → Outcome (List A)
slice_inclusive blocks first last =
    if ltb (last + 1) first
    then panicked
    else if ltb (length blocks) (last + 1)
    then panicked
    else ok (take (last + 1 - first) (drop first blocks))

-- The blocks of an entry, by its offset and size. A block size of 0 divides by zero, and an end of 0
-- has no block before it: without overflow checks the last index passes the end of any list.
unfoldable pub blocks_of : Toc → ℕ → ℕ → Outcome (List FIoStoreTocCompressedBlockEntry)
blocks_of self offset size =
    let block_size = self.compression_block_size in
    let end = align (offset + size) block_size in
    if block_size == 0
    then panicked
    else if end == 0
    then panicked
    else slice_inclusive self.compression_blocks (offset / block_size) ((end - 1) / block_size)

-- `buffer[cur..][..n]` is there; past the end the slicing panics.
unfoldable pub has_room : List ℕ → ℕ → ℕ → Outcome (Unit {0})
has_room buffer cur n = Outcome.assert (leb (cur + n) (length buffer))

module _ {Key : Type 0} (decrypt_block : Key → List ℕ → List ℕ)
    (decompress : CompressionMethod → List ℕ → ℕ → Outcome (List ℕ)) where
  -- What is read for a block with a key: whole AES blocks, decrypted.
  unfoldable pub read_encrypted : Key → List ℕ → ℕ → ℕ → Outcome (List ℕ)
  read_encrypted key cas offset size = do
    bytes ← read_at cas offset (align size 16)
    decrypt_blocks (decrypt_block key) (length bytes) bytes

  unfoldable pub read_input : Option Key → List ℕ → ℕ → ℕ → Outcome (List ℕ)
  read_input none cas offset size = read_at cas offset size
  read_input (some key) cas offset size = read_encrypted key cas offset size

  -- A block without a method is read where it goes, with its padding if there is a key.
  unfoldable pub read_stored : Option Key → List ℕ → List ℕ → ℕ → ℕ → ℕ → Outcome (List ℕ)
  read_stored none cas buffer cur offset size = do
    has_room buffer cur size
    bytes ← read_at cas offset size
    ok (copy_from_slice buffer cur bytes)
  read_stored (some key) cas buffer cur offset size = do
    has_room buffer cur (align size 16)
    bytes ← read_encrypted key cas offset size
    ok (copy_from_slice buffer cur bytes)

  -- A compressed block is read elsewhere, and decompressed to where it goes.
  unfoldable pub read_compressed :
      CompressionMethod
      → Option Key
      → List ℕ
      → List ℕ
      → ℕ
      → FIoStoreTocCompressedBlockEntry
      → Outcome (List ℕ)
  read_compressed method aes_key cas buffer cur block = do
    tmp ← read_input aes_key cas (Block.get_offset block) (Block.get_compressed_size block)
    has_room buffer cur (Block.get_uncompressed_size block)
    output ←
        decompress method (take (Block.get_compressed_size block) tmp)
          (Block.get_uncompressed_size block)
    ok (copy_from_slice buffer cur output)

  -- One round of the loop: the buffer with the block's bytes from `cur` on.
  unfoldable pub read_block :
      Toc → List ℕ → Option Key → List ℕ → ℕ → FIoStoreTocCompressedBlockEntry → Outcome (List ℕ)
  read_block self cas aes_key buffer cur block =
      let index = Block.get_compression_method_index block in
      let offset = Block.get_offset block in
      let size = Block.get_uncompressed_size block in
      if index == 0
      then (do has_room buffer cur 0; read_stored aes_key cas buffer cur offset size)
      else (do
        has_room buffer cur 0
        method ← Outcome.unwrap (get_elem? self.compression_methods (index - 1))
        read_compressed method aes_key cas buffer cur block)

  unfoldable pub read_blocks :
      Toc
      → List ℕ
      → Option Key
      → List ℕ
      → ℕ
      → List FIoStoreTocCompressedBlockEntry
      → Outcome (List ℕ)
  read_blocks self cas aes_key buffer cur [] = ok buffer
  read_blocks self cas aes_key buffer cur (block ∷ blocks) = do
    filled ← read_block self cas aes_key buffer cur block
    read_blocks self cas aes_key filled (cur + Block.get_uncompressed_size block) blocks

  unfoldable pub key_of : Toc → Config Key → Outcome (Option Key)
  key_of self config =
      if Flags.contains self.container_flags Flags.encrypted
      then (do
        key ← Outcome.context Outcome.missing_key (config.aes_keys self.encryption_key_guid)
        ok (some key))
      else ok none

  unfoldable pub read : Toc → Config Key → List ℕ → ℕ → Outcome (List ℕ)
  read self config cas toc_entry_index = do
    entry ← Outcome.unwrap (get_elem? self.chunk_offset_lengths toc_entry_index)
    let offset = Offsets.get_offset entry
    let size = Offsets.get_length entry
    blocks ← blocks_of self offset size
    aes_key ← key_of self config
    filled ← read_blocks self cas aes_key (replicate (align size 16) 0) 0 blocks
    ok (take size filled)
