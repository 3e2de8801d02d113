-- ===== src/Writer/ReadBack.antt =====
-- `Toc::read` of src/main.rs on what `write_chunk` of src/iostore_writer.rs wrote.
use retoc.Outcome.{Outcome, ok}
use retoc.Prelude.{
  ℕ, ◌+◌, ◌<◌, ◌≤◌, ◌≡◌, ◌^◌, List, [], ◌∷◌, ◌++◌, length, drop, arith, refl, append_assoc, zero,
  suc, none, length-append, length-drop, ◌∙◌, Option, append-nil, ap,
}
use retoc.Compression.{CompressionMethod}
use retoc.Ser.Arrays.{All}
use retoc.Toc.File.{Toc}
use retoc.Toc.Read.{read_blocks}
use retoc.Toc.Block.{new_block_fields, FIoStoreTocCompressedBlockEntry}
use retoc.Toc.ChunkId.{FIoChunkId}
use retoc.Ser.Utf.{Text}
use retoc.Writer.{IoStoreWriter, append_chunk, concat, block_entries, chunks_of}
use retoc.Writer.Blocks.{read_block-new, concat-chunks_of, chunks_of_short}
use native.Mathlib.Nat.{mod-eq_of_lt}
use retoc.Toc.Block

drop-nil : (n : ℕ) → drop {A = ℕ} n [] ≡ []
drop-nil zero = refl
drop-nil (suc n) = refl

drop-drop : (a b : ℕ) (xs : List ℕ) → drop b (drop a xs) ≡ drop (a + b) xs
drop-drop zero b xs = let e : 0 + b ≡ b = omega arith in rw e
drop-drop (suc a) b [] =
    let e : suc a + b ≡ suc (a + b) = omega arith in rw (e, drop-nil b, drop-nil (suc (a + b)))
drop-drop (suc a) b (x ∷ xs) =
    let e : suc a + b ≡ suc (a + b) = omega arith in rw e (drop-drop a b xs)

module _ {Key : Type 0} (decrypt_block : Key → List ℕ → List ℕ)
    (decompress : CompressionMethod → List ℕ → ℕ → Outcome (List ℕ)) (self : Toc)
    (post : List ℕ) where
  read_blocks-new :
      (blocks : List (List ℕ)) (pre done tail : List ℕ)
      → length pre + length (concat blocks) < 2 ^ 40
      → All (λ b. length b < 2 ^ 24) blocks
      → length (concat blocks) ≤ length tail
      → read_blocks decrypt_block decompress self
          (pre ++ (concat blocks ++ post))
          none
          (done ++ tail)
          (length done)
          (block_entries (length pre) blocks)
        ≡ ok (done ++ (concat blocks ++ drop (length (concat blocks)) tail))
  unfolding read_blocks block_entries concat
  read_blocks-new [] pre done tail small short fits = refl
  read_blocks-new (b ∷ bs) pre done tail small short fits =
      let size : length (b ++ concat bs) ≡ length b + length (concat bs) =
        length-append b (concat bs) in
      let first =
        read_block-new decrypt_block decompress self pre b (concat bs ++ post) done tail
          (omega arith) short.0 (omega arith) in
      let rest =
        read_blocks-new bs (pre ++ b) (done ++ b) (drop (length b) tail)
          (omega (arith, length-append pre b)) short.1
          (omega (arith, length-drop (length b) tail)) in
      let width : Block.get_uncompressed_size (Block.new (length pre) (length b) (length b) 0)
          ≡ length b =
        (new_block_fields (length pre) (length b) (length b) 0).2 ∙ mod-eq_of_lt short.0 in
      let cas : concat (b ∷ bs) ++ post ≡ b ++ (concat bs ++ post) =
        append_assoc b (concat bs) post in
      let after =
        rw
          (
            length-append pre b,
            length-append done b,
            append_assoc pre b (concat bs ++ post),
            append_assoc done b (drop (length b) tail),
            append_assoc done b (concat bs ++ drop (length (concat bs)) (drop (length b) tail)),
            drop-drop (length b) (length (concat bs)) tail,
          )
          at rest in
      rw
        (
          append_assoc b (concat bs) post,
          first,
          width,
          size,
          append_assoc b (concat bs) (drop (length b + length (concat bs)) tail),
        )
        (rw (← cas) at after)

module _ {Key : Type 0} (decrypt_block : Key → List ℕ → List ℕ)
    (decompress : CompressionMethod → List ℕ → ℕ → Outcome (List ℕ)) (blake3 : List ℕ → List ℕ)
    (strip_prefix : Text → Text → Option (List Text)) where
  -- For block sizes from 1 to 2 ^ 24 - 1 and a container below 2 ^ 40 bytes: a chunk that is
  -- appended adds blocks to the table and the data to the container, and the loop of `Toc::read`
  -- over these blocks fills a buffer that is long enough with the data.
  pub append_chunk-read_blocks :
      (self : IoStoreWriter) (chunk_id : FIoChunkId) (bytes buffer : List ℕ)
      → 0 < self.toc.compression_block_size
      → self.toc.compression_block_size < 2 ^ 24
      → length self.cas_stream + length bytes < 2 ^ 40
      → length bytes ≤ length buffer
      → let written = append_chunk blake3 strip_prefix self chunk_id bytes in
        (blocks : List FIoStoreTocCompressedBlockEntry) × (written.toc.compression_blocks
          ≡ self.toc.compression_blocks ++ blocks)
        × (written.cas_stream ≡ self.cas_stream ++ bytes)
        × (read_blocks decrypt_block decompress written.toc written.cas_stream none buffer 0 blocks
            ≡ ok (bytes ++ drop (length bytes) buffer))
  unfolding append_chunk
  append_chunk-read_blocks self chunk_id bytes buffer positive narrow small fits =
      let blocks = chunks_of self.toc.compression_block_size (length bytes) bytes in
      let whole : concat blocks ≡ bytes =
        concat-chunks_of self.toc.compression_block_size bytes positive in
      let run =
        read_blocks-new decrypt_block decompress
          (append_chunk blake3 strip_prefix self chunk_id bytes).toc [] blocks self.cas_stream []
          buffer (rw whole small)
          (chunks_of_short self.toc.compression_block_size (length bytes) bytes narrow)
          (rw whole fits) in
      (
        block_entries (length self.cas_stream) blocks,
        refl,
        ap (λ d. self.cas_stream ++ d) whole,
        rw whole (rw (append-nil, whole) at run),
      )
