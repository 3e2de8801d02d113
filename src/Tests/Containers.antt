-- ===== src/Tests/Containers.antt =====
-- The theorem on reading what was written, at a container of one chunk.
use retoc.Prelude.{ℕ, ◌≡◌, List, [], ◌∷◌, ◌++◌, length, drop, replicate, none, codes, arith}
use retoc.Outcome.{ok}
use retoc.Toc.Version.{partition_size}
use retoc.Toc.Read.{read_blocks}
use retoc.Toc.ChunkId.{create}
use retoc.Toc.ChunkType.{bulk_data}
use retoc.Toc.Block.{FIoStoreTocCompressedBlockEntry}
use retoc.Writer.{IoStoreWriter, append_chunk, new}
use retoc.Writer.ReadBack.{append_chunk-read_blocks}

abbrev contents : List ℕ
contents = 10 ∷ 20 ∷ 30 ∷ []

abbrev written : IoStoreWriter
written =
    append_chunk (λ b. replicate 32 0) (λ m p. none) (new partition_size 99 (codes "../"))
      (create 1 0 bulk_data) contents

append_chunk-read_blocks_example :
    (blocks : List FIoStoreTocCompressedBlockEntry) × (written.toc.compression_blocks
      ≡ (new partition_size 99 (codes "../")).toc.compression_blocks ++ blocks)
    × (written.cas_stream ≡ (new partition_size 99 (codes "../")).cas_stream ++ contents)
    × (read_blocks {Key = ℕ}
          (λ k b. b)
          (λ m b n. ok b)
          written.toc
          written.cas_stream
          none
          (replicate 16 0)
          0
          blocks
        ≡ ok (contents ++ drop (length contents) (replicate 16 0)))
append_chunk-read_blocks_example =
    append_chunk-read_blocks {Key = ℕ} (λ k b. b) (λ m b n. ok b) (λ b. replicate 32 0)
      (λ m p. none) (new partition_size 99 (codes "../")) (create 1 0 bulk_data) contents
      (replicate 16 0) (unfold new in omega arith) (unfold new in omega arith)
      (unfold new in omega arith) (omega arith)
