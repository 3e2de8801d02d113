-- ===== src/IoStore/Lookup.antt =====
-- Which container of a directory answers, in src/iostore.rs.
use retoc.Prelude.{ℕ, [], ◌∷◌, refl, false, true, some, none, Bool, ◌≡◌, ◌++◌, ap, ◌∙◌}
use retoc.IoStore.Backend.{read, with_file_version, container_file_version, with_chunk_id}
use retoc.IoStore.{IoStoreContainer, IoStoreBackend, find}
use mathlib.Core.List.{List}
use retoc.Outcome.{Outcome, ok, err, not_found}
use retoc.Compression.{CompressionMethod}
use retoc.Toc.File.{Config}
use retoc.Ser.Arrays.{All}
use retoc.Toc.ChunkId.{FIoChunkId, FIoChunkIdRaw, get_raw, debug-get_raw}
use retoc.IoStore.Container

find-first :
    {A : Type 0} (f : A → Outcome Bool) (before after : List A) (c : A)
    → All (λ b. f b ≡ ok false) before
    → f c ≡ ok true
    → find f (before ++ c ∷ after) ≡ ok (some c)
unfolding find
find-first f [] after c h k = rw k refl
find-first f (b ∷ before) after c h k = rw (h.0) (find-first f before after c h.1 k)

find-missing :
    {A : Type 0} (f : A → Outcome Bool) (xs : List A)
    → All (λ b. f b ≡ ok false) xs
    → find f xs ≡ ok none
unfolding find
find-missing f [] h = refl
find-missing f (x ∷ xs) h = rw (h.0) (find-missing f xs h.1)

module _ {Key : Type 0} (decrypt_block : Key → List ℕ → List ℕ)
    (decompress : CompressionMethod → List ℕ → ℕ → Outcome (List ℕ)) (config : Config Key) where
  -- A chunk is read from the first container that has its id, stamped with the version of the
  -- containers.
  pub read-first :
      (self : IoStoreBackend) (chunk_id : FIoChunkId) (before after : List IoStoreContainer)
      (c : IoStoreContainer)
      → self.containers ≡ before ++ c ∷ after
      → All
          (λ b.
            Container.has_chunk_id b (with_file_version (container_file_version self) chunk_id)
            ≡ ok false)
          before
      → Container.has_chunk_id c (with_file_version (container_file_version self) chunk_id)
        ≡ ok true
      → read decrypt_block decompress config self chunk_id
        ≡ Container.read decrypt_block decompress config c
            (with_file_version (container_file_version self) chunk_id)
  unfolding read with_chunk_id
  read-first self chunk_id before after c split others this =
      let stamped = with_file_version (container_file_version self) chunk_id in
      let found =
        ap (find (λ b. Container.has_chunk_id b stamped)) split
        ∙ find-first (λ b. Container.has_chunk_id b stamped) before after c others this in
      rw found refl

  -- A chunk that no container has is an error, and not a panic, if its id, stamped with the version
  -- of the containers, has a raw id.
  pub read-missing :
      (self : IoStoreBackend) (chunk_id : FIoChunkId) (raw : FIoChunkIdRaw)
      → get_raw (with_file_version (container_file_version self) chunk_id) ≡ ok raw
      → All
          (λ b.
            Container.has_chunk_id b (with_file_version (container_file_version self) chunk_id)
            ≡ ok false)
          self.containers
      → read decrypt_block decompress config self chunk_id ≡ err not_found
  unfolding read with_chunk_id
  read-missing self chunk_id raw has_raw others =
      let stamped = with_file_version (container_file_version self) chunk_id in
      rw
        (
          find-missing (λ b. Container.has_chunk_id b stamped) self.containers others,
          debug-get_raw stamped raw has_raw,
        )
        refl
