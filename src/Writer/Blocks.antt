-- ===== src/Writer/Blocks.antt =====
-- The blocks that `write_chunk` of src/iostore_writer.rs makes, and `Toc::read` of src/main.rs on
-- them.
use retoc.Outcome.{Outcome, ok}
use retoc.Prelude.{
  ℕ, ◌+◌, ◌<◌, ◌≤◌, ◌≡◌, ◌^◌, List, [], ◌∷◌, ◌++◌, length, take, drop, arith, refl, zero, suc, none,
  length-take, ap, length-drop, length-append, take-append-drop, false, true, ◌==◌, leb, ltb,
}
use retoc.Ser.Arrays.{All}
use retoc.Ser.BigEndian.{copy_from_slice}
use retoc.Toc.File.{Toc}
use retoc.Toc.Read.{read_at, read_block, read_stored, has_room}
use retoc.Toc.Block.{new_block_fields}
use retoc.Writer.{chunks_of, concat}
use retoc.Compression.{CompressionMethod}
use native.Mathlib.Nat.{mod-eq_of_lt}
use retoc.Toc.Block

-- The rounds are enough: the blocks of any data, one after the other, are the data.
concat-chunks_of_rounds :
    (size rounds : ℕ) (bytes : List ℕ)
    → 0 < size
    → length bytes ≤ rounds
    → concat (chunks_of size rounds bytes) ≡ bytes
unfolding concat chunks_of
concat-chunks_of_rounds size zero [] h k = refl
concat-chunks_of_rounds size zero (b ∷ bytes) h k = absurd (omega arith)
concat-chunks_of_rounds size (suc rounds) [] h k = refl
concat-chunks_of_rounds size (suc rounds) (b ∷ bytes) h k =
    rw
      (concat-chunks_of_rounds size rounds (drop size (b ∷ bytes)) h
        (omega (arith, length-drop size (b ∷ bytes))))
      (take-append-drop size (b ∷ bytes))

-- For a block size above 0, the blocks of any data, one after the other, are the data.
pub concat-chunks_of :
    (size : ℕ) (bytes : List ℕ) → 0 < size → concat (chunks_of size (length bytes) bytes) ≡ bytes
concat-chunks_of size bytes h = concat-chunks_of_rounds size (length bytes) bytes h (omega arith)

pub chunks_of_short :
    (size rounds : ℕ) (bytes : List ℕ)
    → size < 2 ^ 24
    → All (λ b. length b < 2 ^ 24) (chunks_of size rounds bytes)
unfolding chunks_of
chunks_of_short size zero bytes h = tt
chunks_of_short size (suc rounds) [] h = tt
chunks_of_short size (suc rounds) (b ∷ bytes) h = (
  omega (arith, length-take size (b ∷ bytes)),
  chunks_of_short size rounds (drop size (b ∷ bytes)) h,
)

drop-length : (xs ys : List ℕ) → drop (length xs) (xs ++ ys) ≡ ys
drop-length [] ys = refl
drop-length (x ∷ xs) ys = drop-length xs ys

take-length : (xs ys : List ℕ) → take (length xs) (xs ++ ys) ≡ xs
take-length [] ys = refl
take-length (x ∷ xs) ys = ap (λ zs. x ∷ zs) (take-length xs ys)

read_at-append :
    (pre block post : List ℕ)
    → read_at (pre ++ (block ++ post)) (length pre) (length block) ≡ ok block
unfolding read_at
read_at-append pre [] post = refl
read_at-append pre (b ∷ block) post =
    let long : length (pre ++ ((b ∷ block) ++ post))
        ≡ length pre + (length (b ∷ block) + length post) =
      rw (length-append pre ((b ∷ block) ++ post))
        (ap (λ n. length pre + n) (length-append (b ∷ block) post)) in
    let some_bytes : (length (b ∷ block) == 0) ≡ false = ground arith in
    let enough : ltb (length (pre ++ ((b ∷ block) ++ post))) (length pre + length (b ∷ block))
        ≡ false =
      ground (arith, long) in
    rw (some_bytes, enough, drop-length pre ((b ∷ block) ++ post), take-length (b ∷ block) post)

-- What is behind the first bytes.
drop-past : (xs ys : List ℕ) (n : ℕ) → drop (length xs + n) (xs ++ ys) ≡ drop n ys
drop-past [] ys n = let e : 0 + n ≡ n = omega arith in rw e
drop-past (x ∷ xs) ys n =
    let e : suc (length xs) + n ≡ suc (length xs + n) = omega arith in rw e (drop-past xs ys n)

copy_from_slice-append :
    (done tail block : List ℕ)
    → copy_from_slice (done ++ tail) (length done) block
      ≡ done ++ (block ++ drop (length block) tail)
unfolding copy_from_slice
copy_from_slice-append done tail block =
    rw (take-length done tail, drop-past done tail (length block))

has_room-append :
    (done tail : List ℕ) (n : ℕ) → n ≤ length tail → has_room (done ++ tail) (length done) n ≡ ok tt
unfolding has_room
has_room-append done tail n h =
    let fits : leb (length done + n) (length (done ++ tail)) ≡ true =
      ground (arith, length-append done tail) in
    rw fits

module _ {Key : Type 0} (decrypt_block : Key → List ℕ → List ℕ)
    (decompress : CompressionMethod → List ℕ → ℕ → Outcome (List ℕ)) (self : Toc) where
  -- A stored block whose bytes are in the file is put where the buffer is filled up to.
  pub read_block-new :
      (pre block post done tail : List ℕ)
      → length pre < 2 ^ 40
      → length block < 2 ^ 24
      → length block ≤ length tail
      → read_block decrypt_block decompress self
          (pre ++ (block ++ post))
          none
          (done ++ tail)
          (length done)
          (Block.new (length pre) (length block) (length block) 0)
        ≡ ok (done ++ (block ++ drop (length block) tail))
  unfolding read_block read_stored
  read_block-new pre block post done tail at long fits =
      let f = new_block_fields (length pre) (length block) (length block) 0 in
      rw (
        f.3,
        f.0,
        f.2,
        mod-eq_of_lt at,
        mod-eq_of_lt long,
        has_room-append done tail 0 (omega arith),
        has_room-append done tail (length block) fits,
        read_at-append pre block post,
        copy_from_slice-append done tail block,
      )
