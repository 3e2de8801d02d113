-- ===== src/Toc/ChunkId/Raw.antt =====
-- `get_raw` against `from_raw`, `with_version` and `create`.
use retoc.Ser.Stream.{to_le_bytes, from_le_bytes-to_le_bytes}
use retoc.Toc.ChunkId.{
  FIoChunkIdRaw, FIoChunkId, last, is_new_version, stamp, from_raw, with_version, create,
  get_chunk_id, get_chunk_type, type_of_byte, raw_byte, get_raw, EIoStoreTocVersion, EIoChunkType,
  repr, to_le_bytes,
}
use retoc.Prelude.{
  true, false, refl, List, length, Bool, ℕ, ◌≡◌, ◌||◌, set, get_or-set, arith, set-set, ◌<◌, ◌^◌,
  ◌∙◌, ap, set-get_or,
}
use retoc.Outcome.{ok, bind-eq-ok, ok-injective}
use retoc.Toc.ChunkType.{value-new, new-value}
use retoc.Toc.ChunkType

-- What the last byte says after `from_raw`, and after `with_version` on a discriminant.
raw_byte-stamp :
    (t : EIoChunkType) (is_new : Bool) → raw_byte (stamp (repr t) is_new) ≡ ChunkType.value t is_new
unfolding raw_byte stamp type_of_byte ChunkType.from_repr
raw_byte-stamp ChunkType.invalid true = refl
raw_byte-stamp ChunkType.invalid false = refl
raw_byte-stamp _ true = refl
raw_byte-stamp _ false = refl

type_of_byte-stamp :
    (t : EIoChunkType) (is_new : Bool) → type_of_byte (stamp (repr t) is_new) ≡ ok t
unfolding stamp type_of_byte ChunkType.from_repr
type_of_byte-stamp ChunkType.invalid true = refl
type_of_byte-stamp ChunkType.invalid false = refl
type_of_byte-stamp _ true = refl
type_of_byte-stamp _ false = refl

-- Stamping twice keeps bit 7 once it is set: the version of an id is never lowered.
type_of_byte-repr : (t : EIoChunkType) → type_of_byte (repr t) ≡ ok t
unfolding type_of_byte ChunkType.from_repr
type_of_byte-repr ChunkType.invalid = refl
type_of_byte-repr _ = refl

stamp-stamp : (t : EIoChunkType) (a b : Bool) → stamp (stamp (repr t) a) b ≡ stamp (repr t) (a || b)
unfolding stamp
stamp-stamp ChunkType.invalid true true = refl
stamp-stamp ChunkType.invalid true false = refl
stamp-stamp ChunkType.invalid false true = refl
stamp-stamp ChunkType.invalid false false = refl
stamp-stamp _ true true = refl
stamp-stamp _ true false = refl
stamp-stamp _ false true = refl
stamp-stamp _ false false = refl

module _ (id : List ℕ) (long : length id ≡ 12) where
  get_raw-stamped :
      (t : EIoChunkType) (is_new : Bool) (b : ℕ)
      → ChunkType.value t is_new ≡ ok b
      → get_raw (record { id = set id 11 (stamp (repr t) is_new) })
        ≡ ok (record { id = set id 11 b })
  unfolding get_raw
  get_raw-stamped t is_new b h = rw (
    get_or-set id 11 (stamp (repr t) is_new) 0 (omega arith),
    raw_byte-stamp t is_new,
    h,
    set-set id 11 (stamp (repr t) is_new) b,
  )

-- What `from_raw` returns where it returns.
from_raw-eq-ok :
    (raw : FIoChunkIdRaw) (version : EIoStoreTocVersion) (id : FIoChunkId)
    → from_raw raw version ≡ ok id
    → (t : EIoChunkType) × (ChunkType.new (last raw.id) (is_new_version version) ≡ ok t)
      × (record { id = set raw.id 11 (stamp (repr t) (is_new_version version)) } ≡ id)
unfolding from_raw
from_raw-eq-ok raw version id h =
    let (t, e, f) = bind-eq-ok (ChunkType.new (last raw.id) (is_new_version version)) _ h in
    (t, e, ok-injective f)

-- For 12 bytes that `from_raw` accepts, the id that it makes is written as the same bytes.
pub get_raw-from_raw :
    (raw : FIoChunkIdRaw) (version : EIoStoreTocVersion) (id : FIoChunkId)
    → length raw.id ≡ 12
    → from_raw raw version ≡ ok id
    → get_raw id ≡ ok raw
get_raw-from_raw raw version id long h =
    let (t, e, f) = from_raw-eq-ok raw version id h in
    let written = value-new (last raw.id) (is_new_version version) t e in
    rw (← f) (
      get_raw-stamped raw.id long t (is_new_version version) (last raw.id) written
      ∙ ap (λ i. ok (record { id = i })) (set-get_or raw.id 11 0))

-- An id that `from_raw` made for UE5 or later is written with its old bytes after `with_version`
-- too, whatever the version: the version bit is set and never cleared.
pub get_raw-with_version_new :
    (raw : FIoChunkIdRaw) (from to : EIoStoreTocVersion) (id : FIoChunkId)
    → length raw.id ≡ 12
    → is_new_version from ≡ true
    → from_raw raw from ≡ ok id
    → get_raw (with_version id to) ≡ ok raw
unfolding with_version
get_raw-with_version_new raw from to id long new h =
    let (t, e, f) = from_raw-eq-ok raw from id h in
    let written = value-new (last raw.id) true t (rw new at e) in
    rw
      (
        ← f,
        get_or-set raw.id 11 (stamp (repr t) (is_new_version from)) 0 (omega arith),
        set-set raw.id 11 (stamp (repr t) (is_new_version from))
            (stamp (stamp (repr t) (is_new_version from)) (is_new_version to)),
        stamp-stamp t (is_new_version from) (is_new_version to),
        new,
      )
      (get_raw-stamped raw.id long t true (last raw.id) written
        ∙ ap (λ i. ok (record { id = i })) (set-get_or raw.id 11 0))

-- The same for an id of 12 bytes that ends in the discriminant of a type.
module _ (id : List ℕ) (long : length id ≡ 12) (t : EIoChunkType) (ends : last id ≡ repr t)
    (version : EIoStoreTocVersion) (raw : FIoChunkIdRaw)
    (written : get_raw (with_version (record { id = id }) version) ≡ ok raw) where
  versioned :
      with_version (record { id = id }) version
      ≡ record { id = set id 11 (stamp (repr t) (is_new_version version)) }
  unfolding with_version
  versioned = rw ends

  raw_of_value :
      (b : ℕ) × (ChunkType.value t (is_new_version version) ≡ ok b)
      × (record { id = set id 11 b } ≡ raw)
  unfolding get_raw
  raw_of_value =
      let n = is_new_version version in
      let (b, e, f) =
        bind-eq-ok (raw_byte (last (set id 11 (stamp (repr t) n)))) _ (rw versioned at written) in
      (
        b,
        rw (get_or-set id 11 (stamp (repr t) n) 0 (omega arith), raw_byte-stamp t n) at e,
        rw (set-set id 11 (stamp (repr t) n) b) at (ok-injective f),
      )

  from_raw-written : from_raw raw version ≡ ok (with_version (record { id = id }) version)
  unfolding from_raw
  from_raw-written =
      let (b, e, f) = raw_of_value in
      rw (
        versioned,
        ← f,
        get_or-set id 11 b 0 (omega arith),
        new-value t (is_new_version version) b e,
        set-set id 11 b (stamp (repr t) (is_new_version version)),
      )

-- A new id that can be written under a version is read back under it with that version known.
from_raw-create :
    (chunk_id chunk_index : ℕ) (t : EIoChunkType) (version : EIoStoreTocVersion)
    (raw : FIoChunkIdRaw)
    → get_raw (with_version (create chunk_id chunk_index t) version) ≡ ok raw
    → from_raw raw version ≡ ok (with_version (create chunk_id chunk_index t) version)
unfolding create to_le_bytes
from_raw-create chunk_id chunk_index t version raw h =
    from_raw-written (create chunk_id chunk_index t).id refl t refl version raw h

-- The 64-bit number and the chunk type that a new id is made of can be had back.
create_parts :
    (chunk_id chunk_index : ℕ) (t : EIoChunkType)
    → chunk_id < 2 ^ 64
    → (get_chunk_id (create chunk_id chunk_index t) ≡ chunk_id)
      × (get_chunk_type (create chunk_id chunk_index t) ≡ ok t)
unfolding create get_chunk_id get_chunk_type to_le_bytes
create_parts chunk_id chunk_index t h =
    (from_le_bytes-to_le_bytes 8 chunk_id h, type_of_byte-repr t)
