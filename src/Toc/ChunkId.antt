-- ===== src/Toc/ChunkId.antt =====
-- The module `chunk_id` of src/main.rs. The last byte of an `FIoChunkId` holds the discriminant of
-- the chunk type in its low 6 bits, bit 6 if the version is known, and bit 7 if that is UE5 or
-- later. The last byte of an `FIoChunkIdRaw` is the one in the file.
pub mod Raw
use retoc.Prelude.{
  ℕ, ◌+◌, ◌*◌, ◌/◌, ◌%◌, ◌^◌, ◌<◌, ◌≡◌, refl, Bool, true, false, ◌&&◌, Option, some, List, [], ◌∷◌,
  ◌++◌, arith, get_or, set, take, length, ltb, ◌==◌, if◌then◌else◌, bit_or, bit_and, list_eq, ◌||◌,
  not, inr, inl, Bool-cases,
}
use retoc.Outcome.{Outcome, ok, panicked, bind-eq-ok}
use retoc.Ser.Stream.{
  Reader, pure, lift, ◌>>=◌, RoundTrips, read_exact, read_exact-append, to_le_bytes, from_le_bytes,
}
use retoc.Toc.Version.{EIoStoreTocVersion, after, perfect_hash}
use retoc.Toc.ChunkType.{EIoChunkType, repr}
use retoc.Outcome
use retoc.Toc.ChunkType

pub record FIoChunkIdRaw : Type 0 where
  pub id : List ℕ

pub record FIoChunkId : Type 0 where
  pub id : List ℕ

abbrev pub last : List ℕ → ℕ
last id = get_or id 11 0

abbrev as_u8 : Bool → ℕ
as_u8 b = if b then 1 else 0

abbrev pub is_new_version : EIoStoreTocVersion → Bool
is_new_version version = after version perfect_hash

-- `b |= is_new << 7; b |= 1 << 6;`
unfoldable pub stamp : ℕ → Bool → ℕ
stamp b is_new = bit_or (bit_or b (as_u8 is_new * 2 ^ 7)) (2 ^ 6)

unfoldable pub from_raw : FIoChunkIdRaw → EIoStoreTocVersion → Outcome FIoChunkId
from_raw raw version =
    let is_new = is_new_version version in
    Outcome.bind (ChunkType.new (last raw.id) is_new)
      λ t. ok (record { id = set raw.id 11 (stamp (repr t) is_new) })

unfoldable pub with_version : FIoChunkId → EIoStoreTocVersion → FIoChunkId
with_version self version = record {
  id = set self.id 11 (stamp (last self.id) (is_new_version version));
}

unfoldable pub create : ℕ → ℕ → EIoChunkType → FIoChunkId
create chunk_id chunk_index chunk_type = record {
  id = to_le_bytes 8 chunk_id ++ (to_le_bytes 2 chunk_index ++ 0 ∷ repr chunk_type ∷ []);
}

-- A package id is the number of its hash.
unfoldable from_package_id : ℕ → ℕ → EIoChunkType → FIoChunkId
from_package_id package_id chunk_index chunk_type = create package_id chunk_index chunk_type

unfoldable pub get_chunk_id : FIoChunkId → ℕ
get_chunk_id self = from_le_bytes (take 8 self.id)

unfoldable get_package_id : FIoChunkId → ℕ
get_package_id self = from_le_bytes (take 8 self.id)

unfoldable create_shader_code_chunk_id : List ℕ → FIoChunkId
create_shader_code_chunk_id shader_hash = record {
  id = take 11 shader_hash ++ repr ChunkType.shader_code ∷ [];
}

type_of_byte : ℕ → Outcome EIoChunkType
type_of_byte b = Outcome.unwrap (ChunkType.from_repr (bit_and b 63))

unfoldable pub get_chunk_type : FIoChunkId → Outcome EIoChunkType
unfolding type_of_byte
get_chunk_type self = type_of_byte (last self.id)

-- The byte of the file for the last byte of an id.
raw_byte : ℕ → Outcome ℕ
raw_byte b =
    if b / 2 ^ 6 % 2 == 0
    then panicked
    else (Outcome.bind (type_of_byte b) λ t. ChunkType.value t (not (b / 2 ^ 7 == 0)))

unfoldable pub get_raw : FIoChunkId → Outcome FIoChunkIdRaw
unfolding raw_byte type_of_byte
get_raw self = Outcome.bind (raw_byte (last self.id)) λ b. ok (record { id = set self.id 11 b })

-- What `Debug` formats: the byte of the file where there is a version, and the type.
debug_of_byte : ℕ → Outcome (Unit {0})
debug_of_byte b =
    Outcome.bind (if b / 2 ^ 6 % 2 == 0 then ok 0 else raw_byte b)
      λ _. Outcome.bind (type_of_byte b) λ _. ok tt

unfoldable pub debug : FIoChunkId → Outcome (Unit {0})
unfolding debug_of_byte raw_byte type_of_byte
debug self = debug_of_byte (last self.id)

debug_byte : (b byte : ℕ) → raw_byte b ≡ ok byte → debug_of_byte b ≡ ok tt
unfolding raw_byte debug_of_byte
debug_byte b byte h = elim (Bool-cases (b / 2 ^ 6 % 2 == 0)) [
  | inl e ↦ let none_known : panicked ≡ ok byte = rw e at h in cc
  | inr e ↦
      let known : Outcome.bind (type_of_byte b) (λ t. ChunkType.value t (not (b / 2 ^ 7 == 0)))
          ≡ ok byte =
        rw e at h in
      let (t, typed, _) =
        bind-eq-ok (type_of_byte b) (λ t. ChunkType.value t (not (b / 2 ^ 7 == 0))) known in
      rw (e, known, typed)
]

pub debug-get_raw :
    (self : FIoChunkId) (raw : FIoChunkIdRaw) → get_raw self ≡ ok raw → debug self ≡ ok tt
unfolding debug get_raw
debug-get_raw self raw h =
    let (byte, known, _) =
      bind-eq-ok (raw_byte (last self.id)) (λ b. ok (record { id = set self.id 11 b })) h in
    debug_byte (last self.id) byte known

-- `==`, `cmp` and `hash` go through `get_raw`, and panic where it does.
unfoldable pub eq : FIoChunkId → FIoChunkId → Outcome Bool
eq self other =
    Outcome.bind (get_raw self) λ a. Outcome.bind (get_raw other) λ b. ok (list_eq a.id b.id)

unfoldable pub de_raw : Reader FIoChunkIdRaw
de_raw = do id ← read_exact 12; pure (record { id = id })

unfoldable pub de_chunk_id : EIoStoreTocVersion → Reader FIoChunkId
de_chunk_id version = do raw ← de_raw; lift (from_raw raw version)

-- The result of `ser` for an id: a panic where there is no version.
unfoldable ser_chunk_id : FIoChunkId → Outcome (List ℕ)
ser_chunk_id self = Outcome.bind (get_raw self) λ raw. ok raw.id
