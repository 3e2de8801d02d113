-- ===== src/Toc/Version.antt =====
-- `EIoStoreTocVersion` of src/main.rs.
use retoc.Prelude.{ℕ, ◌<◌, ◌≡◌, refl, Bool, Option, some, List, [], ◌∷◌, arith, ltb, leb, get_elem?}
use retoc.Outcome
use retoc.Outcome.{invalid_data}
use retoc.Ser.Stream.{Reader, lift, ◌>>=◌, RoundTrips}
use retoc.Ser.Words.{de_u8, ser_u8, de_u8-ser_u8}

pub data EIoStoreTocVersion : Type 0 where
  invalid initial directory_index partition_size perfect_hash : EIoStoreTocVersion
  perfect_hash_with_overflow on_demand_meta_data removed_on_demand_meta_data : EIoStoreTocVersion
  replace_io_chunk_hash_with_io_hash : EIoStoreTocVersion

abbrev variants : List EIoStoreTocVersion
variants =
    invalid ∷ initial ∷ directory_index ∷ partition_size ∷ perfect_hash ∷ perfect_hash_with_overflow
    ∷ on_demand_meta_data ∷ removed_on_demand_meta_data ∷ replace_io_chunk_hash_with_io_hash ∷ []

-- The discriminant, `self as u8`.
abbrev pub repr : EIoStoreTocVersion → ℕ
repr invalid = 0
repr initial = 1
repr directory_index = 2
repr partition_size = 3
repr perfect_hash = 4
repr perfect_hash_with_overflow = 5
repr on_demand_meta_data = 6
repr removed_on_demand_meta_data = 7
repr replace_io_chunk_hash_with_io_hash = 8

unfoldable pub from_repr : ℕ → Option EIoStoreTocVersion
from_repr n = get_elem? variants n

-- The derived order, `a >= b` and `a > b`.
abbrev pub at_least : EIoStoreTocVersion → EIoStoreTocVersion → Bool
at_least a b = leb (repr b) (repr a)

abbrev pub after : EIoStoreTocVersion → EIoStoreTocVersion → Bool
after a b = ltb (repr b) (repr a)

unfoldable pub de_version : Reader EIoStoreTocVersion
de_version = do value ← de_u8; lift (Outcome.context invalid_data (from_repr value))

unfoldable pub ser_version : EIoStoreTocVersion → List ℕ
ser_version v = ser_u8 (repr v)

from_repr-repr : (v : EIoStoreTocVersion) → from_repr (repr v) ≡ some v
unfolding from_repr
from_repr-repr invalid = refl
from_repr-repr _ = refl

repr-lt : (v : EIoStoreTocVersion) → repr v < 256
repr-lt invalid = omega arith
repr-lt _ = omega arith

pub de_version-ser_version : RoundTrips de_version ser_version (λ v. Unit {0})
unfolding de_version ser_version
de_version-ser_version v rest h = rw (de_u8-ser_u8 (repr v) rest (repr-lt v), from_repr-repr v)
