-- ===== src/NameMap.antt =====
-- `FMappedName` of src/name_map.rs, and in the child modules `FNameMap` and what it does with
-- numbers.
pub mod Numbers
pub mod Store
pub mod Stored
pub mod Batch
use retoc.Outcome
use retoc.Outcome.{Outcome, ok}
use retoc.Ser.Stream.{Reader, ◌>>=◌, ◌>>◌, pure, RoundTrips}
use retoc.Ser.Words.{de_u32, ser_u32, de_u32-ser_u32}
use retoc.Prelude.{
  ℕ, ◌+◌, ◌*◌, ◌%◌, ◌^◌, ◌/◌, ◌-◌, ◌==◌, List, [], ◌∷◌, if◌then◌else◌, Option, some, none, ◌++◌,
  length, get_elem?, suc, zero, Bool, leb, list_eq, ◌&&◌, refl, ◌≡◌, arith, ◌<◌, append_assoc,
}
use retoc.Ser.Utf.{Text}
use retoc.Toc.Maps.{Map, insert}
use retoc.Prelude.Int.{ℤ, pos, negsuc, neg}
use mathlib.Core.Option

pub data EMappedNameType : Type 0 where
  package_type container_type global_type : EMappedNameType

-- `kind as u32`
abbrev pub repr : EMappedNameType → ℕ
repr package_type = 0
repr container_type = 1
repr global_type = 2

abbrev variants : List EMappedNameType
variants = package_type ∷ container_type ∷ global_type ∷ []

pub record FMappedName : Type 0 where
  pub index_and_type : ℕ
  pub number : ℕ

-- Masks of the low 30 bits are written as remainders; the two parts have no bit in common.
unfoldable pub create : ℕ → EMappedNameType → ℕ → FMappedName
create index kind number = record {
  index_and_type = index % 2 ^ 30 + repr kind * 2 ^ 30;
  number = number;
}

unfoldable pub index : FMappedName → ℕ
index self = self.index_and_type % 2 ^ 30

unfoldable pub kind : FMappedName → Outcome EMappedNameType
kind self = Outcome.unwrap (get_elem? variants (self.index_and_type / 2 ^ 30 % 4))

unfoldable pub de_mapped_name : Reader FMappedName
de_mapped_name = do
  index_and_type ← de_u32
  number ← de_u32
  pure (record { index_and_type = index_and_type; number = number })

unfoldable pub ser_mapped_name : FMappedName → List ℕ
ser_mapped_name self = ser_u32 self.index_and_type ++ ser_u32 self.number

pub record IsMappedName (n : FMappedName) : Type 0 where
  pub index_and_type : n.index_and_type < 2 ^ 32
  pub number : n.number < 2 ^ 32

pub de_mapped_name-ser_mapped_name : RoundTrips de_mapped_name ser_mapped_name IsMappedName
unfolding de_mapped_name ser_mapped_name
de_mapped_name-ser_mapped_name n rest h =
    simp (append_assoc, de_u32-ser_u32, h.index_and_type, h.number)

repr-lt : (k : EMappedNameType) → repr k < 3
repr-lt package_type = omega arith
repr-lt container_type = omega arith
repr-lt global_type = omega arith

from_repr-repr : (k : EMappedNameType) → Outcome.unwrap (get_elem? variants (repr k)) ≡ ok k
from_repr-repr package_type = refl
from_repr-repr container_type = refl
from_repr-repr global_type = refl

-- A new name has its parts, the index reduced to 30 bits.
pub mapped_name_parts :
    (i : ℕ) (k : EMappedNameType) (n : ℕ)
    → (index (create i k n) ≡ i % 2 ^ 30)
      × (kind (create i k n) ≡ ok k)
      × ((create i k n).number ≡ n)
unfolding create index kind
mapped_name_parts i k n =
    let high : (i % 2 ^ 30 + repr k * 2 ^ 30) / 2 ^ 30 % 4 ≡ repr k = omega (arith, repr-lt k) in
    (omega arith, rw high (from_repr-repr k), refl)
