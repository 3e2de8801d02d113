-- ===== src/ContainerHeader/Records.antt =====
-- The records of the header of a container, of src/container_header.rs, with their codecs.
use native.Mathlib.Nat.{mod-eq_of_lt}
use retoc.Prelude.{
  ℕ, false, [], some, refl, none, ◌∷◌, true, List, length, ◌<◌, Option, ◌^◌, Bool, append_assoc,
  ◌++◌, ◌%◌, ◌≡◌, ◌-◌, ltb, ◌||◌, ◌==◌, ◌&&◌, suc, zero, get_elem?,
}
use retoc.Version.{
  pre_initial, initial, localized_packages, optional_segment_packages, no_export_info,
  soft_package_references, EIoContainerHeaderVersion,
}
use retoc.Prelude.Int.{ℤ, pos, negsuc}
use retoc.Ser.Stream.{
  to_le_bytes, read_exact, de_uint, from_le_bytes, ◌>>=◌, Reader, RoundTrips, lift, pure,
}
use retoc.Ser.Words.{de_i32, ser_u32, de_u64, de_u32, ser_u64, de_u64-ser_u64, de_u32-ser_u32}
use retoc.Ser.Utf.{Text, IsText}
use retoc.NameMap.{
  FMappedName, IsMappedName, de_mapped_name, ser_mapped_name, de_mapped_name-ser_mapped_name,
}
use retoc.Ser.Arrays.{
  de_vec, ser_vec, All, de_bytes-ser_bytes, ser_array, read_array, ser_bytes, de_bytes,
  de_vec-ser_vec, read_array-ser_array,
}
use retoc.Ser.Strings.{de_string, write_string, IsShort, de_string-write_string}
use retoc.Outcome.{invalid_data, ok}
use retoc.ContainerHeader.BTreeMap
use retoc.Outcome

pub record FIoContainerHeaderLocalizedPackage : Type 0 where
  pub source_package_id : ℕ
  pub source_package_name : FMappedName

unfoldable de_localized_package : Reader FIoContainerHeaderLocalizedPackage
de_localized_package = do
  source_package_id ← de_u64
  source_package_name ← de_mapped_name
  pure (record { source_package_id = source_package_id; source_package_name = source_package_name })

unfoldable ser_localized_package : FIoContainerHeaderLocalizedPackage → List ℕ
ser_localized_package self =
    ser_u64 self.source_package_id ++ ser_mapped_name self.source_package_name

-- What the fields of the file can hold.
record IsIoContainerHeaderLocalizedPackage (self : FIoContainerHeaderLocalizedPackage)
    : Type 0 where
  pub source_package_id : self.source_package_id < 2 ^ 64
  pub source_package_name : IsMappedName self.source_package_name

de_localized_package-ser_localized_package :
    RoundTrips de_localized_package ser_localized_package IsIoContainerHeaderLocalizedPackage
unfolding de_localized_package ser_localized_package
de_localized_package-ser_localized_package self rest h = simp (
  append_assoc, de_u64-ser_u64, de_mapped_name-ser_mapped_name, h.source_package_id,
  h.source_package_name,
)

pub record FIoContainerHeaderPackageRedirect : Type 0 where
  pub source_package_id : ℕ
  pub target_package_id : ℕ
  pub source_package_name : FMappedName

unfoldable de_package_redirect : Reader FIoContainerHeaderPackageRedirect
de_package_redirect = do
  source_package_id ← de_u64
  target_package_id ← de_u64
  source_package_name ← de_mapped_name
  pure (record {
    source_package_id = source_package_id;
    target_package_id = target_package_id;
    source_package_name = source_package_name;
  })

unfoldable ser_package_redirect : FIoContainerHeaderPackageRedirect → List ℕ
ser_package_redirect self =
    ser_u64 self.source_package_id
    ++ (ser_u64 self.target_package_id ++ ser_mapped_name self.source_package_name)

-- What the fields of the file can hold.
record IsIoContainerHeaderPackageRedirect (self : FIoContainerHeaderPackageRedirect) : Type 0 where
  pub source_package_id : self.source_package_id < 2 ^ 64
  pub target_package_id : self.target_package_id < 2 ^ 64
  pub source_package_name : IsMappedName self.source_package_name

de_package_redirect-ser_package_redirect :
    RoundTrips de_package_redirect ser_package_redirect IsIoContainerHeaderPackageRedirect
unfolding de_package_redirect ser_package_redirect
de_package_redirect-ser_package_redirect self rest h = simp (
  append_assoc, de_u64-ser_u64, de_mapped_name-ser_mapped_name, h.source_package_id,
  h.target_package_id, h.source_package_name,
)

pub record FIoContainerHeaderSoftPackageReferences : Type 0 where
  pub package_ids : List ℕ
  pub package_indices : List ℕ

unfoldable de_soft_references : Reader FIoContainerHeaderSoftPackageReferences
de_soft_references = do
  package_ids ← de_vec de_u64
  package_indices ← de_bytes
  pure (record { package_ids = package_ids; package_indices = package_indices })

unfoldable ser_soft_references : FIoContainerHeaderSoftPackageReferences → List ℕ
ser_soft_references self = ser_vec ser_u64 self.package_ids ++ ser_bytes self.package_indices

-- What the fields of the file can hold.
record IsIoContainerHeaderSoftPackageReferences (self : FIoContainerHeaderSoftPackageReferences)
    : Type 0 where
  pub package_ids : (length self.package_ids < 2 ^ 32) × All (λ x. x < 2 ^ 64) self.package_ids
  pub package_indices : length self.package_indices < 2 ^ 32

de_soft_references-ser_soft_references :
    RoundTrips de_soft_references ser_soft_references IsIoContainerHeaderSoftPackageReferences
unfolding de_soft_references ser_soft_references
de_soft_references-ser_soft_references self rest h = simp (
  append_assoc,
  de_bytes-ser_bytes,
  de_vec-ser_vec de_u64 ser_u64 (λ x. x < 2 ^ 64) de_u64-ser_u64,
  h.package_ids,
  h.package_indices,
)

pub record LegacyContainerHeaderPackageRedirect : Type 0 where
  pub source_package_id : ℕ
  pub target_package_id : ℕ

unfoldable de_legacy_redirect : Reader LegacyContainerHeaderPackageRedirect
de_legacy_redirect = do
  source_package_id ← de_u64
  target_package_id ← de_u64
  pure (record { source_package_id = source_package_id; target_package_id = target_package_id })

unfoldable ser_legacy_redirect : LegacyContainerHeaderPackageRedirect → List ℕ
ser_legacy_redirect self = ser_u64 self.source_package_id ++ ser_u64 self.target_package_id

-- What the fields of the file can hold.
record IsLegacyContainerHeaderPackageRedirect (self : LegacyContainerHeaderPackageRedirect)
    : Type 0 where
  pub source_package_id : self.source_package_id < 2 ^ 64
  pub target_package_id : self.target_package_id < 2 ^ 64

de_legacy_redirect-ser_legacy_redirect :
    RoundTrips de_legacy_redirect ser_legacy_redirect IsLegacyContainerHeaderPackageRedirect
unfolding de_legacy_redirect ser_legacy_redirect
de_legacy_redirect-ser_legacy_redirect self rest h =
    simp (append_assoc, de_u64-ser_u64, h.source_package_id, h.target_package_id)

-- `from_repr` of the `i32`, and `*self as u32`
unfoldable header_version_of : ℤ → Option EIoContainerHeaderVersion
header_version_of (negsuc zero) = some pre_initial
header_version_of (negsuc (suc n)) = none
header_version_of (pos n) =
    get_elem?
      (initial ∷ localized_packages ∷ optional_segment_packages ∷ no_export_info
        ∷ soft_package_references ∷ [])
      n

unfoldable de_header_version : Reader EIoContainerHeaderVersion
de_header_version = do value ← de_i32; lift (Outcome.context invalid_data (header_version_of value))

unfoldable ser_header_version : EIoContainerHeaderVersion → List ℕ
ser_header_version pre_initial = ser_u32 (2 ^ 32 - 1)
ser_header_version initial = ser_u32 0
ser_header_version localized_packages = ser_u32 1
ser_header_version optional_segment_packages = ser_u32 2
ser_header_version no_export_info = ser_u32 3
ser_header_version soft_package_references = ser_u32 4

-- The version of a container header is read back as it was written, whatever follows it.
de_header_version-ser_header_version :
    (version : EIoContainerHeaderVersion) (rest : List ℕ)
    → de_header_version (ser_header_version version ++ rest) ≡ ok (version, rest)
unfolding de_header_version ser_header_version header_version_of de_i32 ser_u32 to_le_bytes de_uint
    read_exact from_le_bytes
de_header_version-ser_header_version pre_initial rest = refl
de_header_version-ser_header_version _ rest = refl

unfoldable pub de_pair : Reader (ℕ × ℕ)
de_pair = do a ← de_u64; b ← de_u64; pure (a, b)

unfoldable pub ser_pair : ℕ × ℕ → List ℕ
ser_pair p = ser_u64 p.0 ++ ser_u64 p.1

-- One culture of the map: its name, and pairs of package ids.
unfoldable de_culture : Reader (Text × List (ℕ × ℕ))
de_culture = do key ← de_string; len ← de_u32; value ← read_array len de_pair; pure (key, value)

unfoldable ser_culture : Text × List (ℕ × ℕ) → List ℕ
ser_culture c = write_string c.0 ++ (ser_u32 (length c.1 % 2 ^ 32) ++ ser_array ser_pair c.1)

-- The order of Rust's `String`s; that of their bytes is that of their code points.
unfoldable pub text_lt : Text → Text → Bool
text_lt [] [] = false
text_lt [] (y ∷ ys) = true
text_lt (x ∷ xs) [] = false
text_lt (x ∷ xs) (y ∷ ys) = ltb x y || (x == y && text_lt xs ys)

unfoldable de_culture_map : Reader (List (Text × List (ℕ × ℕ)))
de_culture_map = do
  len ← de_u32
  cultures ← read_array len de_culture
  pure (BTreeMap.from_iter text_lt cultures)

unfoldable ser_culture_map : List (Text × List (ℕ × ℕ)) → List ℕ
ser_culture_map self = ser_u32 (length self % 2 ^ 32) ++ ser_array ser_culture self

-- What the fields of the file can hold.
abbrev pub IsCulture : Text × List (ℕ × ℕ) → Type 0
IsCulture c =
    (IsText c.0 × IsShort c.0)
    × (length c.1 < 2 ^ 32)
    × All (λ p. (p.0 < 2 ^ 64) × (p.1 < 2 ^ 64)) c.1

de_pair-ser_pair : RoundTrips de_pair ser_pair (λ p. (p.0 < 2 ^ 64) × (p.1 < 2 ^ 64))
unfolding de_pair ser_pair
de_pair-ser_pair p rest h = simp (append_assoc, de_u64-ser_u64, h.0, h.1)

de_culture-ser_culture : RoundTrips de_culture ser_culture IsCulture
unfolding de_culture ser_culture
de_culture-ser_culture c rest h = rw (
  append_assoc (write_string c.0) (ser_u32 (length c.1 % 2 ^ 32) ++ ser_array ser_pair c.1) rest,
  append_assoc (ser_u32 (length c.1 % 2 ^ 32)) (ser_array ser_pair c.1) rest,
  de_string-write_string c.0 (ser_u32 (length c.1 % 2 ^ 32) ++ (ser_array ser_pair c.1 ++ rest))
      h.0,
  mod-eq_of_lt {n = length c.1} {m = 2 ^ 32} h.1,
  de_u32-ser_u32 (length c.1) (ser_array ser_pair c.1 ++ rest) h.1,
  read_array-ser_array de_pair ser_pair (λ p. (p.0 < 2 ^ 64) × (p.1 < 2 ^ 64)) de_pair-ser_pair c.1
      rest h.2,
)

-- The map of cultures, in the order of their names and with fields that fit the file, is read back
-- as it was written.
de_culture_map-ser_culture_map :
    (self : List (Text × List (ℕ × ℕ))) (rest : List ℕ)
    → BTreeMap.Sorted text_lt self
    → length self < 2 ^ 32
    → All IsCulture self
    → de_culture_map (ser_culture_map self ++ rest) ≡ ok (self, rest)
unfolding de_culture_map ser_culture_map
de_culture_map-ser_culture_map self rest sorted count h = rw (
  append_assoc (ser_u32 (length self % 2 ^ 32)) (ser_array ser_culture self) rest,
  mod-eq_of_lt {n = length self} {m = 2 ^ 32} count,
  de_u32-ser_u32 (length self) (ser_array ser_culture self ++ rest) count,
  read_array-ser_array de_culture ser_culture IsCulture de_culture-ser_culture self rest h,
  BTreeMap.from_iter-Sorted text_lt self sorted,
)
