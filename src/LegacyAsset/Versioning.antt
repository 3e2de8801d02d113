-- ===== src/LegacyAsset/Versioning.antt =====
-- `FLegacyPackageVersioningInfo` of src/legacy_asset.rs.
use retoc.Outcome
use retoc.Prelude.{
  [], false, true, ◌≡◌, List, Bool, if◌then◌else◌, ℕ, ◌++◌, not, ◌||◌, ◌^◌, length, ◌<◌, ◌&&◌,
  is_empty, append_assoc, arith, refl, zero, inl, inr, suc, Bool-cases, ◌∙◌, ap, subst, sym,
}
use retoc.Outcome.{ok, Outcome, invalid_data}
use retoc.Ser.Stream.{◌>>◌, ◌>>=◌, Reader, lift, pure}
use retoc.Prelude.Int.{pos, negsuc, ℤ, eq_ℤ, InRange}
use retoc.Zen.Versioning.{
  IsPackageFileVersion, FCustomVersion, ser_custom_version, de_custom_version, IsCustomVersion,
  de_custom_version-ser_custom_version,
}
use retoc.Version.{FPackageFileVersion}
use retoc.Ser.Words.{de_i32, ser_i32, de_i32-ser_i32}
use retoc.LegacyAsset.{write_if, read_if, IsOptional}
use retoc.Ser.Arrays.{ser_vec, de_vec, All, de_vec-ser_vec}

-- LEGACY_FILE_VERSION_UE5
abbrev pub file_version_ue5 : ℤ
file_version_ue5 = negsuc 7

-- LEGACY_FILE_VERSION_UE4
abbrev pub file_version_ue4 : ℤ
file_version_ue4 = negsuc 6

pub record FLegacyPackageVersioningInfo : Type 0 where
  pub legacy_file_version : ℤ
  pub package_file_version : FPackageFileVersion
  pub licensee_version : ℤ
  pub custom_versions : List FCustomVersion
  pub is_unversioned : Bool

unfoldable pub de_legacy_versioning : Reader FLegacyPackageVersioningInfo
de_legacy_versioning = do
  legacy_file_version ← de_i32
  lift (
      Outcome.ensure invalid_data
        (eq_ℤ legacy_file_version file_version_ue4 || eq_ℤ legacy_file_version file_version_ue5))
  legacy_ue3_version ← de_i32
  lift (Outcome.ensure invalid_data (eq_ℤ legacy_ue3_version (pos 0)))
  raw_ue4 ← de_i32
  raw_ue5 ← read_if (eq_ℤ legacy_file_version file_version_ue5) de_i32 (pos 0)
  licensee_version ← de_i32
  custom_versions ← de_vec de_custom_version
  pure (record {
    legacy_file_version = legacy_file_version;
    package_file_version = record { file_version_ue4 = raw_ue4; file_version_ue5 = raw_ue5 };
    licensee_version = licensee_version;
    custom_versions = custom_versions;
    is_unversioned =
        eq_ℤ raw_ue4 (pos 0)
        && (eq_ℤ raw_ue5 (pos 0) && (eq_ℤ licensee_version (pos 0) && is_empty custom_versions));
  })

-- The legacy version that is derived from the presence of a UE5 version.
unfoldable pub derived_version : FLegacyPackageVersioningInfo → ℤ
derived_version self =
    if not (eq_ℤ self.package_file_version.file_version_ue5 (pos 0))
    then file_version_ue5
    else file_version_ue4

-- 0 for a package without versions.
unfoldable pub known : FLegacyPackageVersioningInfo → ℤ → ℤ
known self value = if self.is_unversioned then pos 0 else value

unfoldable pub versioning_bytes : FLegacyPackageVersioningInfo → List ℕ
versioning_bytes self =
    ser_i32 (derived_version self)
    ++ (ser_i32 (pos 0)
        ++ (ser_i32 (known self self.package_file_version.file_version_ue4)
            ++ (write_if (eq_ℤ (derived_version self) file_version_ue5)
                  (ser_i32 (known self self.package_file_version.file_version_ue5))
                ++ (ser_i32 (known self self.licensee_version)
                    ++ ser_vec ser_custom_version self.custom_versions))))

unfoldable pub ser_legacy_versioning : FLegacyPackageVersioningInfo → Outcome (List ℕ)
ser_legacy_versioning self =
    Outcome.bind
      (Outcome.ensure invalid_data (not (eq_ℤ self.package_file_version.file_version_ue4 (pos 0))))
      λ _. ok (versioning_bytes self)

-- No licensee version and no custom versions come without the other versions.
abbrev pub IsUnversioned : FLegacyPackageVersioningInfo → Bool → Type 0
IsUnversioned self true = (self.licensee_version ≡ pos 0) × (self.custom_versions ≡ [])
IsUnversioned self false = Unit

-- The versions of packages of UE 4.26 and later, and the legacy version that goes with them.
pub record IsLegacyVersioning (self : FLegacyPackageVersioningInfo) : Type 0 where
  pub legacy_file_version : self.legacy_file_version ≡ derived_version self
  pub package_file_version : IsPackageFileVersion self.package_file_version
  pub supported : eq_ℤ self.package_file_version.file_version_ue4 (pos 0) ≡ false
  pub licensee_version : InRange (2 ^ 31) self.licensee_version
  pub custom_versions :
      (length self.custom_versions < 2 ^ 32) × All IsCustomVersion self.custom_versions
  pub unversioned : IsUnversioned self self.is_unversioned

-- The file has no versions of an unversioned package.
abbrev pub stored_versioning : FLegacyPackageVersioningInfo → FLegacyPackageVersioningInfo
stored_versioning self = record self {
  package_file_version = record {
    file_version_ue4 = known self self.package_file_version.file_version_ue4;
    file_version_ue5 = known self self.package_file_version.file_version_ue5;
  };
}

-- What is read of fields that are written one behind another.
module _ (ue4 ue5 licensee : ℤ) (customs : List FCustomVersion) (rest : List ℕ)
    (ue4_fits : InRange (2 ^ 31) ue4) (licensee_fits : InRange (2 ^ 31) licensee)
    (customs_fit : (length customs < 2 ^ 32) × All IsCustomVersion customs) where
  de_fields :
      (is_ue5 : Bool)
      → IsOptional is_ue5 (InRange (2 ^ 31)) (pos 0) ue5
      → de_legacy_versioning (
          (ser_i32 (if is_ue5 then file_version_ue5 else file_version_ue4)
            ++ (ser_i32 (pos 0)
                ++ (ser_i32 ue4
                    ++ (write_if is_ue5 (ser_i32 ue5)
                        ++ (ser_i32 licensee ++ ser_vec ser_custom_version customs)))))
          ++ rest)
        ≡ ok (
          record {
            legacy_file_version = if is_ue5 then file_version_ue5 else file_version_ue4;
            package_file_version = record { file_version_ue4 = ue4; file_version_ue5 = ue5 };
            licensee_version = licensee;
            custom_versions = customs;
            is_unversioned =
                eq_ℤ ue4 (pos 0)
                && (eq_ℤ ue5 (pos 0) && (eq_ℤ licensee (pos 0) && is_empty customs));
          },
          rest,
        )
  unfolding de_legacy_versioning read_if write_if
  de_fields true fits = simp (
    append_assoc,
    de_i32-ser_i32 file_version_ue5 _ (omega arith),
    de_i32-ser_i32 (pos 0) _ (omega arith),
    de_i32-ser_i32,
    ue4_fits,
    fits,
    licensee_fits,
    customs_fit,
    de_vec-ser_vec de_custom_version ser_custom_version IsCustomVersion
        de_custom_version-ser_custom_version,
  )
  de_fields false fits = simp (
    append_assoc,
    de_i32-ser_i32 file_version_ue4 _ (omega arith),
    de_i32-ser_i32 (pos 0) _ (omega arith),
    de_i32-ser_i32,
    ue4_fits,
    fits,
    licensee_fits,
    customs_fit,
    de_vec-ser_vec de_custom_version ser_custom_version IsCustomVersion
        de_custom_version-ser_custom_version,
  )

is_ue5_lem :
    (b : Bool) → eq_ℤ (if b then file_version_ue5 else file_version_ue4) file_version_ue5 ≡ b
is_ue5_lem true = refl
is_ue5_lem false = refl

pub known_fits :
    (self : FLegacyPackageVersioningInfo) (z : ℤ)
    → InRange (2 ^ 31) z
    → InRange (2 ^ 31) (known self z)
unfolding known
known_fits self z h = elim (Bool-cases self.is_unversioned) [
  | inl u ↦ rw u (omega arith)
  | inr u ↦ rw u h
]

known_ue5 :
    (self : FLegacyPackageVersioningInfo) (z : ℤ)
    → InRange (2 ^ 31) z
    → IsOptional (not (eq_ℤ z (pos 0))) (InRange (2 ^ 31)) (pos 0) (known self z)
known_ue5 self (pos zero) h = unfold known in ground arith
known_ue5 self (pos (suc n)) h =
    let e : eq_ℤ (pos (suc n)) (pos 0) ≡ false = ground arith in
    rw e (known_fits self (pos (suc n)) h)
known_ue5 self (negsuc n) h = known_fits self (negsuc n) h

known_licensee :
    (self : FLegacyPackageVersioningInfo)
    → IsLegacyVersioning self
    → known self self.licensee_version ≡ self.licensee_version
unfolding known
known_licensee self h = elim (Bool-cases self.is_unversioned) [
  | inl u ↦ let none_known = subst (IsUnversioned self) u h.unversioned in rw u (sym none_known.0)
  | inr u ↦ rw u
]

-- A package is taken for unversioned exactly where it is.
known_unversioned :
    (self : FLegacyPackageVersioningInfo)
    → IsLegacyVersioning self
    → (eq_ℤ (known self self.package_file_version.file_version_ue4) (pos 0)
        && (eq_ℤ (known self self.package_file_version.file_version_ue5) (pos 0)
            && (eq_ℤ (known self self.licensee_version) (pos 0) && is_empty self.custom_versions)))
      ≡ self.is_unversioned
unfolding known
known_unversioned self h = elim (Bool-cases self.is_unversioned) [
  | inl u ↦ let none_known = subst (IsUnversioned self) u h.unversioned in rw (u, none_known.1) refl
  | inr u ↦ rw (u, h.supported) refl
]

pub de_legacy_versioning-versioning_bytes :
    (self : FLegacyPackageVersioningInfo) (rest : List ℕ)
    → IsLegacyVersioning self
    → de_legacy_versioning (versioning_bytes self ++ rest) ≡ ok (stored_versioning self, rest)
unfolding versioning_bytes derived_version
de_legacy_versioning-versioning_bytes self rest h =
    let is_ue5 = not (eq_ℤ self.package_file_version.file_version_ue5 (pos 0)) in
    rw (is_ue5_lem is_ue5) (
      de_fields (known self self.package_file_version.file_version_ue4)
        (known self self.package_file_version.file_version_ue5) (known self self.licensee_version)
        self.custom_versions rest
        (known_fits self self.package_file_version.file_version_ue4
          h.package_file_version.file_version_ue4)
        (known_fits self self.licensee_version h.licensee_version) h.custom_versions is_ue5
        (known_ue5 self self.package_file_version.file_version_ue5
          h.package_file_version.file_version_ue5)
      ∙ ap (λ v. ok (v, rest))
          (rw (known_unversioned self h, known_licensee self h, h.legacy_file_version)
            (unfold derived_version in refl)))
