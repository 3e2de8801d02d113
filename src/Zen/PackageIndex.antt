-- ===== src/Zen/PackageIndex.antt =====
-- `FPackageIndex` of src/zen.rs: an export is i + 1, an import -i - 1 and nothing is 0. The words
-- are those of a build without overflow checks.
use retoc.Prelude.{
  ℕ, true, false, Bool, ◌<◌, List, ◌≡◌, ◌^◌, not, ◌||◌, ◌-◌, ◌&&◌, refl, zero, suc, arith,
}
use retoc.Outcome.{Outcome, ok}
use retoc.Ser.Stream.{◌>>=◌, RoundTrips, Reader, pure}
use retoc.Prelude.Int.{
  is_negative, pos, wrap_i32, ℤ, as_u32, succ_ℤ, eq_ℤ, leb_ℤ, InRange, pred_ℤ, as_i32, neg, negsuc,
  as_i32_small, wrap_i32_small,
}
use retoc.Ser.Words.{ser_i32, de_i32-ser_i32, de_i32}
use native.Mathlib.Nat.{mod-eq_of_lt}
use retoc.Outcome

pub record FPackageIndex : Type 0 where
  pub index : ℤ

unfoldable pub create_null : FPackageIndex
create_null = record { index = pos 0 }

unfoldable create_import : ℕ → FPackageIndex
create_import import_index = record {
  index = wrap_i32 (pred_ℤ (wrap_i32 (neg (as_i32 import_index))));
}

unfoldable pub create_export : ℕ → FPackageIndex
create_export export_index = record { index = wrap_i32 (succ_ℤ (as_i32 export_index)) }

unfoldable pub is_import : FPackageIndex → Bool
is_import self = is_negative self.index

unfoldable pub is_export : FPackageIndex → Bool
is_export self = leb_ℤ (pos 1) self.index

unfoldable pub is_null : FPackageIndex → Bool
is_null self = eq_ℤ self.index (pos 0)

unfoldable pub to_import_index : FPackageIndex → Outcome ℕ
to_import_index self =
    Outcome.bind (Outcome.assert (is_negative self.index))
      λ _. ok (as_u32 (wrap_i32 (pred_ℤ (wrap_i32 (neg self.index)))))

unfoldable pub to_export_index : FPackageIndex → Outcome ℕ
to_export_index self =
    Outcome.bind (Outcome.assert (leb_ℤ (pos 1) self.index))
      λ _. ok (as_u32 (wrap_i32 (pred_ℤ self.index)))

unfoldable pub de_package_index : Reader FPackageIndex
de_package_index = do index ← de_i32; pure (record { index = index })

unfoldable pub ser_package_index : FPackageIndex → List ℕ
ser_package_index self = ser_i32 self.index

pub de_package_index-ser_package_index :
    RoundTrips de_package_index ser_package_index (λ i. InRange (2 ^ 31) i.index)
unfolding de_package_index ser_package_index
de_package_index-ser_package_index i rest h = rw (de_i32-ser_i32 i.index rest h)

create_import_index : (i : ℕ) → i < 2 ^ 31 → create_import i ≡ record { index = negsuc i }
unfolding create_import
create_import_index zero h = refl
create_import_index (suc i) h = rw (
  as_i32_small (suc i) h,
  wrap_i32_small (negsuc i) (omega arith),
  wrap_i32_small (negsuc (suc i)) h,
)

pub create_export_index :
    (i : ℕ) → i < 2 ^ 31 - 1 → create_export i ≡ record { index = pos (suc i) }
unfolding create_export
create_export_index i h =
    rw (as_i32_small i (omega arith), wrap_i32_small (pos (suc i)) (omega arith))

-- An index into the imports below 2 ^ 31 - 1 comes back from the package index, which is an import
-- and neither an export nor null.
to_import_index-create_import :
    (i : ℕ)
    → i < 2 ^ 31 - 1
    → (to_import_index (create_import i) ≡ ok i)
      × (is_import (create_import i) ≡ true)
      × (is_export (create_import i) ≡ false)
      × (is_null (create_import i) ≡ false)
unfolding to_import_index is_import is_export is_null
to_import_index-create_import i h = (
  rw (
    create_import_index i (omega arith),
    wrap_i32_small (pos (suc i)) (omega arith),
    wrap_i32_small (pos i) (omega arith),
    mod-eq_of_lt {n = i} {m = 2 ^ 32} (omega arith),
  ),
  rw (create_import_index i (omega arith)) (ground arith),
  rw (create_import_index i (omega arith)) (ground arith),
  rw (create_import_index i (omega arith)) (ground arith),
)

-- An index into the exports below 2 ^ 31 - 1 comes back from the package index, which is an export
-- and neither an import nor null.
to_export_index-create_export :
    (i : ℕ)
    → i < 2 ^ 31 - 1
    → (to_export_index (create_export i) ≡ ok i)
      × (is_export (create_export i) ≡ true)
      × (is_import (create_export i) ≡ false)
      × (is_null (create_export i) ≡ false)
unfolding to_export_index is_import is_export is_null
to_export_index-create_export i h = (
  rw
      (
        create_export_index i h,
        wrap_i32_small (pos i) (omega arith),
        mod-eq_of_lt {n = i} {m = 2 ^ 32} (omega arith),
      )
      (ground arith),
  rw (create_export_index i h) (ground arith),
  rw (create_export_index i h) (ground arith),
  rw (create_export_index i h) (ground arith),
)

one_sign :
    (z : ℤ)
    → (eq_ℤ z (pos 0) ≡ not (is_negative z || leb_ℤ (pos 1) z))
      × (is_negative z && leb_ℤ (pos 1) z ≡ false)
one_sign (pos zero) = (refl, refl)
one_sign (pos (suc n)) = ground arith
one_sign (negsuc n) = (refl, refl)

-- A package index is exactly one of an import, an export and null.
one_kind :
    (self : FPackageIndex)
    → (is_null self ≡ not (is_import self || is_export self))
      × (is_import self && is_export self ≡ false)
unfolding is_import is_export is_null
one_kind self = one_sign self.index
