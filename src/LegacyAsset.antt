-- ===== src/LegacyAsset.antt =====
-- src/legacy_asset.rs: the package format that containers are made from. What a version of it has is
-- read and written under a test on the version.
pub mod Records
pub mod Versioning
pub mod Summary
pub mod Objects
pub mod Imports
use retoc.Prelude.{false, [], true, Bool, if◌then◌else◌, List, ◌≡◌, ℕ, ◌++◌, refl}
use retoc.Outcome.{ok}
use retoc.Ser.Stream.{Reader, pure, RoundTrips}

-- `if b { s.de()? } else { d }`
unfoldable pub read_if : {A : Type 0} → Bool → Reader A → A → Reader A
read_if b r d = if b then r else pure d

-- `if b { s.ser(…)?; }`
unfoldable pub write_if : Bool → List ℕ → List ℕ
write_if b bytes = if b then bytes else []

-- A value that `P` admits where the test holds, and the default otherwise.
abbrev pub IsOptional : {A : Type 0} → Bool → (A → Type 0) → A → A → Type 0
IsOptional true P d a = P a
IsOptional false P d a = a ≡ d

module _ {A : Type 0} where
  pub read_if-write_if :
      (r : Reader A) (w : A → List ℕ) (P : A → Type 0)
      → RoundTrips r w P
      → (b : Bool) (d a : A) (rest : List ℕ) → IsOptional b P d a
      → read_if b r d (write_if b (w a) ++ rest) ≡ ok (a, rest)
  unfolding read_if write_if
  read_if-write_if r w P back true d a rest h = back a rest h
  read_if-write_if r w P back false d a rest h = rw h

  pub read_if-false : (r : Reader A) (d : A) (s : List ℕ) → read_if false r d s ≡ ok (d, s)
  unfolding read_if
  read_if-false r d s = refl

pub write_if-false : (bytes : List ℕ) → write_if false bytes ≡ []
unfolding write_if
write_if-false bytes = refl
