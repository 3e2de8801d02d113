-- ===== src/IoStore.antt =====
-- src/iostore.rs: a container, and a directory of containers read as one, the ones of higher
-- priority first. The opened file is the list of its bytes; AES and the decompressors are
-- parameters. Printing and the opening of files are left out.
pub mod Container
pub mod Priority
pub mod Backend
pub mod Unique
pub mod Lookup
pub mod Opening
use retoc.Prelude.{ℕ, some, true, ◌∷◌, none, false, [], Bool, List, ◌||◌, ◌++◌, if◌then◌else◌}
use retoc.Outcome.{Outcome, ok}
use retoc.Toc.ChunkId.{FIoChunkId}
use retoc.Ser.Utf.{Text}
use mathlib.Core.Option.{Option}
use retoc.Toc.File.{Toc}
use retoc.ContainerHeader.Header.{FIoContainerHeader}
use retoc.Outcome
use mathlib.Core.Option

pub record IoStoreContainer : Type 0 where
  pub name : Text
  pub toc : Toc
  pub cas : List ℕ
  pub container_header : Option FIoContainerHeader

pub record IoStoreBackend : Type 0 where
  pub containers : List IoStoreContainer

-- A chunk is compared by its id, and so is a package.
pub record ChunkInfo : Type 0 where
  pub id : FIoChunkId
  pub container : IoStoreContainer

pub record PackageInfo : Type 0 where
  pub id : ℕ
  pub container : IoStoreContainer

abbrev pub flat_map : {A B : Type 0} → (A → List B) → List A → List B
flat_map f [] = []
flat_map f (x ∷ xs) = f x ++ flat_map f xs

-- `find`, with a test that may panic
unfoldable pub find : {A : Type 0} → (A → Outcome Bool) → List A → Outcome (Option A)
find f [] = ok none
find f (x ∷ xs) = Outcome.bind (f x) λ b. if b then ok (some x) else find f xs

unfoldable pub any : {A : Type 0} → (A → Outcome Bool) → List A → Outcome Bool
any f [] = ok false
any f (x ∷ xs) = Outcome.bind (f x) λ b. if b then ok true else any f xs

unfoldable pub find_map : {A B : Type 0} → (A → Option B) → List A → Option B
find_map f [] = none
find_map f (x ∷ xs) = Option.or_else (f x) (find_map f xs)

-- `UniqueIterator`: what it returns until it ends, for the keys that were encountered. `same`
-- compares keys.
module _ {A K : Type 0} (same : K → K → Bool) (key : A → K) where
  unfoldable pub contains : List K → K → Bool
  contains [] k = false
  contains (j ∷ encountered) k = same j k || contains encountered k

  unfoldable pub unique : List K → List A → List A
  unique encountered [] = []
  unique encountered (x ∷ inner) =
      let skipped = unique encountered inner in
      let kept = unique (key x ∷ encountered) inner in
      if contains encountered (key x) then skipped else x ∷ kept
