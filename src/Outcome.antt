-- ===== src/Outcome.antt =====
-- The outcome of fallible code: `anyhow::Result`, with the panics of `assert!`, `unwrap`, slicing
-- and indexing as a third case. The text of an error is left out; its kind is kept. `out_of_fuel`
-- has no counterpart in the program: a loop of the model was given too few rounds.
use retoc.Prelude.{◌≡◌, refl, Bool, true, false, Option, none, some}

pub data Error : Type 0 where
  unexpected_eof invalid_data bad_magic missing_key unknown_method invalid_utf8 not_found : Error
  decompression_failed bad_path circular_dependency : Error

pub data Outcome {ℓ} (A : Type ℓ) : Type ℓ where
  ok : A → Outcome A
  err : Error → Outcome A
  panicked : Outcome A
  out_of_fuel : Outcome A

module _ {ℓ κ} {A : Type ℓ} {B : Type κ} where
  abbrev pub bind : Outcome A → (A → Outcome B) → Outcome B
  bind (ok a) f = f a
  bind (err e) f = err e
  bind panicked f = panicked
  bind out_of_fuel f = out_of_fuel

  pub bind-eq-ok :
      (m : Outcome A) (f : A → Outcome B) {b : B}
      → bind m f ≡ ok b
      → (a : A) × (m ≡ ok a) × (f a ≡ ok b)
  bind-eq-ok (ok a) f h = (a, refl, h)
  bind-eq-ok (err e) f h = cc
  bind-eq-ok panicked f h = cc
  bind-eq-ok out_of_fuel f h = cc

module _ {ℓ} {A : Type ℓ} where
  -- `.context(…)?` and `.with_context(…)?` on an option
  abbrev pub context : Error → Option A → Outcome A
  context e none = err e
  context e (some a) = ok a

  -- `.unwrap()`, `.expect(…)` and an index that may be out of range
  abbrev pub unwrap : Option A → Outcome A
  unwrap none = panicked
  unwrap (some a) = ok a

-- `assert!` and `assert_eq!`
abbrev pub assert : Bool → Outcome (Unit {0})
assert true = ok tt
assert false = panicked

-- `bail!` under a test
abbrev pub ensure : Error → Bool → Outcome (Unit {0})
ensure e true = ok tt
ensure e false = err e

pub unwrap-eq-ok {ℓ} : {A : Type ℓ} {o : Option A} {a : A} → unwrap o ≡ ok a → o ≡ some a
unwrap-eq-ok {o = none} h = cc
unwrap-eq-ok {o = some b} h = cc

pub ok-injective {ℓ} : {A : Type ℓ} {a b : A} → ok a ≡ ok b → a ≡ b
ok-injective h = cc

infixl 5 ◌>>=◌ ◌>>◌
abbrev pub ◌>>=◌ {ℓ κ} : {A : Type ℓ} {B : Type κ} → Outcome A → (A → Outcome B) → Outcome B
m >>= f = bind m f

abbrev pub ◌>>◌ {ℓ κ} : {A : Type ℓ} {B : Type κ} → Outcome A → Outcome B → Outcome B
m >> n = bind m (λ _. n)
