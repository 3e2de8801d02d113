-- ===== src/NameMap/Numbers.antt =====
-- The numbers at the end of names: `break_down_name_string` of src/main.rs, and the formatting of
-- `FNameMap::get`. Without overflow checks, the largest number plus 1 is 2 ^ 31 as a `u32`.
use retoc.Prelude.{
  ℕ, ◌+◌, ◌*◌, ◌%◌, ◌^◌, ◌/◌, ◌-◌, ◌==◌, [], ◌∷◌, if◌then◌else◌, Option, some, none, ◌++◌, suc,
  zero, leb, list_eq, ◌&&◌, inr, inl, refl, ◌≡◌, Bool-cases, list_eq_iff, false, arith,
}
use retoc.Ser.Utf.{Text}
use retoc.Prelude.Int.{ℤ, pos, negsuc, neg}
use mathlib.Core.Option

-- The split of a text, by its first character and the split of the rest.
unfoldable pub split_before : ℕ → ℕ → Text → Option (Text × Text) → Option (Text × Text)
split_before separator c s (some (left, right)) = some (c ∷ left, right)
split_before separator c s none = if c == separator then some ([], s) else none

-- `rsplit_once`
unfoldable pub rsplit_once : ℕ → Text → Option (Text × Text)
rsplit_once separator [] = none
rsplit_once separator (c ∷ s) = split_before separator c s (rsplit_once separator s)

-- The value of a text of decimal digits.
unfoldable pub parse_digits : ℕ → Text → Option ℕ
parse_digits acc [] = some acc
parse_digits acc (c ∷ s) =
    let rest = parse_digits (acc * 10 + (c - 48)) s in if leb 48 c && leb c 57 then rest else none

unfoldable pub parse_magnitude : ℕ → Text → Option ℕ
parse_magnitude limit [] = none
parse_magnitude limit (c ∷ s) = elim (parse_digits 0 (c ∷ s)) [
  | some n ↦ if leb n limit then some n else none
  | none ↦ none
]

-- `parse::<i32>`: digits after an optional sign, in the range of the type.
unfoldable pub parse_i32 : Text → Option ℤ
parse_i32 [] = none
parse_i32 (c ∷ s) =
    if c == 43
    then Option.map (λ (n : ℕ). pos n) (parse_magnitude (2 ^ 31 - 1) s)
    else if c == 45
    then Option.map (λ (n : ℕ). neg (pos n)) (parse_magnitude (2 ^ 31) s)
    else Option.map (λ (n : ℕ). pos n) (parse_magnitude (2 ^ 31 - 1) (c ∷ s))

-- `to_string` of a number of 32 bits, which has 10 digits at most.
unfoldable pub digits : ℕ → ℕ → Text
digits zero n = []
digits (suc fuel) n =
    let before = digits fuel (n / 10) in
    if n / 10 == 0 then (48 + n) ∷ [] else before ++ (48 + n % 10) ∷ []

unfoldable pub to_string : ℕ → Text
to_string n = digits 10 n

-- The number of a name that ends in it, with 1 added; its bits as `u32`.
unfoldable pub accept_number : Text → Text → Text → Option ℤ → Text × ℕ
accept_number name left right none = (name, 0)
accept_number name left right (some (negsuc n)) = (name, 0)
accept_number name left right (some (pos n)) =
    if list_eq (to_string n) right then (left, n + 1) else (name, 0)

unfoldable pub break_down_split : Text → Option (Text × Text) → Text × ℕ
break_down_split name none = (name, 0)
break_down_split name (some (left, right)) = accept_number name left right (parse_i32 right)

unfoldable pub break_down_name_string : Text → Text × ℕ
break_down_name_string name = break_down_split name (rsplit_once 95 name)

-- `format!` of a name and its number
unfoldable pub with_number : Text → ℕ → Text
with_number n number = if number == 0 then n else n ++ 95 ∷ to_string (number - 1)

-- A text that is split is the two parts about the separator.
split_before-eq-some :
    (separator c : ℕ) (s left right : Text) (o : Option (Text × Text))
    → ((l r : Text) → o ≡ some (l, r) → l ++ separator ∷ r ≡ s)
    → split_before separator c s o ≡ some (left, right)
    → left ++ separator ∷ right ≡ c ∷ s
unfolding split_before
split_before-eq-some separator c s left right (some (l, r)) rest h = grind (arith, rest l r refl)
split_before-eq-some separator c s left right none rest h = grind arith

rsplit_once-eq-some :
    (separator : ℕ) (s left right : Text)
    → rsplit_once separator s ≡ some (left, right)
    → left ++ separator ∷ right ≡ s
unfolding rsplit_once
rsplit_once-eq-some separator [] left right h = cc
rsplit_once-eq-some separator (c ∷ s) left right h =
    split_before-eq-some separator c s left right (rsplit_once separator s)
      (rsplit_once-eq-some separator s) h

with_number_suc : (left : Text) (n : ℕ) → with_number left (n + 1) ≡ left ++ 95 ∷ to_string n
unfolding with_number
with_number_suc left n =
    let back : n + 1 - 1 ≡ n = omega arith in
    let test : (n + 1 == 0) ≡ false = ground arith in rw (test, back)

with_number-accept_number :
    (name left right : Text) (z : Option ℤ)
    → left ++ 95 ∷ right ≡ name
    → with_number (accept_number name left right z).0 (accept_number name left right z).1 ≡ name
unfolding accept_number
with_number-accept_number name left right none h = unfold with_number in refl
with_number-accept_number name left right (some (negsuc n)) h = unfold with_number in refl
with_number-accept_number name left right (some (pos n)) h =
    elim (Bool-cases (list_eq (to_string n) right)) [
      | inl e ↦ rw (e, with_number_suc left n, (list_eq_iff (to_string n) right).0 e) h
      | inr e ↦ rw e (unfold with_number in refl)
    ]

with_number-break_down_split :
    (name : Text) (o : Option (Text × Text))
    → ((l r : Text) → o ≡ some (l, r) → l ++ 95 ∷ r ≡ name)
    → with_number (break_down_split name o).0 (break_down_split name o).1 ≡ name
unfolding break_down_split
with_number-break_down_split name none h = unfold with_number in refl
with_number-break_down_split name (some (left, right)) h =
    with_number-accept_number name left right (parse_i32 right) (h left right refl)

-- The two parts of any name, formatted together again, are the name.
pub with_number-break_down_name_string :
    (name : Text)
    → with_number (break_down_name_string name).0 (break_down_name_string name).1 ≡ name
unfolding break_down_name_string
with_number-break_down_name_string name =
    with_number-break_down_split name (rsplit_once 95 name) (rsplit_once-eq-some 95 name)
