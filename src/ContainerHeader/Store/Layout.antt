-- ===== src/ContainerHeader/Store/Layout.antt =====
-- Where `StoreEntries::serialize` of src/container_header.rs puts the entries and their arrays.
use native.Mathlib.Nat.{suc-mul}
use retoc.Prelude.{
  ℕ, refl, ◌≡◌, ◌+◌, ◌++◌, [], ◌∷◌, ◌-◌, arith, ap, length-append, append-nil, length-replicate,
  drop-length_add, take-eq_self, drop-eq_nil, append_assoc, inl, inr, ◌⊎◌, replicate-add, ◌∙◌,
  subst, sym, ap₂, List, length, replicate, ◌*◌, take-length, drop-length,
}
use retoc.ContainerHeader.Store.{
  write_at, serialize_entry, layout, ser_view, FFilePackageStoreEntry, write_elements, Cursor,
  write, StoreEntry, serialize_buffer, serialize_one, entry_at, ser_hash, stored_hashes,
  serialize_all,
}
use retoc.Ser.Stream.{to_le_bytes}
use retoc.Version.{pre_initial, EIoContainerHeaderVersion}
use retoc.Ser.Words.{ser_u64, ser_u32, ser_i32}
use retoc.Ser.Arrays.{ser_array}

pub length-serialize_entry :
    (version : EIoContainerHeaderVersion) (e : FFilePackageStoreEntry)
    → length (serialize_entry version e) ≡ (layout version).1
unfolding serialize_entry layout ser_view ser_u64 ser_u32 ser_i32 to_le_bytes
length-serialize_entry pre_initial e = refl
length-serialize_entry _ e = refl

write_at-end :
    (b : List ℕ) (g : ℕ) (bytes : List ℕ)
    → write_at b (length b + g) bytes ≡ b ++ (replicate g 0 ++ bytes)
unfolding write_at
write_at-end b g bytes =
    let count : length b + g - length b ≡ g = omega arith in
    let whole : length (b ++ replicate g 0) ≡ length b + g =
      omega (arith, length-append b (replicate g 0), length-replicate {A = ℕ} g 0) in
    rw (
      count,
      take-eq_self (b ++ replicate g 0) (length b + g) (omega (arith, whole)),
      drop-eq_nil (b ++ replicate g 0) (length b + g + length bytes) (omega (arith, whole)),
      append-nil bytes,
      append_assoc b (replicate g 0) bytes,
    )

write_at-gap :
    (E Z R bytes : List ℕ)
    → length Z ≡ length bytes
    → write_at (E ++ (Z ++ R)) (length E) bytes ≡ E ++ (bytes ++ R)
unfolding write_at
write_at-gap E Z R bytes h =
    let full : length E - length (E ++ (Z ++ R)) ≡ 0 = omega (arith, length-append E (Z ++ R)) in
    rw (
      full,
      append-nil (E ++ (Z ++ R)),
      take-length E (Z ++ R),
      drop-length_add E (Z ++ R) (length bytes),
      ← h,
      drop-length Z R,
    )

-- The entries so far, a gap for the others, and the arrays so far; without arrays there may be no
-- gap.
abbrev Shape : List ℕ → List ℕ → ℕ → List ℕ → Type 0
Shape b E gap R = (b ≡ E ++ (replicate gap 0 ++ R)) ⊎ ((b ≡ E) × (R ≡ []))

length_shape :
    (E R : List ℕ) (gap : ℕ) → length (E ++ (replicate gap 0 ++ R)) ≡ length E + (gap + length R)
length_shape E R gap = omega (
  arith,
  length-append E (replicate gap 0 ++ R),
  length-append (replicate gap 0) R,
  length-replicate {A = ℕ} gap 0,
)

write-Shape :
    (b E R bytes : List ℕ) (gap : ℕ)
    → Shape b E gap R
    → write_at b (length E + (gap + length R)) bytes ≡ E ++ (replicate gap 0 ++ (R ++ bytes))
write-Shape b E R bytes gap (inl e) =
    let X : List ℕ = E ++ (replicate gap 0 ++ R) in
    let count : length E + (gap + length R) ≡ length X + 0 = omega (arith, length_shape E R gap) in
    rw (
      e,
      count,
      write_at-end X 0 bytes,
      append_assoc E (replicate gap 0 ++ R) bytes,
      append_assoc (replicate gap 0) R bytes,
    )
write-Shape b E R bytes gap (inr (e, r)) =
    let count : length E + (gap + length {A = ℕ} []) ≡ length E + gap = omega arith in
    rw (e, r, count, write_at-end E gap bytes)

-- An array goes behind the arrays so far.
write_elements-Shape :
    {A : Type 0} (w : A → List ℕ) (cur : Cursor) (E R : List ℕ) (gap : ℕ) (xs : List A)
    → Shape cur.buffer E gap R
    → cur.position ≡ length E + (gap + length R)
    → let next = write_elements w cur xs in
      let R' = R ++ ser_array w xs in
      Shape next.buffer E gap R' × (next.position ≡ length E + (gap + length R'))
unfolding write_elements write ser_array
write_elements-Shape w cur E R gap [] h p = rw (append-nil R) (h, p)
write_elements-Shape w cur E R gap (x ∷ xs) h p =
    let bytes = ser_array w (x ∷ xs) in
    (inl (rw p (write-Shape cur.buffer E R bytes gap h)), omega (arith, p, length-append R bytes))

-- An entry goes into the gap.
write_entry-Shape :
    (b E R bytes : List ℕ) (gap : ℕ)
    → Shape b E (length bytes + gap) R
    → Shape (write_at b (length E) bytes) (E ++ bytes) gap R
write_entry-Shape b E R bytes gap (inl e) = inl (
    rw (
      e,
      replicate-add {A = ℕ} (length bytes) gap 0,
      append_assoc (replicate (length bytes) 0) (replicate gap 0) R,
      write_at-gap E (replicate (length bytes) 0) (replicate gap 0 ++ R) bytes
          (length-replicate {A = ℕ} (length bytes) 0),
      append_assoc E bytes (replicate gap 0 ++ R),
    ))
write_entry-Shape b E R bytes gap (inr (e, r)) =
    let count : length E ≡ length E + 0 = omega arith in
    inr (rw e (ap (λ n. write_at E n bytes) count ∙ write_at-end E 0 bytes), r)

-- The arrays of the entries, and the entries with the places of their arrays.
abbrev pub arrays : EIoContainerHeaderVersion → StoreEntry → List ℕ
arrays version e =
    ser_array ser_u64 e.imported_packages ++ ser_array ser_hash (stored_hashes version e)

abbrev pub all_arrays : EIoContainerHeaderVersion → List StoreEntry → List ℕ
all_arrays version [] = []
all_arrays version (e ∷ es) = arrays version e ++ all_arrays version es

abbrev pub placed : EIoContainerHeaderVersion → ℕ → ℕ → StoreEntry → FFilePackageStoreEntry
placed version entry_offset array_offset e =
    entry_at version entry_offset array_offset
      (array_offset + length (ser_array ser_u64 e.imported_packages)) e

abbrev pub all_placed :
    EIoContainerHeaderVersion → ℕ → ℕ → List StoreEntry → List FFilePackageStoreEntry
all_placed version entry_offset array_offset [] = []
all_placed version entry_offset array_offset (e ∷ es) =
    placed version entry_offset array_offset e
    ∷ all_placed version (entry_offset + (layout version).1)
        (array_offset + length (arrays version e)) es

-- One round keeps the shape: the entry goes into the gap, and its arrays behind the others.
serialize_one-Shape :
    (version : EIoContainerHeaderVersion) (cur : Cursor) (array_offset : ℕ) (E R : List ℕ) (gap : ℕ)
    (e : StoreEntry)
    → Shape cur.buffer E ((layout version).1 + gap) R
    → cur.position ≡ length E
    → array_offset ≡ length E + ((layout version).1 + gap + length R)
    → let result = serialize_one version array_offset cur e in
      let bytes = serialize_entry version (placed version (length E) array_offset e) in
      Shape result.0.buffer (E ++ bytes) gap (R ++ arrays version e)
      × (result.0.position ≡ length (E ++ bytes))
      × (result.1 ≡ array_offset + length (arrays version e))
unfolding serialize_one write
serialize_one-Shape version cur array_offset E R gap e h p q =
    let G = (layout version).1 + gap in
    let start : Cursor = record { buffer = cur.buffer; position = array_offset } in
    let B₁ = ser_array ser_u64 e.imported_packages in
    let B₂ = ser_array ser_hash (stored_hashes version e) in
    let first = write_elements ser_u64 start e.imported_packages in
    let second = write_elements ser_hash first (stored_hashes version e) in
    let R' = R ++ arrays version e in
    let bytes = serialize_entry version (placed version (length E) array_offset e) in
    let one = write_elements-Shape ser_u64 start E R G e.imported_packages h q in
    let two =
      write_elements-Shape ser_hash first E (R ++ B₁) G (stored_hashes version e) one.0 one.1 in
    let place : first.position ≡ array_offset + length B₁ =
      omega (arith, one.1, q, length-append R B₁) in
    let all : Shape second.buffer E G R' =
      subst (λ r. Shape second.buffer E G r) (append_assoc R B₁ B₂) two.0 in
    let size : length bytes ≡ (layout version).1 =
      length-serialize_entry version (placed version (length E) array_offset e) in
    let gaps : Shape second.buffer E (length bytes + gap) R' =
      subst (λ n. Shape second.buffer E (n + gap) R') (sym size) all in
    let same = ap₂ (λ n m. serialize_entry version (entry_at version n array_offset m e)) p place in
    (
      subst (λ b. Shape b (E ++ bytes) gap R') (sym (ap₂ (write_at second.buffer) p same))
          (write_entry-Shape second.buffer E R' bytes gap gaps),
      ap₂ (λ n bs. n + length bs) p same ∙ sym (length-append E bytes),
      omega (arith, two.1, q, length-append (R ++ B₁) B₂, length-append B₁ B₂, length-append R B₁),
    )

-- The whole buffer: the entries in their order, with the places of their arrays, and behind them the
-- arrays in the same order.
serialize_all-layout :
    (version : EIoContainerHeaderVersion) (es : List StoreEntry) (cur : Cursor) (array_offset : ℕ)
    (E R : List ℕ)
    → Shape cur.buffer E (length es * (layout version).1) R
    → cur.position ≡ length E
    → array_offset ≡ length E + (length es * (layout version).1 + length R)
    → (serialize_all version array_offset cur es).buffer
      ≡ E
        ++ (ser_array (serialize_entry version) (all_placed version (length E) array_offset es)
            ++ (R ++ all_arrays version es))
unfolding serialize_all ser_array
serialize_all-layout version [] cur array_offset E R (inl e) p q =
    let none_left : 0 * (layout version).1 ≡ 0 = omega arith in
    rw (append-nil R) (e ∙ ap (λ n. E ++ (replicate n 0 ++ R)) none_left)
serialize_all-layout version [] cur array_offset E R (inr (e, r)) p q = rw (r, append-nil E) e
serialize_all-layout version (e ∷ es) cur array_offset E R h p q =
    let size = (layout version).1 in
    let gap = length es * size in
    let count : length (e ∷ es) * size ≡ size + gap = omega (arith, suc-mul (length es) size) in
    let bytes = serialize_entry version (placed version (length E) array_offset e) in
    let R' = R ++ arrays version e in
    let result = serialize_one version array_offset cur e in
    let one =
      serialize_one-Shape version cur array_offset E R gap e
        (subst (λ n. Shape cur.buffer E n R) count h) p (omega (arith, q, count)) in
    let width : length (E ++ bytes) ≡ length E + size = omega (
      arith,
      length-append E bytes,
      length-serialize_entry version (placed version (length E) array_offset e),
    ) in
    let end : result.1 ≡ length (E ++ bytes) + (gap + length R') =
      omega (arith, one.2, q, count, width, length-append R (arrays version e)) in
    let rest =
      ser_array (serialize_entry version)
        (all_placed version (length E + size) (array_offset + length (arrays version e)) es) in
    serialize_all-layout version es result.0 result.1 (E ++ bytes) R' one.0 one.1 end
    ∙ ap₂
        (λ n m.
          (E ++ bytes)
          ++ (ser_array (serialize_entry version) (all_placed version n m es)
              ++ (R' ++ all_arrays version es)))
        width one.2
    ∙ rw (
      append_assoc E bytes (rest ++ (R' ++ all_arrays version es)),
      append_assoc bytes rest (R ++ (arrays version e ++ all_arrays version es)),
      append_assoc R (arrays version e) (all_arrays version es),
    )

-- What `serialize` writes: the entries, and behind them their arrays.
pub serialize_buffer-layout :
    (version : EIoContainerHeaderVersion) (es : List StoreEntry)
    → serialize_buffer version es
      ≡ ser_array
          (serialize_entry version)
          (all_placed version 0 (length es * (layout version).1) es)
        ++ all_arrays version es
unfolding serialize_buffer
serialize_buffer-layout version es =
    serialize_all-layout version es (record { buffer = []; position = 0 })
      (length es * (layout version).1) [] [] (inr (refl, refl)) refl (omega arith)
