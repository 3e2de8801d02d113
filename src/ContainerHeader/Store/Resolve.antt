-- ===== src/ContainerHeader/Store/Resolve.antt =====
-- The second half of `StoreEntries::deserialize` of src/container_header.rs: from a view to its
-- array.
use retoc.Prelude.{
  ℕ, List, length, Bool, true, false, ◌++◌, [], ◌∷◌, refl, ◌<◌, ◌+◌, ◌^◌, arith, if◌then◌else◌, ◌≤◌,
  ◌≡◌, append_assoc, suc, ◌%◌, ◌-◌, drop-length, ◌==◌, ◌∙◌, ap, sym, length-append, map,
}
use retoc.Ser.Words.{ser_u64, de_u64, de_u32-ser_u32, de_u64-ser_u64, de_i32-ser_i32}
use retoc.Ser.Arrays.{ser_array, read_array, All, read_array-ser_array}
use retoc.Ser.Stream.{read_exact, Reader, RoundTrips, read_exact-append}
use retoc.Version.{
  pre_initial, initial, localized_packages, optional_segment_packages, EIoContainerHeaderVersion,
}
use retoc.ContainerHeader.Store.{
  CArrayView, de_view, layout, resolve_view, deserialize_entry, view_of, StoreEntry,
  FFilePackageStoreEntry, serialize_entry, ser_view, read_array_at, is_initial, has_counts,
  has_shaders, stored_hashes, no_view, resolve, ser_hash, entry_at,
}
use retoc.Outcome.{ok}
use retoc.Prelude.Int.{pos, InRange}
use native.Mathlib.Nat.{mod-eq_of_lt}
use retoc.ContainerHeader.Store.Layout.{arrays, placed}

pub record IsStoreEntry (e : StoreEntry) : Type 0 where
  pub export_bundles_size : e.export_bundles_size < 2 ^ 64
  pub load_order : e.load_order < 2 ^ 32
  pub export_count : InRange (2 ^ 31) e.export_count
  pub export_bundle_count : InRange (2 ^ 31) e.export_bundle_count
  pub imported_packages :
      (length e.imported_packages < 2 ^ 32) × All (λ x. x < 2 ^ 64) e.imported_packages
  pub shader_map_hashes :
      (length e.shader_map_hashes < 2 ^ 32) × All (λ h. length h ≡ 20) e.shader_map_hashes

-- What a version stores of an entry.
unfoldable pub stored : EIoContainerHeaderVersion → StoreEntry → StoreEntry
stored version e = record {
  export_bundles_size = if is_initial version then e.export_bundles_size else 0;
  load_order = if is_initial version then e.load_order else 0;
  export_count = if has_counts version then e.export_count else pos 0;
  export_bundle_count = if has_counts version then e.export_bundle_count else pos 0;
  imported_packages = e.imported_packages;
  shader_map_hashes = stored_hashes version e;
}

abbrev pub stored_raw : EIoContainerHeaderVersion → FFilePackageStoreEntry → FFilePackageStoreEntry
stored_raw version e = record {
  export_bundles_size = if is_initial version then e.export_bundles_size else 0;
  load_order = if is_initial version then e.load_order else 0;
  export_count = if has_counts version then e.export_count else pos 0;
  export_bundle_count = if has_counts version then e.export_bundle_count else pos 0;
  imported_packages = e.imported_packages;
  shader_map_hashes = if has_shaders version then e.shader_map_hashes else no_view;
}

pub record IsView (v : CArrayView) : Type 0 where
  array_num : v.array_num < 2 ^ 32
  offset_to_data_from_this : v.offset_to_data_from_this < 2 ^ 32

de_view-ser_view : RoundTrips de_view ser_view IsView
unfolding de_view ser_view
de_view-ser_view v rest h =
    simp (append_assoc, de_u32-ser_u32, h.array_num, h.offset_to_data_from_this)

pub view_of-IsView :
    {A : Type 0} (base position : ℕ) (xs : List A) → IsView (view_of base position xs)
unfolding view_of
view_of-IsView base position [] = record {
  array_num = omega arith;
  offset_to_data_from_this = omega arith;
}
view_of-IsView base position (x ∷ xs) = record {
  array_num = omega arith;
  offset_to_data_from_this = omega arith;
}

pub record IsRaw (e : FFilePackageStoreEntry) : Type 0 where
  pub export_bundles_size : e.export_bundles_size < 2 ^ 64
  pub load_order : e.load_order < 2 ^ 32
  pub export_count : InRange (2 ^ 31) e.export_count
  pub export_bundle_count : InRange (2 ^ 31) e.export_bundle_count
  pub imported_packages : IsView e.imported_packages
  pub shader_map_hashes : IsView e.shader_map_hashes

zero_fits : 0 < 2 ^ 32
zero_fits = omega arith

deserialize_entry-serialize_entry :
    (version : EIoContainerHeaderVersion) (e : FFilePackageStoreEntry) (rest : List ℕ)
    → IsRaw e
    → deserialize_entry version (serialize_entry version e ++ rest)
      ≡ ok (stored_raw version e, rest)
unfolding deserialize_entry serialize_entry
deserialize_entry-serialize_entry pre_initial e rest h = simp (
  append_assoc, de_i32-ser_i32, de_view-ser_view, h.export_count, h.export_bundle_count,
  h.imported_packages,
)
deserialize_entry-serialize_entry initial e rest h = simp (
  append_assoc, de_u64-ser_u64, de_u32-ser_u32, de_i32-ser_i32, de_view-ser_view, zero_fits,
  h.export_bundles_size, h.load_order, h.export_count, h.export_bundle_count, h.imported_packages,
)
deserialize_entry-serialize_entry localized_packages e rest h = simp (
  append_assoc, de_i32-ser_i32, de_view-ser_view, h.export_count, h.export_bundle_count,
  h.imported_packages, h.shader_map_hashes,
)
deserialize_entry-serialize_entry optional_segment_packages e rest h = simp (
  append_assoc, de_i32-ser_i32, de_view-ser_view, h.export_count, h.export_bundle_count,
  h.imported_packages, h.shader_map_hashes,
)
deserialize_entry-serialize_entry _ e rest h =
    simp (append_assoc, de_view-ser_view, h.imported_packages, h.shader_map_hashes)

pub read_entries :
    (version : EIoContainerHeaderVersion) (es : List FFilePackageStoreEntry) (rest : List ℕ)
    → All IsRaw es
    → read_array
        (length es)
        (deserialize_entry version)
        (ser_array (serialize_entry version) es ++ rest)
      ≡ ok (map (stored_raw version) es, rest)
unfolding read_array ser_array
read_entries version [] rest h = refl
read_entries version (e ∷ es) rest h = rw (
  append_assoc (serialize_entry version e) (ser_array (serialize_entry version) es) rest,
  deserialize_entry-serialize_entry version e (ser_array (serialize_entry version) es ++ rest) h.0,
  read_entries version es rest h.1,
)

layout_fits : (version : EIoContainerHeaderVersion) → (layout version).0 + 8 ≤ (layout version).1
unfolding layout
layout_fits pre_initial = omega arith
layout_fits _ = omega arith

-- A view leads back to its array.
resolve_view-view_of :
    {A : Type 0} (f : Reader A) (w : A → List ℕ) (P : A → Type 0) (base position : ℕ)
    (buffer before : List ℕ) (xs : List A) (rest : List ℕ)
    → RoundTrips f w P
    → (length xs < 2 ^ 32) × All P xs
    → buffer ≡ before ++ (ser_array w xs ++ rest)
    → position ≡ length before
    → base ≤ position
    → position < 2 ^ 32
    → resolve_view buffer base (view_of base position xs) f ≡ ok xs
unfolding resolve_view view_of read_array_at
resolve_view-view_of f w P base position buffer before [] rest back all e p low high = refl
resolve_view-view_of f w P base position buffer before (x ∷ xs) rest back all e p low high =
    let count : suc (length xs) % 2 ^ 32 ≡ suc (length xs) =
      mod-eq_of_lt {n = suc (length xs)} {m = 2 ^ 32} all.0 in
    let some_left : (suc (length xs) == 0) ≡ false = ground arith in
    let place : base + (position - base) % 2 ^ 32 ≡ length before = omega arith in
    rw (
      count,
      some_left,
      place,
      e,
      drop-length before (ser_array w (x ∷ xs) ++ rest),
      read_array-ser_array f w P back (x ∷ xs) rest all.1,
    )

read_hash : RoundTrips (read_exact 20) ser_hash (λ h. length h ≡ 20)
read_hash h rest l = read_exact-append 20 h rest l

if_shaders :
    (b : Bool) (buffer : List ℕ) (base position : ℕ) (hs : List (List ℕ))
    → (b ≡ false → hs ≡ [])
    → resolve_view buffer base (view_of base position hs) (read_exact 20) ≡ ok hs
    → (if b
        then resolve_view buffer base
            (if b then view_of base position hs else no_view)
            (read_exact 20)
        else ok [])
      ≡ ok hs
if_shaders true buffer base position hs empty found = found
if_shaders false buffer base position hs empty found = rw (empty refl)

abbrev Hashes : List (List ℕ) → Type 0
Hashes hs = (length hs < 2 ^ 32) × All (λ h. length h ≡ 20) hs

if-Hashes : (b : Bool) (hs : List (List ℕ)) → Hashes hs → Hashes (if b then hs else [])
if-Hashes true hs h = h
if-Hashes false hs h = (omega arith, tt)

module _ (version : EIoContainerHeaderVersion) (e : StoreEntry) (h : IsStoreEntry e) where
  -- The hashes of an entry, if the version has them.
  resolve_hashes :
      (base position : ℕ) (buffer before rest : List ℕ)
      → buffer ≡ before ++ (ser_array ser_hash (stored_hashes version e) ++ rest)
      → position ≡ length before
      → base ≤ position
      → position < 2 ^ 32
      → (if has_shaders version
          then resolve_view buffer base
              (if has_shaders version
                then view_of base position (stored_hashes version e)
                else no_view)
              (read_exact 20)
          else ok [])
        ≡ ok (stored_hashes version e)
  resolve_hashes base position buffer before rest b p low high =
      if_shaders (has_shaders version) buffer base position (stored_hashes version e)
        (λ without. rw without)
        (resolve_view-view_of (read_exact 20) ser_hash (λ h. length h ≡ 20) base position buffer
          before (stored_hashes version e) rest read_hash
          (if-Hashes (has_shaders version) e.shader_map_hashes h.shader_map_hashes) b p low high)

  -- The arrays of an entry are found behind what comes before them.
  pub resolve-placed :
      (entry_offset array_offset : ℕ) (buffer before rest : List ℕ)
      → buffer ≡ before ++ (arrays version e ++ rest)
      → array_offset ≡ length before
      → entry_offset + (layout version).1 ≤ array_offset
      → array_offset + length (arrays version e) < 2 ^ 32
      → resolve version buffer entry_offset
          (stored_raw version (placed version entry_offset array_offset e))
        ≡ ok (stored version e)
  unfolding resolve stored entry_at
  resolve-placed entry_offset array_offset buffer before rest b p low high =
      let B₁ = ser_array ser_u64 e.imported_packages in
      let B₂ = ser_array ser_hash (stored_hashes version e) in
      let base = entry_offset + (layout version).0 in
      let split = b ∙ ap (λ bs. before ++ bs) (append_assoc B₁ B₂ rest) in
      rw (
        resolve_view-view_of de_u64 ser_u64 (λ x. x < 2 ^ 64) base array_offset buffer before
            e.imported_packages (B₂ ++ rest) de_u64-ser_u64 h.imported_packages split p
            (omega (arith, layout_fits version)) (omega arith),
        resolve_hashes (base + 8) (array_offset + length B₁) buffer (before ++ B₁) rest
            (split ∙ sym (append_assoc before B₁ (B₂ ++ rest)))
            (omega (arith, length-append before B₁)) (omega (arith, layout_fits version))
            (omega (arith, length-append B₁ B₂)),
      )
