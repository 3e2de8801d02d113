-- ===== src/ContainerHeader/Header.antt =====
-- `FIoContainerHeader` of src/container_header.rs and its operations. The hash of names, cityhash,
-- is a parameter. A `HashMap` is a function from keys to options and a `HashSet` one to truth
-- values.
use retoc.Prelude.{
  ℕ, ◌∷◌, false, none, true, some, [], Option, List, Bool, ltb, ◌==◌, ◌≡◌, if◌then◌else◌, ◌++◌,
  ◌||◌, inr, refl, inl, arith, Bool-cases, ap, ==_iff, ◌∙◌, sym,
}
use retoc.ContainerHeader.Store.{StoreEntry, keys}
use retoc.Version.{EIoContainerHeaderVersion, header_after, initial}
use retoc.Ser.Utf.{Text, encode_utf16}
use retoc.NameMap.Store.{FNameMap}
use retoc.ContainerHeader.BTreeMap.{Sorted}
use retoc.NameMap.{package_type}
use retoc.ContainerHeader.Records.{
  FIoContainerHeaderLocalizedPackage, text_lt, FIoContainerHeaderPackageRedirect,
  FIoContainerHeaderSoftPackageReferences, LegacyContainerHeaderPackageRedirect,
}
use retoc.Ser.Arrays.{ser_array}
use retoc.Ser.Words.{ser_u16}
use retoc.Compression.{to_ascii_lowercase}
use retoc.Toc.Maps.{Map}
use retoc.ContainerHeader.BTreeMap
use retoc.NameMap.Store
use retoc.Toc.Maps

pub record FIoContainerHeader : Type 0 where
  pub version : EIoContainerHeaderVersion
  pub container_id : ℕ
  pub packages : List (ℕ × StoreEntry)
  pub optional_segment_package_ids : List ℕ
  pub optional_segment_store_entries : List ℕ
  pub redirect_name_map : FNameMap
  pub localized_packages : List FIoContainerHeaderLocalizedPackage
  pub package_redirects : List FIoContainerHeaderPackageRedirect
  pub soft_package_references : Option FIoContainerHeaderSoftPackageReferences
  pub legacy_culture_package_map : List (Text × List (ℕ × ℕ))
  pub legacy_package_redirects : List LegacyContainerHeaderPackageRedirect
  pub localized_source_package_ids : ℕ → Bool
  pub package_redirect_lookup : Map ℕ ℕ

-- The default kind of a name map is that of a package.
unfoldable pub new : EIoContainerHeaderVersion → ℕ → FIoContainerHeader
new version container_id = record {
  version = version;
  container_id = container_id;
  packages = [];
  optional_segment_package_ids = [];
  optional_segment_store_entries = [];
  redirect_name_map = Store.new package_type;
  localized_packages = [];
  package_redirects = [];
  soft_package_references = none;
  legacy_culture_package_map = [];
  legacy_package_redirects = [];
  localized_source_package_ids = λ id. false;
  package_redirect_lookup = λ id. none;
}

unfoldable add_package : FIoContainerHeader → ℕ → StoreEntry → FIoContainerHeader
add_package self package_id store_entry = record self {
  packages = BTreeMap.insert ltb package_id store_entry self.packages;
}

unfoldable pub lookup_package_redirect : FIoContainerHeader → ℕ → Option ℕ
lookup_package_redirect self source_package_id = self.package_redirect_lookup source_package_id

unfoldable pub get_store_entry : FIoContainerHeader → ℕ → Option StoreEntry
get_store_entry self package_id = BTreeMap.get ltb package_id self.packages

unfoldable pub package_ids : FIoContainerHeader → List ℕ
package_ids self = keys self.packages

abbrev is_modern : FIoContainerHeader → Bool
is_modern self = header_after self.version initial

module _ (cityhash : List ℕ → ℕ) where
  unfoldable pub lower_utf16_cityhash : Text → ℕ
  lower_utf16_cityhash s = cityhash (ser_array ser_u16 (encode_utf16 (to_ascii_lowercase s)))

  unfoldable pub from_name : Text → ℕ
  from_name name = lower_utf16_cityhash name

  -- A package that is localized for the first time.
  unfoldable pub push_localized : FIoContainerHeader → Text → FIoContainerHeader
  push_localized self source_package_name =
      let stored = Store.store self.redirect_name_map source_package_name in
      record self {
        redirect_name_map = stored.0;
        localized_source_package_ids =
            λ id. id == from_name source_package_name || self.localized_source_package_ids id;
        localized_packages =
            self.localized_packages
            ++ record {
              source_package_id = from_name source_package_name;
              source_package_name = stored.1;
            }
              ∷ [];
      }

  -- `entry(culture).or_default()`
  unfoldable pub culture_packages : FIoContainerHeader → Text → List (ℕ × ℕ)
  culture_packages self culture =
      or_default (BTreeMap.get text_lt culture self.legacy_culture_package_map)
    where
      or_default : Option (List (ℕ × ℕ)) → List (ℕ × ℕ)
      or_default none = []
      or_default (some ps) = ps

  unfoldable pub add_localized_package : FIoContainerHeader → Text → Text → ℕ → FIoContainerHeader
  add_localized_package self package_culture source_package_name localized_package_id =
      let source_package_id = from_name source_package_name in
      if is_modern self
      then (if self.localized_source_package_ids source_package_id
          then self
          else push_localized self source_package_name)
      else record self {
        legacy_culture_package_map =
            BTreeMap.insert text_lt package_culture
              (culture_packages self package_culture
                ++ (source_package_id, localized_package_id) ∷ [])
              self.legacy_culture_package_map;
      }

  unfoldable pub add_package_redirect : FIoContainerHeader → Text → ℕ → FIoContainerHeader
  add_package_redirect self source_package_name redirect_package_id =
      let source_package_id = from_name source_package_name in
      let stored = Store.store self.redirect_name_map source_package_name in
      let lookup =
        Maps.insert ◌==◌ source_package_id redirect_package_id self.package_redirect_lookup in
      if is_modern self
      then record self {
        redirect_name_map = stored.0;
        package_redirects =
            self.package_redirects
            ++ record {
              source_package_id = source_package_id;
              target_package_id = redirect_package_id;
              source_package_name = stored.1;
            }
              ∷ [];
        package_redirect_lookup = lookup;
      }
      else record self {
        legacy_package_redirects =
            self.legacy_package_redirects
            ++ record {
              source_package_id = source_package_id;
              target_package_id = redirect_package_id;
            }
              ∷ [];
        package_redirect_lookup = lookup;
      }

  -- Under every version, a redirect that was added leads its package to the new one, and the
  -- packages with other ids where they were led before.
  pub lookup_package_redirect-add_package_redirect :
      (self : FIoContainerHeader) (name : Text) (target id : ℕ)
      → lookup_package_redirect (add_package_redirect self name target) id
        ≡ (if id == from_name name then some target else lookup_package_redirect self id)
  unfolding lookup_package_redirect add_package_redirect
  lookup_package_redirect-add_package_redirect self name target id =
      elim (Bool-cases (is_modern self)) [
        | inl modern ↦ rw modern refl
        | inr legacy ↦ rw legacy refl
      ]

  add_localized_old :
      (self : FIoContainerHeader) (culture name : Text) (id : ℕ)
      → header_after self.version initial ≡ true
      → self.localized_source_package_ids (from_name name) ≡ true
      → add_localized_package self culture name id ≡ self
  unfolding add_localized_package
  add_localized_old self culture name id modern old = rw (modern, old) refl

  add_localized_new :
      (self : FIoContainerHeader) (culture name : Text) (id : ℕ)
      → header_after self.version initial ≡ true
      → self.localized_source_package_ids (from_name name) ≡ false
      → add_localized_package self culture name id ≡ push_localized self name
  unfolding add_localized_package
  add_localized_new self culture name id modern fresh = rw (modern, fresh) refl

  push_localized_known :
      (self : FIoContainerHeader) (name : Text)
      → (push_localized self name).localized_source_package_ids (from_name name) ≡ true
  unfolding push_localized
  push_localized_known self name = rw (==_iff (from_name name) (from_name name)).1 refl

  -- Under the versions after the initial one, a package is localized once: adding it again, for
  -- whichever culture, changes nothing.
  pub add_localized_package_twice :
      (self : FIoContainerHeader) (culture other name : Text) (id other_id : ℕ)
      → header_after self.version initial ≡ true
      → add_localized_package (add_localized_package self culture name id) other name other_id
        ≡ add_localized_package self culture name id
  add_localized_package_twice self culture other name id other_id modern =
      elim (Bool-cases (self.localized_source_package_ids (from_name name))) [
        | inl old ↦
            let first = add_localized_old self culture name id modern old in
            ap (λ h. add_localized_package h other name other_id) first
            ∙ add_localized_old self other name other_id modern old
            ∙ sym first
        | inr fresh ↦
            let first = add_localized_new self culture name id modern fresh in
            ap (λ h. add_localized_package h other name other_id) first
            ∙ add_localized_old (push_localized self name) other name other_id
                (unfold push_localized in modern) (push_localized_known self name)
            ∙ sym first
      ]

get-insert_id :
    {V : Type 0} (key id : ℕ) (v : V) (m : List (ℕ × V))
    → BTreeMap.get ltb id (BTreeMap.insert ltb key v m)
      ≡ (if id == key then some v else BTreeMap.get ltb id m)
unfolding BTreeMap.get BTreeMap.insert
get-insert_id key id v [] = ground arith
get-insert_id key id v ((j, w) ∷ m) = ground (arith, get-insert_id key id v m)

-- A package that was added has the entry it was added with, and the others have theirs.
get_store_entry-add_package :
    (self : FIoContainerHeader) (package_id other : ℕ) (entry : StoreEntry)
    → get_store_entry (add_package self package_id entry) other
      ≡ (if other == package_id then some entry else get_store_entry self other)
unfolding get_store_entry add_package
get_store_entry-add_package self package_id other entry =
    get-insert_id package_id other entry self.packages
