-- ===== src/IoStore/Opening.antt =====
-- What opening a directory of containers checks, in src/iostore.rs, and the order that it makes.
use retoc.Prelude.{
  ℕ, [], some, ◌∷◌, none, Option, ◌≡◌, ◌==◌, ==_iff, subst, false, true, refl, sym, Bool, ap,
}
use retoc.Outcome.{Outcome, ok, ◌>>=◌, ◌>>◌, bind-eq-ok, ok-injective, invalid_data}
use retoc.IoStore.Backend.{open_containers, check_versions, agree, agree_header}
use retoc.IoStore.{IoStoreContainer, IoStoreBackend}
use mathlib.Core.List.{Perm, List}
use retoc.Toc.Version.{EIoStoreTocVersion, repr, invalid}
use retoc.Version.{EIoContainerHeaderVersion, header_repr, no_export_info}
use retoc.Ser.Arrays.{All}
use retoc.IoStore.Priority.{
  Descending, sort_container_name, sort_by, sort_by-Perm, sort_by-Descending,
}
use retoc.IoStore.Container
use retoc.Outcome

-- The container has this file version.
abbrev pub FileIs : EIoStoreTocVersion → IoStoreContainer → Type 0
FileIs version c = repr c.toc.version ≡ repr version

-- The container has this header version, or no header.
abbrev pub HeaderIs : EIoContainerHeaderVersion → Option EIoContainerHeaderVersion → Type 0
HeaderIs version none = Unit
HeaderIs version (some v) = header_repr v ≡ header_repr version

ensure_same :
    {V : Type 0} (b : Bool) (p : V) (next : Option V)
    → Outcome.bind (Outcome.ensure invalid_data b) (λ _. ok (some p)) ≡ ok next
    → (b ≡ true) × (next ≡ some p)
ensure_same true p next e = (refl, sym (ok-injective e))
ensure_same false p next e = cc

agree-eq-ok :
    {V : Type 0} (key : V → ℕ) (p this : V) (next : Option V)
    → agree (λ a b. key a == key b) (some p) this ≡ ok next
    → (key this ≡ key p) × (next ≡ some p)
unfolding agree
agree-eq-ok key p this next e =
    let (same, kept) = ensure_same (key this == key p) p next e in
    ((==_iff (key this) (key p)).0 same, kept)

agree_header-some :
    (h : EIoContainerHeaderVersion) (o next : Option EIoContainerHeaderVersion)
    → agree_header (some h) o ≡ ok next
    → HeaderIs h o × (next ≡ some h)
unfolding agree_header
agree_header-some h none next e = (tt, sym (ok-injective e))
agree_header-some h (some w) next e = agree-eq-ok header_repr h w next e

agree_header-none :
    (o next : Option EIoContainerHeaderVersion) → agree_header none o ≡ ok next → next ≡ o
unfolding agree_header agree
agree_header-none none next e = sym (ok-injective e)
agree_header-none (some w) next e = sym (ok-injective e)

-- One round of the check: the versions with which the next one goes on.
check_step :
    (v : Option EIoStoreTocVersion) (h : Option EIoContainerHeaderVersion) (c : IoStoreContainer)
    (cs : List IoStoreContainer)
    → check_versions v h (c ∷ cs) ≡ ok tt
    → (next : Option EIoStoreTocVersion) × (next_header : Option EIoContainerHeaderVersion) × (agree
          (λ a b. repr a == repr b)
          v
          c.toc.version
        ≡ ok next)
      × (agree_header h (Container.container_header_version c) ≡ ok next_header)
      × (check_versions next next_header cs ≡ ok tt)
unfolding check_versions Container.container_file_version
check_step v h c cs e =
    let (next, e₁, e₂) = bind-eq-ok (agree (λ a b. repr a == repr b) v c.toc.version) _ e in
    let (next_header, e₃, e₄) =
      bind-eq-ok (agree_header h (Container.container_header_version c)) _ e₂ in
    (next, next_header, e₁, e₃, e₄)

check_all_files :
    (v : EIoStoreTocVersion) (h : Option EIoContainerHeaderVersion) (cs : List IoStoreContainer)
    → check_versions (some v) h cs ≡ ok tt
    → All (FileIs v) cs
check_all_files v h [] e = tt
check_all_files v h (c ∷ cs) e =
    let (next, next_header, e₁, e₃, e₄) = check_step (some v) h c cs e in
    let (same, kept) = agree-eq-ok repr v c.toc.version next e₁ in
    (
      same,
      check_all_files v next_header cs
          (subst (λ n. check_versions n next_header cs ≡ ok tt) kept e₄),
    )

check_all_headers :
    (v : Option EIoStoreTocVersion) (h : EIoContainerHeaderVersion) (cs : List IoStoreContainer)
    → check_versions v (some h) cs ≡ ok tt
    → All (λ c. HeaderIs h (Container.container_header_version c)) cs
check_all_headers v h [] e = tt
check_all_headers v h (c ∷ cs) e =
    let (next, next_header, e₁, e₃, e₄) = check_step v (some h) c cs e in
    let (same, kept) = agree_header-some h (Container.container_header_version c) next_header e₃ in
    (same, check_all_headers next h cs (subst (λ n. check_versions next n cs ≡ ok tt) kept e₄))

one_file :
    (cs : List IoStoreContainer)
    → check_versions none none cs ≡ ok tt
    → (v : EIoStoreTocVersion) × All (FileIs v) cs
one_file [] e = (invalid, tt)
one_file (c ∷ cs) e =
    let (next, next_header, e₁, e₃, e₄) = check_step none none c cs e in
    let first : next ≡ some c.toc.version = unfold agree in sym (ok-injective e₁) in
    (
      c.toc.version,
      (
        refl,
        check_all_files c.toc.version next_header cs
            (subst (λ n. check_versions n next_header cs ≡ ok tt) first e₄),
      ),
    )

first_header :
    (o : Option EIoContainerHeaderVersion) (next : Option EIoStoreTocVersion)
    (cs : List IoStoreContainer)
    → check_versions next o cs ≡ ok tt
    → ((h : EIoContainerHeaderVersion) × All
          (λ c. HeaderIs h (Container.container_header_version c))
          cs)
    → (h : EIoContainerHeaderVersion) × (HeaderIs h o
        × All (λ c. HeaderIs h (Container.container_header_version c)) cs)
first_header none next cs e (h, rest) = (h, (tt, rest))
first_header (some w) next cs e later = (w, (refl, check_all_headers next w cs e))

one_header :
    (v : Option EIoStoreTocVersion) (o : Option EIoContainerHeaderVersion)
    (cs : List IoStoreContainer)
    → check_versions v o cs ≡ ok tt
    → (h : EIoContainerHeaderVersion) × All
        (λ c. HeaderIs h (Container.container_header_version c))
        cs
one_header v (some h) cs e = (h, check_all_headers v h cs e)
one_header v none [] e = (no_export_info, tt)
one_header v none (c ∷ cs) e =
    let (next, next_header, e₁, e₃, e₄) = check_step v none c cs e in
    let kept = agree_header-none (Container.container_header_version c) next_header e₃ in
    first_header (Container.container_header_version c) next cs
      (subst (λ n. check_versions next n cs ≡ ok tt) kept e₄) (one_header next next_header cs e₄)

-- A directory that opens has the containers that were opened, none of a higher priority behind
-- another; all have the same version of the table of contents, and those with a header have the
-- same version of it.
pub open_containers-eq-ok :
    (cs : List IoStoreContainer) (self : IoStoreBackend)
    → open_containers cs ≡ ok self
    → Perm self.containers cs
      × Descending (λ c. sort_container_name c.name) self.containers
      × ((v : EIoStoreTocVersion) × All (FileIs v) cs)
      × ((h : EIoContainerHeaderVersion) × All
            (λ c. HeaderIs h (Container.container_header_version c))
            cs)
unfolding open_containers
open_containers-eq-ok cs self e =
    let (u, e₁, e₂) = bind-eq-ok (check_versions none none cs) _ e in
    let key = λ (c : IoStoreContainer). sort_container_name c.name in
    let made : sort_by key cs ≡ self.containers =
      ap (λ (b : IoStoreBackend). b.containers) (ok-injective e₂) in
    (
      subst (λ xs. Perm xs cs) made (sort_by-Perm key cs),
      subst (Descending key) made (sort_by-Descending key cs),
      one_file cs e₁,
      one_header none none cs e₁,
    )
