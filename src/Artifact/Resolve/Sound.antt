-- ===== src/Artifact/Resolve/Sound.antt =====
-- What a resolved artifact satisfies, and what each error of `Resolve` means.
use desktop_hypervisor_mcp.Base.{
  true, false, Option, none, some, List, [], ◌∷◌, ◌++◌, ◌≡◌, ◌≢◌, refl, ◌↔◌, ◌⊎◌, inl, inr, arith,
  In, Option-cases, Bool-cases,
}
use desktop_hypervisor_mcp.Base.Text.{Text, text, has_prefix}
use desktop_hypervisor_mcp.Base.Text.Equal.{eq_iff}
use desktop_hypervisor_mcp.Provider.Contract.{
  family, family_text, vagrant_provider, Descriptor, accepts, fusion, workstation,
}
use desktop_hypervisor_mcp.Provider.Errors.{ok, err, message, no_variant, quote}
use desktop_hypervisor_mcp.Artifact.Catalog.{Variant, Source, catalog}
use desktop_hypervisor_mcp.Artifact.Resolve.{
  Resolved, pick, find_source, is_vagrant, resolve_box, plain, check_format, resolve_variant,
  resolve_source, arch_of, resolve, vagrant_format, get_or,
}

find_source-eq-some :
    (image : Text) (ss : List Source) (s : Source)
    → find_source image ss ≡ some s
    → In s ss × (s.name ≡ image)
unfolding find_source
find_source-eq-some image [] s h = cc
find_source-eq-some image (x ∷ ss) s h =
    ground (arith, find_source-eq-some image ss s, eq_iff x.name image)

check_format-eq-ok :
    (image : Text) (d : Descriptor) (r s : Resolved)
    → check_format image d r ≡ ok s
    → (r ≡ s) × (accepts d s.format ≡ true)
unfolding check_format
check_format-eq-ok image d r s h = elim (Bool-cases (accepts d r.format)) [
  | inl yes_it_does ↦ (ground arith, ground arith)
  | inr refused ↦ absurd (ground arith)
]

-- What a resolved artifact takes from its catalogue entry.
pub record ComesFrom (image arch : Text) (d : Descriptor) (src : Source) (v : Variant)
    (r : Resolved) : Type 0 where
  pub listed : In src catalog
  pub named : src.name ≡ image
  pub picked : pick src.variants (family_text (family d.kind)) arch ≡ some v
  pub kind_is : r.kind ≡ get_or v.kind src.kind
  pub locator_is : r.locator ≡ v.locator
  pub arch_is : r.arch ≡ arch
  pub accepted : accepts d r.format ≡ true
  pub boxed : is_vagrant src.kind ≡ true → r.vagrant_provider ≢ []

resolve_variant-eq-ok :
    (image : Text) (d : Descriptor) (arch : Text) (src : Source) (v : Variant) (r : Resolved)
    → resolve_variant image d arch src v ≡ ok r
    → (accepts d r.format ≡ true)
      × (r.arch ≡ arch)
      × (r.locator ≡ v.locator)
      × (r.kind ≡ get_or v.kind src.kind)
      × (is_vagrant src.kind ≡ true → r.vagrant_provider ≢ [])
unfolding resolve_variant plain
resolve_variant-eq-ok image d arch src v r h =
    let boxed : Resolved = record (plain src v arch) {
      vagrant_provider = vagrant_provider d.kind;
      format = vagrant_format (family d.kind);
    } in
    ground (
      arith,
      check_format-eq-ok image d (plain src v arch) r,
      check_format-eq-ok image d boxed r,
      eq_iff (vagrant_provider d.kind) [],
    )

resolve_source-eq-ok :
    (image : Text) (d : Descriptor) (arch : Text) (found : Option Source) (r : Resolved)
    → resolve_source image d arch found ≡ ok r
    → (src : Source) × (v : Variant) × (found ≡ some src)
      × (pick src.variants (family_text (family d.kind)) arch ≡ some v)
      × (resolve_variant image d arch src v ≡ ok r)
unfolding resolve_source
resolve_source-eq-ok image d arch none r h = cc
resolve_source-eq-ok image d arch (some src) r h =
    elim (Option-cases (pick src.variants (family_text (family d.kind)) arch)) [
      | inl e ↦ absurd (ground arith)
      | inr (v, e) ↦ (src, v, refl, e, ground arith)
    ]

-- An image that is no vagrant passthrough resolves only to the variant that `pick` selects of the
-- catalogue entry of that name: with its kind and locator, for the architecture of the host, in a
-- format that the provider accepts, and with a box provider if it is a vagrant entry.
pub resolve-ComesFrom :
    (goarch image : Text) (d : Descriptor) (r : Resolved)
    → has_prefix image (text "vagrant:") ≡ false
    → resolve goarch image d ≡ ok r
    → (src : Source) × (v : Variant) × ComesFrom image (arch_of goarch d) d src v r
unfolding resolve
resolve-ComesFrom goarch image d r catalogued h =
    let arch = arch_of goarch d in
    let (src, v, found, picked, made) =
      resolve_source-eq-ok image d arch (find_source image catalog) r (rw catalogued at h) in
    let (accepted, arch_is, locator_is, kind_is, boxed) =
      resolve_variant-eq-ok image d arch src v r made in
    let (listed, named) = find_source-eq-some image catalog src found in
    (
      src,
      v,
      record {
        listed = listed;
        named = named;
        picked = picked;
        kind_is = kind_is;
        locator_is = locator_is;
        arch_is = arch_is;
        accepted = accepted;
        boxed = boxed;
      },
    )

-- `ErrNoVariant` is about the image that was asked for, and never about an unknown one.
pub resolve-no_variant :
    (goarch image : Text) (d : Descriptor) {i f a : Text}
    → resolve goarch image d ≡ err (no_variant i f a)
    → (i ≡ image)
      × ((has_prefix image (text "vagrant:") ≡ true) ⊎ (find_source image catalog ≢ none))
unfolding resolve resolve_box resolve_source resolve_variant check_format
resolve-no_variant goarch image d h = ground arith

-- The other way round, a name that the catalogue lacks is reported as unknown.
pub resolve_unknown :
    (goarch image : Text) (d : Descriptor)
    → has_prefix image (text "vagrant:") ≡ false
    → find_source image catalog ≡ none
    → resolve goarch image d ≡ err (message (text "unknown image " ++ quote image))
unfolding resolve resolve_source
resolve_unknown goarch image d p h = rw (p, h)

-- Fusion and Workstation resolve every image to the same artifact.
resolve-fusion_workstation :
    (goarch image : Text) (d : Descriptor) (r : Resolved)
    → (resolve goarch image (record d { kind = fusion }) ≡ ok r)
      ↔ (resolve goarch image (record d { kind = workstation }) ≡ ok r)
unfolding resolve resolve_box resolve_source resolve_variant check_format family vagrant_provider
resolve-fusion_workstation goarch image d r = ground arith
