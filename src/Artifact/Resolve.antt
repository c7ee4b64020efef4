-- ===== src/Artifact/Resolve.antt =====
-- core/artifact/resolve.go: `Resolve` and `pick`. `runtime.GOARCH` is an argument.
pub mod Pick
pub mod Sound
pub mod Boxes
mod Tests
use desktop_hypervisor_mcp.Base.{
  Bool, true, false, not, ◌&&◌, ◌||◌, Option, none, some, List, [], ◌∷◌, ◌++◌, if◌then◌else◌, map,
}
use desktop_hypervisor_mcp.Base.Text.{
  Text, text, ◌==◌, is_empty, has_prefix, trim_prefix, replace_all, join,
}
use desktop_hypervisor_mcp.Provider.Contract.{
  Family, vmware_family, virtualbox_family, family, family_text, vagrant_provider, kind_text,
  Descriptor, ImageFormat, vmx, ovf, accepts, format_text,
}
use desktop_hypervisor_mcp.Provider.Errors.{Result, ok, err, message, no_variant, quote}
use desktop_hypervisor_mcp.Artifact.Catalog.{
  ArtifactKind, github_asset, url, vagrant_box, ubuntu_cloud, talos_factory, Variant, Source,
  catalog,
}

pub record Resolved : Type 0 where
  pub source : Text
  pub kind : ArtifactKind
  pub locator : Text
  pub asset : Text
  pub format : ImageFormat
  pub arch : Text
  pub notes : Text
  pub vagrant_provider : Text

-- `vagrantFormat`
unfoldable pub vagrant_format : Family → ImageFormat
vagrant_format vmware_family = vmx
vagrant_format virtualbox_family = ovf

abbrev pub keep_first {ℓ} : {A : Type ℓ} → Option A → A → Option A
keep_first none v = some v
keep_first (some w) v = some w

abbrev pub or_else {ℓ} : {A : Type ℓ} → Option A → Option A → Option A
or_else none b = b
or_else (some a) b = some a

-- The loop of `pick`, with what it has found so far by family, by arch and with no constraint.
unfoldable pub pick_from :
    Text → Text → Option Variant → Option Variant → Option Variant → List Variant → Option Variant
pick_from family arch by_family by_arch unconstrained [] =
    or_else by_family (or_else by_arch unconstrained)
pick_from family arch by_family by_arch unconstrained (v ∷ vs) =
    let of_family = v.family == family && v.arch == [] in
    let of_arch = v.family == [] && v.arch == arch in
    let of_any = v.family == [] && v.arch == [] in
    let rest =
      pick_from family arch (if of_family then keep_first by_family v else by_family)
        (if of_family then by_arch else if of_arch then keep_first by_arch v else by_arch)
        (if of_family || of_arch
          then unconstrained
          else if of_any
          then keep_first unconstrained v
          else unconstrained)
        vs in
    if v.family == family && v.arch == arch then some v else rest

-- `pick`
unfoldable pub pick : List Variant → Text → Text → Option Variant
pick vs family arch = pick_from family arch none none none vs

-- The loop that looks the image up in the catalogue.
unfoldable pub find_source : Text → List Source → Option Source
find_source image [] = none
find_source image (s ∷ ss) = if s.name == image then some s else find_source image ss

abbrev pub is_vagrant : ArtifactKind → Bool
is_vagrant vagrant_box = true
is_vagrant _ = false

abbrev pub get_or {ℓ} : {A : Type ℓ} → Option A → A → A
get_or none d = d
get_or (some a) d = a

-- `Resolve` from the lookup of a `vagrant:org/box` image on.
unfoldable pub resolve_box : Text → Descriptor → Text → Result Resolved
resolve_box image d arch =
    let provider_name = vagrant_provider d.kind in
    if provider_name == []
    then err (no_variant image (family_text (family d.kind)) arch)
    else ok (record {
      source = image;
      kind = vagrant_box;
      locator = trim_prefix image (text "vagrant:");
      asset = [];
      format = vagrant_format (family d.kind);
      arch = arch;
      notes = [];
      vagrant_provider = provider_name;
    })

-- The artifact that a variant of a source stands for, before the vagrant adjustment.
unfoldable pub plain : Source → Variant → Text → Resolved
plain src v arch = record {
  source = src.name;
  kind = get_or v.kind src.kind;
  locator = v.locator;
  asset = replace_all v.asset (text "{arch}") arch;
  format = v.format;
  arch = arch;
  notes = src.notes;
  vagrant_provider = [];
}

-- The test that the provider takes the format.
unfoldable pub check_format : Text → Descriptor → Resolved → Result Resolved
check_format image d r =
    if not (accepts d r.format)
    then err (
        message (
          text "image "
          ++ (quote image
              ++ (text " resolves to "
                  ++ (format_text r.format
                      ++ (text ", which "
                          ++ (kind_text d.kind
                              ++ (text " cannot import (accepted: ["
                                  ++ (join b' ' (map format_text d.formats) ++ text "])")))))))))
    else ok r

unfoldable pub resolve_variant : Text → Descriptor → Text → Source → Variant → Result Resolved
resolve_variant image d arch src v =
    let provider_name = vagrant_provider d.kind in
    let r = plain src v arch in
    if is_vagrant src.kind
    then (if provider_name == []
        then err (no_variant image (family_text (family d.kind)) arch)
        else check_format image d (record r {
          vagrant_provider = provider_name;
          format = vagrant_format (family d.kind);
        }))
    else check_format image d r

unfoldable pub resolve_source : Text → Descriptor → Text → Option Source → Result Resolved
resolve_source image d arch none = err (message (text "unknown image " ++ quote image))
resolve_source image d arch (some src) =
    elim (pick src.variants (family_text (family d.kind)) arch) [
      | none ↦ err (no_variant image (family_text (family d.kind)) arch)
      | some v ↦ resolve_variant image d arch src v
    ]

-- The architecture that is resolved for.
abbrev pub arch_of : Text → Descriptor → Text
arch_of goarch d = if d.host_arch == [] then goarch else d.host_arch

-- `Resolve`
unfoldable pub resolve : Text → Text → Descriptor → Result Resolved
resolve goarch image d =
    let arch = arch_of goarch d in
    if has_prefix image (text "vagrant:")
    then resolve_box image d arch
    else resolve_source image d arch (find_source image catalog)
