-- ===== src/Artifact/Resolve/Tests.antt =====
-- Runs of `Resolve` on the inputs of core/artifact/resolve_test.go, and the theorems at such inputs.
use desktop_hypervisor_mcp.Base.{
  ◌≡◌, ◌≢◌, ◌≤◌, ◌⊎◌, refl, true, none, some, List, [], ◌∷◌, ◌++◌, inl, inr, In,
}
use desktop_hypervisor_mcp.Base.Text.{Text, text, ◌==◌, has_prefix, trim_prefix, replace_from}
use desktop_hypervisor_mcp.Provider.Contract.{
  Kind, virtualbox, fusion, family, family_text, vagrant_provider, ready, Descriptor, ImageFormat,
  ova, ovf, iso, vmx, vdi, vmdk, accepts_in, ImageFormat-discrete,
}
use desktop_hypervisor_mcp.Provider.Errors.{Result, ok, err, message, no_variant, quote}
use desktop_hypervisor_mcp.Artifact.Catalog.{
  talos_factory, vagrant_box, Variant, Source, catalog, talos, talos_iso, windows_dev,
  ubuntu_cloud_source, turnkey_core, vagrant_source, talos_repo, talos_vanilla_schematic,
}
use desktop_hypervisor_mcp.Artifact.Resolve.{
  Resolved, pick, pick_from, find_source, resolve, resolve_box, resolve_source, resolve_variant,
  plain, check_format, vagrant_format, arch_of,
}
use desktop_hypervisor_mcp.Artifact.Resolve.Pick.{rank, pick-best, pick-none}
use desktop_hypervisor_mcp.Artifact.Resolve.Sound.{
  ComesFrom, resolve-ComesFrom, resolve-no_variant, resolve_unknown,
}
use desktop_hypervisor_mcp.Artifact.Resolve.Boxes.{resolve-boxed}

abbrev amd64 : Text
amd64 = text "amd64"

abbrev describe : Kind → Text → List ImageFormat → Descriptor
describe k arch formats = record {
  id = [];
  kind = k;
  status = ready;
  remediation = [];
  host_os = [];
  host_arch = arch;
  version = [];
  guest_arches = [];
  formats = formats;
  network_modes = [];
  capabilities = [];
  vm_dir = [];
}

abbrev all_formats : List ImageFormat
all_formats = ova ∷ ovf ∷ iso ∷ vmx ∷ vmdk ∷ vdi ∷ []

abbrev on_virtualbox : Descriptor
on_virtualbox = describe virtualbox amd64 all_formats

abbrev on_fusion : Descriptor
on_fusion = describe fusion amd64 all_formats

-- What `resolve` calls, for the runs below.
run : Text → Descriptor → Result Resolved
unfolding resolve resolve_box resolve_source resolve_variant plain check_format find_source pick
    pick_from catalog talos talos_iso windows_dev ubuntu_cloud_source turnkey_core vagrant_source
    talos_repo talos_vanilla_schematic text ◌==◌ has_prefix trim_prefix replace_from family
    family_text vagrant_provider accepts_in ImageFormat-discrete vagrant_format
run image d = resolve [] image d

abbrev talos_on_fusion : Resolved
talos_on_fusion = record {
  source = text "talos";
  kind = talos_factory;
  locator = talos_vanilla_schematic;
  asset = text "vmware-amd64.ova";
  format = ova;
  arch = amd64;
  notes = talos.notes;
  vagrant_provider = [];
}

talos_fusion : run (text "talos") on_fusion ≡ ok talos_on_fusion
unfolding run
talos_fusion = refl

abbrev kali : Resolved
kali = record {
  source = text "kali";
  kind = vagrant_box;
  locator = text "kalilinux/rolling";
  asset = [];
  format = vmx;
  arch = amd64;
  notes = [];
  vagrant_provider = text "vmware_desktop";
}

kali_fusion : run (text "kali") on_fusion ≡ ok kali
unfolding run
kali_fusion = refl

windows_arm :
    run (text "windows-dev") (describe fusion (text "arm64") all_formats)
    ≡ err (no_variant (text "windows-dev") (text "vmware") (text "arm64"))
unfolding run
windows_arm = refl

abbrev talos_vmware : Variant
talos_vmware = record {
  family = text "vmware";
  arch = [];
  kind = some talos_factory;
  locator = talos_vanilla_schematic;
  asset = text "vmware-{arch}.ova";
  format = ova;
}

abbrev vmware : Text
vmware = text "vmware"

pick-best_example :
    In talos_vmware talos.variants
    × (1 ≤ rank vmware amd64 talos_vmware)
    × ((w : Variant) → In w talos.variants → rank vmware amd64 w ≤ rank vmware amd64 talos_vmware)
unfolding run
pick-best_example = pick-best vmware amd64 talos.variants talos_vmware refl

pick-none_example : rank (text "xen") amd64 talos_vmware ≡ 0
unfolding run
pick-none_example = pick-none (text "xen") amd64 talos.variants talos_vmware refl (inr (inl refl))

resolve-ComesFrom_example :
    (src : Source) × (v : Variant) × ComesFrom
      (text "talos")
      (arch_of [] on_fusion)
      on_fusion
      src
      v
      talos_on_fusion
unfolding run
resolve-ComesFrom_example = resolve-ComesFrom [] (text "talos") on_fusion talos_on_fusion refl refl

resolve-no_variant_example :
    (text "windows-dev" ≡ text "windows-dev")
    × ((has_prefix (text "windows-dev") (text "vagrant:") ≡ true)
        ⊎ (find_source (text "windows-dev") catalog ≢ none))
unfolding run
resolve-no_variant_example =
    resolve-no_variant [] (text "windows-dev") (describe fusion (text "arm64") all_formats) refl

resolve_unknown_example :
    resolve [] (text "ubunto") on_fusion
    ≡ err (message (text "unknown image " ++ quote (text "ubunto")))
unfolding run
resolve_unknown_example = resolve_unknown [] (text "ubunto") on_fusion refl refl

resolve-boxed_example : kali.vagrant_provider ≢ []
unfolding run
resolve-boxed_example = resolve-boxed [] (text "kali") on_fusion kali kali_fusion refl
