-- ===== src/VMware/Detect.antt =====
-- provider/vmware/detect.go: `Detect` and `defaultVMDir`, less the free space, which is only reported.
use desktop_hypervisor_mcp.Base.{Option, none, some, List, [], ◌∷◌, ◌++◌, if◌then◌else◌}
use desktop_hypervisor_mcp.Base.Text.{Text, text, is_empty}
use desktop_hypervisor_mcp.FilePath.{join_path}
use desktop_hypervisor_mcp.Provider.Contract.{
  Kind, fusion, kind_text, ready, missing_tooling, Capability, guest_exec, guest_copy_in,
  guest_copy_out, ova_import, ova_export, linked_clone, port_forward, snapshot_tree, uefi,
  nested_virt, make_iso, ip_from_dhcp, ip_from_tools, capture_screen, guestinfo_config, ImageFormat,
  ova, ovf, iso, vmx, vmdk, Descriptor,
}
use desktop_hypervisor_mcp.Provider.Errors.{ok, err}
use desktop_hypervisor_mcp.Provider.Host.{Host}
use desktop_hypervisor_mcp.Provider.Patterns.{Patterns}
use desktop_hypervisor_mcp.VMware.Tools.{
  Platform, darwin, windows, other_os, product_kind, on_platform, vmrun_bin, ovftool_bin,
  iso_backend,
}

-- The capabilities that every installed product has.
unfoldable pub base_caps : List Capability
base_caps =
    guest_exec ∷ guest_copy_in ∷ guest_copy_out ∷ linked_clone ∷ snapshot_tree ∷ uefi ∷ nested_virt
    ∷ capture_screen ∷ ip_from_tools ∷ ip_from_dhcp ∷ port_forward ∷ guestinfo_config ∷ []

-- The capabilities, by the places of ovftool and of the tool that makes an ISO.
unfoldable pub vmware_caps : Text → Text → List Capability
vmware_caps ovftool backend =
    (base_caps ++ (if is_empty ovftool then [] else ova_import ∷ ova_export ∷ []))
    ++ (if is_empty backend then [] else make_iso ∷ [])

unfoldable pub vmware_formats : Text → List ImageFormat
vmware_formats ovftool =
    (vmx ∷ vmdk ∷ iso ∷ []) ++ (if is_empty ovftool then [] else ova ∷ ovf ∷ [])

-- The name of a product that is not installed.
unfoldable pub product_name : Kind → Text
product_name fusion = text "VMware Fusion"
product_name _ = text "VMware Workstation"

-- `defaultVMDir` in a home directory.
unfoldable pub vm_dir_in : Platform → Text → Text
vm_dir_in darwin home = join_path (home ∷ text "Virtual Machines.localized" ∷ [])
vm_dir_in windows home = join_path (home ∷ text "Documents" ∷ text "Virtual Machines" ∷ [])
vm_dir_in other_os home = join_path (home ∷ text "vmware" ∷ [])

abbrev pub version_or_empty : Option Text → Text
version_or_empty (some v) = v
version_or_empty none = []

module _ (H : Host) (P : Patterns) where
  -- `defaultVMDir`
  unfoldable pub default_vm_dir : Text
  default_vm_dir = elim H.user_home [ ok home ↦ vm_dir_in (on_platform H) home | err e ↦ [] ]

  -- What `Detect` reports where there is no vmrun.
  unfoldable pub vmware_missing : Descriptor
  vmware_missing =
      let kind = product_kind (on_platform H) in
      record {
        id = kind_text kind ++ text "-local";
        kind = kind;
        status = missing_tooling;
        remediation =
            product_name kind
            ++ text
                " is not installed (vmrun not found). Broadcom distributes it free for personal and commercial use.";
        host_os = H.goos;
        host_arch = H.goarch;
        version = [];
        guest_arches = [];
        formats = [];
        network_modes = [];
        capabilities = [];
        vm_dir = [];
      }

  -- What it reports for a version, and the places of ovftool and of the tool that makes an ISO.
  unfoldable pub vmware_ready : Text → Text → Text → Descriptor
  vmware_ready version ovftool backend = record vmware_missing {
    status = ready;
    remediation = [];
    version = version;
    guest_arches = H.goarch ∷ [];
    formats = vmware_formats ovftool;
    network_modes = text "nat" ∷ text "hostOnly" ∷ text "bridged" ∷ text "custom" ∷ [];
    capabilities = vmware_caps ovftool backend;
    vm_dir = default_vm_dir;
  }

  -- `Detect`
  unfoldable pub detect_vmware : H.State → List Descriptor × H.State
  detect_vmware s =
      let vmrun = vmrun_bin H s in
      let (banner, t) = H.run_process vmrun [] none s in
      if is_empty vmrun then (vmware_missing ∷ [], s) else (
        vmware_ready (version_or_empty (P.vmrun_version banner)) (ovftool_bin H t) (iso_backend H t)
            ∷ [],
        t,
      )
