-- ===== src/VirtualBox/Detect.antt =====
-- provider/virtualbox/detect.go: `Detect`, less the free space, which is only reported.
use desktop_hypervisor_mcp.Base.{none, some, List, [], ◌∷◌}
use desktop_hypervisor_mcp.Base.Text.{Text, text, trim_space}
use desktop_hypervisor_mcp.Provider.Contract.{
  virtualbox, ready, missing_tooling, Capability, guest_exec, guest_copy_in, guest_copy_out,
  ova_import, ova_export, linked_clone, port_forward, snapshot_tree, uefi, nested_virt,
  ip_from_dhcp, ip_from_tools, ImageFormat, ova, ovf, iso, vdi, vmdk, Descriptor,
}
use desktop_hypervisor_mcp.Provider.Env.{child_env}
use desktop_hypervisor_mcp.Provider.Host.{Process, Host}
use desktop_hypervisor_mcp.Provider.Patterns.{Patterns}
use desktop_hypervisor_mcp.VirtualBox.Run.{bin}

unfoldable pub virtualbox_caps : List Capability
virtualbox_caps =
    guest_exec ∷ guest_copy_in ∷ guest_copy_out ∷ ova_import ∷ ova_export ∷ linked_clone
    ∷ port_forward ∷ snapshot_tree ∷ uefi ∷ nested_virt ∷ ip_from_dhcp ∷ ip_from_tools ∷ []

unfoldable pub virtualbox_formats : List ImageFormat
virtualbox_formats = ova ∷ ovf ∷ iso ∷ vdi ∷ vmdk ∷ []

module _ (H : Host) (P : Patterns) where
  -- What `Detect` reports where `VBoxManage --version` fails.
  unfoldable pub virtualbox_missing : Descriptor
  virtualbox_missing = record {
    id = text "virtualbox-local";
    kind = virtualbox;
    status = missing_tooling;
    remediation =
        text
          "VirtualBox is not installed or VBoxManage is not on PATH. Oracle distributes it free from https://www.virtualbox.org/wiki/Downloads.";
    host_os = H.goos;
    host_arch = H.goarch;
    version = [];
    guest_arches = [];
    formats = [];
    network_modes = [];
    capabilities = [];
    vm_dir = [];
  }

  -- What it reports for the output of `--version` and the folder of the machines.
  unfoldable pub virtualbox_ready : Text → Text → Descriptor
  virtualbox_ready version folder = record virtualbox_missing {
    status = ready;
    remediation = [];
    version = trim_space version;
    guest_arches = H.goarch ∷ [];
    formats = virtualbox_formats;
    network_modes =
        text "nat" ∷ text "natnetwork" ∷ text "hostonly" ∷ text "bridged" ∷ text "intnet" ∷ [];
    capabilities = virtualbox_caps;
    vm_dir = folder;
  }

  -- The folder of the machines in the system properties.
  unfoldable pub folder_of : Process → Text
  folder_of p = elim p.failure [
    | some e ↦ []
    | none ↦ elim (P.machine_folder p.stdout) [ some folder ↦ trim_space folder | none ↦ [] ]
  ]

  -- `exec.Cmd.Output` of VBoxManage, in the repaired environment.
  unfoldable pub output : List Text → H.State → Process × H.State
  output args s = H.run_process (bin H s) args (child_env H.goos H.current_user H.environ) s

  -- `Detect`
  unfoldable pub detect_virtualbox : H.State → List Descriptor × H.State
  detect_virtualbox s =
      let (version, t) = output (text "--version" ∷ []) s in
      let (properties, u) = output (text "list" ∷ text "systemproperties" ∷ []) t in
      elim (version.failure) [
        | some e ↦ (virtualbox_missing ∷ [], t)
        | none ↦ (virtualbox_ready version.stdout (folder_of properties) ∷ [], u)
      ]
