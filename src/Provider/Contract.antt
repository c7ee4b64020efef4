-- ===== src/Provider/Contract.antt =====
-- provider/contract.go, and the plain data of provider/ops.go. A `Kind` or an `ImageFormat` is a
-- text there with named constants; `other` stands for every text that is none of them.
pub mod Lookup
use desktop_hypervisor_mcp.Base.{Bool, true, false, List, [], ◌∷◌, String, ◌-◌}
use desktop_hypervisor_mcp.Base.Text.{Text, text}

pub data Kind : Type 0 where
  virtualbox fusion workstation : Kind
  other : Text → Kind

unfoldable pub kind_text : Kind → Text
kind_text virtualbox = text "virtualbox"
kind_text fusion = text "vmware-fusion"
kind_text workstation = text "vmware-workstation"
kind_text (other t) = t

-- `Kind.Family`
pub data Family : Type 0 where
  virtualbox_family vmware_family : Family

unfoldable pub family : Kind → Family
family fusion = vmware_family
family workstation = vmware_family
family _ = virtualbox_family

unfoldable pub family_text : Family → Text
family_text virtualbox_family = text "virtualbox"
family_text vmware_family = text "vmware"

-- `Kind.VagrantProvider`; the empty text if the provider takes no boxes.
unfoldable pub vagrant_provider : Kind → Text
vagrant_provider virtualbox = text "virtualbox"
vagrant_provider fusion = text "vmware_desktop"
vagrant_provider workstation = text "vmware_desktop"
vagrant_provider (other t) = []

pub data Status : Type 0 where
  ready missing_tooling needs_permission incompatible_arch : Status

unfoldable pub status_text : Status → Text
status_text ready = text "ready"
status_text missing_tooling = text "missing_tooling"
status_text needs_permission = text "needs_permission"
status_text incompatible_arch = text "incompatible_arch"

pub data Capability : Type 0 where
  guest_exec guest_copy_in guest_copy_out ova_import ova_export linked_clone : Capability
  port_forward snapshot_tree uefi secure_boot nested_virt make_iso : Capability
  self_install ip_from_dhcp ip_from_tools capture_screen guestinfo_config : Capability

unfoldable pub capability_text : Capability → Text
capability_text guest_exec = text "guest_exec"
capability_text guest_copy_in = text "guest_copy_in"
capability_text guest_copy_out = text "guest_copy_out"
capability_text ova_import = text "ova_import"
capability_text ova_export = text "ova_export"
capability_text linked_clone = text "clone_linked"
capability_text port_forward = text "port_forward"
capability_text snapshot_tree = text "snapshot_tree"
capability_text uefi = text "uefi"
capability_text secure_boot = text "secure_boot"
capability_text nested_virt = text "nested_virt"
capability_text make_iso = text "make_iso"
capability_text self_install = text "self_install"
capability_text ip_from_dhcp = text "ip_from_dhcp"
capability_text ip_from_tools = text "ip_from_tools"
capability_text capture_screen = text "capture_screen"
capability_text guestinfo_config = text "guestinfo_config"

unfoldable pub Capability-discrete : Discrete Capability
Capability-discrete = hlevel

pub data ImageFormat : Type 0 where
  ova ovf iso vmx vdi vmdk : ImageFormat

unfoldable pub format_text : ImageFormat → Text
format_text ova = text "ova"
format_text ovf = text "ovf"
format_text iso = text "iso"
format_text vmx = text "vmx"
format_text vdi = text "vdi"
format_text vmdk = text "vmdk"

unfoldable pub ImageFormat-discrete : Discrete ImageFormat
ImageFormat-discrete = hlevel

-- `StorageFreeBytes` is only reported, and is left out.
pub record Descriptor : Type 0 where
  pub id : Text
  pub kind : Kind
  pub status : Status
  pub remediation : Text
  pub host_os : Text
  pub host_arch : Text
  pub version : Text
  pub guest_arches : List Text
  pub formats : List ImageFormat
  pub network_modes : List Text
  pub capabilities : List Capability
  pub vm_dir : Text

unfoldable pub has_in : List Capability → Capability → Bool
has_in [] c = false
has_in (x ∷ xs) c = elim (Capability-discrete x c) [ yes _ ↦ true | no _ ↦ has_in xs c ]

-- `Descriptor.Has`
abbrev pub has : Descriptor → Capability → Bool
has d c = has_in d.capabilities c

unfoldable pub accepts_in : List ImageFormat → ImageFormat → Bool
accepts_in [] f = false
accepts_in (x ∷ xs) f = elim (ImageFormat-discrete x f) [ yes _ ↦ true | no _ ↦ accepts_in xs f ]

-- `Descriptor.Accepts`
abbrev pub accepts : Descriptor → ImageFormat → Bool
accepts d f = accepts_in d.formats f
