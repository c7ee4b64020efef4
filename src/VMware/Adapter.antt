-- ===== src/VMware/Adapter.antt =====
-- provider/vmware/ops.go: what `New` returns, as the operations of the interface.
pub mod Refused
use desktop_hypervisor_mcp.Provider.Contract.{Descriptor}
use desktop_hypervisor_mcp.Provider.Host.{Host}
use desktop_hypervisor_mcp.Provider.Ops.{Ops}
use desktop_hypervisor_mcp.Provider.Patterns.{Patterns}
use desktop_hypervisor_mcp.VMware.Config.{set_resources, set_nested_virt, attach_iso, set_guestinfo}
use desktop_hypervisor_mcp.VMware.Create.{create}
use desktop_hypervisor_mcp.VMware.Guest.{
  snapshot_take, snapshot_restore, snapshot_delete, snapshot_list, guest_exec, guest_script,
  guest_copy_in, guest_copy_out, capture_screen, ensure_cluster_network, expose_guest_port, raw,
}
use desktop_hypervisor_mcp.VMware.Inventory.{list, running, show, ip}
use desktop_hypervisor_mcp.VMware.Lifecycle.{
  start, stop, suspend, reset, delete, clone, import_image, export_ova,
}
use desktop_hypervisor_mcp.VMware.MakeIso.{make_image}

-- `New`
unfoldable pub new_vmware : (H : Host) → Patterns → Descriptor → Ops H.State
new_vmware H P d = record {
  descriptor = d;
  list = list H d;
  running = running H d;
  show = show H d;
  ip = λ vm network. ip H d P.lease_blocks vm;
  create = create H d;
  start = start H d;
  stop = stop H d;
  suspend = suspend H d;
  reset = reset H d;
  delete = delete H d;
  clone = clone H d;
  import_image = import_image H d;
  export_ova = export_ova H d;
  set_resources = set_resources H d;
  set_nested_virt = set_nested_virt H d;
  attach_iso = attach_iso H d;
  set_guestinfo = set_guestinfo H d;
  snapshot_take = snapshot_take H d;
  snapshot_restore = snapshot_restore H d;
  snapshot_delete = snapshot_delete H d;
  snapshot_list = snapshot_list H d;
  guest_exec = guest_exec H d;
  guest_script = guest_script H d;
  guest_copy_in = guest_copy_in H d;
  guest_copy_out = guest_copy_out H d;
  capture_screen = capture_screen H d;
  ensure_cluster_network = λ name cidr. ensure_cluster_network H d P.subnet_of name;
  expose_guest_port = expose_guest_port H d;
  make_iso = make_image H;
  raw = raw H d;
}
