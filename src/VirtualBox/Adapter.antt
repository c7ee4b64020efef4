-- ===== src/VirtualBox/Adapter.antt =====
-- provider/virtualbox/ops.go: what `New` returns, as the operations of the interface.
pub mod Refused
use desktop_hypervisor_mcp.Provider.Contract.{Descriptor}
use desktop_hypervisor_mcp.Provider.Host.{Host}
use desktop_hypervisor_mcp.Provider.Ops.{Ops}
use desktop_hypervisor_mcp.Provider.Patterns.{Patterns}
use desktop_hypervisor_mcp.VirtualBox.Inventory.{list_vms, running_vms}
use desktop_hypervisor_mcp.VirtualBox.Create.{create_vm}
use desktop_hypervisor_mcp.VirtualBox.Machines.{
  start_vm, stop_vm, suspend_vm, reset_vm, delete_vm, clone_vm, import_vm, export_vm,
  set_vm_resources, set_vm_nested, attach_medium, take_snapshot, restore_snapshot, delete_snapshot,
  list_snapshots,
}
use desktop_hypervisor_mcp.VirtualBox.InGuest.{
  run_in_guest, script_in_guest, copy_to_guest, copy_from_guest, capture_vm, forward_port, run_raw,
}
use desktop_hypervisor_mcp.VirtualBox.Network.{
  show_vm, vm_ip, ensure_network, set_vm_guestinfo, make_vm_iso,
}

-- `New`
unfoldable pub new_virtualbox : (H : Host) → Patterns → Descriptor → Ops H.State
new_virtualbox H P d = record {
  descriptor = d;
  list = list_vms H P.vm_lines;
  running = running_vms H P.vm_lines;
  show = show_vm H P;
  ip = vm_ip H P;
  create = create_vm H d;
  start = start_vm H d;
  stop = stop_vm H d;
  suspend = suspend_vm H d;
  reset = reset_vm H d;
  delete = delete_vm H d;
  clone = clone_vm H d;
  import_image = import_vm H d;
  export_ova = export_vm H d;
  set_resources = set_vm_resources H d;
  set_nested_virt = set_vm_nested H d;
  attach_iso = attach_medium H d;
  set_guestinfo = set_vm_guestinfo;
  snapshot_take = take_snapshot H d;
  snapshot_restore = restore_snapshot H d;
  snapshot_delete = delete_snapshot H d;
  snapshot_list = list_snapshots H d;
  guest_exec = run_in_guest H;
  guest_script = script_in_guest H;
  guest_copy_in = copy_to_guest H;
  guest_copy_out = copy_from_guest H;
  capture_screen = capture_vm H;
  ensure_cluster_network = ensure_network H P;
  expose_guest_port = forward_port H;
  make_iso = make_vm_iso;
  raw = run_raw H;
}
