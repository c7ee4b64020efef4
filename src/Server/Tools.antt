-- ===== src/Server/Tools.antt =====
-- main.go: the tools that hand a call on to an operation of the selected provider. What
-- encoding/json prints of VMs and descriptors is a parameter.
pub mod NoCreds
use desktop_hypervisor_mcp.Base.{
  Bool, true, false, ◌||◌, Option, none, some, List, [], ◌∷◌, ◌++◌, if◌then◌else◌,
}
use desktop_hypervisor_mcp.Base.Text.{Text, text, ◌==◌, is_empty}
use desktop_hypervisor_mcp.Provider.Contract.{Descriptor}
use desktop_hypervisor_mcp.Provider.Errors.{
  Error, Result, message, quote, M, ◌>>=◌, return, fail, lift,
}
use desktop_hypervisor_mcp.Provider.Host.{Host}
use desktop_hypervisor_mcp.Provider.Ops.{Ops}
use desktop_hypervisor_mcp.Provider.Patterns.{Patterns}
use desktop_hypervisor_mcp.Provider.RepackIso.{repack_iso}
use desktop_hypervisor_mcp.Provider.Specs.{VmRef, CreateSpec, CloneSpec}
use desktop_hypervisor_mcp.Server.Discover.{discover, select}
use desktop_hypervisor_mcp.Server.Inputs.{
  LifecycleIn, InfoIn, ConfigIn, SnapshotIn, GuestIn, NetworkIn, ExecIn,
}

unfoldable pub unknown_action : Text → Error
unknown_action action = message (text "unknown action " ++ quote action)

unfoldable pub create_spec : LifecycleIn → CreateSpec
create_spec i = record {
  name = i.vm;
  cpus = i.cpus;
  memory_mb = i.memory_mb;
  disk_gb = i.disk_gb;
  guest_os = i.guest_os;
  firmware = i.firmware;
  nested_virt = i.nested;
}

unfoldable pub clone_spec : LifecycleIn → CloneSpec
clone_spec i = record { source = i.vm; dest = i.dest; snapshot = i.snapshot; linked = i.linked }

-- Whether nested virtualisation is wanted: on where the input says nothing.
unfoldable pub wanted_on : Option Bool → Bool
wanted_on none = true
wanted_on (some b) = b

-- `vmsOut`
unfoldable pub vms_out : (List VmRef → Text) → List VmRef → Text
vms_out print [] = text "(none)"
vms_out print (vm ∷ vms) = print (vm ∷ vms)

module _ {S : Type 0} (o : Ops S) where
  -- The switch of `lifecycleTool`.
  unfoldable pub lifecycle_action : LifecycleIn → M S Text
  lifecycle_action i s =
      if i.action == text "create"
      then o.create (create_spec i) s
      else if i.action == text "start"
      then o.start i.vm i.gui s
      else if i.action == text "stop"
      then o.stop i.vm i.hard s
      else if i.action == text "suspend"
      then o.suspend i.vm s
      else if i.action == text "reset"
      then o.reset i.vm i.hard s
      else if i.action == text "delete"
      then o.delete i.vm s
      else if i.action == text "clone"
      then o.clone (clone_spec i) s
      else if i.action == text "import"
      then o.import_image i.path i.vm s
      else if i.action == text "export"
      then o.export_ova i.vm i.dest s
      else fail (unknown_action i.action) s

  -- The switch of `infoTool`.
  unfoldable pub info_action : (List VmRef → Text) → InfoIn → M S Text
  info_action print i s =
      if is_empty i.action || i.action == text "list"
      then (o.list >>= λ vms. return (vms_out print vms)) s
      else if i.action == text "running"
      then (o.running >>= λ vms. return (vms_out print vms)) s
      else if i.action == text "show"
      then o.show i.vm s
      else if i.action == text "ip"
      then o.ip i.vm i.network s
      else fail (unknown_action i.action) s

  -- The switch of `configTool`.
  unfoldable pub config_action : ConfigIn → M S Text
  config_action i s =
      if i.action == text "resources"
      then o.set_resources i.vm i.cpus i.memory_mb s
      else if i.action == text "nested_virt"
      then o.set_nested_virt i.vm (wanted_on i.enabled) s
      else if i.action == text "attach_iso"
      then o.attach_iso i.vm i.iso i.slot s
      else if i.action == text "guestinfo"
      then o.set_guestinfo i.vm i.keys s
      else fail (unknown_action i.action) s

  -- The switch of `snapshotTool`.
  unfoldable pub snapshot_action : SnapshotIn → M S Text
  snapshot_action i s =
      if i.action == text "take"
      then o.snapshot_take i.vm i.name s
      else if i.action == text "restore"
      then o.snapshot_restore i.vm i.name s
      else if i.action == text "delete"
      then o.snapshot_delete i.vm i.name i.children s
      else if i.action == text "list"
      then o.snapshot_list i.vm i.tree s
      else fail (unknown_action i.action) s

  -- The switch of `guestTool`.
  unfoldable pub guest_action : GuestIn → M S Text
  guest_action i s =
      if i.action == text "exec"
      then o.guest_exec i.vm i.program i.args s
      else if i.action == text "script"
      then o.guest_script i.vm i.interp i.script s
      else if i.action == text "copy_in"
      then o.guest_copy_in i.vm i.src i.dest s
      else if i.action == text "copy_out"
      then o.guest_copy_out i.vm i.src i.dest s
      else if i.action == text "screenshot"
      then o.capture_screen i.vm i.dest s
      else fail (unknown_action i.action) s

  -- The switch of `networkTool`.
  unfoldable pub network_action : NetworkIn → M S Text
  network_action i s =
      if i.action == text "ensure_cluster_network"
      then o.ensure_cluster_network i.name i.cidr s
      else if i.action == text "expose_guest_port"
      then o.expose_guest_port i.name i.proto i.guest_ip i.guest_port i.host_port s
      else if i.action == text "make_iso"
      then o.make_iso i.src_dir i.dest i.label s
      else fail (unknown_action i.action) s

module _ (H : Host) (P : Patterns) where
  -- `providerTool`
  unfoldable pub provider_tool : (List Descriptor → Result Text) → Text → M H.State Text
  provider_tool print action s =
      if is_empty action || action == text "list"
      then (let (ds, t) = discover H P s in lift (print ds) t)
      else fail (unknown_action action) s

  -- `lifecycleTool`
  unfoldable pub lifecycle_tool : LifecycleIn → M H.State Text
  lifecycle_tool i = do o ← select H P i.provider; lifecycle_action o i

  -- `infoTool`
  unfoldable pub info_tool : (List VmRef → Text) → InfoIn → M H.State Text
  info_tool print i = do o ← select H P i.provider; info_action o print i

  -- `configTool`
  unfoldable pub config_tool : ConfigIn → M H.State Text
  config_tool i = do o ← select H P i.provider; config_action o i

  -- `snapshotTool`
  unfoldable pub snapshot_tool : SnapshotIn → M H.State Text
  snapshot_tool i = do o ← select H P i.provider; snapshot_action o i

  -- `guestTool`
  unfoldable pub guest_tool : GuestIn → M H.State Text
  guest_tool i = do o ← select H P i.provider; guest_action o i

  -- `networkTool`
  unfoldable pub network_tool : NetworkIn → M H.State Text
  network_tool i s =
      if i.action == text "repack_iso"
      then repack_iso H i.iso i.dest i.boot_args i.grub_cfg s
      else (select H P i.provider >>= λ o. network_action o i) s

  -- `execTool`
  unfoldable pub exec_tool : ExecIn → M H.State Text
  exec_tool i = do o ← select H P i.provider; o.raw i.args
