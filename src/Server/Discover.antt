-- ===== src/Server/Discover.antt =====
-- main.go: `discover`, and the adapter of a call with its operations.
pub mod Refused
mod Tests
use desktop_hypervisor_mcp.Base.{List, ◌++◌}
use desktop_hypervisor_mcp.Base.Text.{Text}
use desktop_hypervisor_mcp.Provider.Contract.{Descriptor}
use desktop_hypervisor_mcp.Provider.Errors.{Result, ok, err, M}
use desktop_hypervisor_mcp.Provider.Host.{Host}
use desktop_hypervisor_mcp.Provider.Ops.{Ops}
use desktop_hypervisor_mcp.Provider.Patterns.{Patterns}
use desktop_hypervisor_mcp.Server.{Adapter, vmware_ops, virtualbox_ops, select_ops}
use desktop_hypervisor_mcp.VirtualBox.Adapter.{new_virtualbox}
use desktop_hypervisor_mcp.VirtualBox.Detect.{detect_virtualbox}
use desktop_hypervisor_mcp.VMware.Adapter.{new_vmware}
use desktop_hypervisor_mcp.VMware.Detect.{detect_vmware}

module _ (H : Host) (P : Patterns) where
  -- `discover`
  unfoldable pub discover : H.State → List Descriptor × H.State
  discover s =
      let (boxes, t) = detect_virtualbox H P s in
      let (products, u) = detect_vmware H P t in (boxes ++ products, u)

  -- The operations of an adapter.
  unfoldable pub adapter_ops : Adapter → Ops H.State
  adapter_ops (vmware_ops d) = new_vmware H P d
  adapter_ops (virtualbox_ops d) = new_virtualbox H P d

  abbrev pub adapted : Result Adapter → Result (Ops H.State)
  adapted (ok a) = ok (adapter_ops a)
  adapted (err e) = err e

  -- `selectOps`, with its detection.
  unfoldable pub select : Text → M H.State (Ops H.State)
  select id s = let (ds, t) = discover s in (adapted (select_ops ds id), t)
