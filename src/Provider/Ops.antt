-- ===== src/Provider/Ops.antt =====
-- provider/ops.go: the interface `Ops`, as a record of operations on the state of a host.
pub mod Refusals
use desktop_hypervisor_mcp.Base.{Bool, List}
use desktop_hypervisor_mcp.Base.Int.{ℤ}
use desktop_hypervisor_mcp.Base.Text.{Text}
use desktop_hypervisor_mcp.Provider.Contract.{Descriptor}
use desktop_hypervisor_mcp.Provider.Errors.{M}
use desktop_hypervisor_mcp.Provider.Specs.{VmRef, CreateSpec, CloneSpec}

pub record Ops (S : Type 0) : Type 0 where
  pub descriptor : Descriptor
  -- Inventory and inspection.
  pub list : M S (List VmRef)
  pub running : M S (List VmRef)
  pub show : Text → M S Text
  pub ip : Text → Text → M S Text
  -- Lifecycle.
  pub create : CreateSpec → M S Text
  pub start : Text → Bool → M S Text
  pub stop : Text → Bool → M S Text
  pub suspend : Text → M S Text
  pub reset : Text → Bool → M S Text
  pub delete : Text → M S Text
  pub clone : CloneSpec → M S Text
  pub import_image : Text → Text → M S Text
  pub export_ova : Text → Text → M S Text
  -- Configuration.
  pub set_resources : Text → ℤ → ℤ → M S Text
  pub set_nested_virt : Text → Bool → M S Text
  pub attach_iso : Text → Text → Text → M S Text
  pub set_guestinfo : Text → List (Text × Text) → M S Text
  -- Snapshots.
  pub snapshot_take : Text → Text → M S Text
  pub snapshot_restore : Text → Text → M S Text
  pub snapshot_delete : Text → Text → Bool → M S Text
  pub snapshot_list : Text → Bool → M S Text
  -- Guest operations.
  pub guest_exec : Text → Text → List Text → M S Text
  pub guest_script : Text → Text → Text → M S Text
  pub guest_copy_in : Text → Text → Text → M S Text
  pub guest_copy_out : Text → Text → Text → M S Text
  pub capture_screen : Text → Text → M S Text
  -- Networking, images and raw commands.
  pub ensure_cluster_network : Text → Text → M S Text
  pub expose_guest_port : Text → Text → Text → ℤ → ℤ → M S Text
  pub make_iso : Text → Text → Text → M S Text
  pub raw : List Text → M S Text
