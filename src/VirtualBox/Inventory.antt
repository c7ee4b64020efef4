-- ===== src/VirtualBox/Inventory.antt =====
-- provider/virtualbox/ops.go: `List`, `Running` and `Show`. The names and ids that `vmLineRe` finds
-- in an output are a parameter, since package regexp finds them.
pub mod Listed
use desktop_hypervisor_mcp.Base.{Bool, true, false, ◌||◌, List, [], ◌∷◌, if◌then◌else◌, map}
use desktop_hypervisor_mcp.Base.Text.{Text, text, ◌==◌}
use desktop_hypervisor_mcp.Provider.Errors.{M, ◌>>=◌, return}
use desktop_hypervisor_mcp.Provider.Host.{Host}
use desktop_hypervisor_mcp.Provider.Specs.{VmRef}
use desktop_hypervisor_mcp.VirtualBox.Run.{run}

unfoldable pub vm_ref : Text → Text × Text → VmRef
vm_ref state (name, id) = record { name = name; path = id; state = state }

-- Whether one of the VMs has the name.
unfoldable pub has_name : Text → List VmRef → Bool
has_name name [] = false
has_name name (vm ∷ vms) = vm.name == name || has_name name vms

-- The loop of `Ops.List` that sets the states.
unfoldable pub set_states : List VmRef → List VmRef → List VmRef
set_states up [] = []
set_states up (vm ∷ vms) =
    (if has_name vm.name up then record vm { state = text "running" } else vm) ∷ set_states up vms

module _ (H : Host) (vm_lines : Text → List (Text × Text)) where
  -- `Ops.parseVMs`
  unfoldable pub parse_vms : Text → Text → List VmRef
  parse_vms out state = map (vm_ref state) (vm_lines out)

  -- `Ops.List`
  unfoldable pub list_vms : M H.State (List VmRef)
  list_vms = do
    all ← run H (text "list" ∷ text "vms" ∷ [])
    up ← run H (text "list" ∷ text "runningvms" ∷ [])
    return (set_states (parse_vms up (text "running")) (parse_vms all (text "stopped")))

  -- `Ops.Running`
  unfoldable pub running_vms : M H.State (List VmRef)
  running_vms = do
    out ← run H (text "list" ∷ text "runningvms" ∷ [])
    return (parse_vms out (text "running"))
