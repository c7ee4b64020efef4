-- ===== src/VirtualBox/Tests.antt =====
-- The theorems about VirtualBox at a host in memory.
use desktop_hypervisor_mcp.Base.{◌≡◌, refl, ◌⊎◌, some, List, [], ◌∷◌, map}
use desktop_hypervisor_mcp.Base.Text.{Text, text, trim_space, trim_left, trim_right, is_space, ◌==◌}
use desktop_hypervisor_mcp.Provider.Errors.{ok}
use desktop_hypervisor_mcp.Provider.Host.{Host}
use desktop_hypervisor_mcp.Provider.Memory.{Files, memory_host, printed, no_matches}
use desktop_hypervisor_mcp.Provider.RunCmd.{run_cmd, outcome}
use desktop_hypervisor_mcp.Provider.Specs.{VmRef}
use desktop_hypervisor_mcp.Provider.Patterns.{Patterns}
use desktop_hypervisor_mcp.VirtualBox.Run.{run}
use desktop_hypervisor_mcp.VirtualBox.Network.{
  found_or, find_lease, lease_on_any, ip_on_any, ip_by_mac, leased_vm_ip, vm_ip,
}
use desktop_hypervisor_mcp.VirtualBox.Network.Leased.{
  addresses_query, IsAnswered, IsUnanswered, IsFoundByMac, vm_ip-IsFound,
}
use desktop_hypervisor_mcp.VirtualBox.Inventory.{vm_ref, has_name, set_states, parse_vms, list_vms}
use desktop_hypervisor_mcp.VirtualBox.Inventory.Listed.{described, list_vms_lem}

abbrev host : Host
host = memory_host (printed (text "a"))

-- An output stands for one VM, whose name and id it is.
abbrev one_line : Text → List (Text × Text)
one_line out = (out, out) ∷ []

abbrev one_vm : List VmRef
one_vm = record { name = text "a"; path = text "a"; state = text "running" } ∷ []

listed_once : list_vms host one_line [] ≡ (ok one_vm, [])
unfolding list_vms run run_cmd outcome parse_vms vm_ref has_name set_states trim_space trim_left
    trim_right is_space text ◌==◌
listed_once = refl

list_vms_lem_example :
    (all : Text) × (up : Text) × (u : Files) × (run host (text "list" ∷ text "vms" ∷ []) []
      ≡ (ok all, u))
    × (run host (text "list" ∷ text "runningvms" ∷ []) u ≡ (ok up, []))
    × (one_vm ≡ map (described (one_line up)) (one_line all))
list_vms_lem_example = list_vms_lem host one_line [] [] one_vm listed_once

-- The Guest Additions give no address, and each output is the address of a lease.
abbrev leases : Patterns
leases = record no_matches {
  mac_in = λ t. some t;
  lease_of = λ t. some t;
  network_names = λ t. t ∷ [];
}

leased_address : (vm_ip host leases (text "a") [] []).0 ≡ ok (text "a")
unfolding vm_ip leased_vm_ip ip_by_mac ip_on_any lease_on_any find_lease found_or run run_cmd
    outcome trim_space trim_left trim_right is_space text ◌==◌
leased_address = refl

vm_ip-IsFound_example :
    IsAnswered host leases (text "a") [] (text "a")
    ⊎ IsUnanswered host leases (text "a") []
      × IsFoundByMac host leases
          (text "a")
          []
          (run host (addresses_query host leases (text "a")) []).1
          (text "a")
vm_ip-IsFound_example = vm_ip-IsFound host leases (text "a") [] (text "a") [] leased_address
