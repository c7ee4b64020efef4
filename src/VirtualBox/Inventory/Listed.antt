-- ===== src/VirtualBox/Inventory/Listed.antt =====
-- What `Ops.List` lists.
use desktop_hypervisor_mcp.Base.{
  Bool, false, ◌||◌, List, [], ◌∷◌, if◌then◌else◌, map, ◌≡◌, refl, sym, ap, ◌∙◌, arith, inl, inr,
  Bool-cases,
}
use desktop_hypervisor_mcp.Base.Text.{Text, text, ◌==◌}
use desktop_hypervisor_mcp.Provider.Errors.{Result, ok, err, >>=-eq-ok}
use desktop_hypervisor_mcp.Provider.Host.{Host}
use desktop_hypervisor_mcp.Provider.Specs.{VmRef}
use desktop_hypervisor_mcp.VirtualBox.Run.{run}
use desktop_hypervisor_mcp.VirtualBox.Inventory.{vm_ref, has_name, set_states, parse_vms, list_vms}

-- Whether a line has the name.
abbrev pub is_named : Text → List (Text × Text) → Bool
is_named name [] = false
is_named name (line ∷ lines) = line.0 == name || is_named name lines

-- A VM of the inventory, by the lines of the running ones.
abbrev pub described : List (Text × Text) → Text × Text → VmRef
described up line = record {
  name = line.0;
  path = line.1;
  state = if is_named line.0 up then text "running" else text "stopped";
}

has_name-map :
    (name state : Text) (lines : List (Text × Text))
    → has_name name (map (vm_ref state) lines) ≡ is_named name lines
unfolding has_name vm_ref
has_name-map name state [] = refl
has_name-map name state (line ∷ lines) = ground (arith, has_name-map name state lines)

set_states-map :
    (up all : List (Text × Text))
    → set_states (map (vm_ref (text "running")) up) (map (vm_ref (text "stopped")) all)
      ≡ map (described up) all
unfolding set_states vm_ref
set_states-map up [] = refl
set_states-map up ((name, id) ∷ all) = elim (Bool-cases (is_named name up)) [
  | inl e ↦ rw (has_name-map name (text "running") up, e, set_states-map up all) refl
  | inr e ↦ rw (has_name-map name (text "running") up, e, set_states-map up all) refl
]

abbrev vms_of : Result (List VmRef) → List VmRef
vms_of (ok vms) = vms
vms_of (err e) = []

-- Where `List` goes well, both lists of VBoxManage did, and it has the VMs of the first in their
-- order, with their names and ids; a VM is running exactly if the second list has its name.
pub list_vms_lem :
    (H : Host) (vm_lines : Text → List (Text × Text)) (s t : H.State) (vms : List VmRef)
    → list_vms H vm_lines s ≡ (ok vms, t)
    → (all : Text) × (up : Text) × (u : H.State) × (run H (text "list" ∷ text "vms" ∷ []) s
        ≡ (ok all, u))
      × (run H (text "list" ∷ text "runningvms" ∷ []) u ≡ (ok up, t))
      × (vms ≡ map (described (vm_lines up)) (vm_lines all))
unfolding list_vms parse_vms
list_vms_lem H vm_lines s t vms h =
    let (all, u, first, h1) = >>=-eq-ok (run H (text "list" ∷ text "vms" ∷ [])) _ s h in
    let (up, v, second, h2) = >>=-eq-ok (run H (text "list" ∷ text "runningvms" ∷ [])) _ u h1 in
    (
      all,
      up,
      u,
      first,
      second ∙ ap (λ r. (ok up, r.1)) h2,
      ap (λ r. vms_of r.0) (sym h2) ∙ set_states-map (vm_lines up) (vm_lines all),
    )
