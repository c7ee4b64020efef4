-- ===== src/VMware/Tests.antt =====
-- Hosts in memory, and the theorems about Fusion and Workstation at them.
use Prim.Native.Nat.{max}
use desktop_hypervisor_mcp.Base.{
  ◌≡◌, ◌≢◌, ◌↔◌, In, ◌≤◌, refl, true, false, List, [], ◌∷◌, ◌++◌, All,
}
use desktop_hypervisor_mcp.Base.Int.{pos, is_pos, itoa, digits}
use desktop_hypervisor_mcp.Base.Text.{
  Text, text, ◌==◌, is_space, contains, has_prefix, has_suffix, trim_space, trim_left, trim_right,
}
use desktop_hypervisor_mcp.Base.Text.Cut.{lacks→Lacks}
use desktop_hypervisor_mcp.Provider.Contract.{Descriptor, fusion, ready}
use desktop_hypervisor_mcp.Provider.Errors.{ok}
use desktop_hypervisor_mcp.Provider.Host.{Process, Host}
use desktop_hypervisor_mcp.Provider.Memory.{Files, memory_host, memory_host-IsFaithful, printed}
use desktop_hypervisor_mcp.Provider.RunCmd.{run_cmd, outcome}
use desktop_hypervisor_mcp.Provider.Specs.{VmRef}
use desktop_hypervisor_mcp.VMware.Run.{
  vmrun, output_or_empty, resolve_vmx, ensure_off, set_vmx_keys, vmx_key,
}
use desktop_hypervisor_mcp.VMware.Vmx.{Pair, set_content, value_in_content}
use desktop_hypervisor_mcp.VMware.Vmx.Lines.{IsPair}
use desktop_hypervisor_mcp.VMware.Vmx.RoundTrip.{after, value_in_content-set_content}
use desktop_hypervisor_mcp.VMware.Vmx.Unique.{count_key}
use desktop_hypervisor_mcp.VMware.Vmx.History.{Becomes, untouched, set_then, Becomes-kept}
use desktop_hypervisor_mcp.VMware.Config.{
  configure, configured, set_resources, configure_some, resource_pairs,
}
use desktop_hypervisor_mcp.VMware.Config.Written.{configure-vmx_key}
use desktop_hypervisor_mcp.VMware.Config.Resources.{set_resources-vmx_key}
use desktop_hypervisor_mcp.Provider.Creds.{guest_creds}
use desktop_hypervisor_mcp.VMware.Guest.{guest_exec, guest_script, guest_copy_in, guest_copy_out}
use desktop_hypervisor_mcp.VMware.Guest.NoCreds.{IsRefused, guest-IsRefused}
use desktop_hypervisor_mcp.VMware.Inventory.{list, vmx_files, lease_in}
use desktop_hypervisor_mcp.VMware.Inventory.Listed.{IsDescribed, IsDistinct, paths, list_lem}
use desktop_hypervisor_mcp.VMware.Inventory.Leases.{IsFound, lease_in-IsFound}

abbrev pub here : Descriptor
here = record {
  id = text "vmware";
  kind = fusion;
  status = ready;
  remediation = [];
  host_os = text "linux";
  host_arch = text "amd64";
  version = [];
  guest_arches = [];
  formats = [];
  network_modes = [];
  capabilities = [];
  vm_dir = text "/vms";
}

abbrev vm : Text
vm = text "/vms/a.vmx"

abbrev old_content : Text
old_content = text "NumVCPUs = \"2\"\nmemsize = \"1024\"\n"

abbrev pub disk : Files
disk = (vm, old_content) ∷ []

abbrev cpus : Pair
cpus = (text "numvcpus", text "4")

cpus-IsPair : All IsPair (cpus ∷ [])
unfolding text is_space
cpus-IsPair = (
  record {
    key_plain = lacks→Lacks b'=' cpus.0 refl;
    key_one_line = lacks→Lacks b'\n' cpus.0 refl;
    key_trimmed = (refl, refl);
    value_one_line = lacks→Lacks b'\n' cpus.1 refl;
    value_bare = (refl, refl);
  },
  tt,
)

value_in_content-set_content_example :
    value_in_content (text "NUMVCPUS") (set_content (cpus ∷ []) old_content)
    ≡ after (text "NUMVCPUS") (cpus ∷ []) (value_in_content (text "NUMVCPUS") old_content)
value_in_content-set_content_example =
    value_in_content-set_content (cpus ∷ []) old_content (text "NUMVCPUS") cpus-IsPair

twice :
    Becomes old_content
      ((cpus ∷ []) ++ ((cpus ∷ []) ++ []))
      (set_content (cpus ∷ []) (set_content (cpus ∷ []) old_content))
twice =
    set_then (cpus ∷ []) ((cpus ∷ []) ++ []) cpus-IsPair
      (set_then (cpus ∷ []) [] cpus-IsPair untouched)

abbrev twice_set : Text
twice_set = set_content (cpus ∷ []) (set_content (cpus ∷ []) old_content)

Becomes-kept_example :
    (value_in_content (text "memsize") twice_set
      ≡ after (text "memsize") (cpus ∷ cpus ∷ []) (value_in_content (text "memsize") old_content))
    × (count_key (text "memsize") twice_set ≤ max 1 (count_key (text "memsize") old_content))
Becomes-kept_example = Becomes-kept old_content twice_set (text "memsize") (cpus ∷ cpus ∷ []) twice

found : (process : Process) → resolve_vmx (memory_host process) here vm disk ≡ (ok vm, disk)
unfolding resolve_vmx text has_suffix has_prefix
found process = refl

abbrev none_listed : Text
none_listed = text "Total running VMs: 0"

abbrev quiet : Host
quiet = memory_host (printed none_listed)

quiet_off : ensure_off quiet vm disk ≡ (ok tt, disk)
unfolding ensure_off vmrun run_cmd outcome trim_space trim_left trim_right is_space text contains
    has_prefix
quiet_off = refl

abbrev written : Files
written = (vm, set_content (cpus ∷ []) old_content) ∷ disk

quiet_wrote : set_vmx_keys quiet vm (cpus ∷ []) disk ≡ (ok tt, written)
unfolding set_vmx_keys text ◌==◌
quiet_wrote = refl

quiet-configure :
    configure quiet here vm (cpus ∷ []) disk ≡ (ok (configured vm (cpus ∷ [])), written)
unfolding configure
quiet-configure = rw (found (printed none_listed), quiet_off, quiet_wrote) refl

configure-vmx_key_example :
    (vmx : Text) × (resolve_vmx quiet here vm disk ≡ (ok vmx, disk))
    × (contains (output_or_empty (vmrun quiet false (text "list" ∷ []) disk).0) vmx ≡ false)
    × ((key : Text)
        → vmx_key quiet written vmx key
          ≡ after key
              (cpus ∷ [])
              (vmx_key quiet (vmrun quiet false (text "list" ∷ []) disk).1 vmx key))
configure-vmx_key_example =
    configure-vmx_key quiet (memory_host-IsFaithful (printed none_listed)) here vm (cpus ∷ []) disk
      written cpus-IsPair quiet-configure

four_pairs : resource_pairs (pos 4) (pos 0) ≡ cpus ∷ []
unfolding resource_pairs itoa digits text
four_pairs = refl

quiet_set :
    set_resources quiet here vm (pos 4) (pos 0) disk ≡ (ok (configured vm (cpus ∷ [])), written)
unfolding set_resources configure_some
quiet_set = rw four_pairs quiet-configure

set_resources-vmx_key_example :
    (vmx : Text) × (resolve_vmx quiet here vm disk ≡ (ok vmx, disk))
    × (is_pos (pos 4) ≡ true → vmx_key quiet written vmx (text "numvcpus") ≡ itoa (pos 4))
    × (is_pos (pos 0) ≡ true → vmx_key quiet written vmx (text "memsize") ≡ itoa (pos 0))
set_resources-vmx_key_example =
    set_resources-vmx_key quiet here (memory_host-IsFaithful (printed none_listed)) vm (pos 4)
      (pos 0) disk written quiet_set

-- Both patterns match the file.
abbrev stored : Host
stored = record quiet { glob = λ s pattern. vm ∷ [] }

list_lem_example :
    let (running, t) = vmrun stored false (text "list" ∷ []) disk in
    (vms : List VmRef) × (list stored here disk ≡ (ok vms, t))
    × IsDistinct vms
    × ((p : Text) → In p (paths vms) ↔ (In p (vmx_files stored here t) × (p ≢ [])))
    × All (IsDescribed (output_or_empty running)) vms
list_lem_example = list_lem stored here disk

abbrev leases : List (Text × Text)
leases =
    (text "10.0.0.5", text "hardware ethernet 00:0C:29;")
    ∷ (text "10.0.0.6", text "hardware ethernet 00:0c:29;")
    ∷ []

lease_in-IsFound_example :
    IsFound (text "00:0c:29") [] (lease_in (text "00:0c:29") [] leases) leases
lease_in-IsFound_example = lease_in-IsFound (text "00:0c:29") [] leases

guest-IsRefused_example :
    IsRefused quiet here (guest_exec quiet here vm (text "/bin/true") []) disk
    × IsRefused quiet here (guest_script quiet here vm [] (text "true")) disk
    × IsRefused quiet here (guest_copy_in quiet here vm (text "a") (text "b")) disk
    × IsRefused quiet here (guest_copy_out quiet here vm (text "a") (text "b")) disk
guest-IsRefused_example =
    guest-IsRefused quiet here vm (text "/bin/true") [] (text "true") (text "a") (text "b") [] disk
      (unfold guest_creds in refl)
