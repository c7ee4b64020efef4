-- ===== src/VMware/Inventory.antt =====
-- provider/vmware/ops.go: which VMs there are, and what is known of one. The matches of the pattern
-- for the leases are a parameter, since package regexp finds them.
pub mod Listed
pub mod Leases
use mathlib.Core.List.{reverse}
use desktop_hypervisor_mcp.Base.{
  Bool, true, false, ◌||◌, Option, none, some, List, [], ◌∷◌, ◌++◌, if◌then◌else◌, map,
}
use desktop_hypervisor_mcp.Base.Text.{
  Text, text, ◌==◌, is_empty, contains, has_suffix, trim_suffix, trim_space, to_lower, split,
}
use desktop_hypervisor_mcp.FilePath.{join_path, base, dir}
use desktop_hypervisor_mcp.Provider.Contract.{Descriptor}
use desktop_hypervisor_mcp.Provider.Errors.{
  Result, ok, err, message, M, ◌>>=◌, ◌>>◌, return, fail, attempt,
}
use desktop_hypervisor_mcp.Provider.Host.{Host}
use desktop_hypervisor_mcp.Provider.Specs.{VmRef}
use desktop_hypervisor_mcp.VMware.Run.{output_or_empty, vmrun, resolve_vmx, vmx_key}
use desktop_hypervisor_mcp.VMware.Tools.{Platform, darwin, windows, other_os, on_platform}

abbrev pub is_in : Text → List Text → Bool
is_in t [] = false
is_in t (u ∷ us) = u == t || is_in t us

-- The name of the VM whose file this is.
unfoldable pub vm_name : Text → Text
vm_name vmx = trim_suffix (base (dir vmx)) (text ".vmwarevm")

-- What `add` of `Ops.List` appends for a file.
unfoldable pub listed : Text → Text → VmRef
listed running vmx = record {
  name = vm_name vmx;
  path = vmx;
  state = if contains running vmx then text "running" else text "stopped";
}

-- The calls of `add`: a file that was seen, and the empty path, is passed over.
unfoldable pub add_all : Text → List Text → List Text → List VmRef
add_all running seen [] = []
add_all running seen (vmx ∷ more) =
    let passed = add_all running seen more in
    let added = add_all running (vmx ∷ seen) more in
    if is_empty vmx || is_in vmx seen then passed else listed running vmx ∷ added

-- The loop of `Ops.Running` over the lines.
unfoldable pub running_in : List Text → List VmRef
running_in [] = []
running_in (l ∷ ls) =
    let rest = running_in ls in
    let vmx = trim_space l in
    if has_suffix vmx (text ".vmx")
    then record { name = vm_name vmx; path = vmx; state = text "running" } ∷ rest
    else rest

-- `leaseFiles`
unfoldable pub lease_files : Platform → List Text
lease_files darwin = text "/var/db/vmware/vmnet-dhcpd-vmnet8.leases" ∷ []
lease_files windows = text "C:\\ProgramData\\VMware\\vmnetdhcp.leases" ∷ []
lease_files other_os =
    text "/etc/vmware/vmnet8/dhcpd/dhcpd.leases"
    ∷ text "/var/lib/vmware/vmnet8/dhcpd/dhcpd.leases"
    ∷ []

-- The address of the last block for the MAC; the empty text if there is none.
unfoldable pub lease_in : Text → Text → List (Text × Text) → Text
lease_in mac ip [] = ip
lease_in mac ip ((address, block) ∷ blocks) =
    lease_in mac
      (if contains (to_lower block) (text "hardware ethernet " ++ mac) then address else ip) blocks

-- The keys that `Ops.Show` prints.
unfoldable pub shown_keys : List Text
shown_keys =
    text "displayname"
    ∷ text "guestos"
    ∷ text "numvcpus"
    ∷ text "memsize"
    ∷ text "firmware"
    ∷ text "vhv.enable"
    ∷ text "ethernet0.connectiontype"
    ∷ text "ethernet0.generatedaddress"
    ∷ []

module _ (H : Host) (d : Descriptor) where
  -- What the two patterns of `Ops.List` match.
  unfoldable pub vmx_files : H.State → List Text
  vmx_files s =
      H.glob s (join_path (d.vm_dir ∷ text "*.vmwarevm" ∷ text "*.vmx" ∷ []))
      ++ H.glob s (join_path (d.vm_dir ∷ text "*" ∷ text "*.vmx" ∷ []))

  -- `Ops.List`
  unfoldable pub list : M H.State (List VmRef)
  list s =
      let (running, t) = vmrun H false (text "list" ∷ []) s in
      return (add_all (output_or_empty running) [] (vmx_files t)) t

  -- `Ops.Running`
  unfoldable pub running : M H.State (List VmRef)
  running = do out ← vmrun H false (text "list" ∷ []); return (running_in (split b'\n' out))

  -- The lines of `Ops.Show` for the keys that are set.
  unfoldable pub show_keys : H.State → Text → List Text → Text
  show_keys s vmx [] = []
  show_keys s vmx (k ∷ ks) =
      let rest = show_keys s vmx ks in
      let v = vmx_key H s vmx k in
      if is_empty v then rest else k ++ (text ": " ++ (v ++ (text "\n" ++ rest)))

  -- `Ops.Show`
  unfoldable pub show : Text → M H.State Text
  show vm = do
    vmx ← resolve_vmx H d vm
    found ← attempt (vmrun H false (text "list" ∷ []))
    let state = if contains (output_or_empty found) vmx then text "running" else text "stopped"
    λ s.
        return
          (trim_space (
            text "vmx: "
            ++ (vmx ++ (text "\nstate: " ++ (state ++ (text "\n" ++ show_keys s vmx shown_keys))))))
          s

  -- The MAC of `Ops.IP`.
  unfoldable pub mac_of : H.State → Text → Text
  mac_of s vmx =
      let generated = to_lower (vmx_key H s vmx (text "ethernet0.generatedAddress")) in
      if is_empty generated
      then to_lower (vmx_key H s vmx (text "ethernet0.address"))
      else generated

  -- The loop of `Ops.IP` over the lease files.
  unfoldable pub lease_of : (Text → List (Text × Text)) → H.State → Text → List Text → Option Text
  lease_of lease_blocks s mac [] = none
  lease_of lease_blocks s mac (f ∷ fs) =
      let rest = lease_of lease_blocks s mac fs in
      elim (H.read_file s f) [
        | err e ↦ rest
        | ok content ↦
            let ip = lease_in mac [] (lease_blocks content) in if is_empty ip then rest else some ip
      ]

  -- `Ops.IP` where the guest's tools do not answer.
  unfoldable pub leased_ip : (Text → List (Text × Text)) → Text → M H.State Text
  leased_ip lease_blocks vmx s =
      let mac = mac_of s vmx in
      if is_empty mac
      then fail (message (text "no MAC recorded in " ++ (vmx ++ text " (has the VM booted once?)")))
          s
      else elim (lease_of lease_blocks s mac (lease_files (on_platform H))) [
        | some ip ↦ return ip s
        | none ↦
            fail
              (message (
                text "no tools response and no DHCP lease for MAC "
                ++ (mac ++ text " (guest may still be booting)")))
              s
      ]

  abbrev answered : (Text → List (Text × Text)) → Text → Result Text → M H.State Text
  answered lease_blocks vmx (ok out) = return (trim_space out)
  answered lease_blocks vmx (err e) = leased_ip lease_blocks vmx

  -- `Ops.IP`
  unfoldable pub ip : (Text → List (Text × Text)) → Text → M H.State Text
  ip lease_blocks vm = do
    vmx ← resolve_vmx H d vm
    tools ← attempt (vmrun H false (text "getGuestIPAddress" ∷ vmx ∷ []))
    answered lease_blocks vmx tools
