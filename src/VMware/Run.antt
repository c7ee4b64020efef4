-- ===== src/VMware/Run.antt =====
-- provider/vmware/ops.go: running vmrun, finding a VM's .vmx file, and the files' keys on the host.
use desktop_hypervisor_mcp.Base.{
  Bool, false, Option, none, some, List, [], ◌∷◌, ◌++◌, if◌then◌else◌,
}
use desktop_hypervisor_mcp.Base.Text.{Text, text, is_empty, contains, has_suffix}
use desktop_hypervisor_mcp.FilePath.{join_path}
use desktop_hypervisor_mcp.Provider.Contract.{Descriptor}
use desktop_hypervisor_mcp.Provider.Creds.{guest_creds, incomplete, creds_needed}
use desktop_hypervisor_mcp.Provider.Errors.{Result, ok, err, message, quote, M, return, fail}
use desktop_hypervisor_mcp.Provider.Host.{Host}
use desktop_hypervisor_mcp.Provider.RunCmd.{run_cmd}
use desktop_hypervisor_mcp.VMware.Tools.{darwin, host_type, on_platform, vmrun_bin}
use desktop_hypervisor_mcp.VMware.Vmx.{Pair, set_content, value_in_content}

-- The match of a pattern, if there is exactly one.
abbrev pub only_match : List Text → Option Text
only_match (m ∷ []) = some m
only_match _ = none

abbrev pub vmx_in : Text → Text
vmx_in folder = join_path (folder ∷ text "*.vmx" ∷ [])

-- The output of a command whose error is dropped.
abbrev pub output_or_empty : Result Text → Text
output_or_empty (ok out) = out
output_or_empty (err e) = []

module _ (H : Host) where
  -- The arguments in front of the credentials.
  unfoldable pub vmrun_head : List Text
  vmrun_head =
      let vp = H.getenv (text "VMRUN_VM_PASSWORD") in
      (text "-T" ∷ host_type (on_platform H) ∷ [])
      ++ (if is_empty vp then [] else text "-vp" ∷ vp ∷ [])

  -- `Ops.vmrun`
  unfoldable pub vmrun : Bool → List Text → M H.State Text
  vmrun with_guest args s =
      let c = guest_creds H.getenv in
      if with_guest
      then (if incomplete c
          then fail (message creds_needed) s
          else run_cmd H (vmrun_bin H s)
              ((vmrun_head ++ (text "-gu" ∷ c.user ∷ text "-gp" ∷ c.pass ∷ [])) ++ args) s)
      else run_cmd H (vmrun_bin H s) (vmrun_head ++ args) s

  -- `Ops.vmBundle`
  unfoldable pub vm_bundle : Descriptor → Text → Text
  vm_bundle d name = elim (on_platform H) [
    | darwin ↦ join_path (d.vm_dir ∷ (name ++ text ".vmwarevm") ∷ [])
    | _ ↦ join_path (d.vm_dir ∷ name ∷ [])
  ]

  -- The three places where `Ops.resolveVMX` looks for the file of a VM's name.
  unfoldable pub find_vmx : Descriptor → H.State → Text → Option Text
  find_vmx d s vm = elim (only_match (H.glob s (vmx_in (vm_bundle d vm)))) [
    | some m ↦ some m
    | none ↦
        elim (only_match
          (H.glob s (join_path (d.vm_dir ∷ (vm ++ text ".vmwarevm") ∷ text "*.vmx" ∷ [])))) [
            | some m ↦ some m
            | none ↦ only_match (H.glob s (join_path (d.vm_dir ∷ vm ∷ text "*.vmx" ∷ [])))
          ]
  ]

  -- `Ops.resolveVMX`
  unfoldable pub resolve_vmx : Descriptor → Text → M H.State Text
  resolve_vmx d vm s =
      if is_empty vm
      then fail (message (text "vm is required")) s
      else if has_suffix vm (text ".vmx")
      then return vm s
      else elim (find_vmx d s vm) [
        | some m ↦ return m s
        | none ↦
            fail (message (text "no .vmx found for " ++ (quote vm ++ (text " under " ++ d.vm_dir))))
              s
      ]

  -- `Ops.ensureOff`
  unfoldable pub ensure_off : Text → M H.State (Unit {0})
  ensure_off vmx s =
      let (running, s') = vmrun false (text "list" ∷ []) s in
      if contains (output_or_empty running) vmx
      then fail (message (text "VM is running — power it off first")) s'
      else return tt s'

  -- `setVMXKeys`
  unfoldable pub set_vmx_keys : Text → List Pair → M H.State (Unit {0})
  set_vmx_keys vmx pairs s = elim (H.read_file s vmx) [
    | ok content ↦ H.write_file vmx (set_content pairs content) s
    | err e ↦ fail e s
  ]

  -- `vmxKey`
  unfoldable pub vmx_key : H.State → Text → Text → Text
  vmx_key s vmx key = elim (H.read_file s vmx) [
    | ok content ↦ value_in_content key content
    | err e ↦ []
  ]
