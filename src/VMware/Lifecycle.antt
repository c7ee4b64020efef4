-- ===== src/VMware/Lifecycle.antt =====
-- provider/vmware/ops.go: the life of a VM, and images that come in and go out.
use desktop_hypervisor_mcp.Base.{Bool, false, not, List, [], ◌∷◌, ◌++◌, if◌then◌else◌}
use desktop_hypervisor_mcp.Base.Text.{Text, text, is_empty, has_suffix}
use desktop_hypervisor_mcp.FilePath.{join_path}
use desktop_hypervisor_mcp.Provider.Contract.{Descriptor, has, ova_import, ova_export}
use desktop_hypervisor_mcp.Provider.Errors.{unsupported, M, ◌>>=◌, ◌>>◌, return, fail}
use desktop_hypervisor_mcp.Provider.Host.{Host}
use desktop_hypervisor_mcp.Provider.RunCmd.{run_cmd}
use desktop_hypervisor_mcp.Provider.Specs.{CloneSpec}
use desktop_hypervisor_mcp.VMware.Run.{vmrun, vm_bundle, resolve_vmx, ensure_off}
use desktop_hypervisor_mcp.VMware.Tools.{ovftool_bin}

abbrev pub power_mode : Bool → Text
power_mode hard = if hard then text "hard" else text "soft"

abbrev pub clone_mode : CloneSpec → Text
clone_mode spec = if spec.linked then text "linked" else text "full"

module _ (H : Host) (d : Descriptor) where
  -- `Ops.Start`
  unfoldable pub start : Text → Bool → M H.State Text
  start vm gui = do
    vmx ← resolve_vmx H d vm
    vmrun H false (text "start" ∷ vmx ∷ (if gui then text "gui" else text "nogui") ∷ [])

  -- `Ops.Stop`
  unfoldable pub stop : Text → Bool → M H.State Text
  stop vm hard = do
    vmx ← resolve_vmx H d vm
    vmrun H false (text "stop" ∷ vmx ∷ power_mode hard ∷ [])

  -- `Ops.Suspend`
  unfoldable pub suspend : Text → M H.State Text
  suspend vm = do vmx ← resolve_vmx H d vm; vmrun H false (text "suspend" ∷ vmx ∷ text "soft" ∷ [])

  -- `Ops.Reset`
  unfoldable pub reset : Text → Bool → M H.State Text
  reset vm hard = do
    vmx ← resolve_vmx H d vm
    vmrun H false (text "reset" ∷ vmx ∷ power_mode hard ∷ [])

  -- `Ops.Delete`
  unfoldable pub delete : Text → M H.State Text
  delete vm = do vmx ← resolve_vmx H d vm; vmrun H false (text "deleteVM" ∷ vmx ∷ [])

  unfoldable pub clone_args : CloneSpec → Text → Text → List Text
  clone_args spec vmx dest =
      (text "clone" ∷ vmx ∷ dest ∷ clone_mode spec ∷ (text "-cloneName=" ++ spec.dest) ∷ [])
      ++ (if is_empty spec.snapshot then [] else (text "-snapshot=" ++ spec.snapshot) ∷ [])

  -- `Ops.Clone`
  unfoldable pub clone : CloneSpec → M H.State Text
  clone spec = do
    vmx ← resolve_vmx H d spec.source
    let bundle = vm_bundle H d spec.dest
    H.mkdir_all bundle
    let dest = join_path (bundle ∷ (spec.dest ++ text ".vmx") ∷ [])
    out ← vmrun H false (clone_args spec vmx dest)
    return (out ++ (text "\ncloned → " ++ (dest ++ (text " (" ++ (clone_mode spec ++ text ")")))))

  -- `Ops.ImportImage`
  unfoldable pub import_image : Text → Text → M H.State Text
  import_image path name s =
      let dest = if is_empty name then d.vm_dir else vm_bundle H d name in
      if has_suffix path (text ".vmx")
      then return (text "already consumable: " ++ path) s
      else if not (has d ova_import)
      then fail (unsupported ova_import) s
      else run_cmd H (ovftool_bin H s) (text "--lax" ∷ text "--allowExtraConfig" ∷ path ∷ dest ∷ [])
          s

  -- `Ops.ExportOVA`
  unfoldable pub export_ova : Text → Text → M H.State Text
  export_ova vm dest s =
      if not (has d ova_export)
      then fail (unsupported ova_export) s
      else (resolve_vmx H d vm >>= λ vmx. ensure_off H vmx >> λ t.
            run_cmd H (ovftool_bin H t) (text "--lax" ∷ text "--allowExtraConfig" ∷ vmx ∷ dest ∷ [])
              t)
          s
