-- ===== src/VirtualBox/Create.antt =====
-- provider/virtualbox/ops.go: `Ops.Create`.
use desktop_hypervisor_mcp.Base.{◌*◌, List, [], ◌∷◌, ◌++◌, if◌then◌else◌}
use desktop_hypervisor_mcp.Base.Int.{ℤ, pos, negsuc, is_pos, itoa}
use desktop_hypervisor_mcp.Base.Text.{Text, text, ◌==◌, or_text, is_empty}
use desktop_hypervisor_mcp.FilePath.{join_path}
use desktop_hypervisor_mcp.Provider.Contract.{Descriptor}
use desktop_hypervisor_mcp.Provider.Errors.{message, M, ◌>>=◌, return, fail}
use desktop_hypervisor_mcp.Provider.Host.{Host}
use desktop_hypervisor_mcp.Provider.Specs.{CreateSpec, or_int}
use desktop_hypervisor_mcp.VirtualBox.Run.{run}

-- The arguments of `modifyvm` in `Ops.Create`.
unfoldable pub modify_args : CreateSpec → List Text
modify_args spec =
    (text "modifyvm"
      ∷ spec.name
      ∷ text "--cpus"
      ∷ itoa (or_int spec.cpus (pos 2))
      ∷ text "--memory"
      ∷ itoa (or_int spec.memory_mb (pos 2048))
      ∷ text "--vram"
      ∷ text "16"
      ∷ [])
    ++ ((if spec.firmware == text "efi" then text "--firmware" ∷ text "efi" ∷ [] else [])
        ++ (if spec.nested_virt then text "--nested-hw-virt" ∷ text "on" ∷ [] else []))

unfoldable pub os_type : CreateSpec → Text
os_type spec = or_text spec.guest_os (text "Other_64")

unfoldable pub created_summary : CreateSpec → Text
created_summary spec =
    text "created "
    ++ (spec.name
        ++ (text ": "
            ++ (itoa (or_int spec.cpus (pos 2))
                ++ (text " CPU, "
                    ++ (itoa (or_int spec.memory_mb (pos 2048))
                        ++ (text "MB RAM, ostype " ++ os_type spec))))))

-- The size of a disk in MB, for a number of GB that is positive.
unfoldable pub disk_mb : ℤ → ℤ
disk_mb (pos n) = pos (n * 1024)
disk_mb (negsuc n) = negsuc n

module _ (H : Host) (d : Descriptor) where
  -- The disk of a new VM.
  unfoldable pub create_hdd : CreateSpec → M H.State Text
  create_hdd spec = do
    let disk = join_path (d.vm_dir ∷ spec.name ∷ (spec.name ++ text ".vdi") ∷ [])
    _ ← run H (
        text "storagectl"
        ∷ spec.name
        ∷ text "--name"
        ∷ text "SATA"
        ∷ text "--add"
        ∷ text "sata"
        ∷ text "--controller"
        ∷ text "IntelAhci"
        ∷ [])
    _ ← run H (
        text "createmedium"
        ∷ text "disk"
        ∷ text "--filename"
        ∷ disk
        ∷ text "--size"
        ∷ itoa (disk_mb spec.disk_gb)
        ∷ [])
    _ ← run H (
        text "storageattach"
        ∷ spec.name
        ∷ text "--storagectl"
        ∷ text "SATA"
        ∷ text "--port"
        ∷ text "0"
        ∷ text "--device"
        ∷ text "0"
        ∷ text "--type"
        ∷ text "hdd"
        ∷ text "--medium"
        ∷ disk
        ∷ [])
    return (created_summary spec ++ (text ", " ++ (itoa spec.disk_gb ++ text "GB disk on SATA:0")))

  unfoldable pub register_vm : CreateSpec → M H.State Text
  register_vm spec = do
    _ ← run H (
        text "createvm"
        ∷ text "--name"
        ∷ spec.name
        ∷ text "--ostype"
        ∷ os_type spec
        ∷ text "--register"
        ∷ [])
    _ ← run H (modify_args spec)
    λ s. if is_pos spec.disk_gb then create_hdd spec s else return (created_summary spec) s

  -- `Ops.Create`
  unfoldable pub create_vm : CreateSpec → M H.State Text
  create_vm spec s =
      if is_empty spec.name then fail (message (text "name is required")) s else register_vm spec s
