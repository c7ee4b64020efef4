-- ===== src/VMware/Create.antt =====
-- provider/vmware/ops.go: `Ops.Create`.
pub mod Fails
mod Tests
use desktop_hypervisor_mcp.Base.{
  Bool, true, false, Option, none, some, List, [], ◌∷◌, ◌++◌, if◌then◌else◌,
}
use desktop_hypervisor_mcp.Base.Int.{ℤ, pos, itoa}
use desktop_hypervisor_mcp.Base.Text.{Text, text, or_text, is_empty}
use desktop_hypervisor_mcp.FilePath.{join_path}
use desktop_hypervisor_mcp.Provider.Contract.{Descriptor}
use desktop_hypervisor_mcp.Provider.Errors.{message, M, ◌>>=◌, ◌>>◌, return, fail}
use desktop_hypervisor_mcp.Provider.Host.{Host}
use desktop_hypervisor_mcp.Provider.RunCmd.{run_cmd}
use desktop_hypervisor_mcp.Provider.Specs.{CreateSpec, or_int}
use desktop_hypervisor_mcp.VMware.Run.{vm_bundle, set_vmx_keys}
use desktop_hypervisor_mcp.VMware.Tools.{vdiskmanager_bin}
use desktop_hypervisor_mcp.VMware.Vmx.{Pair}

-- The keys of a new VM.
unfoldable pub create_pairs : CreateSpec → List Pair
create_pairs spec =
    ((text ".encoding", text "UTF-8")
      ∷ (text "config.version", text "8")
      ∷ (text "virtualHW.version", text "19")
      ∷ (text "displayName", spec.name)
      ∷ (text "guestOS", or_text spec.guest_os (text "other-64"))
      ∷ (text "numvcpus", itoa (or_int spec.cpus (pos 2)))
      ∷ (text "cpuid.coresPerSocket", text "1")
      ∷ (text "memsize", itoa (or_int spec.memory_mb (pos 2048)))
      ∷ (text "firmware", or_text spec.firmware (text "efi"))
      ∷ (text "hpet0.present", text "TRUE")
      ∷ (text "vmci0.present", text "TRUE")
      ∷ (text "sata0.present", text "TRUE")
      ∷ (text "sata0:0.present", text "TRUE")
      ∷ (text "sata0:0.fileName", spec.name ++ text ".vmdk")
      ∷ (text "ethernet0.present", text "TRUE")
      ∷ (text "ethernet0.connectionType", text "nat")
      ∷ (text "ethernet0.virtualDev", text "e1000e")
      ∷ (text "ethernet0.addressType", text "generated")
      ∷ (text "usb.present", text "TRUE")
      ∷ (text "tools.syncTime", text "TRUE")
      ∷ (text "msg.autoanswer", text "TRUE")
      ∷ [])
    ++ (if spec.nested_virt then (text "vhv.enable", text "TRUE") ∷ [] else [])

unfoldable pub created : CreateSpec → Text → Text
created spec vmx =
    text "created "
    ++ (spec.name
        ++ (text ": "
            ++ (itoa (or_int spec.cpus (pos 2))
                ++ (text " CPU, "
                    ++ (itoa (or_int spec.memory_mb (pos 2048))
                        ++ (text "MB RAM, "
                            ++ (itoa (or_int spec.disk_gb (pos 25))
                                ++ (text "GB disk, "
                                    ++ (or_text spec.firmware (text "efi")
                                        ++ (text " firmware, guestOS "
                                            ++ (or_text spec.guest_os (text "other-64")
                                                ++ (text "\nvmx: " ++ vmx))))))))))))

module _ (H : Host) (d : Descriptor) where
  abbrev pub file_in : Text → Text → Text
  file_in bundle name = join_path (bundle ∷ name ∷ [])

  -- The disk of a new VM.
  unfoldable pub create_disk : CreateSpec → Text → M H.State Text
  create_disk spec bundle s =
      let vd = vdiskmanager_bin H s in
      if is_empty vd
      then fail (message (text "vmware-vdiskmanager not found — cannot create a disk")) s
      else run_cmd H vd
          (text "-c"
            ∷ text "-s"
            ∷ (itoa (or_int spec.disk_gb (pos 25)) ++ text "GB")
            ∷ text "-a"
            ∷ text "lsilogic"
            ∷ text "-t"
            ∷ text "0"
            ∷ file_in bundle (spec.name ++ text ".vmdk")
            ∷ [])
          s

  -- The steps of `Create` in a folder that does not exist yet.
  unfoldable pub create_in : CreateSpec → Text → M H.State Text
  create_in spec bundle = do
    let vmx = file_in bundle (spec.name ++ text ".vmx")
    H.mkdir_all bundle
    _ ← create_disk spec bundle
    set_vmx_keys H vmx (create_pairs spec)
    return (created spec vmx)

  -- `Ops.Create`
  unfoldable pub create : CreateSpec → M H.State Text
  create spec s =
      let bundle = vm_bundle H d spec.name in
      if is_empty spec.name
      then fail (message (text "name is required")) s
      else elim (H.stat s bundle) [
        | none ↦ fail (message (bundle ++ text " already exists")) s
        | some e ↦ create_in spec bundle s
      ]
