-- ===== src/VMware/Config.antt =====
-- provider/vmware/ops.go: the configuration of a VM, which is written while it is off.
pub mod Written
pub mod Resources
use desktop_hypervisor_mcp.Base.{
  Bool, true, false, Option, none, some, List, [], ◌∷◌, ◌++◌, if◌then◌else◌, map,
}
use desktop_hypervisor_mcp.Base.Int.{ℤ, is_pos, itoa}
use desktop_hypervisor_mcp.Base.Text.{Text, text, is_empty}
use desktop_hypervisor_mcp.Provider.Contract.{Descriptor}
use desktop_hypervisor_mcp.Provider.Errors.{message, M, ◌>>=◌, ◌>>◌, return, fail}
use desktop_hypervisor_mcp.Provider.Host.{Host}
use desktop_hypervisor_mcp.VMware.Run.{resolve_vmx, ensure_off, set_vmx_keys}
use desktop_hypervisor_mcp.VMware.Vmx.{Pair}

-- `strings.Join` with a comma and a space, of the settings that were made.
unfoldable pub join_settings : List Pair → Text
join_settings [] = []
join_settings ((k, v) ∷ []) = k ++ (text "=" ++ v)
join_settings ((k, v) ∷ p ∷ ps) = k ++ (text "=" ++ (v ++ (text ", " ++ join_settings (p ∷ ps))))

unfoldable pub configured : Text → List Pair → Text
configured vmx pairs = text "set " ++ (join_settings pairs ++ (text " in " ++ vmx))

-- The pairs of `Ops.SetResources`.
unfoldable pub resource_pairs : ℤ → ℤ → List Pair
resource_pairs cpus memory =
    (if is_pos cpus then (text "numvcpus", itoa cpus) ∷ [] else [])
    ++ (if is_pos memory then (text "memsize", itoa memory) ∷ [] else [])

abbrev pub truth : Bool → Text
truth true = text "TRUE"
truth false = text "FALSE"

unfoldable pub iso_pairs : Text → Text → List Pair
iso_pairs slot iso_path =
    (slot ++ text ".present", text "TRUE")
    ∷ (slot ++ text ".deviceType", text "cdrom-image")
    ∷ (slot ++ text ".fileName", iso_path)
    ∷ (slot ++ text ".startConnected", text "TRUE")
    ∷ []

module _ (H : Host) (d : Descriptor) where
  -- `Ops.configure`
  unfoldable pub configure : Text → List Pair → M H.State Text
  configure vm pairs = do
    vmx ← resolve_vmx H d vm
    ensure_off H vmx
    set_vmx_keys H vmx pairs
    return (configured vmx pairs)

  -- `configure` where there is a pair to set.
  unfoldable pub configure_some : Text → Text → List Pair → M H.State Text
  configure_some vm none_given [] = fail (message none_given)
  configure_some vm none_given (p ∷ ps) = configure vm (p ∷ ps)

  -- `Ops.SetResources`
  unfoldable pub set_resources : Text → ℤ → ℤ → M H.State Text
  set_resources vm cpus memory =
      configure_some vm (text "nothing to change") (resource_pairs cpus memory)

  -- `Ops.SetNestedVirt`
  unfoldable pub set_nested_virt : Text → Bool → M H.State Text
  set_nested_virt vm enabled = configure vm ((text "vhv.enable", truth enabled) ∷ [])

  -- `Ops.AttachISO`
  unfoldable pub attach_iso : Text → Text → Text → M H.State Text
  attach_iso vm iso_path slot_given s =
      let slot = if is_empty slot_given then text "sata0:1" else slot_given in
      if is_empty iso_path
      then configure vm ((slot ++ text ".present", text "FALSE") ∷ []) s
      else elim (H.stat s iso_path) [
        | some e ↦ fail (message (text "iso not found: " ++ iso_path)) s
        | none ↦ configure vm (iso_pairs slot iso_path) s
      ]

  -- `Ops.SetGuestinfo`, with the pairs in the order in which the map is walked.
  unfoldable pub set_guestinfo : Text → List Pair → M H.State Text
  set_guestinfo vm pairs = configure_some vm (text "no keys given") pairs
