-- ===== src/VMware/MakeIso.antt =====
-- provider/vmware/ops.go: `Ops.MakeISO`.
use desktop_hypervisor_mcp.Base.{List, [], ◌∷◌, ◌++◌, if◌then◌else◌}
use desktop_hypervisor_mcp.Base.Text.{Text, text, ◌==◌, is_empty, trim_suffix}
use desktop_hypervisor_mcp.FilePath.{base}
use desktop_hypervisor_mcp.Provider.Contract.{make_iso}
use desktop_hypervisor_mcp.Provider.Errors.{unsupported, M, ◌>>=◌, ◌>>◌, return, fail}
use desktop_hypervisor_mcp.Provider.Host.{Host}
use desktop_hypervisor_mcp.Provider.RepackIso.{forgive_missing}
use desktop_hypervisor_mcp.Provider.RunCmd.{run_cmd}
use desktop_hypervisor_mcp.VMware.Tools.{iso_backend}

-- The arguments for the label of a volume.
abbrev labelled : Text → Text → List Text
labelled flag label = if is_empty label then [] else flag ∷ label ∷ []

-- The arguments for a tool of this name, and the file that it makes.
unfoldable pub iso_command : Text → Text → Text → Text → List Text × Text
iso_command tool src_dir dest label =
    let out = trim_suffix dest (text ".iso") in
    let mkisofs =
      (text "-o" ∷ dest ∷ text "-J" ∷ text "-r" ∷ [])
      ++ (labelled (text "-V") label ++ (src_dir ∷ [])) in
    if tool == text "hdiutil"
    then (
      (text "makehybrid" ∷ text "-iso" ∷ text "-joliet" ∷ text "-o" ∷ out ∷ [])
          ++ (labelled (text "-default-volume-name") label ++ (src_dir ∷ [])),
      out ++ text ".iso",
    )
    else if tool == text "oscdimg.exe"
    then (text "-n" ∷ src_dir ∷ dest ∷ [], dest)
    else if tool == text "xorriso"
    then (text "-as" ∷ text "mkisofs" ∷ mkisofs, dest)
    else (mkisofs, dest)

module _ (H : Host) where
  unfoldable pub make_with : Text → Text → Text → Text → M H.State Text
  make_with backend src_dir dest label = do
    forgive_missing (H.remove dest)
    let command = iso_command (base backend) src_dir dest label
    res ← run_cmd H backend command.0
    return (res ++ (text "\niso: " ++ command.1))

  -- `Ops.MakeISO`
  unfoldable pub make_image : Text → Text → Text → M H.State Text
  make_image src_dir dest label s =
      let backend = iso_backend H s in
      if is_empty backend
      then fail (unsupported make_iso) s
      else make_with backend src_dir dest label s
