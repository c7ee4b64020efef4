-- ===== src/Provider/RepackIso.antt =====
-- provider/repackiso.go: kernel arguments in the GRUB configuration of an installer ISO.
pub mod Kernel
pub mod Patched
mod Tests
use desktop_hypervisor_mcp.Base.{
  ℕ, suc, Bool, true, false, not, ◌&&◌, ◌||◌, Option, none, some, List, [], ◌∷◌, ◌++◌,
  if◌then◌else◌, eqb,
}
use desktop_hypervisor_mcp.Base.Int.{pos, itoa}
use desktop_hypervisor_mcp.Base.Text.{
  Text, text, ◌==◌, is_empty, contains, before_last, drop, size, fields, split, join,
}
use desktop_hypervisor_mcp.FilePath.{join_path}
use desktop_hypervisor_mcp.Provider.Errors.{
  Error, message, wrap, not_exist, Result, ok, err, M, ◌>>=◌, ◌>>◌, return, fail, lift, with_error,
}
use desktop_hypervisor_mcp.Provider.Host.{Host}
use desktop_hypervisor_mcp.Provider.RunCmd.{run_cmd}

abbrev pub is_directive : List Text → Bool
is_directive [] = false
is_directive (f ∷ fs) = f == text "linux" || f == text "linuxefi"

-- Whether a line starts a kernel.
unfoldable pub is_kernel : Text → Bool
is_kernel line = is_directive (fields line)

unfoldable pub separator : Text
separator = text " ---"

-- The line with the arguments, in front of the last separator or at the end.
unfoldable pub with_args : Text → Text → Text
with_args args line = elim (before_last line separator) [
  | some before ↦ before ++ (b' ' ∷ (args ++ drop (size before) line))
  | none ↦ line ++ (b' ' ∷ args)
]

-- Whether the loop of `RepackISO` changes a line.
unfoldable pub needs_args : Text → Text → Bool
needs_args args line = is_kernel line && not (contains line args)

-- The loop of `RepackISO`: the lines afterwards, and how many were changed.
unfoldable pub patch_lines : Text → List Text → List Text × ℕ
patch_lines args [] = ([], 0)
patch_lines args (line ∷ lines) =
    let (rest, patched) = patch_lines args lines in
    if needs_args args line
    then (with_args args line ∷ rest, suc patched)
    else (line ∷ rest, patched)

-- The configuration afterwards, and how many lines were changed.
unfoldable pub patch_content : Text → Text → Text × ℕ
patch_content args content =
    let (lines, patched) = patch_lines args (split b'\n' content) in (join b'\n' lines, patched)

abbrev is_not_exist : Error → Bool
is_not_exist (not_exist t) = true
is_not_exist _ = false

abbrev pub default_cfg : Text → Text
default_cfg cfg = if is_empty cfg then text "/boot/grub/grub.cfg" else cfg

abbrev pub forgive : Result (Unit {0}) → Result (Unit {0})
forgive (ok u) = ok u
forgive (err e) = if is_not_exist e then ok tt else err e

abbrev pub forgive_missing : {S : Type 0} → M S (Unit {0}) → M S (Unit {0})
forgive_missing m s = let (r, t) = m s in (forgive r, t)

module _ (H : Host) where
  -- The configuration that was extracted, changed on the host.
  unfoldable pub patch_file : Text → Text → Text → M H.State ℕ
  patch_file file args cfg s = elim (H.read_file s file) [
    | err e ↦ fail e s
    | ok content ↦
        let (changed, patched) = patch_content args content in
        if eqb patched 0
        then fail
            (message (
              text "no GRUB kernel lines found in "
              ++ (cfg ++ text " — wrong grub_cfg path, or the ISO already carries these args")))
            s
        else (H.write_file file changed >> return patched) s
  ]

  -- The steps of `RepackISO` in its temporary folder.
  unfoldable pub repack_in : Text → Text → Text → Text → Text → M H.State Text
  repack_in src dest args cfg tmp = do
    let file = join_path (tmp ∷ text "grub.cfg" ∷ [])
    _ ←
        with_error
          (λ e. wrap (text "extracting " ++ (cfg ++ (text " from " ++ (src ++ text ": ")))) e [])
          (run_cmd H (text "xorriso")
            (text "-osirrox" ∷ text "on" ∷ text "-indev" ∷ src ∷ text "-extract" ∷ cfg ∷ file ∷ []))
    H.chmod file
    patched ← patch_file file args cfg
    forgive_missing (H.remove dest)
    _ ←
        with_error (λ e. wrap (text "repacking to " ++ (dest ++ text ": ")) e [])
          (run_cmd H (text "xorriso") (
            text "-indev"
            ∷ src
            ∷ text "-outdev"
            ∷ dest
            ∷ text "-boot_image"
            ∷ text "any"
            ∷ text "replay"
            ∷ text "-overwrite"
            ∷ text "on"
            ∷ text "-map"
            ∷ file
            ∷ cfg
            ∷ text "-commit"
            ∷ []))
    return (
        text "repacked "
        ++ (src
            ++ (text " → "
                ++ (dest
                    ++ (text "\npatched "
                        ++ (itoa (pos patched)
                            ++ (text " GRUB kernel line(s) in "
                                ++ (cfg ++ (text " with: " ++ args)))))))))

  -- The temporary folder is removed whatever happens.
  unfoldable pub repack_made :
      Text → Text → Text → Text → Result Text × H.State → Result Text × H.State
  repack_made src dest args cfg (err e, t) = fail e t
  repack_made src dest args cfg (ok tmp, t) =
      let (r, u) = repack_in src dest args cfg tmp t in (r, H.remove_all tmp u)

  -- `RepackISO`
  unfoldable pub repack_iso : Text → Text → Text → Text → M H.State Text
  repack_iso src dest args cfg_given s = elim (H.look_path s (text "xorriso")) [
    | none ↦
        fail (message (text "repack_iso needs xorriso on the host (brew/apt/dnf install xorriso)"))
          s
    | some p ↦
        repack_made src dest args (default_cfg cfg_given) (H.make_temp_dir (text "repack-iso-") s)
  ]
