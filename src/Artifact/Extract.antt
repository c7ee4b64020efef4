-- ===== src/Artifact/Extract.antt =====
-- core/artifact/fetch.go: `extractBox`.
pub mod Contained
mod Tests
use desktop_hypervisor_mcp.Base.{
  Bool, true, false, ◌&&◌, ◌||◌, Option, none, some, List, [], ◌∷◌, ◌++◌, if◌then◌else◌,
}
use desktop_hypervisor_mcp.Base.Text.{Text, text, is_empty, has_prefix, has_suffix}
use desktop_hypervisor_mcp.FilePath.{clean, is_abs, join_path, dir}
use desktop_hypervisor_mcp.Provider.Errors.{
  Error, message, wrap, Result, ok, err, M, ◌>>=◌, ◌>>◌, return, fail, lift,
}
use desktop_hypervisor_mcp.Artifact.Web.{EntryKind, folder, regular, other_kind, Entry, Web}

-- Whether the cleaned name of an entry leaves the target folder.
unfoldable pub is_unsafe : Text → Bool
is_unsafe name = has_prefix name (text "..") || is_abs name

-- The machine file after a regular file: an .ovf file, or else the first .vmx file.
unfoldable pub next_machine : Text → Text → Text → Text
next_machine name dest machine =
    if has_suffix name (text ".ovf")
    then dest
    else if has_suffix name (text ".vmx") && is_empty machine
    then dest
    else machine

abbrev pub machine_of : Text → Text → Result Text
machine_of box [] =
    err (message (text "no .ovf or .vmx found in " ++ (box ++ text " after extraction")))
machine_of box (c ∷ machine) = ok (c ∷ machine)

module _ (W : Web) where
  -- The content of a regular file.
  unfoldable pub write_entry : Text → Text → M W.host.State (Unit {0})
  write_entry dest content s =
      let (c, t) = W.copy_body dest content s in
      elim c.failure [
        | some e ↦ (err e, (W.close_file dest t).1)
        | none ↦ (ok tt, (W.close_file dest t).1)
      ]

  -- One entry at its place; the machine file after it.
  unfoldable pub extract_entry : EntryKind → Text → Text → Text → Text → M W.host.State Text
  extract_entry folder name dest content machine = (W.host.mkdir_all dest >> return machine)
  extract_entry regular name dest content machine =
      (W.host.mkdir_all (dir dest)
        >> W.create_file dest
        >> write_entry dest content
        >> return (next_machine name dest machine))
  extract_entry other_kind name dest content machine = return machine

  -- The loop of `extractBox`: the machine file at the end of the entries.
  unfoldable pub extract_entries :
      Text → Text → Option Error → Text → List Entry → M W.host.State Text
  extract_entries box dest_dir ending machine [] s = elim ending [
    | none ↦ return machine s
    | some e ↦ fail (wrap (text "extracting " ++ (box ++ text ": ")) e []) s
  ]
  extract_entries box dest_dir ending machine (entry ∷ entries) s =
      let name = clean entry.name in
      let dest = join_path (dest_dir ∷ name ∷ []) in
      let (extracted, t) = extract_entry entry.kind name dest entry.content machine s in
      elim (is_unsafe name) [
        | true ↦ fail (message (text "unsafe path in box archive: " ++ entry.name)) s
        | false ↦ elim extracted [
          | err e ↦ fail e t
          | ok found ↦ extract_entries box dest_dir ending found entries t
        ]
      ]

  -- `extractBox`
  unfoldable pub extract_box : Text → Text → M W.host.State Text
  extract_box box dest_dir s = elim (W.open_box s box) [
    | err e ↦ fail e s
    | ok contents ↦
        (W.host.mkdir_all dest_dir
            >> extract_entries box dest_dir contents.1 [] contents.0
            >>= λ machine. lift (machine_of box machine))
          s
  ]
