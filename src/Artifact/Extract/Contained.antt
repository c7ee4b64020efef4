-- ===== src/Artifact/Extract/Contained.antt =====
-- Which files the extraction of a box writes.
use desktop_hypervisor_mcp.Base.{
  false, Option, none, some, List, [], ◌∷◌, ◌≡◌, ◌≢◌, refl, sym, ◌∙◌, subst, inl, inr, arith,
  Bool-cases,
}
use desktop_hypervisor_mcp.Base.Text.{Text, text, is_empty, has_prefix}
use desktop_hypervisor_mcp.FilePath.{dot_dot, is_abs, clean, join_path, dir}
use desktop_hypervisor_mcp.FilePath.Inside.{IsInside, join_path-IsInside}
use desktop_hypervisor_mcp.Provider.Errors.{Error, ◌>>◌, resume_kept, Result-cases}
use desktop_hypervisor_mcp.Artifact.Web.{EntryKind, folder, regular, other_kind, Entry, Web}
use desktop_hypervisor_mcp.Artifact.Download.Kept.{IsFramed}
use desktop_hypervisor_mcp.Artifact.Extract.{
  is_unsafe, write_entry, extract_entry, extract_entries, extract_box,
}

safe_parts :
    (name : Text)
    → is_unsafe name ≡ false
    → (has_prefix name dot_dot ≡ false) × (is_abs name ≡ false)
unfolding is_unsafe text
safe_parts name h = (ground arith, ground arith)

module _ (W : Web) (L : IsFramed W) (dest_dir path : Text) (given : is_empty dest_dir ≡ false)
    (outside : IsInside dest_dir path → ⊥) where
  abbrev Keeps : W.host.State → W.host.State → Type 0
  Keeps s t = W.host.read_file t path ≡ W.host.read_file s path

  -- The place of an entry that is safe is not the path.
  apart :
      (name : Text) → is_unsafe (clean name) ≡ false → path ≢ join_path (dest_dir ∷ clean name ∷ [])
  apart name safe e =
      let (no_dots, relative) = safe_parts (clean name) safe in
      outside (
        subst (IsInside dest_dir) (sym e) (join_path-IsInside dest_dir name given no_dots relative))

  write_entry-Keeps :
      (dest content : Text) (s : W.host.State)
      → path ≢ dest
      → Keeps s (write_entry W dest content s).1
  unfolding write_entry
  write_entry-Keeps dest content s other =
      let (c, t) = W.copy_body dest content s in
      let kept = L.read-close_file dest path t other ∙ L.read-copy_body dest content path s other in
      ground (arith, kept)

  extract_entry-Keeps :
      (kind : EntryKind) (name dest content machine : Text) (s : W.host.State)
      → path ≢ dest
      → Keeps s (extract_entry W kind name dest content machine s).1
  unfolding extract_entry
  extract_entry-Keeps folder name dest content machine s other =
      resume_kept (Keeps s) (W.host.mkdir_all dest s) _ (L.read-mkdir_all dest path s) λ u v g. g
  extract_entry-Keeps regular name dest content machine s other =
      resume_kept (Keeps s)
        ((W.host.mkdir_all (dir dest) >> W.create_file dest >> write_entry W dest content) s) _
        (resume_kept (Keeps s) ((W.host.mkdir_all (dir dest) >> W.create_file dest) s) _
          (resume_kept (Keeps s) (W.host.mkdir_all (dir dest) s) _
            (L.read-mkdir_all (dir dest) path s) λ u v g. L.read-create_file dest path v other ∙ g)
          λ u v g. write_entry-Keeps dest content v other ∙ g)
        λ u v g. g
  extract_entry-Keeps other_kind name dest content machine s other = refl

  extract_entries-Keeps :
      (box : Text) (ending : Option Error) (machine : Text) (entries : List Entry)
      (s : W.host.State)
      → Keeps s (extract_entries W box dest_dir ending machine entries s).1
  unfolding extract_entries
  extract_entries-Keeps box none machine [] s = refl
  extract_entries-Keeps box (some e) machine [] s = refl
  extract_entries-Keeps box ending machine (entry ∷ entries) s =
      let name = clean entry.name in
      let dest = join_path (dest_dir ∷ name ∷ []) in
      let t = (extract_entry W entry.kind name dest entry.content machine s).1 in
      elim (Bool-cases (is_unsafe name)) [
        | inl unsafe ↦ ground (arith, unsafe)
        | inr safe ↦
            let kept =
              extract_entry-Keeps entry.kind name dest entry.content machine s
                (apart entry.name safe) in
            elim (Result-cases (extract_entry W entry.kind name dest entry.content machine s).0) [
              | inl (found, e) ↦
                  ground (arith, kept, extract_entries-Keeps box ending found entries t)
              | inr (x, e) ↦ ground (arith, kept)
            ]
      ]

  -- On a host as in `IsFramed`: the extraction of a box writes no file that is not in the target
  -- folder, whatever names the archive has and however it ends. The folder's name is not empty.
  pub extract_box-contained :
      (box : Text) (s : W.host.State)
      → W.host.read_file (extract_box W box dest_dir s).1 path ≡ W.host.read_file s path
  unfolding extract_box
  extract_box-contained box s = elim (Result-cases (W.open_box s box)) [
    | inr (x, e) ↦ rw (e, extract_box) refl
    | inl (contents, e) ↦
        rw (e, extract_box)
          (resume_kept (Keeps s)
            ((W.host.mkdir_all dest_dir >> extract_entries W box dest_dir contents.1 [] contents.0)
              s)
            _
            (resume_kept (Keeps s) (W.host.mkdir_all dest_dir s) _
              (L.read-mkdir_all dest_dir path s)
              λ u v g. extract_entries-Keeps box contents.1 [] contents.0 v ∙ g)
            λ machine v g. g)
  ]
