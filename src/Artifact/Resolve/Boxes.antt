-- ===== src/Artifact/Resolve/Boxes.antt =====
-- `Resolve` and `Fetch` agree on vagrant boxes: what is fetched as a box names a box provider.
use desktop_hypervisor_mcp.Base.{
  true, [], ◌≡◌, ◌≢◌, ◌∙◌, inl, inr, arith, All, All-In, Bool-cases, ap, sym,
}
use desktop_hypervisor_mcp.Base.Text.{Text, text, has_prefix}
use desktop_hypervisor_mcp.Base.Text.Equal.{eq_iff}
use desktop_hypervisor_mcp.Provider.Contract.{Descriptor, vagrant_provider, family, family_text}
use desktop_hypervisor_mcp.Provider.Errors.{ok}
use desktop_hypervisor_mcp.Artifact.Catalog.{
  Variant, Source, catalog, talos, talos_iso, windows_dev, ubuntu_cloud_source, turnkey_core,
  vagrant_source,
}
use desktop_hypervisor_mcp.Artifact.Resolve.{
  Resolved, is_vagrant, get_or, resolve_box, resolve, arch_of,
}
use desktop_hypervisor_mcp.Artifact.Resolve.Pick.{pick-best}
use desktop_hypervisor_mcp.Artifact.Resolve.Sound.{ComesFrom, resolve-ComesFrom}

-- The kind of a variant is that of a box exactly if its source's is.
abbrev IsUniform : Source → Type 0
IsUniform s = All (λ v. is_vagrant (get_or v.kind s.kind) ≡ is_vagrant s.kind) s.variants

catalog-IsUniform : All IsUniform catalog
unfolding catalog talos talos_iso windows_dev ubuntu_cloud_source turnkey_core vagrant_source
catalog-IsUniform = ground arith

boxed_of_entry :
    (image arch : Text) (d : Descriptor) (src : Source) (v : Variant) (r : Resolved)
    → ComesFrom image arch d src v r
    → is_vagrant r.kind ≡ true
    → r.vagrant_provider ≢ []
boxed_of_entry image arch d src v r c boxes =
    let uniform = All-In IsUniform src catalog catalog-IsUniform c.listed in
    let known = (pick-best (family_text (family d.kind)) arch src.variants v c.picked).0 in
    c.boxed (sym (All-In _ v src.variants uniform known) ∙ ap is_vagrant (sym c.kind_is) ∙ boxes)

-- A resolved artifact of the vagrant kind carries the name of a box provider, whatever the image.
pub resolve-boxed :
    (goarch image : Text) (d : Descriptor) (r : Resolved)
    → resolve goarch image d ≡ ok r
    → is_vagrant r.kind ≡ true
    → r.vagrant_provider ≢ []
resolve-boxed goarch image d r h boxes = elim (Bool-cases (has_prefix image (text "vagrant:"))) [
  | inl passed ↦ unfold resolve resolve_box in ground (arith, eq_iff (vagrant_provider d.kind) [])
  | inr catalogued ↦
      let (src, v, c) = resolve-ComesFrom goarch image d r catalogued h in
      boxed_of_entry image (arch_of goarch d) d src v r c boxes
]
