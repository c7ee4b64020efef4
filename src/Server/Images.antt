-- ===== src/Server/Images.antt =====
-- main.go: `artifactTool`. The JSON that is printed of a resolution is left out: the answer is
-- the resolution.
pub mod Served
mod Tests
use desktop_hypervisor_mcp.Base.{Bool, ◌||◌, List, [], ◌∷◌, ◌++◌, if◌then◌else◌}
use desktop_hypervisor_mcp.Base.Text.{Text, text, ◌==◌, is_empty}
use desktop_hypervisor_mcp.Provider.Contract.{ImageFormat, iso}
use desktop_hypervisor_mcp.Provider.Errors.{
  message, wrap, wrap_error, quote, M, ◌>>=◌, return, fail, lift,
}
use desktop_hypervisor_mcp.Provider.Patterns.{Patterns}
use desktop_hypervisor_mcp.Artifact.Catalog.{
  ArtifactKind, github_asset, url, vagrant_box, ubuntu_cloud, talos_factory, Source, catalog,
}
use desktop_hypervisor_mcp.Artifact.Fetch.{Fetched, fetch}
use desktop_hypervisor_mcp.Artifact.Resolve.{Resolved, resolve}
use desktop_hypervisor_mcp.Artifact.Web.{Web}
use desktop_hypervisor_mcp.Server.Discover.{select}
use desktop_hypervisor_mcp.Server.Inputs.{ArtifactIn}
use desktop_hypervisor_mcp.Server.Tools.{unknown_action}

-- The text of an artifact.Kind.
unfoldable pub artifact_kind_text : ArtifactKind → Text
artifact_kind_text github_asset = text "github_asset"
artifact_kind_text url = text "url"
artifact_kind_text vagrant_box = text "vagrant"
artifact_kind_text ubuntu_cloud = text "ubuntu_cloud"
artifact_kind_text talos_factory = text "talos_factory"

-- The line of the catalogue for an image.
unfoldable pub catalog_line : Source → Text
catalog_line s =
    s.name
    ++ (text " | "
        ++ (artifact_kind_text s.kind
            ++ (text " | "
                ++ (s.desc
                    ++ ((if is_empty s.notes then [] else text " — " ++ s.notes) ++ text "\n")))))

-- The loop over the catalogue.
unfoldable pub catalog_lines : List Source → Text
catalog_lines [] = []
catalog_lines (s ∷ ss) = catalog_line s ++ catalog_lines ss

unfoldable pub catalog_text : Text
catalog_text =
    text "name | kind | description\n"
    ++ (catalog_lines catalog
        ++ (text
              "vagrant:org/box | vagrant | any registry box published for the selected provider\n"
            ++ text
                "\nfetch returns a path: ova/ovf/vmx → vm_lifecycle import; iso → vm_config attach_iso"))

-- An answer of `artifactTool`; a download carries its text.
pub data ArtifactOut : Type 0 where
  catalogued : Text → ArtifactOut
  resolution : Resolved → ArtifactOut
  fetched_image : Fetched → Text → ArtifactOut

-- The tool that takes an image of the format.
unfoldable pub next_step : ImageFormat → Text
next_step iso = text "vm_config attach_iso iso="
next_step _ = text "vm_lifecycle import path="

unfoldable pub fetched_text : Resolved → Bool → Fetched → Text
fetched_text r dry_run res =
    res.summary
    ++ ((if is_empty r.notes then [] else text "\nnote: " ++ r.notes)
        ++ (if dry_run then [] else text "\nnext: " ++ (next_step res.format ++ res.path)))

module _ (W : Web) (P : Patterns) where
  -- The resolution of an image for the selected provider.
  unfoldable pub resolve_image : Text → Text → M W.host.State Resolved
  resolve_image id image = do
    o ← select W.host P id
    let d = o.descriptor
    lift (
        wrap_error
          (λ e.
            wrap (text "cannot resolve " ++ (quote image ++ (text " for " ++ (d.id ++ text ": "))))
              e [])
          (resolve W.host.goarch image d))

  unfoldable pub fetch_image : ArtifactIn → Resolved → M W.host.State ArtifactOut
  fetch_image i r = do
    res ← fetch W r i.version i.dir i.dry_run
    return (fetched_image res (fetched_text r i.dry_run res))

  -- The actions `resolve` and `fetch`.
  unfoldable pub image_action : ArtifactIn → M W.host.State ArtifactOut
  image_action i s =
      if is_empty i.image
      then fail (message (i.action ++ text " requires an image name (see action=catalog)")) s
      else (resolve_image i.provider i.image >>= λ r.
            if i.action == text "resolve" then return (resolution r) else fetch_image i r)
          s

  -- `artifactTool`
  unfoldable pub artifact_tool : ArtifactIn → M W.host.State ArtifactOut
  artifact_tool i s =
      if is_empty i.action || i.action == text "catalog"
      then return (catalogued catalog_text) s
      else if i.action == text "resolve" || i.action == text "fetch"
      then image_action i s
      else fail (unknown_action i.action) s
