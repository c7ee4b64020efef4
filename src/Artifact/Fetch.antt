-- ===== src/Artifact/Fetch.antt =====
-- core/artifact/fetch.go: `Fetch`.
pub mod Checked
pub mod Flagged
pub mod Warned
pub mod DryRun
mod Tests
use desktop_hypervisor_mcp.Base.{
  Bool, true, false, not, ◌&&◌, ◌||◌, Option, none, some, List, [], ◌∷◌, ◌++◌, if◌then◌else◌,
}
use desktop_hypervisor_mcp.Base.Int.{ℤ, pos, is_pos}
use desktop_hypervisor_mcp.Base.Text.{
  Text, text, ◌==◌, or_text, is_empty, has_prefix, to_lower, equal_fold, replace_all,
}
use desktop_hypervisor_mcp.FilePath.{join_path, ext}
use desktop_hypervisor_mcp.Provider.Contract.{ImageFormat, ovf, vmx, ova, format_text}
use desktop_hypervisor_mcp.Provider.Errors.{
  message, wrap, Result, ok, err, M, ◌>>=◌, ◌>>◌, return, fail, lift, with_error,
}
use desktop_hypervisor_mcp.Provider.Host.{Host}
use desktop_hypervisor_mcp.Artifact.Catalog.{
  github_asset, url, vagrant_box, ubuntu_cloud, talos_factory, talos_repo,
}
use desktop_hypervisor_mcp.Artifact.Resolve.{Resolved}
use desktop_hypervisor_mcp.Artifact.Registry.{
  Asset, Release, find_asset, asset_sha256, BoxEntry, Box, box_resolve, find_sha256_sum,
}
use desktop_hypervisor_mcp.Artifact.Summary.{
  size_text, github_preview, talos_preview, url_preview, ubuntu_preview, box_preview, versioned,
  talos_unverified, unverified, extracted_to,
}
use desktop_hypervisor_mcp.Artifact.Web.{Response, Web}
use desktop_hypervisor_mcp.Artifact.Requests.{
  is_latest, tag_of, github_release, vagrant_resolve, ubuntu_cloud_resolve, head_size,
}
use desktop_hypervisor_mcp.Artifact.Download.{fetch_https}
use desktop_hypervisor_mcp.Artifact.Extract.{extract_box}

-- `FetchResult`
pub record Fetched : Type 0 where
  pub path : Text
  pub format : ImageFormat
  pub version : Text
  pub sha256 : Text
  pub verified : Bool
  pub summary : Text

-- `talosFactoryURL`
unfoldable pub talos_factory_url : Text → Text → Text → Text
talos_factory_url schematic tag asset =
    text "https://factory.talos.dev/image/"
    ++ (schematic ++ (text "/" ++ (tag ++ (text "/" ++ asset))))

-- `formatOf`
unfoldable pub format_of : Text → ImageFormat → ImageFormat
format_of path fallback =
    let e = to_lower (ext path) in
    if e == text ".ovf"
    then ovf
    else if e == text ".vmx"
    then vmx
    else if e == text ".ova"
    then ova
    else fallback

-- The checksum of a box entry, where it is a SHA-256.
unfoldable pub box_sum : BoxEntry → Text
box_sum p =
    if equal_fold p.checksum_type (text "sha256") && not (is_empty p.checksum)
    then p.checksum
    else []

abbrev pub named : Text → Text → Text → Text
named source tag asset = source ++ (text "-" ++ (tag ++ (text "-" ++ asset)))

-- `DefaultDir`
unfoldable pub default_dir : Host → Text
default_dir H =
    let d = H.getenv (text "HV_IMAGE_DIR") in
    if not (is_empty d) then d else elim H.user_home [
      | err e ↦ text "."
      | ok home ↦ join_path (home ∷ text ".hypervisor-images" ∷ [])
    ]

-- The directory that `Fetch` saves to.
abbrev pub directory : Web → Text → Text
directory W given = if is_empty given then default_dir W.host else given

module _ (W : Web) where
  -- The download behind a dry run; `behind` makes the summary of its line.
  unfoldable pub deliver : Bool → Text → Text → (Text → Text) → Fetched → M W.host.State Fetched
  deliver true address sum behind res = return res
  deliver false address sum behind res =
      (fetch_https W address res.path sum >>= λ out. return (record res { summary = behind out }))

  -- The same for a source that publishes no checksum, whose dry run asks for the size; `preview`
  -- makes the summary of the size.
  unfoldable pub deliver_unverified :
      Bool → Text → (Text → Text) → (Text → Text) → Fetched → M W.host.State Fetched
  deliver_unverified true address preview behind res s =
      let (size, t) = head_size W address s in
      return (record res { summary = preview (size_text W.megabytes size) }) t
  deliver_unverified false address preview behind res s = deliver false address [] behind res s

  unfoldable pub fetch_github : Resolved → Text → Text → Bool → M W.host.State Fetched
  fetch_github r version dir dry_run = do
    rel ← github_release W r.locator version
    asset ← lift (find_asset rel r.asset)
    let dest = join_path (dir ∷ named r.source rel.tag_name asset.name ∷ [])
    let sum = asset_sha256 asset
    deliver dry_run asset.url sum (versioned rel.tag_name) (record {
      path = dest;
      format = r.format;
      version = rel.tag_name;
      sha256 = sum;
      verified = not (is_empty sum);
      summary = github_preview r rel.tag_name asset.url (W.megabytes asset.size) sum dest;
    })

  -- The tag of a Talos version.
  unfoldable pub talos_tag : Text → M W.host.State Text
  talos_tag version s =
      let latest = (github_release W talos_repo [] >>= λ rel. return rel.tag_name) s in
      if is_latest version then latest else return (tag_of version) s

  unfoldable pub fetch_talos : Resolved → Text → Text → Bool → M W.host.State Fetched
  fetch_talos r version dir dry_run = do
    tag ← talos_tag version
    let address = talos_factory_url r.locator tag r.asset
    let dest = join_path (dir ∷ named r.source tag r.asset ∷ [])
    deliver_unverified dry_run address (talos_preview r tag address dest) (talos_unverified tag)
        (record {
          path = dest;
          format = r.format;
          version = tag;
          sha256 = [];
          verified = false;
          summary = [];
        })

  unfoldable pub fetch_ubuntu : Resolved → Text → Text → Bool → M W.host.State Fetched
  fetch_ubuntu r version dir dry_run = do
    found ← ubuntu_cloud_resolve W version (or_text r.arch (text "amd64"))
    let dest = join_path (dir ∷ found.2 ∷ [])
    deliver dry_run found.0 found.1 (λ out. out)
        (record {
          path = dest;
          format = r.format;
          version = [];
          sha256 = found.1;
          verified = true;
          summary = ubuntu_preview r found.0 found.1 dest;
        })

  unfoldable pub fetch_url : Resolved → Text → Bool → M W.host.State Fetched
  fetch_url r dir dry_run =
      let dest = join_path (dir ∷ (r.source ++ (text "." ++ format_text r.format)) ∷ []) in
      deliver_unverified dry_run r.locator (url_preview r dest) unverified (record {
        path = dest;
        format = r.format;
        version = [];
        sha256 = [];
        verified = false;
        summary = [];
      })

  -- A box behind its dry run: the download and the extraction.
  unfoldable pub deliver_box : Bool → Text → Text → Text → Fetched → M W.host.State Fetched
  deliver_box true address box sum res = return res
  deliver_box false address box sum res =
      (fetch_https W address box sum >>= λ out. extract_box W box res.path >>= λ machine.
      return (record res {
        path = machine;
        format = format_of machine res.format;
        summary = extracted_to sum res.path out;
      }))

  unfoldable pub fetch_box : Resolved → Text → Text → Bool → M W.host.State Fetched
  fetch_box r version dir dry_run = do
    let arch = or_text r.arch (text "amd64")
    found ← vagrant_resolve W r.locator version r.vagrant_provider arch
    let sum = box_sum found.1
    let key =
        replace_all r.locator (text "/") (text "-")
        ++ (text "-" ++ (found.0 ++ (text "-" ++ (r.vagrant_provider ++ (text "-" ++ arch)))))
    let box = join_path (dir ∷ text "boxes" ∷ (key ++ text ".box") ∷ [])
    let dest = join_path (dir ∷ text "boxes" ∷ key ∷ [])
    deliver_box dry_run (found.1).download_url box sum (record {
      path = dest;
      format = r.format;
      version = found.0;
      sha256 = sum;
      verified = not (is_empty sum);
      summary = box_preview r found.0 arch (found.1).download_url sum box dest;
    })

  -- `Fetch`
  unfoldable pub fetch : Resolved → Text → Text → Bool → M W.host.State Fetched
  fetch r version dir_given dry_run s =
      let dir = directory W dir_given in
      elim r.kind [
        | github_asset ↦ fetch_github r version dir dry_run s
        | talos_factory ↦ fetch_talos r version dir dry_run s
        | ubuntu_cloud ↦ fetch_ubuntu r version dir dry_run s
        | url ↦ fetch_url r dir dry_run s
        | vagrant_box ↦
            if is_empty r.vagrant_provider
            then fail (message (text "resolved vagrant artifact carries no provider name")) s
            else fetch_box r version dir dry_run s
      ]
