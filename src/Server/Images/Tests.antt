-- ===== src/Server/Images/Tests.antt =====
-- A call of `artifactTool` at a host in memory with VirtualBox: the official ISO of Talos.
use desktop_hypervisor_mcp.Base.{◌≡◌, ◌≢◌, ◌⊎◌, refl, false, true, [], ◌∷◌}
use desktop_hypervisor_mcp.Base.Int.{pos}
use desktop_hypervisor_mcp.Base.Text.{
  Text, text, ◌==◌, has_prefix, trim_prefix, replace_from, lower_char, trim_space, trim_left,
  trim_right, is_space, split, join,
}
use desktop_hypervisor_mcp.FilePath.{join_path, clean, clean_parts, clean_onto, from_parts}
use desktop_hypervisor_mcp.Provider.Contract.{
  family, family_text, iso, accepts, accepts_in, ImageFormat-discrete,
}
use desktop_hypervisor_mcp.Provider.Errors.{ok}
use desktop_hypervisor_mcp.Provider.Memory.{Files, no_matches}
use desktop_hypervisor_mcp.Provider.Ops.{Ops}
use desktop_hypervisor_mcp.Artifact.Catalog.{catalog, talos, talos_iso, talos_repo}
use desktop_hypervisor_mcp.Artifact.Download.{
  wanted, file_sha256, place, settle, store, receive, download, fetch_https,
}
use desktop_hypervisor_mcp.Artifact.Download.Memory.{memory_web, memory_web-IsHonest}
use desktop_hypervisor_mcp.Artifact.Download.Verified.{IsHonest}
use desktop_hypervisor_mcp.Artifact.Requests.{is_latest, release_url, get_ok, github_release}
use desktop_hypervisor_mcp.Artifact.Fetch.{Fetched, deliver, fetch_github, fetch}
use desktop_hypervisor_mcp.Artifact.Registry.{Release, find_asset, asset_named, asset_sha256}
use desktop_hypervisor_mcp.Artifact.Resolve.{
  Resolved, is_vagrant, pick, pick_from, find_source, resolve, resolve_source, resolve_variant,
  plain, check_format,
}
use desktop_hypervisor_mcp.Artifact.Summary.{versioned}
use desktop_hypervisor_mcp.Artifact.Web.{Web}
use desktop_hypervisor_mcp.Server.{select_ops, select_id, ops}
use desktop_hypervisor_mcp.Server.Discover.{discover, adapter_ops, select}
use desktop_hypervisor_mcp.Server.Images.{
  fetched_image, next_step, fetched_text, resolve_image, fetch_image, image_action, artifact_tool,
}
use desktop_hypervisor_mcp.Server.Images.Served.{artifact_tool-served}
use desktop_hypervisor_mcp.Server.Inputs.{ArtifactIn}
use desktop_hypervisor_mcp.VirtualBox.Adapter.{new_virtualbox}
use desktop_hypervisor_mcp.VirtualBox.Detect.{
  virtualbox_formats, virtualbox_missing, virtualbox_ready, folder_of, output, detect_virtualbox,
}
use desktop_hypervisor_mcp.VMware.Detect.{detect_vmware}
use desktop_hypervisor_mcp.VMware.Tools.{vmrun_bin, lookup, platform}

abbrev release : Release
release = record {
  tag_name = text "v1";
  assets =
      record {
        name = text "metal-amd64.iso";
        url = text "https://e/a";
        size = pos 0;
        digest = text "sha256:aa";
      }
      ∷ [];
}

-- Every answer is the release, and every file the same.
abbrev iso_web : Web
iso_web = record (memory_web (text "aa")) { decode_release = λ body. ok release }

iso_web-IsHonest : IsHonest iso_web
iso_web-IsHonest =
    let h = memory_web-IsHonest (text "aa") in
    record {
      copy_digest = h.copy_digest;
      read-close_file = h.read-close_file;
      read-rename = h.read-rename;
    }

abbrev call : ArtifactIn
call = record {
  action = text "fetch";
  provider = text "virtualbox-local";
  image = text "talos-iso";
  version = [];
  dry_run = false;
  dir = text "/c";
}

abbrev got : Fetched
got = record {
  path = text "/c/talos-iso-v1-metal-amd64.iso";
  format = iso;
  version = text "v1";
  sha256 = text "aa";
  verified = true;
  summary =
      text
        "downloaded https://e/a → /c/talos-iso-v1-metal-amd64.iso (0.0 MB in 1s, sha256 aa)\nversion: v1";
}

abbrev kept : Files
kept = (text "/c/talos-iso-v1-metal-amd64.iso", text "aa") ∷ []

abbrev note : Text
note =
    text
      "downloaded https://e/a → /c/talos-iso-v1-metal-amd64.iso (0.0 MB in 1s, sha256 aa)\nversion: v1\nnext: vm_config attach_iso iso=/c/talos-iso-v1-metal-amd64.iso"

call_served : artifact_tool iso_web no_matches call [] ≡ (ok (fetched_image got note), kept)
unfolding artifact_tool image_action resolve_image fetch_image fetched_text next_step select
    discover detect_virtualbox detect_vmware output folder_of select_ops select_id ops adapter_ops
    new_virtualbox family family_text virtualbox_formats virtualbox_ready virtualbox_missing
    vmrun_bin lookup platform resolve resolve_source resolve_variant plain check_format find_source
    pick pick_from accepts_in ImageFormat-discrete replace_from catalog talos talos_iso talos_repo
    fetch fetch_github github_release get_ok release_url is_latest find_asset asset_named
    asset_sha256 versioned deliver fetch_https download receive store settle place file_sha256
    wanted trim_space trim_left trim_right is_space lower_char text ◌==◌ has_prefix trim_prefix
    join_path clean clean_parts clean_onto from_parts split join
call_served = refl

given : wanted (text "aa") ≢ []
unfolding wanted trim_space trim_left trim_right is_space lower_char text
given e = cc e

artifact_tool-served_example :
    (o : Ops Files) × (r : Resolved) × ((select iso_web.host no_matches
        (text "virtualbox-local")
        []).0
      ≡ ok o)
    × (resolve (text "amd64") (text "talos-iso") o.descriptor ≡ ok r)
    × (accepts o.descriptor r.format ≡ true)
    × ((is_vagrant r.kind ≡ true) ⊎ (file_sha256 iso_web kept got.path ≡ ok (wanted got.sha256)))
artifact_tool-served_example =
    artifact_tool-served iso_web no_matches iso_web-IsHonest call got note [] kept
      (unfold has_prefix text in refl) refl given call_served
