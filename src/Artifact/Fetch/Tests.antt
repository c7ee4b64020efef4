-- ===== src/Artifact/Fetch/Tests.antt =====
-- `Fetch` of a release asset in memory.
use desktop_hypervisor_mcp.Base.{◌≡◌, ◌≢◌, refl, true, false, [], ◌∷◌}
use desktop_hypervisor_mcp.Base.Int.{pos}
use desktop_hypervisor_mcp.Base.Text.{
  text, ◌==◌, has_prefix, trim_prefix, lower_char, trim_space, trim_left, trim_right, is_space,
  split, join,
}
use desktop_hypervisor_mcp.FilePath.{join_path, clean, clean_parts, clean_onto, from_parts}
use desktop_hypervisor_mcp.Provider.Contract.{ova, format_text}
use desktop_hypervisor_mcp.Provider.Errors.{ok}
use desktop_hypervisor_mcp.Provider.Memory.{Files}
use desktop_hypervisor_mcp.Artifact.Catalog.{github_asset, url}
use desktop_hypervisor_mcp.Artifact.Resolve.{Resolved}
use desktop_hypervisor_mcp.Artifact.Registry.{Release, find_asset, asset_named, asset_sha256}
use desktop_hypervisor_mcp.Artifact.Summary.{versioned, unverified}
use desktop_hypervisor_mcp.Artifact.Summary.Warns.{IsWarned}
use desktop_hypervisor_mcp.Artifact.Web.{Web}
use desktop_hypervisor_mcp.Artifact.Download.{
  wanted, file_sha256, place, settle, store, receive, download, fetch_https,
}
use desktop_hypervisor_mcp.Artifact.Download.Memory.{memory_web, memory_web-IsHonest}
use desktop_hypervisor_mcp.Artifact.Download.Verified.{IsHonest}
use desktop_hypervisor_mcp.Artifact.Requests.{is_latest, release_url, get_ok, github_release}
use desktop_hypervisor_mcp.Artifact.Fetch.{
  Fetched, deliver, deliver_unverified, fetch_github, fetch_url, fetch,
}
use desktop_hypervisor_mcp.Artifact.Fetch.Checked.{fetch_sha256}
use desktop_hypervisor_mcp.Artifact.Fetch.Flagged.{IsFlagged, fetch-IsFlagged}
use desktop_hypervisor_mcp.Artifact.Fetch.Warned.{fetch-SaysSo}
use desktop_hypervisor_mcp.Artifact.Fetch.DryRun.{IsReadOnly, fetch_dry_run}

abbrev release : Release
release = record {
  tag_name = text "v1";
  assets =
      record {
        name = text "a.ova";
        url = text "https://e/a";
        size = pos 0;
        digest = text "sha256:aa";
      }
      ∷ [];
}

-- Every answer is the release, and every file the same.
abbrev release_web : Web
release_web = record (memory_web (text "aa")) { decode_release = λ body. ok release }

release_web-IsHonest : IsHonest release_web
release_web-IsHonest =
    let h = memory_web-IsHonest (text "aa") in
    record {
      copy_digest = h.copy_digest;
      read-close_file = h.read-close_file;
      read-rename = h.read-rename;
    }

abbrev asset : Resolved
asset = record {
  source = text "t";
  kind = github_asset;
  locator = text "o/r";
  asset = text "a.ova";
  format = ova;
  arch = [];
  notes = [];
  vagrant_provider = [];
}

abbrev got : Fetched
got = record {
  path = text "/c/t-v1-a.ova";
  format = ova;
  version = text "v1";
  sha256 = text "aa";
  verified = true;
  summary = text "downloaded https://e/a → /c/t-v1-a.ova (0.0 MB in 1s, sha256 aa)\nversion: v1";
}

abbrev kept : Files
kept = (text "/c/t-v1-a.ova", text "aa") ∷ []

asset_fetched : fetch release_web asset [] (text "/c") false [] ≡ (ok got, kept)
unfolding fetch fetch_github github_release get_ok release_url is_latest find_asset asset_named
    asset_sha256 versioned deliver fetch_https download receive store settle place file_sha256
    wanted trim_space trim_left trim_right is_space lower_char text ◌==◌ has_prefix trim_prefix
    join_path clean clean_parts clean_onto from_parts split join
asset_fetched = refl

got_named : wanted (text "aa") ≢ []
unfolding wanted trim_space trim_left trim_right is_space lower_char text
got_named e = cc e

fetch_sha256_example : file_sha256 release_web kept got.path ≡ ok (wanted got.sha256)
fetch_sha256_example =
    fetch_sha256 release_web release_web-IsHonest asset [] (text "/c") got [] kept refl
      asset_fetched got_named

release_web-IsReadOnly : IsReadOnly release_web
release_web-IsReadOnly = record {
  read-http_get = λ address path s. refl;
  read-http_head = λ address path s. refl;
}

fetch_dry_run_example :
    release_web.host.read_file
      (fetch release_web asset [] (text "/c") true kept).1
      (text "/c/t-v1-a.ova")
    ≡ release_web.host.read_file kept (text "/c/t-v1-a.ova")
fetch_dry_run_example =
    fetch_dry_run release_web release_web-IsReadOnly (text "/c/t-v1-a.ova") kept asset []
      (text "/c")

fetch-IsFlagged_example : IsFlagged got
fetch-IsFlagged_example =
    fetch-IsFlagged release_web asset [] (text "/c") false got [] kept asset_fetched

abbrev pinned : Resolved
pinned = record asset { kind = url; locator = text "https://e/a" }

abbrev pinned_got : Fetched
pinned_got = record {
  path = text "/c/t.ova";
  format = ova;
  version = [];
  sha256 = [];
  verified = false;
  summary =
      text
        "downloaded https://e/a → /c/t.ova (0.0 MB in 1s, sha256 aa)\nWARNING: no published checksum — unverified";
}

abbrev pinned_kept : Files
pinned_kept = (text "/c/t.ova", text "aa") ∷ []

pinned_fetched : fetch release_web pinned [] (text "/c") false [] ≡ (ok pinned_got, pinned_kept)
unfolding fetch fetch_url format_text unverified deliver_unverified deliver fetch_https download
    receive store settle place file_sha256 wanted trim_space trim_left trim_right is_space
    lower_char text ◌==◌ has_prefix trim_prefix join_path clean clean_parts clean_onto from_parts
    split join
pinned_fetched = refl

pinned_kind : pinned.kind ≢ github_asset
pinned_kind e = cc e

fetch-SaysSo_example : IsWarned pinned_got.summary
fetch-SaysSo_example =
    fetch-SaysSo release_web pinned [] (text "/c") false pinned_got [] pinned_kept pinned_kind
      pinned_fetched refl
