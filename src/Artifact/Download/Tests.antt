-- ===== src/Artifact/Download/Tests.antt =====
-- The theorems about downloads at a network in memory.
use desktop_hypervisor_mcp.Base.{◌≡◌, ◌≢◌, refl, false, [], ◌∷◌}
use desktop_hypervisor_mcp.Base.Text.{
  Text, text, ◌==◌, has_prefix, lower_char, trim_space, trim_left, trim_right, is_space,
}
use desktop_hypervisor_mcp.Provider.Errors.{ok, is_ok}
use desktop_hypervisor_mcp.Provider.Memory.{Files, read_in}
use desktop_hypervisor_mcp.Artifact.Web.{Web}
use desktop_hypervisor_mcp.Artifact.Download.{
  wanted, part, file_sha256, discard, place, settle, store, receive, download, fetch_https,
}
use desktop_hypervisor_mcp.Artifact.Download.Memory.{
  memory_web, memory_web-IsHonest, memory_web-IsFramed,
}
use desktop_hypervisor_mcp.Artifact.Download.Verified.{fetch_https-sha256}
use desktop_hypervisor_mcp.Artifact.Download.Kept.{fetch_https_keeps}

abbrev url : Text
url = text "https://example.org/a"

abbrev dest : Text
dest = text "a"

abbrev good : Web
good = memory_web (text "aa")

fetched : fetch_https good url dest (text " AA") [] ≡ (
  ok (text "downloaded https://example.org/a → a (0.0 MB in 1s, sha256 aa)"),
  (dest, text "aa") ∷ [],
)
unfolding fetch_https download receive store settle place file_sha256 wanted trim_space trim_left
    trim_right is_space lower_char text ◌==◌ has_prefix
fetched = refl

want_named : wanted (text " AA") ≢ []
unfolding wanted trim_space trim_left trim_right is_space lower_char text
want_named e = cc e

fetch_https-sha256_example :
    file_sha256 good ((dest, text "aa") ∷ []) dest ≡ ok (wanted (text " AA"))
fetch_https-sha256_example =
    fetch_https-sha256 good (memory_web-IsHonest (text "aa")) url dest (text " AA") []
      ((dest, text "aa") ∷ [])
      (text "downloaded https://example.org/a → a (0.0 MB in 1s, sha256 aa)") want_named fetched

abbrev old_files : Files
old_files = (dest, text "old") ∷ []

mismatched : is_ok (fetch_https good url dest (text "bb") old_files).0 ≡ false
unfolding fetch_https download receive store settle place discard file_sha256 wanted trim_space
    trim_left trim_right is_space lower_char text ◌==◌ has_prefix
mismatched = refl

dest_other : dest ≢ part dest
unfolding text
dest_other e = cc e

fetch_https_keeps_example :
    read_in (fetch_https good url dest (text "bb") old_files).1 dest ≡ read_in old_files dest
fetch_https_keeps_example =
    fetch_https_keeps good (memory_web-IsFramed (text "aa")) url dest dest dest_other (text "bb")
      old_files mismatched
