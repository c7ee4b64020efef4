-- ===== src/Artifact/Registry/Tests.antt =====
-- The answers of the sources of core/artifact/fetch_test.go, and the theorems at them.
use desktop_hypervisor_mcp.Base.{some, [], ◌∷◌, ◌≡◌, ◌≢◌, ◌↔◌, ◌⊎◌, refl, In}
use desktop_hypervisor_mcp.Base.Text.{Text, text, ◌==◌, split}
use desktop_hypervisor_mcp.Artifact.Registry.{
  BoxEntry, BoxVersion, find_sha256_sum, is_legacy, entry_from, box_provider,
}
use desktop_hypervisor_mcp.Artifact.Registry.Sums.{IsSum, find_sha256_sum_iff}
use desktop_hypervisor_mcp.Artifact.Registry.Entry.{
  box_provider_lem, box_provider-arch, first_where, or_else, exact, legacy,
}

abbrev sums : Text
sums = text "aa *other.ova\nbb *a.ova\ncc  a.ova\n"

named : text "bb" ≢ []
unfolding text
named e = cc e

find_sha256_sum_iff_example :
    (find_sha256_sum sums (text "a.ova") ≡ text "bb")
    ↔ IsSum (text "bb") (text "a.ova") (split b'\n' sums)
find_sha256_sum_iff_example = find_sha256_sum_iff sums (text "a.ova") (text "bb") named

abbrev entry : Text → Text → BoxEntry
entry name arch = record {
  name = name;
  architecture = arch;
  download_url = arch;
  checksum = [];
  checksum_type = [];
}

abbrev multi_arch : BoxVersion
multi_arch = record {
  version = text "1";
  providers =
      entry (text "vmware_desktop") (text "arm64")
      ∷ entry (text "virtualbox") (text "arm64")
      ∷ entry (text "virtualbox") (text "unknown")
      ∷ entry (text "virtualbox") (text "amd64")
      ∷ [];
}

amd64_entry :
    box_provider multi_arch (text "virtualbox") (text "amd64")
    ≡ some (entry (text "virtualbox") (text "amd64"))
unfolding box_provider entry_from text ◌==◌ is_legacy
amd64_entry = refl

box_provider-arch_example :
    In (entry (text "virtualbox") (text "amd64")) multi_arch.providers
    × (text "virtualbox" ≡ text "virtualbox")
    × ((text "amd64" ≡ text "amd64") ⊎ (text "amd64" ≡ []) ⊎ (text "amd64" ≡ text "unknown"))
box_provider-arch_example =
    box_provider-arch multi_arch (text "virtualbox") (text "amd64")
      (entry (text "virtualbox") (text "amd64")) amd64_entry

box_provider_lem_example :
    box_provider multi_arch (text "virtualbox") (text "386")
    ≡ or_else
        (first_where (exact (text "virtualbox") (text "386")) multi_arch.providers)
        (first_where (legacy (text "virtualbox")) multi_arch.providers)
box_provider_lem_example = box_provider_lem multi_arch (text "virtualbox") (text "386")
