-- ===== src/Artifact/Registry.antt =====
-- core/artifact/fetch.go: what is chosen from the answers of the download sources, once they are
-- decoded.
pub mod Sums
pub mod Entry
mod Tests
use desktop_hypervisor_mcp.Base.{
  Bool, true, false, ◌||◌, Option, none, some, List, [], ◌∷◌, ◌++◌, if◌then◌else◌, map,
}
use desktop_hypervisor_mcp.Base.Int.{ℤ}
use desktop_hypervisor_mcp.Base.Text.{Text, text, ◌==◌, is_empty, fields, trim_prefix, split, join}
use desktop_hypervisor_mcp.Provider.Errors.{Result, ok, err, message, quote}

-- The checksum of a line with these fields, if it is the line of the file.
unfoldable pub sum_of : Text → List Text → Option Text
sum_of fname (sum ∷ name ∷ []) = if trim_prefix name (text "*") == fname then some sum else none
sum_of fname _ = none

-- The loop of `findSHA256Sum`.
unfoldable pub find_in_lines : Text → List Text → Text
find_in_lines fname [] = []
find_in_lines fname (line ∷ lines) =
    let rest = find_in_lines fname lines in
    elim (sum_of fname (fields line)) [ some sum ↦ sum | none ↦ rest ]

-- `findSHA256Sum`; the empty text if no line lists the file.
unfoldable pub find_sha256_sum : Text → Text → Text
find_sha256_sum sums fname = find_in_lines fname (split b'\n' sums)

-- `ghAsset`
pub record Asset : Type 0 where
  pub name : Text
  pub url : Text
  pub size : ℤ
  pub digest : Text

-- `ghRelease`
pub record Release : Type 0 where
  pub tag_name : Text
  pub assets : List Asset

unfoldable pub asset_named : Text → List Asset → Option Asset
asset_named name [] = none
asset_named name (a ∷ assets) =
    let rest = asset_named name assets in if a.name == name then some a else rest

-- `ghRelease.findAsset`
unfoldable pub find_asset : Release → Text → Result Asset
find_asset r name = elim (asset_named name r.assets) [
  | some a ↦ ok a
  | none ↦ err (
      message (
        text "release "
        ++ (r.tag_name
            ++ (text " has no asset "
                ++ (quote name
                    ++ (text " (assets: ["
                        ++ (join b' ' (map (λ a. a.name) r.assets) ++ text "])")))))))
]

-- `ghAsset.sha256`
unfoldable pub asset_sha256 : Asset → Text
asset_sha256 a = trim_prefix a.digest (text "sha256:")

-- `vagrantProviderEntry`
pub record BoxEntry : Type 0 where
  pub name : Text
  pub architecture : Text
  pub download_url : Text
  pub checksum : Text
  pub checksum_type : Text

-- `vagrantVersion`
pub record BoxVersion : Type 0 where
  pub version : Text
  pub providers : List BoxEntry

-- `vagrantBox`
pub record Box : Type 0 where
  pub current_version : BoxVersion
  pub versions : List BoxVersion

-- An architecture of the time before boxes had one.
unfoldable pub is_legacy : Text → Bool
is_legacy arch = is_empty arch || arch == text "unknown"

-- The fallback after an entry of the provider whose architecture is another one.
abbrev keep_fallback : Option BoxEntry → BoxEntry → Option BoxEntry
keep_fallback (some f) p = some f
keep_fallback none p = if is_legacy p.architecture then some p else none

-- The loop of `vagrantVersion.provider`.
unfoldable pub entry_from : Text → Text → Option BoxEntry → List BoxEntry → Option BoxEntry
entry_from name arch fallback [] = fallback
entry_from name arch fallback (p ∷ ps) =
    let skipped = entry_from name arch fallback ps in
    let kept = entry_from name arch (keep_fallback fallback p) ps in
    if p.name == name then (if p.architecture == arch then some p else kept) else skipped

-- `vagrantVersion.provider`
unfoldable pub box_provider : BoxVersion → Text → Text → Option BoxEntry
box_provider v name arch = entry_from name arch none v.providers

-- The loop of `vagrantResolve` over the versions of a box.
unfoldable pub box_version : Text → Text → Text → Text → List BoxVersion → Result (Text × BoxEntry)
box_version box version name arch [] =
    err (message (text "box " ++ (box ++ (text " has no version " ++ version))))
box_version box version name arch (v ∷ vs) =
    let rest = box_version box version name arch vs in
    if v.version == version
    then elim (box_provider v name arch) [
      | some p ↦ ok (v.version, p)
      | none ↦ err (
          message (
            text "box "
            ++ (box
                ++ (text " "
                    ++ (version
                        ++ (text " has no "
                            ++ (name ++ (text "/" ++ (arch ++ text " artifact")))))))))
    ]
    else rest

-- `vagrantResolve` on the answer of the registry.
unfoldable pub box_resolve : Text → Text → Text → Text → Box → Result (Text × BoxEntry)
box_resolve box version name arch b =
    if is_empty version || version == text "latest"
    then elim (box_provider b.current_version name arch) [
      | some p ↦ ok (b.current_version.version, p)
      | none ↦ err (
          message (
            text "box "
            ++ (box
                ++ (text " has no "
                    ++ (name ++ (text "/" ++ (arch ++ text " artifact in current version")))))))
    ]
    else box_version box version name arch b.versions
