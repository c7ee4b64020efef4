-- ===== src/Artifact/Summary.antt =====
-- core/artifact/fetch.go: the summaries of `Fetch`. How a size prints is a parameter.
pub mod Warns
use desktop_hypervisor_mcp.Base.{◌++◌, if◌then◌else◌}
use desktop_hypervisor_mcp.Base.Int.{ℤ, is_pos}
use desktop_hypervisor_mcp.Base.Text.{Text, text, is_empty}
use desktop_hypervisor_mcp.Artifact.Resolve.{Resolved}

-- The size that a dry run prints, where the server knows it.
unfoldable pub size_text : (ℤ → Text) → ℤ → Text
size_text megabytes size = if is_pos size then megabytes size else text "unknown"

unfoldable pub github_preview : Resolved → Text → Text → Text → Text → Text → Text
github_preview r tag url size sum dest =
    text "resolved "
    ++ (r.source
        ++ (text " "
            ++ (tag
                ++ (text " from "
                    ++ (r.locator
                        ++ (text "\n  url: "
                            ++ (url
                                ++ (text "\n  size: "
                                    ++ (size
                                        ++ (text "\n  sha256: "
                                            ++ (sum
                                                ++ (text "\n  would save to: " ++ dest))))))))))))

-- What a preview without a checksum says behind the address.
unfoldable pub unverified_preview : Text → Text → Text → Text
unverified_preview url dest size =
    text "\n  url: "
    ++ (url
        ++ (text "\n  size: "
            ++ (size
                ++ (text "\n  no published checksum — would download UNVERIFIED\n  would save to: "
                    ++ dest))))

unfoldable pub talos_preview : Resolved → Text → Text → Text → Text → Text
talos_preview r tag url dest size =
    text "resolved "
    ++ (r.source
        ++ (text " " ++ (tag ++ (text " from Image Factory" ++ unverified_preview url dest size))))

unfoldable pub url_preview : Resolved → Text → Text → Text
url_preview r dest size = text "resolved " ++ (r.source ++ unverified_preview r.locator dest size)

unfoldable pub ubuntu_preview : Resolved → Text → Text → Text → Text
ubuntu_preview r url sum dest =
    text "resolved "
    ++ (r.source
        ++ (text "\n  url: "
            ++ (url ++ (text "\n  sha256: " ++ (sum ++ (text "\n  would save to: " ++ dest))))))

unfoldable pub box_preview : Resolved → Text → Text → Text → Text → Text → Text → Text
box_preview r version arch url sum box dest =
    text "resolved vagrant box "
    ++ (r.locator
        ++ (text " "
            ++ (version
                ++ (text " ("
                    ++ (r.vagrant_provider
                        ++ (text " provider, "
                            ++ (arch
                                ++ (text ")\n  url: "
                                    ++ (url
                                        ++ (text "\n  "
                                            ++ ((if is_empty sum
                                                  then text
                                                      "registry publishes no sha256 for this version — would download UNVERIFIED"
                                                  else text "sha256: " ++ sum)
                                                ++ (text "\n  would save to: "
                                                    ++ (box
                                                        ++ (text " and extract to: "
                                                            ++ dest))))))))))))))

-- The summaries of downloads, behind the line of `fetchHTTPS`.
unfoldable pub versioned : Text → Text → Text
versioned tag out = out ++ (text "\nversion: " ++ tag)

unfoldable pub talos_unverified : Text → Text → Text
talos_unverified tag out =
    out
    ++ (text "\nversion: "
        ++ (tag ++ text "\nWARNING: Image Factory publishes no checksum — unverified"))

unfoldable pub unverified : Text → Text
unverified out = out ++ text "\nWARNING: no published checksum — unverified"

unfoldable pub extracted_to : Text → Text → Text → Text
extracted_to sum dest out =
    (if is_empty sum
      then out ++ text "\nWARNING: registry publishes no sha256 for this version — unverified"
      else out)
    ++ (text "\nextracted: " ++ dest)
