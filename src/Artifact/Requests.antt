-- ===== src/Artifact/Requests.antt =====
-- core/artifact/fetch.go: the requests to the sources (`githubRelease`, `vagrantResolve`,
-- `ubuntuCloudResolve`, `headSize`).
use desktop_hypervisor_mcp.Base.{Bool, ◌||◌, [], ◌∷◌, ◌++◌, if◌then◌else◌}
use desktop_hypervisor_mcp.Base.Int.{ℤ, pos}
use desktop_hypervisor_mcp.Base.Text.{Text, text, ◌==◌, is_empty, has_prefix}
use desktop_hypervisor_mcp.Provider.Errors.{
  message, wrap, Result, ok, err, M, ◌>>=◌, return, fail, lift, with_error,
}
use desktop_hypervisor_mcp.Artifact.Registry.{Release, BoxEntry, box_resolve, find_sha256_sum}
use desktop_hypervisor_mcp.Artifact.Web.{Web}

unfoldable pub is_latest : Text → Bool
is_latest version = is_empty version || version == text "latest"

-- A version as a tag, which starts with `v`.
unfoldable pub tag_of : Text → Text
tag_of version = if has_prefix version (text "v") then version else text "v" ++ version

-- The address that `githubRelease` asks.
unfoldable pub release_url : Text → Text → Text
release_url repo version =
    if is_latest version
    then text "https://api.github.com/repos/" ++ (repo ++ text "/releases/latest")
    else text "https://api.github.com/repos/"
      ++ (repo ++ (text "/releases/tags/" ++ tag_of version))

abbrev pub listed_sum : Text → Text → Text → Result Text
listed_sum fname version [] =
    err (message (fname ++ (text " not listed in SHA256SUMS for " ++ version)))
listed_sum fname version (c ∷ sum) = ok (c ∷ sum)

-- The length that a server answered with; 0 if the request failed.
abbrev or_none : Result ℤ → ℤ
or_none (ok size) = size
or_none (err e) = pos 0

module _ (W : Web) where
  -- A GET whose answer has to be of status 200; `bad` is the error for another one.
  unfoldable pub get_ok : Text → Text → (Text → Text) → M W.host.State Text
  get_ok address failed bad =
      (lift (W.request address) >>= λ u.
      with_error (λ e. wrap failed e []) (W.http_get address) >>= λ r.
      if r.is_status_ok then return r.body else fail (message (bad r.status)))

  -- `githubRelease`
  unfoldable pub github_release : Text → Text → M W.host.State Release
  github_release repo version = do
    let api = release_url repo version
    body ←
        get_ok api (text "GitHub API request failed: ")
          (λ status. text "GitHub API: HTTP " ++ (status ++ (text " for " ++ api)))
    lift (W.decode_release body)

  -- `vagrantResolve`
  unfoldable pub vagrant_resolve : Text → Text → Text → Text → M W.host.State (Text × BoxEntry)
  vagrant_resolve box version name arch = do
    body ←
        get_ok (text "https://app.vagrantup.com/api/v2/box/" ++ box)
          (text "vagrant registry request failed: ")
          (λ status. text "vagrant registry: HTTP " ++ (status ++ (text " for " ++ box)))
    b ← lift (W.decode_box body)
    lift (box_resolve box version name arch b)

  -- `ubuntuCloudResolve`: the address, the checksum and the name of the file.
  unfoldable pub ubuntu_cloud_resolve : Text → Text → M W.host.State (Text × Text × Text)
  ubuntu_cloud_resolve version_given arch = do
    let version = if is_latest version_given then text "24.04" else version_given
    let folder = text "https://cloud-images.ubuntu.com/releases/" ++ (version ++ text "/release/")
    let fname = text "ubuntu-" ++ (version ++ (text "-server-cloudimg-" ++ (arch ++ text ".ova")))
    answer ← get_ok (folder ++ text "SHA256SUMS") (text "fetching SHA256SUMS: ") (λ status.
        text "SHA256SUMS: HTTP "
        ++ (status ++ (text " (does release " ++ (version ++ text " exist?)"))))
    body ← lift (W.read_limited answer)
    sum ← lift (listed_sum fname version (find_sha256_sum body fname))
    return (folder ++ fname, sum, fname)

  -- `headSize`
  unfoldable pub head_size : Text → W.host.State → ℤ × W.host.State
  head_size address s = elim (W.request address) [
    | err e ↦ (pos 0, s)
    | ok u ↦ let (answer, t) = W.http_head address s in (or_none answer, t)
  ]
