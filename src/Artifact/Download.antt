-- ===== src/Artifact/Download.antt =====
-- core/artifact/fetch.go: `fetchHTTPS`, the download of a file with its checksum.
pub mod Verified
pub mod Kept
pub mod Memory
mod Tests
use desktop_hypervisor_mcp.Base.{
  ℕ, Bool, true, false, not, ◌&&◌, Option, none, some, List, [], ◌∷◌, ◌++◌, if◌then◌else◌,
}
use desktop_hypervisor_mcp.Base.Int.{pos, itoa}
use desktop_hypervisor_mcp.Base.Text.{Text, text, ◌==◌, is_empty, to_lower, trim_space}
use desktop_hypervisor_mcp.FilePath.{dir}
use desktop_hypervisor_mcp.Provider.Errors.{
  Error, message, wrap, Result, ok, err, M, ◌>>=◌, ◌>>◌, return, fail, lift, with_error,
}
use desktop_hypervisor_mcp.Artifact.Web.{Response, Copied, Web}

-- A checksum as it is compared.
unfoldable pub wanted : Text → Text
wanted sha = to_lower (trim_space sha)

-- The error of a copy, and of the close where the copy has none.
abbrev pub first_error : Option Error → Result (Unit {0}) → Option Error
first_error (some e) closed = some e
first_error none (err e) = some e
first_error none (ok u) = none

abbrev pub result_is : Result Text → Text → Bool
result_is (ok sum) want = sum == want
result_is (err e) want = false

abbrev pub part : Text → Text
part dest = dest ++ text ".part"

module _ (W : Web) where
  -- `fileSHA256`
  unfoldable pub file_sha256 : W.host.State → Text → Result Text
  file_sha256 s path = elim (W.host.read_file s path) [
    | ok content ↦ ok (W.hex_sha256 content)
    | err e ↦ err e
  ]

  -- An error behind which the partial file is removed.
  unfoldable pub discard : Text → Error → M W.host.State Text
  discard tmp e s = (err e, (W.host.remove tmp s).1)

  -- The rename at the end of `fetchHTTPS`.
  unfoldable pub place : Text → Text → Copied → W.host.State → M W.host.State Text
  place url dest c start s =
      let (renamed, t) = W.rename (part dest) dest s in
      elim renamed [
        | err e ↦ discard (part dest) e t
        | ok u ↦
            return
              (text "downloaded "
                ++ (url
                    ++ (text " → "
                        ++ (dest
                            ++ (text " "
                                ++ (W.size_and_time c.count start t
                                    ++ (text ", sha256 " ++ (c.digest ++ text ")"))))))))
              t
      ]

  -- The tests between the copy and the rename.
  unfoldable pub settle :
      Text → Text → Text → Copied → Result (Unit {0}) → W.host.State → M W.host.State Text
  settle url dest want c closed start s = elim (first_error c.failure closed) [
    | some e ↦
        discard (part dest)
          (wrap (text "download failed after " ++ (itoa (pos c.count) ++ text " bytes: ")) e []) s
    | none ↦
        let placed = place url dest c start s in
        if not (is_empty want) && not (c.digest == want)
        then discard (part dest)
            (message (
              text "sha256 mismatch: expected "
              ++ (want ++ (text ", got " ++ (c.digest ++ text " (file discarded)")))))
            s
        else placed
  ]

  -- The body into the partial file.
  unfoldable pub store : Text → Text → Text → Text → M W.host.State Text
  store url dest want body s =
      let (c, copied) = W.copy_body (part dest) body s in
      let (closed, t) = W.close_file (part dest) copied in settle url dest want c closed s t

  unfoldable pub receive : Text → Text → Text → Response → M W.host.State Text
  receive url dest want r =
      if r.is_status_ok
      then (W.create_file (part dest) >> store url dest want r.body)
      else fail (message (text "download failed: HTTP " ++ r.status))

  unfoldable pub download : Text → Text → Text → M W.host.State Text
  download url dest want = do
    W.host.mkdir_all (dir dest)
    lift (W.request url)
    r ← with_error (λ e. wrap (text "download failed: ") e []) (W.http_get url)
    receive url dest want r

  -- `fetchHTTPS`
  unfoldable pub fetch_https : Text → Text → Text → M W.host.State Text
  fetch_https url dest want_sha s =
      let want = wanted want_sha in
      if W.is_https url
      then (if not (is_empty want) && result_is (file_sha256 s dest) want
          then return (text "already present with matching sha256: " ++ dest) s
          else download url dest want s)
      else fail (message (text "only https URLs are allowed")) s
