-- ===== src/Artifact/Download/Verified.antt =====
-- What a download leaves at its place.
use desktop_hypervisor_mcp.Base.{
  true, false, not, ◌&&◌, Option, none, some, [], ◌∷◌, ◌≡◌, ◌≢◌, refl, sym, ap, ◌∙◌, arith, inl,
  inr, Bool-cases, Option-cases,
}
use desktop_hypervisor_mcp.Base.Text.{Text, ◌==◌, is_empty}
use desktop_hypervisor_mcp.Base.Text.Equal.{eq_iff}
use desktop_hypervisor_mcp.FilePath.{dir}
use desktop_hypervisor_mcp.Provider.Errors.{Error, Result, ok, err, ◌>>◌, with_error, >>=-eq-ok}
use desktop_hypervisor_mcp.Artifact.Web.{Response, Copied, Web}
use desktop_hypervisor_mcp.Artifact.Download.{
  wanted, first_error, result_is, part, file_sha256, discard, place, settle, store, receive,
  download, fetch_https,
}

-- What is relied on: a copy without an error leaves a file with the hash that it has computed,
-- closing the file leaves its content, and a rename puts the content at its new place.
pub record IsHonest (W : Web) : Type 0 where
  pub copy_digest :
      (path body : Text) (s : W.host.State)
      → let (c, t) = W.copy_body path body s in
        c.failure ≡ none
        → (content : Text) × (W.host.read_file t path ≡ ok content)
          × (c.digest ≡ W.hex_sha256 content)
  pub read-close_file :
      (path : Text) (s : W.host.State)
      → W.host.read_file (W.close_file path s).1 path ≡ W.host.read_file s path
  pub read-rename :
      (old new : Text) (s t : W.host.State)
      → W.rename old new s ≡ (ok tt, t)
      → W.host.read_file t new ≡ W.host.read_file s old

first_error-none :
    (e : Option Error) (closed : Result (Unit {0})) → first_error e closed ≡ none → e ≡ none
first_error-none none closed h = refl
first_error-none (some e) closed h = h

is_empty-ne : (t : Text) → t ≢ [] → is_empty t ≡ false
is_empty-ne [] h = absurd (h refl)
is_empty-ne (x ∷ t) h = refl

result_is-eq_ok : (r : Result Text) (want : Text) → result_is r want ≡ true → r ≡ ok want
result_is-eq_ok (ok sum) want h = ap ok ((eq_iff sum want).0 h)
result_is-eq_ok (err e) want h = cc h

module _ (W : Web) where
  place-eq-ok :
      (url dest : Text) (c : Copied) (start s t : W.host.State) {out : Text}
      → place W url dest c start s ≡ (ok out, t)
      → W.rename (part dest) dest s ≡ (ok tt, t)
  unfolding place discard
  place-eq-ok url dest c start s t h = ground arith

  settle-eq-ok :
      (url dest want : Text) (c : Copied) (closed : Result (Unit {0})) (start s t : W.host.State)
      {out : Text}
      → want ≢ []
      → settle W url dest want c closed start s ≡ (ok out, t)
      → (c.failure ≡ none) × (c.digest ≡ want) × (place W url dest c start s ≡ (ok out, t))
  unfolding settle discard
  settle-eq-ok url dest want c closed start s t named h =
      elim (Option-cases (first_error c.failure closed)) [
        | inr (e, failed) ↦ absurd (ground arith)
        | inl clean ↦ elim (Bool-cases (c.digest == want)) [
          | inl same ↦
              (first_error-none c.failure closed clean, (eq_iff c.digest want).0 same, ground arith)
          | inr other ↦ absurd (ground (arith, is_empty-ne want named))
        ]
      ]

  store-eq-ok :
      IsHonest W
      → (url dest want body : Text) (s t : W.host.State) {out : Text} → want ≢ []
      → store W url dest want body s ≡ (ok out, t)
      → file_sha256 W t dest ≡ ok want
  unfolding store file_sha256
  store-eq-ok L url dest want body s t named h =
      let (c, copied) = W.copy_body (part dest) body s in
      let (closed, u) = W.close_file (part dest) copied in
      let (clean, same, placed) = settle-eq-ok url dest want c closed s u t named h in
      let (content, there, hashed) = L.copy_digest (part dest) body s clean in
      let reads : W.host.read_file t dest ≡ ok content =
        L.read-rename (part dest) dest u t (place-eq-ok url dest c s u t placed)
        ∙ L.read-close_file (part dest) copied
        ∙ there in
      rw (file_sha256, reads) (ap ok (sym hashed ∙ same))

  receive-eq-ok :
      IsHonest W
      → (url dest want : Text) (r : Response) (s t : W.host.State) (out : Text) → want ≢ []
      → receive W url dest want r s ≡ (ok out, t)
      → file_sha256 W t dest ≡ ok want
  unfolding receive
  receive-eq-ok L url dest want r s t out named h = elim (Bool-cases r.is_status_ok) [
    | inl good ↦
        let h1 : (W.create_file (part dest) >> store W url dest want r.body) s ≡ (ok out, t) =
          ground arith in
        let (x, s1, made, h2) = >>=-eq-ok (W.create_file (part dest)) _ s h1 in
        store-eq-ok L url dest want r.body s1 t named h2
    | inr bad ↦ absurd (ground arith)
  ]

  download-eq-ok :
      IsHonest W
      → (url dest want : Text) (s t : W.host.State) (out : Text) → want ≢ []
      → download W url dest want s ≡ (ok out, t)
      → file_sha256 W t dest ≡ ok want
  unfolding download
  download-eq-ok L url dest want s t out named h =
      let (x, s1, made, h1) = >>=-eq-ok (W.host.mkdir_all (dir dest)) _ s h in
      let (y, s2, asked, h2) = >>=-eq-ok (λ u. (W.request url, u)) _ s1 h1 in
      let (r, s3, got, h3) = >>=-eq-ok (with_error _ (W.http_get url)) _ s2 h2 in
      receive-eq-ok L url dest want r s3 t out named h3

  -- On a host as in `IsHonest`: where `fetchHTTPS` is given a checksum and goes well, the file at
  -- its place has that checksum, also where it was there before.
  pub fetch_https-sha256 :
      IsHonest W
      → (url dest want_sha : Text) (s t : W.host.State) (out : Text) → wanted want_sha ≢ []
      → fetch_https W url dest want_sha s ≡ (ok out, t)
      → file_sha256 W t dest ≡ ok (wanted want_sha)
  unfolding fetch_https
  fetch_https-sha256 L url dest want_sha s t out named h = elim (Bool-cases (W.is_https url)) [
    | inr plain ↦ absurd (ground arith)
    | inl secure ↦
        elim (Bool-cases (
          not (is_empty (wanted want_sha)) && result_is (file_sha256 W s dest) (wanted want_sha))) [
            | inl present ↦
                let same : s ≡ t = ground arith in
                ap (λ u. file_sha256 W u dest) (sym same)
                ∙ result_is-eq_ok (file_sha256 W s dest) (wanted want_sha) (ground arith)
            | inr absent ↦ download-eq-ok L url dest (wanted want_sha) s t out named (ground arith)
          ]
  ]
