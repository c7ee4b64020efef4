-- ===== src/Artifact/Download/Kept.antt =====
-- What a download that fails leaves.
use desktop_hypervisor_mcp.Base.{false, ◌≡◌, ◌≢◌, refl, ap, ◌∙◌, arith, inl, inr, Bool-cases}
use desktop_hypervisor_mcp.Base.Text.{Text}
use desktop_hypervisor_mcp.FilePath.{dir}
use desktop_hypervisor_mcp.Provider.Errors.{
  Result, ok, err, M, with_error, is_ok, resume, Result-cases,
}
use desktop_hypervisor_mcp.Artifact.Web.{Response, Copied, Web}
use desktop_hypervisor_mcp.Artifact.Download.{
  wanted, part, discard, place, settle, store, receive, download, fetch_https,
}

-- What is relied on: making folders and asking the network write no file, the operations on one
-- file write no other, and a rename that fails writes none.
pub record IsFramed (W : Web) : Type 0 where
  pub read-mkdir_all :
      (folder path : Text) (s : W.host.State)
      → W.host.read_file (W.host.mkdir_all folder s).1 path ≡ W.host.read_file s path
  pub read-http_get :
      (url path : Text) (s : W.host.State)
      → W.host.read_file (W.http_get url s).1 path ≡ W.host.read_file s path
  pub read-create_file :
      (file path : Text) (s : W.host.State)
      → path ≢ file
      → W.host.read_file (W.create_file file s).1 path ≡ W.host.read_file s path
  pub read-copy_body :
      (file body path : Text) (s : W.host.State)
      → path ≢ file
      → W.host.read_file (W.copy_body file body s).1 path ≡ W.host.read_file s path
  pub read-close_file :
      (file path : Text) (s : W.host.State)
      → path ≢ file
      → W.host.read_file (W.close_file file s).1 path ≡ W.host.read_file s path
  pub read-remove :
      (file path : Text) (s : W.host.State)
      → path ≢ file
      → W.host.read_file (W.host.remove file s).1 path ≡ W.host.read_file s path
  pub read-rename_failed :
      (old new path : Text) (s : W.host.State)
      → is_ok (W.rename old new s).0 ≡ false
      → W.host.read_file (W.rename old new s).1 path ≡ W.host.read_file s path

-- A property of the state that each step keeps, where the steps fail together.
resume_keeps :
    {S A B : Type 0} (P : S → Type 0) (r : Result A × S) (f : A → M S B)
    → P r.1
    → ((a : A) → is_ok (f a r.1).0 ≡ false → P (f a r.1).1)
    → is_ok (resume f r).0 ≡ false
    → P (resume f r).1
resume_keeps P (ok a, s) f p h e = h a e
resume_keeps P (err x, s) f p h e = p

module _ (W : Web) (L : IsFramed W) (url dest path : Text) (other : path ≢ part dest) where
  abbrev Keeps : W.host.State → W.host.State → Type 0
  Keeps s t = W.host.read_file t path ≡ W.host.read_file s path

  place-Keeps :
      (c : Copied) (start s : W.host.State)
      → is_ok (place W url dest c start s).0 ≡ false
      → Keeps s (place W url dest c start s).1
  unfolding place discard
  place-Keeps c start s h = elim (Result-cases (W.rename (part dest) dest s).0) [
    | inl (u, e) ↦ absurd (ground arith)
    | inr (x, e) ↦
        let t = (W.rename (part dest) dest s).1 in
        let kept =
          L.read-remove (part dest) path t other
          ∙ L.read-rename_failed (part dest) dest path s (ap is_ok e) in
        ground (arith, kept)
  ]

  settle-Keeps :
      (want : Text) (c : Copied) (closed : Result (Unit {0})) (start s : W.host.State)
      → is_ok (settle W url dest want c closed start s).0 ≡ false
      → Keeps s (settle W url dest want c closed start s).1
  unfolding settle discard
  settle-Keeps want c closed start s h =
      ground (arith, L.read-remove (part dest) path s other, place-Keeps c start s)

  store-Keeps :
      (want body : Text) (s : W.host.State)
      → is_ok (store W url dest want body s).0 ≡ false
      → Keeps s (store W url dest want body s).1
  unfolding store
  store-Keeps want body s h =
      let (c, copied) = W.copy_body (part dest) body s in
      let (closed, t) = W.close_file (part dest) copied in
      settle-Keeps want c closed s t h
      ∙ L.read-close_file (part dest) path copied other
      ∙ L.read-copy_body (part dest) body path s other

  receive-Keeps :
      (want : Text) (r : Response) (s : W.host.State)
      → is_ok (receive W url dest want r s).0 ≡ false
      → Keeps s (receive W url dest want r s).1
  unfolding receive
  receive-Keeps want r s h = elim (Bool-cases r.is_status_ok) [
    | inl good ↦
        let made = L.read-create_file (part dest) path s other in
        rw good (
          resume_keeps (Keeps s) (W.create_file (part dest) s) (λ u. store W url dest want r.body)
            made (λ u e. store-Keeps want r.body (W.create_file (part dest) s).1 e ∙ made)
            (ground arith))
    | inr bad ↦ rw bad refl
  ]

  download-Keeps :
      (want : Text) (s : W.host.State)
      → is_ok (download W url dest want s).0 ≡ false
      → Keeps s (download W url dest want s).1
  unfolding download
  download-Keeps want s h =
      let made = (W.host.mkdir_all (dir dest) s).1 in
      let m = L.read-mkdir_all (dir dest) path s in
      let g = L.read-http_get url path made in
      resume_keeps (Keeps s) (W.host.mkdir_all (dir dest) s) _ m
        (λ u.
          resume_keeps (Keeps s) (W.request url, made) _ m
            (λ v.
              resume_keeps (Keeps s) (with_error _ (W.http_get url) made) _ (g ∙ m)
                (λ r e. receive-Keeps want r (W.http_get url made).1 e ∙ g ∙ m)))
        h

  -- On a host as in `IsFramed`: where `fetchHTTPS` fails, every file but the partial one is as it
  -- was, the one at its place among them.
  pub fetch_https_keeps :
      (want_sha : Text) (s : W.host.State)
      → is_ok (fetch_https W url dest want_sha s).0 ≡ false
      → W.host.read_file (fetch_https W url dest want_sha s).1 path ≡ W.host.read_file s path
  unfolding fetch_https
  fetch_https_keeps want_sha s h = ground (arith, download-Keeps (wanted want_sha) s)
