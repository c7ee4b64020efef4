-- ===== src/Artifact/Fetch/Checked.antt =====
-- What `Fetch` leaves at the path that it returns.
use desktop_hypervisor_mcp.Base.{false, [], ◌≡◌, ◌≢◌, refl, ap, ◌∙◌, subst, arith}
use desktop_hypervisor_mcp.Base.Text.{Text, text, or_text, trim_space, trim_left, trim_right}
use desktop_hypervisor_mcp.Provider.Errors.{Result, ok, lift, >>=-eq-ok}
use desktop_hypervisor_mcp.Artifact.Catalog.{
  ArtifactKind, github_asset, url, vagrant_box, ubuntu_cloud, talos_factory,
}
use desktop_hypervisor_mcp.Artifact.Resolve.{Resolved, is_vagrant}
use desktop_hypervisor_mcp.Artifact.Registry.{find_asset}
use desktop_hypervisor_mcp.Artifact.Web.{Web}
use desktop_hypervisor_mcp.Artifact.Download.{wanted, file_sha256, fetch_https}
use desktop_hypervisor_mcp.Artifact.Download.Verified.{IsHonest, fetch_https-sha256}
use desktop_hypervisor_mcp.Artifact.Requests.{github_release, ubuntu_cloud_resolve}
use desktop_hypervisor_mcp.Artifact.Fetch.{
  directory, Fetched, deliver, deliver_unverified, fetch_github, talos_tag, fetch_talos,
  fetch_ubuntu, fetch_url, fetch,
}

wanted-nil : wanted [] ≡ []
unfolding wanted trim_space trim_left trim_right
wanted-nil = refl

module _ (W : Web) (L : IsHonest W) where
  -- Where a checksum is returned, the file at the path has it.
  abbrev IsChecked : Fetched → W.host.State → Type 0
  IsChecked res t = wanted res.sha256 ≢ [] → file_sha256 W t res.path ≡ ok (wanted res.sha256)

  return-IsChecked :
      (res out : Fetched) (u t : W.host.State)
      → IsChecked res u
      → ◌≡◌ {A = Result Fetched × W.host.State} (ok res, u) (ok out, t)
      → IsChecked out t
  return-IsChecked res out u t h e =
      let same : res ≡ out = ground arith in
      let there : u ≡ t = ap (λ p. p.1) e in
      subst (λ r. IsChecked r t) same (subst (IsChecked res) there h)

  deliver-IsChecked :
      (address : Text) (behind : Text → Text) (res out : Fetched) (s t : W.host.State)
      → deliver W false address res.sha256 behind res s ≡ (ok out, t)
      → IsChecked out t
  unfolding deliver
  deliver-IsChecked address behind res out s t h =
      let (line, u, fetched, ended) = >>=-eq-ok (fetch_https W address res.path res.sha256) _ s h in
      return-IsChecked (record res { summary = behind line }) out u t
        (λ given. fetch_https-sha256 W L address res.path res.sha256 s u line given fetched) ended

  deliver_unverified-IsChecked :
      (address : Text) (preview behind : Text → Text) (res out : Fetched) (s t : W.host.State)
      → res.sha256 ≡ []
      → deliver_unverified W false address preview behind res s ≡ (ok out, t)
      → IsChecked out t
  unfolding deliver_unverified deliver
  deliver_unverified-IsChecked address preview behind res out s t bare h =
      let (line, u, fetched, ended) = >>=-eq-ok (fetch_https W address res.path []) _ s h in
      return-IsChecked (record res { summary = behind line }) out u t
        (λ given. absurd (given (ap wanted bare ∙ wanted-nil))) ended

  fetch_github-IsChecked :
      (r : Resolved) (version dir : Text) (out : Fetched) (s t : W.host.State)
      → fetch_github W r version dir false s ≡ (ok out, t)
      → IsChecked out t
  unfolding fetch_github
  fetch_github-IsChecked r version dir out s t h =
      let (rel, s1, found, h1) = >>=-eq-ok (github_release W r.locator version) _ s h in
      let (asset, s2, picked, h2) = >>=-eq-ok (lift (find_asset rel r.asset)) _ s1 h1 in
      deliver-IsChecked asset.url _ _ out s2 t h2

  fetch_talos-IsChecked :
      (r : Resolved) (version dir : Text) (out : Fetched) (s t : W.host.State)
      → fetch_talos W r version dir false s ≡ (ok out, t)
      → IsChecked out t
  unfolding fetch_talos
  fetch_talos-IsChecked r version dir out s t h =
      let (tag, s1, found, h1) = >>=-eq-ok (talos_tag W version) _ s h in
      deliver_unverified-IsChecked _ _ _ _ out s1 t refl h1

  fetch_ubuntu-IsChecked :
      (r : Resolved) (version dir : Text) (out : Fetched) (s t : W.host.State)
      → fetch_ubuntu W r version dir false s ≡ (ok out, t)
      → IsChecked out t
  unfolding fetch_ubuntu
  fetch_ubuntu-IsChecked r version dir out s t h =
      let (found, s1, asked, h1) =
        >>=-eq-ok (ubuntu_cloud_resolve W version (or_text r.arch (text "amd64"))) _ s h in
      deliver-IsChecked found.0 _ _ out s1 t h1

  fetch_url-IsChecked :
      (r : Resolved) (dir : Text) (out : Fetched) (s t : W.host.State)
      → fetch_url W r dir false s ≡ (ok out, t)
      → IsChecked out t
  unfolding fetch_url
  fetch_url-IsChecked r dir out s t h = deliver_unverified-IsChecked r.locator _ _ _ out s t refl h

  fetch_kind :
      (k : ArtifactKind) (r : Resolved) (version dir_given : Text) (out : Fetched)
      (s t : W.host.State)
      → r.kind ≡ k
      → is_vagrant k ≡ false
      → fetch W r version dir_given false s ≡ (ok out, t)
      → IsChecked out t
  unfolding fetch
  fetch_kind github_asset r version dir_given out s t e v h =
      fetch_github-IsChecked r version (directory W dir_given) out s t (ground arith)
  fetch_kind url r version dir_given out s t e v h =
      fetch_url-IsChecked r (directory W dir_given) out s t (ground arith)
  fetch_kind vagrant_box r version dir_given out s t e v h = cc v
  fetch_kind ubuntu_cloud r version dir_given out s t e v h =
      fetch_ubuntu-IsChecked r version (directory W dir_given) out s t (ground arith)
  fetch_kind talos_factory r version dir_given out s t e v h =
      fetch_talos-IsChecked r version (directory W dir_given) out s t (ground arith)

  -- On a host as in `IsHonest`: where `Fetch`, not as a dry run and for a source that is no box,
  -- goes well with a checksum, the file at the path that it returns has that checksum.
  pub fetch_sha256 :
      (r : Resolved) (version dir_given : Text) (out : Fetched) (s t : W.host.State)
      → is_vagrant r.kind ≡ false
      → fetch W r version dir_given false s ≡ (ok out, t)
      → wanted out.sha256 ≢ []
      → file_sha256 W t out.path ≡ ok (wanted out.sha256)
  fetch_sha256 r version dir_given out s t v h =
      fetch_kind r.kind r version dir_given out s t refl v h
