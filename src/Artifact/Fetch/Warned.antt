-- ===== src/Artifact/Fetch/Warned.antt =====
-- What the summary of `Fetch` says of a download that is not verified.
use desktop_hypervisor_mcp.Base.{
  Bool, true, false, not, [], ◌≡◌, ◌≢◌, refl, subst, arith, inl, inr, Bool-cases,
}
use desktop_hypervisor_mcp.Base.Text.{Text, text, or_text, is_empty}
use desktop_hypervisor_mcp.Provider.Errors.{Result, ok, >>=-eq-ok}
use desktop_hypervisor_mcp.Artifact.Catalog.{
  ArtifactKind, github_asset, url, vagrant_box, ubuntu_cloud, talos_factory,
}
use desktop_hypervisor_mcp.Artifact.Resolve.{Resolved}
use desktop_hypervisor_mcp.Artifact.Summary.Warns.{
  IsWarned, talos_preview-IsWarned, url_preview-IsWarned, talos_unverified-IsWarned,
  unverified-IsWarned, extracted_to-IsWarned, box_preview-IsWarned,
}
use desktop_hypervisor_mcp.Artifact.Web.{Web}
use desktop_hypervisor_mcp.Artifact.Download.{fetch_https}
use desktop_hypervisor_mcp.Artifact.Extract.{extract_box}
use desktop_hypervisor_mcp.Artifact.Requests.{vagrant_resolve, ubuntu_cloud_resolve}
use desktop_hypervisor_mcp.Artifact.Fetch.{
  directory, Fetched, deliver, deliver_unverified, deliver_box, talos_tag, fetch_talos,
  fetch_ubuntu, fetch_url, fetch_box, fetch,
}

-- A result that is not flagged as verified says so in its summary.
abbrev pub SaysSo : Fetched → Type 0
SaysSo res = res.verified ≡ false → IsWarned res.summary

module _ (W : Web) where
  return-SaysSo :
      (res out : Fetched) (u t : W.host.State)
      → SaysSo res
      → ◌≡◌ {A = Result Fetched × W.host.State} (ok res, u) (ok out, t)
      → SaysSo out
  return-SaysSo res out u t h e = let same : res ≡ out = ground arith in subst SaysSo same h

  deliver-SaysSo :
      (dry_run : Bool) (address sum : Text) (behind : Text → Text) (res out : Fetched)
      (s t : W.host.State)
      → res.verified ≡ true
      → deliver W dry_run address sum behind res s ≡ (ok out, t)
      → SaysSo out
  unfolding deliver
  deliver-SaysSo true address sum behind res out s t flag h =
      return-SaysSo res out s t (λ none_published. cc) h
  deliver-SaysSo false address sum behind res out s t flag h =
      let (line, u, fetched, ended) = >>=-eq-ok (fetch_https W address res.path sum) _ s h in
      return-SaysSo _ out u t (λ none_published. cc) ended

  deliver_unverified-SaysSo :
      (dry_run : Bool) (address : Text) (preview behind : Text → Text) (res out : Fetched)
      (s t : W.host.State)
      → ((size : Text) → IsWarned (preview size))
      → ((line : Text) → IsWarned (behind line))
      → deliver_unverified W dry_run address preview behind res s ≡ (ok out, t)
      → SaysSo out
  unfolding deliver_unverified deliver
  deliver_unverified-SaysSo true address preview behind res out s t before after h =
      return-SaysSo _ out _ t (λ none_published. before _) h
  deliver_unverified-SaysSo false address preview behind res out s t before after h =
      let (line, u, fetched, ended) = >>=-eq-ok (fetch_https W address res.path []) _ s h in
      return-SaysSo _ out u t (λ none_published. after line) ended

  deliver_box-SaysSo :
      (dry_run : Bool) (address box sum : Text) (res out : Fetched) (s t : W.host.State)
      → res.verified ≡ not (is_empty sum)
      → (is_empty sum ≡ true → IsWarned res.summary)
      → deliver_box W dry_run address box sum res s ≡ (ok out, t)
      → SaysSo out
  unfolding deliver_box
  deliver_box-SaysSo true address box sum res out s t flag before h =
      return-SaysSo res out s t (λ none_published. before (ground arith)) h
  deliver_box-SaysSo false address box sum res out s t flag before h =
      let (line, u, fetched, h1) = >>=-eq-ok (fetch_https W address box sum) _ s h in
      let (machine, v, extracted, h2) = >>=-eq-ok (extract_box W box res.path) _ u h1 in
      return-SaysSo _ out v t
        (λ none_published. extracted_to-IsWarned sum res.path line (ground arith)) h2

  fetch_talos-SaysSo :
      (r : Resolved) (version dir : Text) (dry_run : Bool) (out : Fetched) (s t : W.host.State)
      → fetch_talos W r version dir dry_run s ≡ (ok out, t)
      → SaysSo out
  unfolding fetch_talos
  fetch_talos-SaysSo r version dir dry_run out s t h =
      let (tag, s1, found, h1) = >>=-eq-ok (talos_tag W version) _ s h in
      deliver_unverified-SaysSo dry_run _ _ _ _ out s1 t
        (λ size. talos_preview-IsWarned r tag _ _ size) (λ line. talos_unverified-IsWarned tag line)
        h1

  fetch_ubuntu-SaysSo :
      (r : Resolved) (version dir : Text) (dry_run : Bool) (out : Fetched) (s t : W.host.State)
      → fetch_ubuntu W r version dir dry_run s ≡ (ok out, t)
      → SaysSo out
  unfolding fetch_ubuntu
  fetch_ubuntu-SaysSo r version dir dry_run out s t h =
      let (found, s1, asked, h1) =
        >>=-eq-ok (ubuntu_cloud_resolve W version (or_text r.arch (text "amd64"))) _ s h in
      deliver-SaysSo dry_run found.0 found.1 _ _ out s1 t refl h1

  fetch_url-SaysSo :
      (r : Resolved) (dir : Text) (dry_run : Bool) (out : Fetched) (s t : W.host.State)
      → fetch_url W r dir dry_run s ≡ (ok out, t)
      → SaysSo out
  unfolding fetch_url
  fetch_url-SaysSo r dir dry_run out s t h =
      deliver_unverified-SaysSo dry_run r.locator _ _ _ out s t
        (λ size. url_preview-IsWarned r _ size) unverified-IsWarned h

  fetch_box-SaysSo :
      (r : Resolved) (version dir : Text) (dry_run : Bool) (out : Fetched) (s t : W.host.State)
      → fetch_box W r version dir dry_run s ≡ (ok out, t)
      → SaysSo out
  unfolding fetch_box
  fetch_box-SaysSo r version dir dry_run out s t h =
      let (found, s1, asked, h1) =
        >>=-eq-ok
          (vagrant_resolve W r.locator version r.vagrant_provider (or_text r.arch (text "amd64"))) _
          s h in
      deliver_box-SaysSo dry_run _ _ _ _ out s1 t refl
        (λ bare. box_preview-IsWarned r _ _ _ _ _ _ bare) h1

  fetch_kind-SaysSo :
      (k : ArtifactKind) (r : Resolved) (version dir_given : Text) (dry_run : Bool) (out : Fetched)
      (s t : W.host.State)
      → r.kind ≡ k
      → k ≢ github_asset
      → fetch W r version dir_given dry_run s ≡ (ok out, t)
      → SaysSo out
  unfolding fetch
  fetch_kind-SaysSo github_asset r version dir_given dry_run out s t e other h = absurd (other refl)
  fetch_kind-SaysSo url r version dir_given dry_run out s t e other h =
      fetch_url-SaysSo r (directory W dir_given) dry_run out s t (ground arith)
  fetch_kind-SaysSo vagrant_box r version dir_given dry_run out s t e other h =
      elim (Bool-cases (is_empty r.vagrant_provider)) [
        | inl unnamed ↦ absurd (ground arith)
        | inr named ↦
            fetch_box-SaysSo r version (directory W dir_given) dry_run out s t (ground arith)
      ]
  fetch_kind-SaysSo ubuntu_cloud r version dir_given dry_run out s t e other h =
      fetch_ubuntu-SaysSo r version (directory W dir_given) dry_run out s t (ground arith)
  fetch_kind-SaysSo talos_factory r version dir_given dry_run out s t e other h =
      fetch_talos-SaysSo r version (directory W dir_given) dry_run out s t (ground arith)

  -- Where `Fetch` goes well for a source that is no asset of a GitHub release, also as a dry run,
  -- and the result is not flagged as verified, its summary has the word `UNVERIFIED` or
  -- `unverified`.
  pub fetch-SaysSo :
      (r : Resolved) (version dir_given : Text) (dry_run : Bool) (out : Fetched)
      (s t : W.host.State)
      → r.kind ≢ github_asset
      → fetch W r version dir_given dry_run s ≡ (ok out, t)
      → out.verified ≡ false
      → IsWarned out.summary
  fetch-SaysSo r version dir_given dry_run out s t other h =
      fetch_kind-SaysSo r.kind r version dir_given dry_run out s t refl other h
