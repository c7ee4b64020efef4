-- ===== src/Artifact/Fetch/Flagged.antt =====
-- What the flag `Verified` of a result of `Fetch` says.
use desktop_hypervisor_mcp.Base.{
  Bool, true, false, not, [], ◌∷◌, ◌≡◌, refl, sym, ap, ◌∙◌, subst, arith, inl, inr, Bool-cases,
}
use desktop_hypervisor_mcp.Base.Text.{Text, text, or_text, is_empty}
use desktop_hypervisor_mcp.Provider.Errors.{Result, ok, err, lift, >>=-eq-ok}
use desktop_hypervisor_mcp.Artifact.Catalog.{
  ArtifactKind, github_asset, url, vagrant_box, ubuntu_cloud, talos_factory,
}
use desktop_hypervisor_mcp.Artifact.Resolve.{Resolved}
use desktop_hypervisor_mcp.Artifact.Registry.{find_asset, find_sha256_sum}
use desktop_hypervisor_mcp.Artifact.Web.{Web}
use desktop_hypervisor_mcp.Artifact.Download.{fetch_https}
use desktop_hypervisor_mcp.Artifact.Extract.{extract_box}
use desktop_hypervisor_mcp.Artifact.Requests.{
  github_release, vagrant_resolve, listed_sum, ubuntu_cloud_resolve, get_ok,
}
use desktop_hypervisor_mcp.Artifact.Fetch.{
  directory, Fetched, deliver, deliver_unverified, deliver_box, fetch_github, talos_tag,
  fetch_talos, fetch_ubuntu, fetch_url, fetch_box, fetch,
}

-- The result is flagged as verified exactly if it has a checksum.
abbrev pub IsFlagged : Fetched → Type 0
IsFlagged res = res.verified ≡ not (is_empty res.sha256)

abbrev sum_in : Result (Text × Text × Text) → Text
sum_in (ok found) = found.1
sum_in (err e) = []

listed_sum-nonempty :
    (fname version sum found : Text)
    → listed_sum fname version sum ≡ ok found
    → is_empty found ≡ false
listed_sum-nonempty fname version [] found h = cc
listed_sum-nonempty fname version (c ∷ sum) found h = ground arith

module _ (W : Web) where
  return-IsFlagged :
      (res out : Fetched) (u t : W.host.State)
      → IsFlagged res
      → ◌≡◌ {A = Result Fetched × W.host.State} (ok res, u) (ok out, t)
      → IsFlagged out
  return-IsFlagged res out u t h e = let same : res ≡ out = ground arith in subst IsFlagged same h

  deliver-IsFlagged :
      (dry_run : Bool) (address sum : Text) (behind : Text → Text) (res out : Fetched)
      (s t : W.host.State)
      → IsFlagged res
      → deliver W dry_run address sum behind res s ≡ (ok out, t)
      → IsFlagged out
  unfolding deliver
  deliver-IsFlagged true address sum behind res out s t flag h = return-IsFlagged res out s t flag h
  deliver-IsFlagged false address sum behind res out s t flag h =
      let (line, u, fetched, ended) = >>=-eq-ok (fetch_https W address res.path sum) _ s h in
      return-IsFlagged _ out u t flag ended

  deliver_unverified-IsFlagged :
      (dry_run : Bool) (address : Text) (preview behind : Text → Text) (res out : Fetched)
      (s t : W.host.State)
      → IsFlagged res
      → deliver_unverified W dry_run address preview behind res s ≡ (ok out, t)
      → IsFlagged out
  unfolding deliver_unverified
  deliver_unverified-IsFlagged true address preview behind res out s t flag h =
      return-IsFlagged _ out _ t flag h
  deliver_unverified-IsFlagged false address preview behind res out s t flag h =
      deliver-IsFlagged false address [] behind res out s t flag h

  deliver_box-IsFlagged :
      (dry_run : Bool) (address box sum : Text) (res out : Fetched) (s t : W.host.State)
      → IsFlagged res
      → deliver_box W dry_run address box sum res s ≡ (ok out, t)
      → IsFlagged out
  unfolding deliver_box
  deliver_box-IsFlagged true address box sum res out s t flag h =
      return-IsFlagged res out s t flag h
  deliver_box-IsFlagged false address box sum res out s t flag h =
      let (line, u, fetched, h1) = >>=-eq-ok (fetch_https W address box sum) _ s h in
      let (machine, v, extracted, h2) = >>=-eq-ok (extract_box W box res.path) _ u h1 in
      return-IsFlagged _ out v t flag h2

  ubuntu_cloud_resolve-listed :
      (version arch : Text) (found : Text × Text × Text) (s t : W.host.State)
      → ubuntu_cloud_resolve W version arch s ≡ (ok found, t)
      → is_empty (found.1) ≡ false
  unfolding ubuntu_cloud_resolve
  ubuntu_cloud_resolve-listed version arch found s t h =
      let (answer, s1, asked, h1) = >>=-eq-ok (get_ok W _ _ _) _ s h in
      let (body, s2, read, h2) = >>=-eq-ok (lift (W.read_limited answer)) _ s1 h1 in
      let (sum, s3, listed, h3) =
        >>=-eq-ok (lift (listed_sum _ _ (find_sha256_sum body _))) _ s2 h2 in
      let same : sum ≡ found.1 = ap (λ p. sum_in p.0) h3 in
      ap is_empty (sym same) ∙ listed_sum-nonempty _ _ _ sum (ap (λ p. p.0) listed)

  fetch_github-IsFlagged :
      (r : Resolved) (version dir : Text) (dry_run : Bool) (out : Fetched) (s t : W.host.State)
      → fetch_github W r version dir dry_run s ≡ (ok out, t)
      → IsFlagged out
  unfolding fetch_github
  fetch_github-IsFlagged r version dir dry_run out s t h =
      let (rel, s1, found, h1) = >>=-eq-ok (github_release W r.locator version) _ s h in
      let (asset, s2, picked, h2) = >>=-eq-ok (lift (find_asset rel r.asset)) _ s1 h1 in
      deliver-IsFlagged dry_run asset.url _ _ _ out s2 t refl h2

  fetch_talos-IsFlagged :
      (r : Resolved) (version dir : Text) (dry_run : Bool) (out : Fetched) (s t : W.host.State)
      → fetch_talos W r version dir dry_run s ≡ (ok out, t)
      → IsFlagged out
  unfolding fetch_talos
  fetch_talos-IsFlagged r version dir dry_run out s t h =
      let (tag, s1, found, h1) = >>=-eq-ok (talos_tag W version) _ s h in
      deliver_unverified-IsFlagged dry_run _ _ _ _ out s1 t refl h1

  fetch_ubuntu-IsFlagged :
      (r : Resolved) (version dir : Text) (dry_run : Bool) (out : Fetched) (s t : W.host.State)
      → fetch_ubuntu W r version dir dry_run s ≡ (ok out, t)
      → IsFlagged out
  unfolding fetch_ubuntu
  fetch_ubuntu-IsFlagged r version dir dry_run out s t h =
      let arch = or_text r.arch (text "amd64") in
      let (found, s1, asked, h1) = >>=-eq-ok (ubuntu_cloud_resolve W version arch) _ s h in
      deliver-IsFlagged dry_run found.0 found.1 _ _ out s1 t
        (ap not (sym (ubuntu_cloud_resolve-listed version arch found s s1 asked))) h1

  fetch_url-IsFlagged :
      (r : Resolved) (dir : Text) (dry_run : Bool) (out : Fetched) (s t : W.host.State)
      → fetch_url W r dir dry_run s ≡ (ok out, t)
      → IsFlagged out
  unfolding fetch_url
  fetch_url-IsFlagged r dir dry_run out s t h =
      deliver_unverified-IsFlagged dry_run r.locator _ _ _ out s t refl h

  fetch_box-IsFlagged :
      (r : Resolved) (version dir : Text) (dry_run : Bool) (out : Fetched) (s t : W.host.State)
      → fetch_box W r version dir dry_run s ≡ (ok out, t)
      → IsFlagged out
  unfolding fetch_box
  fetch_box-IsFlagged r version dir dry_run out s t h =
      let (found, s1, asked, h1) =
        >>=-eq-ok
          (vagrant_resolve W r.locator version r.vagrant_provider (or_text r.arch (text "amd64"))) _
          s h in
      deliver_box-IsFlagged dry_run _ _ _ _ out s1 t refl h1

  fetch_kind-IsFlagged :
      (k : ArtifactKind) (r : Resolved) (version dir_given : Text) (dry_run : Bool) (out : Fetched)
      (s t : W.host.State)
      → r.kind ≡ k
      → fetch W r version dir_given dry_run s ≡ (ok out, t)
      → IsFlagged out
  unfolding fetch
  fetch_kind-IsFlagged github_asset r version dir_given dry_run out s t e h =
      fetch_github-IsFlagged r version (directory W dir_given) dry_run out s t (ground arith)
  fetch_kind-IsFlagged url r version dir_given dry_run out s t e h =
      fetch_url-IsFlagged r (directory W dir_given) dry_run out s t (ground arith)
  fetch_kind-IsFlagged vagrant_box r version dir_given dry_run out s t e h =
      elim (Bool-cases (is_empty r.vagrant_provider)) [
        | inl unnamed ↦ absurd (ground arith)
        | inr named ↦
            fetch_box-IsFlagged r version (directory W dir_given) dry_run out s t (ground arith)
      ]
  fetch_kind-IsFlagged ubuntu_cloud r version dir_given dry_run out s t e h =
      fetch_ubuntu-IsFlagged r version (directory W dir_given) dry_run out s t (ground arith)
  fetch_kind-IsFlagged talos_factory r version dir_given dry_run out s t e h =
      fetch_talos-IsFlagged r version (directory W dir_given) dry_run out s t (ground arith)

  -- Where `Fetch` goes well, for every kind of source and also as a dry run, the result is flagged
  -- as verified exactly if it has a checksum.
  pub fetch-IsFlagged :
      (r : Resolved) (version dir_given : Text) (dry_run : Bool) (out : Fetched)
      (s t : W.host.State)
      → fetch W r version dir_given dry_run s ≡ (ok out, t)
      → IsFlagged out
  fetch-IsFlagged r version dir_given dry_run out s t h =
      fetch_kind-IsFlagged r.kind r version dir_given dry_run out s t refl h
