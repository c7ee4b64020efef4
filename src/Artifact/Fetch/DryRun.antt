-- ===== src/Artifact/Fetch/DryRun.antt =====
-- What a dry run of `Fetch` leaves.
use desktop_hypervisor_mcp.Base.{true, [], ◌≡◌, refl, ◌∙◌, arith}
use desktop_hypervisor_mcp.Base.Text.{Text, text, or_text}
use desktop_hypervisor_mcp.Provider.Errors.{resume_kept, return, with_error}
use desktop_hypervisor_mcp.Artifact.Catalog.{
  ArtifactKind, github_asset, url, vagrant_box, ubuntu_cloud, talos_factory, talos_repo,
}
use desktop_hypervisor_mcp.Artifact.Resolve.{Resolved}
use desktop_hypervisor_mcp.Artifact.Web.{Web}
use desktop_hypervisor_mcp.Artifact.Requests.{
  get_ok, github_release, vagrant_resolve, ubuntu_cloud_resolve, head_size,
}
use desktop_hypervisor_mcp.Artifact.Fetch.{
  directory, deliver, deliver_unverified, deliver_box, fetch_github, talos_tag, fetch_talos,
  fetch_ubuntu, fetch_url, fetch_box, fetch,
}

-- What is relied on: asking the network writes no file.
pub record IsReadOnly (W : Web) : Type 0 where
  pub read-http_get :
      (address path : Text) (s : W.host.State)
      → W.host.read_file (W.http_get address s).1 path ≡ W.host.read_file s path
  pub read-http_head :
      (address path : Text) (s : W.host.State)
      → W.host.read_file (W.http_head address s).1 path ≡ W.host.read_file s path

module _ (W : Web) (L : IsReadOnly W) (path : Text) (s : W.host.State) where
  abbrev Same : W.host.State → Type 0
  Same t = W.host.read_file t path ≡ W.host.read_file s path

  get_ok-Same :
      (address failed : Text) (bad : Text → Text) (t : W.host.State)
      → Same t
      → Same (get_ok W address failed bad t).1
  unfolding get_ok
  get_ok-Same address failed bad t h =
      resume_kept Same (W.request address, t) _ h
        λ u v g.
          resume_kept Same (with_error _ (W.http_get address) v) _
            (L.read-http_get address path v ∙ g) λ r w k. ground arith

  github_release-Same :
      (repo version : Text) (t : W.host.State) → Same t → Same (github_release W repo version t).1
  unfolding github_release
  github_release-Same repo version t h =
      resume_kept Same (get_ok W _ _ _ t) _ (get_ok-Same _ _ _ t h) λ body u g. g

  vagrant_resolve-Same :
      (box version name arch : Text) (t : W.host.State)
      → Same t
      → Same (vagrant_resolve W box version name arch t).1
  unfolding vagrant_resolve
  vagrant_resolve-Same box version name arch t h =
      resume_kept Same (get_ok W _ _ _ t) _ (get_ok-Same _ _ _ t h)
        λ body u g. resume_kept Same (W.decode_box body, u) _ g λ b v k. k

  ubuntu_cloud_resolve-Same :
      (version arch : Text) (t : W.host.State)
      → Same t
      → Same (ubuntu_cloud_resolve W version arch t).1
  unfolding ubuntu_cloud_resolve
  ubuntu_cloud_resolve-Same version arch t h =
      resume_kept Same (get_ok W _ _ _ t) _ (get_ok-Same _ _ _ t h) λ answer u g.
        resume_kept Same (W.read_limited answer, u) _ g
          λ body v k. resume_kept Same (_, v) _ k λ sum w l. l

  head_size-Same : (address : Text) (t : W.host.State) → Same t → Same (head_size W address t).1
  unfolding head_size
  head_size-Same address t h = ground (arith, L.read-http_head address path t)

  talos_tag-Same : (version : Text) (t : W.host.State) → Same t → Same (talos_tag W version t).1
  unfolding talos_tag
  talos_tag-Same version t h =
      let asked =
        resume_kept Same (github_release W talos_repo [] t) (λ rel. return rel.tag_name)
          (github_release-Same talos_repo [] t h) λ rel u g. g in
      ground (arith, asked)

  fetch_github-Same :
      (r : Resolved) (version dir : Text) (t : W.host.State)
      → Same t
      → Same (fetch_github W r version dir true t).1
  unfolding fetch_github deliver
  fetch_github-Same r version dir t h =
      resume_kept Same (github_release W r.locator version t) _
        (github_release-Same r.locator version t h)
        λ rel u g. resume_kept Same (_, u) _ g λ asset v k. k

  fetch_talos-Same :
      (r : Resolved) (version dir : Text) (t : W.host.State)
      → Same t
      → Same (fetch_talos W r version dir true t).1
  unfolding fetch_talos deliver_unverified
  fetch_talos-Same r version dir t h =
      resume_kept Same (talos_tag W version t) _ (talos_tag-Same version t h)
        λ tag u g. head_size-Same _ u g

  fetch_ubuntu-Same :
      (r : Resolved) (version dir : Text) (t : W.host.State)
      → Same t
      → Same (fetch_ubuntu W r version dir true t).1
  unfolding fetch_ubuntu deliver
  fetch_ubuntu-Same r version dir t h =
      resume_kept Same (ubuntu_cloud_resolve W version (or_text r.arch (text "amd64")) t) _
        (ubuntu_cloud_resolve-Same version (or_text r.arch (text "amd64")) t h) λ found u g. g

  fetch_url-Same :
      (r : Resolved) (dir : Text) (t : W.host.State) → Same t → Same (fetch_url W r dir true t).1
  unfolding fetch_url deliver_unverified
  fetch_url-Same r dir t h = head_size-Same r.locator t h

  fetch_box-Same :
      (r : Resolved) (version dir : Text) (t : W.host.State)
      → Same t
      → Same (fetch_box W r version dir true t).1
  unfolding fetch_box deliver_box
  fetch_box-Same r version dir t h =
      resume_kept Same
        (vagrant_resolve W r.locator version r.vagrant_provider (or_text r.arch (text "amd64")) t) _
        (vagrant_resolve-Same r.locator version r.vagrant_provider (or_text r.arch (text "amd64")) t
          h)
        λ found u g. g

  fetch_kind-Same :
      (k : ArtifactKind) (r : Resolved) (version dir_given : Text)
      → r.kind ≡ k
      → Same (fetch W r version dir_given true s).1
  unfolding fetch
  fetch_kind-Same github_asset r version dir_given e =
      ground (arith, fetch_github-Same r version (directory W dir_given) s refl)
  fetch_kind-Same url r version dir_given e =
      ground (arith, fetch_url-Same r (directory W dir_given) s refl)
  fetch_kind-Same vagrant_box r version dir_given e =
      ground (arith, fetch_box-Same r version (directory W dir_given) s refl)
  fetch_kind-Same ubuntu_cloud r version dir_given e =
      ground (arith, fetch_ubuntu-Same r version (directory W dir_given) s refl)
  fetch_kind-Same talos_factory r version dir_given e =
      ground (arith, fetch_talos-Same r version (directory W dir_given) s refl)

  -- On a host as in `IsReadOnly`: a dry run of `Fetch` writes no file, however it ends; every file
  -- is as it was.
  pub fetch_dry_run :
      (r : Resolved) (version dir_given : Text)
      → W.host.read_file (fetch W r version dir_given true s).1 path ≡ W.host.read_file s path
  fetch_dry_run r version dir_given = fetch_kind-Same r.kind r version dir_given refl
