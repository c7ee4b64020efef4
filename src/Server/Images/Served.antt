-- ===== src/Server/Images/Served.antt =====
-- What `artifactTool` has fetched where it answers with a download.
use desktop_hypervisor_mcp.Base.{
  true, false, [], ◌≡◌, ◌≢◌, ap, ◌∙◌, subst, ◌⊎◌, inl, inr, arith, Bool-cases, if◌then◌else◌,
}
use desktop_hypervisor_mcp.Base.Text.{Text, text, ◌==◌, is_empty, has_prefix}
use desktop_hypervisor_mcp.Provider.Contract.{accepts}
use desktop_hypervisor_mcp.Provider.Errors.{
  Error, M, Result, ok, err, wrap_error, return, ◌>>=◌, >>=-eq-ok,
}
use desktop_hypervisor_mcp.Provider.Ops.{Ops}
use desktop_hypervisor_mcp.Provider.Patterns.{Patterns}
use desktop_hypervisor_mcp.Artifact.Download.{wanted, file_sha256}
use desktop_hypervisor_mcp.Artifact.Download.Verified.{IsHonest}
use desktop_hypervisor_mcp.Artifact.Fetch.{Fetched, fetch}
use desktop_hypervisor_mcp.Artifact.Fetch.Checked.{fetch_sha256}
use desktop_hypervisor_mcp.Artifact.Resolve.{Resolved, is_vagrant, resolve}
use desktop_hypervisor_mcp.Artifact.Resolve.Sound.{resolve-ComesFrom}
use desktop_hypervisor_mcp.Artifact.Web.{Web}
use desktop_hypervisor_mcp.Server.Discover.{select}
use desktop_hypervisor_mcp.Server.Images.{
  ArtifactOut, resolution, fetched_image, resolve_image, fetch_image, image_action, artifact_tool,
}
use desktop_hypervisor_mcp.Server.Inputs.{ArtifactIn}

wrap_error-eq-ok :
    {A : Type 0} (f : Error → Error) (r : Result A) (a : A) → wrap_error f r ≡ ok a → r ≡ ok a
wrap_error-eq-ok f (ok b) a h = h
wrap_error-eq-ok f (err e) a h = cc

abbrev got_of : Fetched → Result ArtifactOut → Fetched
got_of other (ok (fetched_image res note)) = res
got_of other _ = other

module _ (W : Web) (P : Patterns) where
  resolve_image-eq-ok :
      (id image : Text) (r : Resolved) (s t : W.host.State)
      → resolve_image W P id image s ≡ (ok r, t)
      → (o : Ops W.host.State) × ((select W.host P id s).0 ≡ ok o)
        × (resolve W.host.goarch image o.descriptor ≡ ok r)
  unfolding resolve_image
  resolve_image-eq-ok id image r s t h =
      let (o, u, chosen, h1) = >>=-eq-ok (select W.host P id) _ s h in
      (o, ap (λ p. p.0) chosen, wrap_error-eq-ok _ _ r (ap (λ p. p.0) h1))

  fetch_image-eq-ok :
      (i : ArtifactIn) (r : Resolved) (res : Fetched) (note : Text) (s t : W.host.State)
      → fetch_image W P i r s ≡ (ok (fetched_image res note), t)
      → fetch W r i.version i.dir i.dry_run s ≡ (ok res, t)
  unfolding fetch_image
  fetch_image-eq-ok i r res note s t h =
      let (got, u, fetched, ended) = >>=-eq-ok (fetch W r i.version i.dir i.dry_run) _ s h in
      let same : got ≡ res = ap (λ p. got_of got p.0) ended in
      fetched ∙ ap (λ x. (ok x, u)) same ∙ ap (λ v. (ok res, v)) (ap (λ p. p.1) ended)

  -- What follows a resolution.
  abbrev answer : ArtifactIn → Resolved → M W.host.State ArtifactOut
  answer i r = if i.action == text "resolve" then return (resolution r) else fetch_image W P i r

  image_action-eq-ok :
      (i : ArtifactIn) (res : Fetched) (note : Text) (s t : W.host.State)
      → image_action W P i s ≡ (ok (fetched_image res note), t)
      → (r : Resolved) × (u : W.host.State) × (resolve_image W P i.provider i.image s ≡ (ok r, u))
        × (fetch W r i.version i.dir i.dry_run u ≡ (ok res, t))
  unfolding image_action
  image_action-eq-ok i res note s t h = elim (Bool-cases (is_empty i.image)) [
    | inl e ↦ absurd (ground arith)
    | inr e ↦
        let chained : (resolve_image W P i.provider i.image >>= answer i) s
            ≡ (ok (fetched_image res note), t) =
          ground arith in
        let (r, u, resolved, h1) =
          >>=-eq-ok (resolve_image W P i.provider i.image) (answer i) s chained in
        elim (Bool-cases (i.action == text "resolve")) [
          | inl f ↦ absurd (ground arith)
          | inr f ↦ (r, u, resolved, fetch_image-eq-ok i r res note u t (ground arith))
        ]
  ]

  artifact_tool-eq-ok :
      (i : ArtifactIn) (res : Fetched) (note : Text) (s t : W.host.State)
      → artifact_tool W P i s ≡ (ok (fetched_image res note), t)
      → image_action W P i s ≡ (ok (fetched_image res note), t)
  unfolding artifact_tool
  artifact_tool-eq-ok i res note s t h = ground arith

  -- On a host as in `IsHonest`, for an image that is no vagrant passthrough: where `artifactTool`
  -- answers with a download that is no dry run and has a checksum, the image was resolved for the
  -- provider that is selected, in a format that the provider accepts, and the file at the path of
  -- the answer has that checksum, unless the image is a box.
  pub artifact_tool-served :
      (L : IsHonest W) (i : ArtifactIn) (res : Fetched) (note : Text) (s t : W.host.State)
      → has_prefix i.image (text "vagrant:") ≡ false
      → i.dry_run ≡ false
      → wanted res.sha256 ≢ []
      → artifact_tool W P i s ≡ (ok (fetched_image res note), t)
      → (o : Ops W.host.State) × (r : Resolved) × ((select W.host P i.provider s).0 ≡ ok o)
        × (resolve W.host.goarch i.image o.descriptor ≡ ok r)
        × (accepts o.descriptor r.format ≡ true)
        × ((is_vagrant r.kind ≡ true) ⊎ (file_sha256 W t res.path ≡ ok (wanted res.sha256)))
  artifact_tool-served L i res note s t listed wet given h =
      let (r, u, resolved, fetched) =
        image_action-eq-ok i res note s t (artifact_tool-eq-ok i res note s t h) in
      let (o, chosen, made) = resolve_image-eq-ok i.provider i.image r s u resolved in
      let (src, v, from) = resolve-ComesFrom W.host.goarch i.image o.descriptor r listed made in
      (
        o,
        r,
        chosen,
        made,
        from.accepted,
        elim (Bool-cases (is_vagrant r.kind)) [
          | inl box ↦ inl box
          | inr other ↦ inr (
              fetch_sha256 W L r i.version i.dir res u t other
                (subst (λ b. fetch W r i.version i.dir b u ≡ (ok res, t)) wet fetched) given)
        ],
      )
