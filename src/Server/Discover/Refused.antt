-- ===== src/Server/Discover/Refused.antt =====
-- The calls that the operations of a selected provider refuse.
use desktop_hypervisor_mcp.Base.{
  true, false, none, some, List, [], ◌∷◌, ◌++◌, ◌≡◌, refl, sym, ap, ◌∙◌, subst, ◌⊎◌, inl, inr, In,
  In-append-cases, Bool-cases, Option-cases,
}
use desktop_hypervisor_mcp.Base.Text.{Text, text, is_empty}
use desktop_hypervisor_mcp.Provider.Contract.{Descriptor, family, vmware_family}
use desktop_hypervisor_mcp.Provider.Errors.{Result, ok, err}
use desktop_hypervisor_mcp.Provider.Host.{Host}
use desktop_hypervisor_mcp.Provider.Ops.{Ops}
use desktop_hypervisor_mcp.Provider.Ops.Refusals.{Call, Reason, Refuses, reason_on}
use desktop_hypervisor_mcp.Provider.Patterns.{Patterns}
use desktop_hypervisor_mcp.Server.{Adapter, ops, is_ready, select_ops}
use desktop_hypervisor_mcp.Server.Select.{IsSole, IsFirst, select_ops-auto, select_ops-named}
use desktop_hypervisor_mcp.Server.Discover.{discover, adapter_ops, adapted, select}
use desktop_hypervisor_mcp.VirtualBox.Adapter.{new_virtualbox}
use desktop_hypervisor_mcp.VirtualBox.Adapter.Refused.{IsUngated, virtualbox-Refuses}
use desktop_hypervisor_mcp.VirtualBox.Detect.{
  virtualbox_missing, virtualbox_ready, folder_of, output, detect_virtualbox,
}
use desktop_hypervisor_mcp.VMware.Adapter.{new_vmware}
use desktop_hypervisor_mcp.VMware.Adapter.Refused.{vmware-Refuses}
use desktop_hypervisor_mcp.VMware.Detect.{
  version_or_empty, vmware_missing, vmware_ready, detect_vmware,
}
use desktop_hypervisor_mcp.VMware.Tools.{
  vmrun_bin, ovftool_bin, iso_backend, product_kind, Platform, darwin, windows, other_os,
  on_platform,
}

IsSole-In :
    (d : Descriptor) (ds : List Descriptor) → IsSole d ds → In d ds × (is_ready d.status ≡ true)
IsSole-In d [] h = absurd h
IsSole-In d (x ∷ ds) (inl (same, r, none_else)) =
    (inl same, subst (λ x. is_ready x.status ≡ true) same r)
IsSole-In d (x ∷ ds) (inr (r, h)) = let (i, j) = IsSole-In d ds h in (inr i, j)

IsFirst-In : (id : Text) (d : Descriptor) (ds : List Descriptor) → IsFirst id d ds → In d ds
IsFirst-In id d [] h = absurd h
IsFirst-In id d (x ∷ ds) (inl (same, named)) = inl same
IsFirst-In id d (x ∷ ds) (inr (other, h)) = inr (IsFirst-In id d ds h)

-- What is selected is one of the descriptors, and ready.
select_ops-In :
    (ds : List Descriptor) (id : Text) (a : Adapter)
    → select_ops ds id ≡ ok a
    → (d : Descriptor) × In d ds × (is_ready d.status ≡ true) × (a ≡ ops d)
select_ops-In ds [] a h =
    let (d, sole, served) = (select_ops-auto ds a).0 h in
    let (i, r) = IsSole-In d ds sole in (d, i, r, served)
select_ops-In ds (c ∷ id) a h =
    let (d, first, r, served) = (select_ops-named ds (c ∷ id) a (λ e. cc)).0 h in
    (d, IsFirst-In (c ∷ id) d ds first, r, served)

In-sole : (d x : Descriptor) (ds : List Descriptor) → ds ≡ x ∷ [] → In d ds → d ≡ x
In-sole d x ds e i = elim (subst (In d) e i) [ inl same ↦ sym same | inr later ↦ absurd later ]

family-product_kind : (p : Platform) → family (product_kind p) ≡ vmware_family
unfolding family product_kind
family-product_kind darwin = refl
family-product_kind windows = refl
family-product_kind other_os = refl

module _ (H : Host) (P : Patterns) where
  detect_virtualbox-cases :
      (s : H.State)
      → ((detect_virtualbox H P s).0 ≡ virtualbox_missing H P ∷ [])
        ⊎ ((version folder : Text) × ((detect_virtualbox H P s).0
              ≡ virtualbox_ready H P version folder ∷ []))
  unfolding detect_virtualbox
  detect_virtualbox-cases s =
      elim (Option-cases ((output H P (text "--version" ∷ []) s).0.failure)) [
        | inl e ↦
            let (version, t) = output H P (text "--version" ∷ []) s in
            let properties = (output H P (text "list" ∷ text "systemproperties" ∷ []) t).0 in
            inr (version.stdout, folder_of H P properties, rw (e, detect_virtualbox) refl)
        | inr (x, e) ↦ inl (rw (e, detect_virtualbox) refl)
      ]

  detect_vmware-cases :
      (s : H.State)
      → ((detect_vmware H P s).0 ≡ vmware_missing H P ∷ [])
        ⊎ ((version ovftool : Text) × ((detect_vmware H P s).0
              ≡ vmware_ready H P version ovftool (iso_backend H (detect_vmware H P s).1) ∷ []))
  unfolding detect_vmware
  detect_vmware-cases s = elim (Bool-cases (is_empty (vmrun_bin H s))) [
    | inl e ↦ inl (rw (e, detect_vmware) refl)
    | inr e ↦
        let (banner, t) = H.run_process (vmrun_bin H s) [] none s in
        inr (version_or_empty (P.vmrun_version banner), ovftool_bin H t, rw (e, detect_vmware) refl)
  ]

  virtualbox_missing-status : is_ready (virtualbox_missing H P).status ≡ false
  unfolding virtualbox_missing
  virtualbox_missing-status = refl

  vmware_missing-status : is_ready (vmware_missing H P).status ≡ false
  unfolding vmware_missing
  vmware_missing-status = refl

  ops-virtualbox_ready :
      (version folder : Text)
      → adapter_ops H P (ops (virtualbox_ready H P version folder))
        ≡ new_virtualbox H P (virtualbox_ready H P version folder)
  unfolding ops adapter_ops family virtualbox_ready virtualbox_missing
  ops-virtualbox_ready version folder = refl

  ops-vmware_ready :
      (version ovftool backend : Text)
      → adapter_ops H P (ops (vmware_ready H P version ovftool backend))
        ≡ new_vmware H P (vmware_ready H P version ovftool backend)
  unfolding ops adapter_ops vmware_ready vmware_missing
  ops-vmware_ready version ovftool backend =
      rw (family-product_kind (on_platform H), ops, adapter_ops, vmware_ready, vmware_missing) refl

  -- The call is refused, or it is the screenshot by VirtualBox.
  abbrev IsHandled : Ops H.State → H.State → Call → Reason → Type 0
  IsHandled o t q r = Refuses H o t q r ⊎ IsUngated H P o t q

  virtualbox_only :
      (d : Descriptor) (s t : H.State) (q : Call) (r : Reason)
      → In d (detect_virtualbox H P s).0
      → is_ready d.status ≡ true
      → reason_on H (adapter_ops H P (ops d)) t q ≡ some r
      → IsHandled (adapter_ops H P (ops d)) t q r
  virtualbox_only d s t q r i up h = elim (detect_virtualbox-cases s) [
    | inl e ↦
        absurd (
          cc (sym up ∙ ap (λ x. is_ready x.status) (In-sole d _ _ e i) ∙ virtualbox_missing-status))
    | inr (version, folder, e) ↦
        let same =
          ap (λ x. adapter_ops H P (ops x)) (In-sole d _ _ e i)
          ∙ ops-virtualbox_ready version folder in
        subst (λ o. reason_on H o t q ≡ some r → IsHandled o t q r) (sym same)
          (virtualbox-Refuses H P version folder t q r) h
  ]

  vmware_only :
      (d : Descriptor) (s : H.State) (q : Call) (r : Reason)
      → In d (detect_vmware H P s).0
      → is_ready d.status ≡ true
      → reason_on H (adapter_ops H P (ops d)) (detect_vmware H P s).1 q ≡ some r
      → IsHandled (adapter_ops H P (ops d)) (detect_vmware H P s).1 q r
  vmware_only d s q r i up h = elim (detect_vmware-cases s) [
    | inl e ↦
        absurd
          (cc (sym up ∙ ap (λ x. is_ready x.status) (In-sole d _ _ e i) ∙ vmware_missing-status))
    | inr (version, ovftool, e) ↦
        let t = (detect_vmware H P s).1 in
        let same =
          ap (λ x. adapter_ops H P (ops x)) (In-sole d _ _ e i)
          ∙ ops-vmware_ready version ovftool (iso_backend H t) in
        subst (λ o. reason_on H o t q ≡ some r → IsHandled o t q r) (sym same)
          (λ why. inl (vmware-Refuses H P version ovftool t q r why)) h
  ]

  carry :
      {o o' : Ops H.State} {t t' : H.State}
      → o ≡ o'
      → t ≡ t'
      → (q : Call) (r : Reason) → (reason_on H o' t' q ≡ some r → IsHandled o' t' q r)
      → reason_on H o t q ≡ some r
      → IsHandled o t q r
  carry {o' = o'} {t = t} e still q r f =
      subst (λ x. reason_on H x t q ≡ some r → IsHandled x t q r) (sym e)
        (subst (λ u. reason_on H o' u q ≡ some r → IsHandled o' u q r) (sym still) f)

  adapted-eq-ok :
      (c : Result Adapter) (o : Ops H.State)
      → adapted H P c ≡ ok o
      → (a : Adapter) × (c ≡ ok a) × (o ≡ adapter_ops H P a)
  adapted-eq-ok (ok a) o h = (a, refl, cc)
  adapted-eq-ok (err e) o h = cc

  pub select-Refuses :
      (id : Text) (s t : H.State) (o : Ops H.State) (q : Call) (r : Reason)
      → select H P id s ≡ (ok o, t)
      → reason_on H o t q ≡ some r
      → Refuses H o t q r ⊎ IsUngated H P o t q
  unfolding select discover
  select-Refuses id s t o q r h why =
      let u = (detect_virtualbox H P s).1 in
      let boxes = (detect_virtualbox H P s).0 in
      let products = (detect_vmware H P u).0 in
      let (a, chosen, made) =
        adapted-eq-ok (select_ops (boxes ++ products) id) o (ap (λ p. p.0) h) in
      let (d, i, up, served) = select_ops-In (boxes ++ products) id a chosen in
      let same = made ∙ ap (adapter_ops H P) served in
      carry same (sym (ap (λ p. p.1) h)) q r
        (elim (In-append-cases d boxes products i) [
          | inl box ↦ virtualbox_only d s (detect_vmware H P u).1 q r box up
          | inr product ↦ vmware_only d u q r product up
        ])
        why
