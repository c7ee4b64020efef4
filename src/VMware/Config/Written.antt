-- ===== src/VMware/Config/Written.antt =====
-- When the configuration of a VM is written, and what is read from it afterwards.
use desktop_hypervisor_mcp.Base.{false, List, [], ◌∷◌, ◌≡◌, sym, ap, ◌∙◌, arith, inl, inr, All}
use desktop_hypervisor_mcp.Base.Text.{Text, text, contains}
use desktop_hypervisor_mcp.Provider.Contract.{Descriptor}
use desktop_hypervisor_mcp.Provider.Errors.{ok, >>=-eq-ok, Result-cases}
use desktop_hypervisor_mcp.Provider.Files.{IsFaithful}
use desktop_hypervisor_mcp.Provider.Host.{Host}
use desktop_hypervisor_mcp.VMware.Run.{
  vmrun, resolve_vmx, output_or_empty, ensure_off, set_vmx_keys, vmx_key,
}
use desktop_hypervisor_mcp.VMware.Config.{configure}
use desktop_hypervisor_mcp.VMware.Vmx.{Pair, set_content}
use desktop_hypervisor_mcp.VMware.Vmx.Lines.{IsPair}
use desktop_hypervisor_mcp.VMware.Vmx.RoundTrip.{after, value_in_content-set_content}

abbrev list_args : List Text
list_args = text "list" ∷ []

module _ (H : Host) where
  -- Looking for the file changes nothing on the host.
  resolve_vmx_state : (d : Descriptor) (vm : Text) (s : H.State) → (resolve_vmx H d vm s).1 ≡ s
  unfolding resolve_vmx
  resolve_vmx_state d vm s = ground arith

  set_vmx_keys-vmx_key :
      IsFaithful H
      → (vmx : Text) (pairs : List Pair) (s t : H.State) (key : Text) → All IsPair pairs
      → set_vmx_keys H vmx pairs s ≡ (ok tt, t)
      → vmx_key H t vmx key ≡ after key pairs (vmx_key H s vmx key)
  unfolding set_vmx_keys vmx_key
  set_vmx_keys-vmx_key F vmx pairs s t key h e = elim (Result-cases (H.read_file s vmx)) [
    | inl (content, read) ↦ ground (
      arith,
      F.read-write vmx (set_content pairs content) s t,
      value_in_content-set_content pairs content key h,
    )
    | inr (x, read) ↦ absurd (ground arith)
  ]

  ensure_off-eq-ok :
      (vmx : Text) (s u : H.State)
      → ensure_off H vmx s ≡ (ok tt, u)
      → (contains (output_or_empty (vmrun H false list_args s).0) vmx ≡ false)
        × (u ≡ (vmrun H false list_args s).1)
  unfolding ensure_off
  ensure_off-eq-ok vmx s u h = ground arith

  configure-eq-ok :
      (d : Descriptor) (vm : Text) (pairs : List Pair) (s t : H.State) {out : Text}
      → configure H d vm pairs s ≡ (ok out, t)
      → (vmx : Text) × (u : H.State) × (resolve_vmx H d vm s ≡ (ok vmx, s))
        × (ensure_off H vmx s ≡ (ok tt, u))
        × (set_vmx_keys H vmx pairs u ≡ (ok tt, t))
  unfolding configure
  configure-eq-ok d vm pairs s t e =
      let (vmx, s1, found, e1) = >>=-eq-ok (resolve_vmx H d vm) _ s e in
      let (x, s2, off, e2) = >>=-eq-ok (ensure_off H vmx) _ s1 e1 in
      let (y, s3, wrote, e3) = >>=-eq-ok (set_vmx_keys H vmx pairs) _ s2 e2 in
      let same : s1 ≡ s = sym (ap (λ r. r.1) found) ∙ resolve_vmx_state d vm s in
      let done : s3 ≡ t = ap (λ r. r.1) e3 in
      (
        vmx,
        s2,
        found ∙ ap (λ v. (ok vmx, v)) same,
        ap (ensure_off H vmx) (sym same) ∙ off,
        wrote ∙ ap (λ v. (ok tt, v)) done,
      )

  -- On a host as in `IsFaithful`, with keys and values that fit a line: where the configuration of
  -- a VM goes well, its file is found, the list of running VMs does not name it, and afterwards
  -- each key has the value of the last pair that sets it, without regard to case, or else the
  -- value that it had after the list.
  pub configure-vmx_key :
      IsFaithful H
      → (d : Descriptor) (vm : Text) (pairs : List Pair) (s t : H.State) {out : Text}
      → All IsPair pairs
      → configure H d vm pairs s ≡ (ok out, t)
      → let listed = vmrun H false list_args s in
        (vmx : Text) × (resolve_vmx H d vm s ≡ (ok vmx, s))
        × (contains (output_or_empty listed.0) vmx ≡ false)
        × ((key : Text) → vmx_key H t vmx key ≡ after key pairs (vmx_key H listed.1 vmx key))
  configure-vmx_key F d vm pairs s t h e =
      let (vmx, u, found, off, wrote) = configure-eq-ok d vm pairs s t e in
      let (quiet, same) = ensure_off-eq-ok vmx s u off in
      (
        vmx,
        found,
        quiet,
        λ key.
            set_vmx_keys-vmx_key F vmx pairs u t key h wrote
            ∙ ap (λ v. after key pairs (vmx_key H v vmx key)) same,
      )
