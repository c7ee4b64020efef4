-- ===== src/VMware/Adapter/Refused.antt =====
-- The calls that VMware has to refuse.
use desktop_hypervisor_mcp.Base.{
  Bool, true, false, not, ◌||◌, some, [], ◌∷◌, ◌≡◌, refl, sym, ap, ◌∙◌, arith, inl, inr,
  Option-cases, ◌++◌,
}
use desktop_hypervisor_mcp.Base.Text.{Text, text, is_empty, has_suffix}
use desktop_hypervisor_mcp.Base.Int.{ℤ, is_pos}
use desktop_hypervisor_mcp.Provider.Contract.{
  Descriptor, has, Capability-discrete, has_in, guestinfo_config, make_iso, ova_import, ova_export,
}
use desktop_hypervisor_mcp.Provider.Errors.{Error, message, unsupported, Result, ok, err, is_ok}
use desktop_hypervisor_mcp.Provider.Host.{Host}
use desktop_hypervisor_mcp.Provider.Ops.Refusals.{
  Call, creating, importing, exporting, resizing, attaching, injecting, running_program,
  running_script, copying_in, copying_out, capturing, cloning, nesting, addressing,
  listing_snapshots, forwarding, packing, commanding, unless-IsRefusal, Reason, withheld, no_creds,
  no_name, no_change, no_file, no_args, reason, Refuses, reason_on, is_missing,
}
use desktop_hypervisor_mcp.Provider.Patterns.{Patterns}
use desktop_hypervisor_mcp.Provider.Specs.{CreateSpec}
use desktop_hypervisor_mcp.VMware.Adapter.{new_vmware}
use desktop_hypervisor_mcp.VMware.Config.{resource_pairs, configure_some, set_resources, attach_iso}
use desktop_hypervisor_mcp.VMware.Create.{create}
use desktop_hypervisor_mcp.VMware.Detect.{base_caps, vmware_caps, vmware_ready}
use desktop_hypervisor_mcp.VMware.Guest.{raw}
use desktop_hypervisor_mcp.VMware.Guest.NoCreds.{guest-IsRefused}
use desktop_hypervisor_mcp.VMware.Lifecycle.{import_image, export_ova}
use desktop_hypervisor_mcp.VMware.MakeIso.{make_image}
use desktop_hypervisor_mcp.VMware.Tools.{iso_backend}

known : (b : Bool) → not b ≡ false → b ≡ true
known true h = refl
known false h = absurd cc

as_error :
    {A S : Type 0} (p : Result A × S) {s : S}
    → is_ok (p.0) ≡ false
    → p.1 ≡ s
    → (e : Error) × (p ≡ (err e, s))
as_error (ok a, t) h same = absurd cc
as_error (err e, t) h same = (e, ap (λ u. (err e, u)) same)

-- A tool that makes an ISO is advertised where there is one.
has-make_iso :
    (ovftool backend : Text)
    → has_in (vmware_caps ovftool backend) make_iso ≡ false
    → is_empty backend ≡ true
unfolding vmware_caps base_caps has_in Capability-discrete
has-make_iso [] [] h = refl
has-make_iso [] (c ∷ backend) h = absurd cc
has-make_iso (o ∷ ovftool) [] h = refl
has-make_iso (o ∷ ovftool) (c ∷ backend) h = absurd cc

has-guestinfo_config :
    (ovftool backend : Text) → has_in (vmware_caps ovftool backend) guestinfo_config ≡ true
unfolding vmware_caps base_caps has_in Capability-discrete
has-guestinfo_config ovftool backend = refl

module _ (H : Host) (d : Descriptor) where
  create-fails :
      (spec : CreateSpec) (s : H.State)
      → not (is_empty spec.name) ≡ false
      → (e : Error) × (create H d spec s ≡ (err e, s))
  unfolding create
  create-fails spec s h = (message (text "name is required"), ground arith)

  set_resources-fails :
      (vm : Text) (cpus memory : ℤ) (s : H.State)
      → is_pos cpus || is_pos memory ≡ false
      → (e : Error) × (set_resources H d vm cpus memory s ≡ (err e, s))
  unfolding set_resources configure_some resource_pairs
  set_resources-fails vm cpus memory s h = (message (text "nothing to change"), ground arith)

  attach_iso-fails :
      (vm path slot : Text) (s : H.State)
      → is_empty path || not (is_missing H s path) ≡ false
      → (e : Error) × (attach_iso H d vm path slot s ≡ (err e, s))
  unfolding attach_iso
  attach_iso-fails vm path slot s h = elim (Option-cases (H.stat s path)) [
    | inl e ↦ absurd (ground arith)
    | inr (e, he) ↦ (message (text "iso not found: " ++ path), ground arith)
  ]

  import_image-unsupported :
      (path name : Text) (s : H.State)
      → has_suffix path (text ".vmx") || has d ova_import ≡ false
      → import_image H d path name s ≡ (err (unsupported ova_import), s)
  unfolding import_image
  import_image-unsupported path name s h = ground arith

  export_ova-unsupported :
      (vm dest : Text) (s : H.State)
      → has d ova_export ≡ false
      → export_ova H d vm dest s ≡ (err (unsupported ova_export), s)
  unfolding export_ova
  export_ova-unsupported vm dest s h = ground arith

make_image-unsupported :
    (H : Host) (src dest label : Text) (s : H.State)
    → is_empty (iso_backend H s) ≡ true
    → make_image H src dest label s ≡ (err (unsupported make_iso), s)
unfolding make_image
make_image-unsupported H src dest label s h = ground arith

module _ (H : Host) (P : Patterns) (version ovftool : Text) (s : H.State) where
  abbrev detected : Descriptor
  detected = vmware_ready H P version ovftool (iso_backend H s)

  backend_missing : has detected make_iso ≡ false → is_empty (iso_backend H s) ≡ true
  unfolding vmware_ready
  backend_missing = has-make_iso ovftool (iso_backend H s)

  advertised : has detected guestinfo_config ≡ false → ⊥
  unfolding vmware_ready
  advertised h = cc (sym (has-guestinfo_config ovftool (iso_backend H s)) ∙ h)

  pub vmware-Refuses :
      (q : Call) (r : Reason)
      → reason_on H (new_vmware H P detected) s q ≡ some r
      → Refuses H (new_vmware H P detected) s q r
  unfolding new_vmware reason vmware_ready vmware_caps base_caps has_in Capability-discrete
  vmware-Refuses (creating spec) r h =
      unless-IsRefusal _ no_name r _ s (λ b. create-fails H _ spec s b) h
  vmware-Refuses (importing path name) r h =
      unless-IsRefusal (has_suffix path (text ".vmx") || has detected ova_import)
        (withheld ova_import) r _ s (λ b. import_image-unsupported H _ path name s b) h
  vmware-Refuses (exporting vm dest) r h =
      unless-IsRefusal (has detected ova_export) (withheld ova_export) r _ s
        (λ b. export_ova-unsupported H _ vm dest s b) h
  vmware-Refuses (resizing vm cpus memory) r h =
      unless-IsRefusal _ no_change r _ s (λ b. set_resources-fails H _ vm cpus memory s b) h
  vmware-Refuses (attaching vm path slot) r h =
      unless-IsRefusal _ no_file r _ s (λ b. attach_iso-fails H _ vm path slot s b) h
  vmware-Refuses (injecting vm pairs) r h =
      unless-IsRefusal (has detected guestinfo_config) (withheld guestinfo_config) r _ s
        (λ b. absurd (advertised b)) h
  vmware-Refuses (running_program vm program args) r h =
      unless-IsRefusal _ no_creds r _ s
        (λ b.
          let refused = (guest-IsRefused H detected vm program [] [] [] [] args s (known _ b)).0 in
          as_error _ (refused.0) (refused.1))
        h
  vmware-Refuses (running_script vm interpreter script) r h =
      unless-IsRefusal _ no_creds r _ s
        (λ b.
          let refused =
            (guest-IsRefused H detected vm [] interpreter script [] [] [] s (known _ b)).1 in
          as_error _ (refused.0) (refused.1))
        h
  vmware-Refuses (copying_in vm src dest) r h =
      unless-IsRefusal _ no_creds r _ s
        (λ b.
          let refused = (guest-IsRefused H detected vm [] [] [] src dest [] s (known _ b)).2 in
          as_error _ (refused.0) (refused.1))
        h
  vmware-Refuses (copying_out vm src dest) r h =
      unless-IsRefusal _ no_creds r _ s
        (λ b.
          let refused = (guest-IsRefused H detected vm [] [] [] src dest [] s (known _ b)).3 in
          as_error _ (refused.0) (refused.1))
        h
  vmware-Refuses (packing src dest label) r h =
      unless-IsRefusal (has detected make_iso) (withheld make_iso) r _ s
        (λ b. make_image-unsupported H src dest label s (backend_missing b)) h
  vmware-Refuses (commanding []) r h =
      unless-IsRefusal false no_args r _ s (λ b. unfold raw in (_, refl)) h
  vmware-Refuses (commanding (a ∷ args)) r h = absurd cc
  vmware-Refuses (capturing vm dest) r h = absurd cc
  vmware-Refuses (cloning spec) r h = absurd cc
  vmware-Refuses (nesting vm enabled) r h = absurd cc
  vmware-Refuses (addressing vm network) r h = absurd cc
  vmware-Refuses (listing_snapshots vm whole) r h = absurd cc
  vmware-Refuses (forwarding network proto guest_ip guest_port host_port) r h = absurd cc
