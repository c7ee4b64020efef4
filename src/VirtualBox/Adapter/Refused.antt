-- ===== src/VirtualBox/Adapter/Refused.antt =====
-- The calls that VirtualBox has to refuse.
use desktop_hypervisor_mcp.Base.{
  Bool, true, false, not, ◌||◌, some, [], ◌∷◌, ◌≡◌, refl, ◌⊎◌, arith, inl, inr, Option-cases, ◌++◌,
}
use desktop_hypervisor_mcp.Base.Text.{Text, text, is_empty}
use desktop_hypervisor_mcp.Base.Int.{ℤ, is_pos}
use desktop_hypervisor_mcp.Provider.Contract.{
  Descriptor, Capability-discrete, has, has_in, family, virtualbox_family, capture_screen,
  guestinfo_config, make_iso, ova_import, ova_export,
}
use desktop_hypervisor_mcp.Provider.Errors.{Error, message, err, Result-cases}
use desktop_hypervisor_mcp.Provider.Host.{Host}
use desktop_hypervisor_mcp.Provider.Ops.{Ops}
use desktop_hypervisor_mcp.Provider.Ops.Refusals.{
  Call, creating, importing, exporting, resizing, attaching, injecting, running_program,
  running_script, copying_in, copying_out, capturing, cloning, nesting, addressing,
  listing_snapshots, forwarding, packing, commanding, unless-IsRefusal, Reason, withheld, no_creds,
  no_name, no_change, no_file, no_args, reason, Refuses, reason_on, is_missing,
}
use desktop_hypervisor_mcp.Provider.Patterns.{Patterns}
use desktop_hypervisor_mcp.Provider.Creds.{creds_needed}
use desktop_hypervisor_mcp.Provider.Specs.{CreateSpec}
use desktop_hypervisor_mcp.VirtualBox.InGuest.{run_raw, capture_vm}
use desktop_hypervisor_mcp.VirtualBox.InGuest.NoCreds.{in_guest-NeedsCreds}
use desktop_hypervisor_mcp.VirtualBox.Create.{create_vm}
use desktop_hypervisor_mcp.VirtualBox.Machines.{
  resource_args, set_vm_resources, slot_of, medium_of, attach_medium,
}
use desktop_hypervisor_mcp.VirtualBox.Network.{set_vm_guestinfo, make_vm_iso}
use desktop_hypervisor_mcp.VirtualBox.Adapter.{new_virtualbox}
use desktop_hypervisor_mcp.VirtualBox.Detect.{virtualbox_caps, virtualbox_missing, virtualbox_ready}

module _ (H : Host) (d : Descriptor) where
  create_vm-fails :
      (spec : CreateSpec) (s : H.State)
      → not (is_empty spec.name) ≡ false
      → (e : Error) × (create_vm H d spec s ≡ (err e, s))
  unfolding create_vm
  create_vm-fails spec s h = (message (text "name is required"), ground arith)

  set_vm_resources-fails :
      (vm : Text) (cpus memory : ℤ) (s : H.State)
      → is_pos cpus || is_pos memory ≡ false
      → (e : Error) × (set_vm_resources H d vm cpus memory s ≡ (err e, s))
  unfolding set_vm_resources resource_args
  set_vm_resources-fails vm cpus memory s h = (message (text "nothing to change"), ground arith)

  medium_of-fails :
      (s : H.State) (path : Text)
      → is_empty path || not (is_missing H s path) ≡ false
      → (e : Error) × (medium_of H d s path ≡ err e)
  unfolding medium_of
  medium_of-fails s [] h = absurd cc
  medium_of-fails s (c ∷ path) h = elim (Option-cases (H.stat s (c ∷ path))) [
    | inl e ↦ absurd (ground arith)
    | inr (e, he) ↦ (message (text "iso not found: " ++ (c ∷ path)), ground arith)
  ]

  attach_medium-fails :
      (vm path slot : Text) (s : H.State)
      → is_empty path || not (is_missing H s path) ≡ false
      → (e : Error) × (attach_medium H d vm path slot s ≡ (err e, s))
  unfolding attach_medium
  attach_medium-fails vm path slot s h = elim (Result-cases (slot_of slot)) [
    | inr (e, he) ↦ (e, ground arith)
    | inl (a, ha) ↦ let (e, he) = medium_of-fails s path h in (e, ground arith)
  ]

known : (b : Bool) → not b ≡ false → b ≡ true
known true h = refl
known false h = absurd cc

module _ (H : Host) (P : Patterns) where
  -- The one call that is served though its capability is not advertised: VirtualBox takes a
  -- screenshot.
  abbrev pub IsUngated : Ops H.State → H.State → Call → Type 0
  IsUngated o s (capturing vm dest) =
      (family o.descriptor.kind ≡ virtualbox_family)
      × (has o.descriptor capture_screen ≡ false)
      × (o.capture_screen vm dest s ≡ capture_vm H vm dest s)
  IsUngated o s _ = ⊥

  pub virtualbox-Refuses :
      (version folder : Text) (s : H.State) (q : Call) (r : Reason)
      → reason_on H (new_virtualbox H P (virtualbox_ready H P version folder)) s q ≡ some r
      → Refuses H (new_virtualbox H P (virtualbox_ready H P version folder)) s q r
        ⊎ IsUngated (new_virtualbox H P (virtualbox_ready H P version folder)) s q
  unfolding new_virtualbox virtualbox_ready virtualbox_missing virtualbox_caps has_in
      Capability-discrete reason
  virtualbox-Refuses version folder s (creating spec) r h =
      inl (unless-IsRefusal _ no_name r _ s (λ b. create_vm-fails H _ spec s b) h)
  virtualbox-Refuses version folder s (importing path name) r h =
      inl (unless-IsRefusal _ (withheld ova_import) r _ s (λ b. absurd (ground arith)) h)
  virtualbox-Refuses version folder s (exporting vm dest) r h = inl (
      unless-IsRefusal (has_in virtualbox_caps ova_export) (withheld ova_export) r _ s
        (λ b. absurd cc) h)
  virtualbox-Refuses version folder s (resizing vm cpus memory) r h =
      inl
        (unless-IsRefusal _ no_change r _ s (λ b. set_vm_resources-fails H _ vm cpus memory s b) h)
  virtualbox-Refuses version folder s (attaching vm path slot) r h =
      inl (unless-IsRefusal _ no_file r _ s (λ b. attach_medium-fails H _ vm path slot s b) h)
  virtualbox-Refuses version folder s (injecting vm pairs) r h = inl (
      unless-IsRefusal (has_in virtualbox_caps guestinfo_config) (withheld guestinfo_config) r _ s
        (λ b. unfold set_vm_guestinfo in refl) h)
  virtualbox-Refuses version folder s (running_program vm program args) r h = inl (
      unless-IsRefusal _ no_creds r _ s
        (λ b. (
          message creds_needed,
          (in_guest-NeedsCreds H vm program [] [] [] [] args s (known _ b)).0,
        ))
        h)
  virtualbox-Refuses version folder s (running_script vm interpreter script) r h = inl (
      unless-IsRefusal _ no_creds r _ s
        (λ b. (
          message creds_needed,
          (in_guest-NeedsCreds H vm [] interpreter script [] [] [] s (known _ b)).1,
        ))
        h)
  virtualbox-Refuses version folder s (copying_in vm src dest) r h = inl (
      unless-IsRefusal _ no_creds r _ s
        (λ b.
          (message creds_needed, (in_guest-NeedsCreds H vm [] [] [] src dest [] s (known _ b)).2))
        h)
  virtualbox-Refuses version folder s (copying_out vm src dest) r h = inl (
      unless-IsRefusal _ no_creds r _ s
        (λ b.
          (message creds_needed, (in_guest-NeedsCreds H vm [] [] [] src dest [] s (known _ b)).3))
        h)
  virtualbox-Refuses version folder s (packing src dest label) r h = inl (
      unless-IsRefusal (has_in virtualbox_caps make_iso) (withheld make_iso) r _ s
        (λ b. unfold make_vm_iso in refl) h)
  virtualbox-Refuses version folder s (commanding []) r h =
      inl (unless-IsRefusal false no_args r _ s (λ b. unfold run_raw in (_, refl)) h)
  virtualbox-Refuses version folder s (commanding (a ∷ args)) r h = absurd cc
  virtualbox-Refuses version folder s (cloning spec) r h = absurd cc
  virtualbox-Refuses version folder s (nesting vm enabled) r h = absurd cc
  virtualbox-Refuses version folder s (addressing vm network) r h = absurd cc
  virtualbox-Refuses version folder s (listing_snapshots vm whole) r h = absurd cc
  virtualbox-Refuses version folder s (forwarding network proto guest_ip guest_port host_port) r h =
      absurd cc
  virtualbox-Refuses version folder s (capturing vm dest) r h =
      inr (unfold family in refl, refl, refl)
