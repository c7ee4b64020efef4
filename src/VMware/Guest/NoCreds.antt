-- ===== src/VMware/Guest/NoCreds.antt =====
-- Guest operations without credentials.
use desktop_hypervisor_mcp.Base.{true, false, List, [], ◌∷◌, ◌≡◌, refl, ◌∙◌, arith}
use desktop_hypervisor_mcp.Base.Text.{Text, text}
use desktop_hypervisor_mcp.Provider.Contract.{Descriptor}
use desktop_hypervisor_mcp.Provider.Creds.{guest_creds, incomplete}
use desktop_hypervisor_mcp.Provider.Errors.{Result, ok, err, M, resume, is_ok}
use desktop_hypervisor_mcp.Provider.Host.{Host}
use desktop_hypervisor_mcp.VMware.Run.{vmrun, resolve_vmx}
use desktop_hypervisor_mcp.VMware.Guest.{guest_exec, guest_script, guest_copy_in, guest_copy_out}

module _ (H : Host) (d : Descriptor) where
  -- The step fails and leaves the host as it is.
  abbrev pub IsRefused : M H.State Text → H.State → Type 0
  IsRefused m s = (is_ok (m s).0 ≡ false) × ((m s).1 ≡ s)

  vmrun-IsRefused :
      (args : List Text) (s : H.State)
      → incomplete (guest_creds H.getenv) ≡ true
      → IsRefused (vmrun H true args) s
  unfolding vmrun
  vmrun-IsRefused args s h = rw h (refl, refl)

  resume_refused :
      (r : Result Text × H.State) (args : Text → List Text) (s : H.State)
      → r.1 ≡ s
      → incomplete (guest_creds H.getenv) ≡ true
      → (is_ok (resume (λ vmx. vmrun H true (args vmx)) r).0 ≡ false)
        × ((resume (λ vmx. vmrun H true (args vmx)) r).1 ≡ s)
  resume_refused (ok vmx, t) args s e h =
      let (failed, same) = vmrun-IsRefused (args vmx) t h in (failed, same ∙ e)
  resume_refused (err x, t) args s e h = (refl, e)

  resolve_vmx_kept : (vm : Text) (s : H.State) → (resolve_vmx H d vm s).1 ≡ s
  unfolding resolve_vmx
  resolve_vmx_kept vm s = ground arith

  -- Without a user or a password for the guest, the operations in the guest fail, run no process
  -- and leave the host as it is.
  pub guest-IsRefused :
      (vm program interpreter script src dest : Text) (args : List Text) (s : H.State)
      → incomplete (guest_creds H.getenv) ≡ true
      → IsRefused (guest_exec H d vm program args) s
        × IsRefused (guest_script H d vm interpreter script) s
        × IsRefused (guest_copy_in H d vm src dest) s
        × IsRefused (guest_copy_out H d vm src dest) s
  unfolding guest_exec guest_script guest_copy_in guest_copy_out
  guest-IsRefused vm program interpreter script src dest args s h =
      let r = resolve_vmx H d vm s in
      let kept = resolve_vmx_kept vm s in
      (
        resume_refused r (λ vmx. text "runProgramInGuest" ∷ vmx ∷ program ∷ args) s kept h,
        resume_refused r _ s kept h,
        resume_refused r (λ vmx. text "CopyFileFromHostToGuest" ∷ vmx ∷ src ∷ dest ∷ []) s kept h,
        resume_refused r (λ vmx. text "CopyFileFromGuestToHost" ∷ vmx ∷ src ∷ dest ∷ []) s kept h,
      )
