-- ===== src/VirtualBox/InGuest/NoCreds.antt =====
-- Guest operations without credentials.
use desktop_hypervisor_mcp.Base.{true, List, ◌≡◌, refl}
use desktop_hypervisor_mcp.Base.Text.{Text}
use desktop_hypervisor_mcp.Provider.Creds.{guest_creds, incomplete, creds_needed}
use desktop_hypervisor_mcp.Provider.Errors.{err, message, M}
use desktop_hypervisor_mcp.Provider.Host.{Host}
use desktop_hypervisor_mcp.VirtualBox.InGuest.{
  creds, run_in_guest, script_in_guest, copy_to_guest, copy_from_guest,
}

module _ (H : Host) where
  -- The step ends with the error about credentials and leaves the host as it is.
  abbrev pub NeedsCreds : M H.State Text → H.State → Type 0
  NeedsCreds m s = m s ≡ (err (message creds_needed), s)

  -- Without a user or a password for the guest, the operations in the guest fail, run no process
  -- and leave the host as it is.
  pub in_guest-NeedsCreds :
      (vm program interpreter script src dest : Text) (args : List Text) (s : H.State)
      → incomplete (guest_creds H.getenv) ≡ true
      → NeedsCreds (run_in_guest H vm program args) s
        × NeedsCreds (script_in_guest H vm interpreter script) s
        × NeedsCreds (copy_to_guest H vm src dest) s
        × NeedsCreds (copy_from_guest H vm src dest) s
  unfolding run_in_guest script_in_guest copy_to_guest copy_from_guest creds
  in_guest-NeedsCreds vm program interpreter script src dest args s h =
      (rw h refl, rw h refl, rw h refl, rw h refl)
