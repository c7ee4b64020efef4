-- ===== src/VirtualBox/InGuest.antt =====
-- provider/virtualbox/ops.go: operations in the guest, the screen, port forwarding and raw commands.
pub mod NoCreds
use desktop_hypervisor_mcp.Base.{Bool, true, false, List, [], ◌∷◌, ◌++◌, if◌then◌else◌}
use desktop_hypervisor_mcp.Base.Int.{ℤ, itoa}
use desktop_hypervisor_mcp.Base.Text.{Text, text, ◌==◌, or_text, contains, to_lower}
use desktop_hypervisor_mcp.FilePath.{base}
use desktop_hypervisor_mcp.Provider.Creds.{Creds, guest_creds, incomplete, creds_needed}
use desktop_hypervisor_mcp.Provider.Errors.{message, Result, ok, err, M, ◌>>=◌, return, fail, lift}
use desktop_hypervisor_mcp.Provider.Host.{Host}
use desktop_hypervisor_mcp.VirtualBox.Run.{run}

-- The flag with which an interpreter takes its script.
unfoldable pub script_flag : Text → Text
script_flag interpreter =
    if contains (to_lower (base interpreter)) (text "powershell")
    then text "-Command"
    else text "-c"

abbrev login : Creds → List Text
login c = text "--username" ∷ c.user ∷ text "--password" ∷ c.pass ∷ []

module _ (H : Host) where
  -- `Ops.creds`
  unfoldable pub creds : Result Creds
  creds = let c = guest_creds H.getenv in if incomplete c then err (message creds_needed) else ok c

  -- `Ops.GuestExec`
  unfoldable pub run_in_guest : Text → Text → List Text → M H.State Text
  run_in_guest vm program args = do
    c ← lift creds
    run H (
        (text "guestcontrol" ∷ vm ∷ text "run" ∷ [])
        ++ (login c
            ++ ((text "--wait-stdout"
                  ∷ text "--wait-stderr"
                  ∷ text "--exe"
                  ∷ program
                  ∷ text "--"
                  ∷ program
                  ∷ [])
                ++ args)))

  -- `Ops.GuestScript`
  unfoldable pub script_in_guest : Text → Text → Text → M H.State Text
  script_in_guest vm interpreter_given script =
      let interpreter = or_text interpreter_given (text "/bin/bash") in
      run_in_guest vm interpreter (script_flag interpreter ∷ script ∷ [])

  -- `Ops.GuestCopyIn`
  unfoldable pub copy_to_guest : Text → Text → Text → M H.State Text
  copy_to_guest vm host_src guest_dest = do
    c ← lift creds
    run H (
        (text "guestcontrol" ∷ vm ∷ text "copyto" ∷ [])
        ++ (login c ++ (host_src ∷ guest_dest ∷ [])))

  -- `Ops.GuestCopyOut`
  unfoldable pub copy_from_guest : Text → Text → Text → M H.State Text
  copy_from_guest vm guest_src host_dest = do
    c ← lift creds
    run H (
        (text "guestcontrol" ∷ vm ∷ text "copyfrom" ∷ [])
        ++ (login c ++ (guest_src ∷ host_dest ∷ [])))

  -- `Ops.CaptureScreen`
  unfoldable pub capture_vm : Text → Text → M H.State Text
  capture_vm vm host_dest = do
    out ← run H (text "controlvm" ∷ vm ∷ text "screenshotpng" ∷ host_dest ∷ [])
    return (if out == text "(ok)" then text "screenshot written to " ++ host_dest else out)

  -- The rule of `Ops.ExposeGuestPort`.
  abbrev forward_rule : Text → Text → ℤ → ℤ → Text
  forward_rule proto guest_ip guest_port host_port =
      text "pf-"
      ++ (itoa host_port
          ++ (text "-"
              ++ (itoa guest_port
                  ++ (text ":"
                      ++ (proto
                          ++ (text ":[]:"
                              ++ (itoa host_port
                                  ++ (text ":["
                                      ++ (guest_ip ++ (text "]:" ++ itoa guest_port))))))))))

  -- `Ops.ExposeGuestPort`
  unfoldable pub forward_port : Text → Text → Text → ℤ → ℤ → M H.State Text
  forward_port network_given proto_given guest_ip guest_port host_port = do
    let network = or_text network_given (text "cluster-net")
    let proto = or_text proto_given (text "tcp")
    _ ← run H (
        text "natnetwork"
        ∷ text "modify"
        ∷ text "--netname"
        ∷ network
        ∷ text "--port-forward-4"
        ∷ forward_rule proto guest_ip guest_port host_port
        ∷ [])
    return (
        text "host 127.0.0.1:"
        ++ (itoa host_port
            ++ (text " → "
                ++ (guest_ip
                    ++ (text ":"
                        ++ (itoa guest_port
                            ++ (text " ("
                                ++ (proto ++ (text " on " ++ (network ++ text ")"))))))))))

  -- `Ops.Raw`
  unfoldable pub run_raw : List Text → M H.State Text
  run_raw [] = fail (message (text "raw requires VBoxManage arguments"))
  run_raw (a ∷ args) = run H (a ∷ args)
