-- ===== src/VMware/Guest.antt =====
-- provider/vmware/ops.go: snapshots, operations in the guest, the network, and raw commands. The
-- subnet in a `networking` file is a parameter, since package regexp finds it.
pub mod NoCreds
use desktop_hypervisor_mcp.Base.{
  Bool, true, false, not, ◌&&◌, Option, none, some, List, [], ◌∷◌, ◌++◌, if◌then◌else◌,
}
use desktop_hypervisor_mcp.Base.Int.{ℤ, itoa}
use desktop_hypervisor_mcp.Base.Text.{Text, text, ◌==◌, or_text, is_empty}
use desktop_hypervisor_mcp.Provider.Contract.{Descriptor}
use desktop_hypervisor_mcp.Provider.Creds.{guest_creds, incomplete}
use desktop_hypervisor_mcp.Provider.Errors.{
  Result, ok, err, message, wrap, M, ◌>>=◌, return, fail, with_error,
}
use desktop_hypervisor_mcp.Provider.Host.{Host}
use desktop_hypervisor_mcp.VMware.Run.{vmrun, resolve_vmx}

-- The message in place of an output that is only `(ok)`.
abbrev pub or_done : Text → Text → Text
or_done out done = if out == text "(ok)" then done else out

-- The loop of `Ops.EnsureClusterNetwork` over the `networking` files.
unfoldable pub first_subnet : (Text → Option Text) → (Text → Result Text) → List Text → Text
first_subnet subnet_of read [] = []
first_subnet subnet_of read (f ∷ fs) =
    let rest = first_subnet subnet_of read fs in
    elim (read f) [
      | err e ↦ rest
      | ok content ↦ elim (subnet_of content) [ some subnet ↦ subnet ++ text "/24" | none ↦ rest ]
    ]

unfoldable pub networking_files : List Text
networking_files =
    text "/Library/Preferences/VMware Fusion/networking" ∷ text "/etc/vmware/networking" ∷ []

module _ (H : Host) (d : Descriptor) where
  -- `Ops.snap`, of a verb and the arguments behind the file.
  unfoldable pub snap : Text → Text → List Text → M H.State Text
  snap vm verb args = do vmx ← resolve_vmx H d vm; vmrun H false (verb ∷ vmx ∷ args)

  -- `Ops.SnapshotTake`
  unfoldable pub snapshot_take : Text → Text → M H.State Text
  snapshot_take vm name = snap vm (text "snapshot") (name ∷ [])

  -- `Ops.SnapshotRestore`
  unfoldable pub snapshot_restore : Text → Text → M H.State Text
  snapshot_restore vm name = snap vm (text "revertToSnapshot") (name ∷ [])

  -- `Ops.SnapshotDelete`
  unfoldable pub snapshot_delete : Text → Text → Bool → M H.State Text
  snapshot_delete vm name children =
      snap vm (text "deleteSnapshot")
        (name ∷ (if children then text "andDeleteChildren" ∷ [] else []))

  -- `Ops.SnapshotList`
  unfoldable pub snapshot_list : Text → Bool → M H.State Text
  snapshot_list vm tree = snap vm (text "listSnapshots") (if tree then text "showtree" ∷ [] else [])

  -- `Ops.GuestExec`
  unfoldable pub guest_exec : Text → Text → List Text → M H.State Text
  guest_exec vm program args = do
    vmx ← resolve_vmx H d vm
    vmrun H true (text "runProgramInGuest" ∷ vmx ∷ program ∷ args)

  -- `Ops.GuestScript`
  unfoldable pub guest_script : Text → Text → Text → M H.State Text
  guest_script vm interpreter script = do
    vmx ← resolve_vmx H d vm
    vmrun H true
        (text "runScriptInGuest" ∷ vmx ∷ or_text interpreter (text "/bin/bash") ∷ script ∷ [])

  -- `Ops.GuestCopyIn`
  unfoldable pub guest_copy_in : Text → Text → Text → M H.State Text
  guest_copy_in vm host_src guest_dest = do
    vmx ← resolve_vmx H d vm
    vmrun H true (text "CopyFileFromHostToGuest" ∷ vmx ∷ host_src ∷ guest_dest ∷ [])

  -- `Ops.GuestCopyOut`
  unfoldable pub guest_copy_out : Text → Text → Text → M H.State Text
  guest_copy_out vm guest_src host_dest = do
    vmx ← resolve_vmx H d vm
    vmrun H true (text "CopyFileFromGuestToHost" ∷ vmx ∷ guest_src ∷ host_dest ∷ [])

  abbrev has_creds : Bool
  has_creds = not (incomplete (guest_creds H.getenv))

  -- `Ops.CaptureScreen`
  unfoldable pub capture_screen : Text → Text → M H.State Text
  capture_screen vm host_dest = do
    vmx ← resolve_vmx H d vm
    out ← vmrun H has_creds (text "captureScreen" ∷ vmx ∷ host_dest ∷ [])
    return (or_done out (text "screenshot written to " ++ host_dest))

  -- `Ops.EnsureClusterNetwork`
  unfoldable pub ensure_cluster_network : (Text → Option Text) → Text → M H.State Text
  ensure_cluster_network subnet_of name s =
      let subnet = first_subnet subnet_of (H.read_file s) networking_files in
      if not (is_empty name) && (not (name == text "vmnet8") && not (name == text "cluster-net"))
      then fail
          (message (
            text
              "VMware desktop provides one shared NAT network (vmnet8); custom NAT networks need the product's own network editor (root). Attach VMs with connectionType nat and they share vmnet8"))
          s
      else return
          (text
              "vmnet8 (shared NAT with DHCP) is present on every VMware desktop install; VMs with connectionType nat share it"
            ++ (if is_empty subnet then [] else text " — subnet " ++ subnet))
          s

  -- `Ops.ExposeGuestPort`
  unfoldable pub expose_guest_port : Text → Text → Text → ℤ → ℤ → M H.State Text
  expose_guest_port network_given proto_given guest_ip guest_port host_port = do
    let network = or_text network_given (text "vmnet8")
    let proto = or_text proto_given (text "tcp")
    out ←
        with_error
          (λ e. wrap [] e (
            text
              " (VMware port-forwarding changes require root — run the server privileged for this action, or forward manually)"))
          (vmrun H false (
            text "setPortForwarding"
            ∷ network
            ∷ proto
            ∷ itoa host_port
            ∷ guest_ip
            ∷ itoa guest_port
            ∷ []))
    return (
        or_done out (
          text "host 127.0.0.1:"
          ++ (itoa host_port
              ++ (text " → "
                  ++ (guest_ip
                      ++ (text ":"
                          ++ (itoa guest_port
                              ++ (text " ("
                                  ++ (proto ++ (text " on " ++ (network ++ text ")")))))))))))

  -- `Ops.Raw`
  unfoldable pub raw : List Text → M H.State Text
  raw [] = fail (message (text "raw requires vmrun arguments"))
  raw (a ∷ args) = vmrun H has_creds (a ∷ args)
