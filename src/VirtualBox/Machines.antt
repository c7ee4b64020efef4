-- ===== src/VirtualBox/Machines.antt =====
-- provider/virtualbox/ops.go: the life, the configuration and the snapshots of a VM.
use desktop_hypervisor_mcp.Base.{Bool, none, some, List, [], ◌∷◌, ◌++◌, if◌then◌else◌}
use desktop_hypervisor_mcp.Base.Int.{ℤ, is_pos, itoa}
use desktop_hypervisor_mcp.Base.Text.{Text, text, is_empty, cut}
use desktop_hypervisor_mcp.Provider.Contract.{Descriptor}
use desktop_hypervisor_mcp.Provider.Errors.{message, Result, ok, err, M, fail}
use desktop_hypervisor_mcp.Provider.Host.{Host}
use desktop_hypervisor_mcp.Provider.Specs.{CloneSpec}
use desktop_hypervisor_mcp.VirtualBox.Run.{run}

-- The arguments of `clonevm`; an error for a linked clone without a snapshot.
unfoldable pub clone_vm_args : CloneSpec → Result (List Text)
clone_vm_args spec =
    let args =
      (text "clonevm" ∷ spec.source ∷ text "--name" ∷ spec.dest ∷ text "--register" ∷ [])
      ++ (if is_empty spec.snapshot then [] else text "--snapshot" ∷ spec.snapshot ∷ []) in
    if spec.linked
    then (if is_empty spec.snapshot
        then err (message (text "VirtualBox linked clones require a snapshot to link from"))
        else ok (args ++ (text "--options" ∷ text "link" ∷ [])))
    else ok args

-- The controller and the port of a slot.
unfoldable pub slot_of : Text → Result (Text × Text)
slot_of [] = ok (text "SATA", text "1")
slot_of (c ∷ slot) =
    let (controller, port, found) = cut b':' (c ∷ slot) in
    if found
    then ok (controller, port)
    else err (message (text "slot must be CONTROLLER:PORT, e.g. SATA:1"))

-- The pairs of `Ops.SetResources`.
unfoldable pub resource_args : ℤ → ℤ → List Text
resource_args cpus memory =
    (if is_pos cpus then text "--cpus" ∷ itoa cpus ∷ [] else [])
    ++ (if is_pos memory then text "--memory" ∷ itoa memory ∷ [] else [])

module _ (H : Host) (d : Descriptor) where
  -- `Ops.Start`
  unfoldable pub start_vm : Text → Bool → M H.State Text
  start_vm vm gui =
      run H
        (text "startvm" ∷ vm ∷ text "--type" ∷ (if gui then text "gui" else text "headless") ∷ [])

  -- `Ops.Stop`
  unfoldable pub stop_vm : Text → Bool → M H.State Text
  stop_vm vm hard =
      run H
        (text "controlvm" ∷ vm ∷ (if hard then text "poweroff" else text "acpipowerbutton") ∷ [])

  -- `Ops.Suspend`
  unfoldable pub suspend_vm : Text → M H.State Text
  suspend_vm vm = run H (text "controlvm" ∷ vm ∷ text "savestate" ∷ [])

  -- `Ops.Reset`
  unfoldable pub reset_vm : Text → Bool → M H.State Text
  reset_vm vm hard = run H (text "controlvm" ∷ vm ∷ text "reset" ∷ [])

  -- `Ops.Delete`
  unfoldable pub delete_vm : Text → M H.State Text
  delete_vm vm = run H (text "unregistervm" ∷ vm ∷ text "--delete" ∷ [])

  -- `Ops.Clone`
  unfoldable pub clone_vm : CloneSpec → M H.State Text
  clone_vm spec s = elim (clone_vm_args spec) [ ok args ↦ run H args s | err e ↦ fail e s ]

  -- `Ops.ImportImage`
  unfoldable pub import_vm : Text → Text → M H.State Text
  import_vm path name = run H (
      (text "import" ∷ path ∷ text "--vsys" ∷ text "0" ∷ [])
      ++ (if is_empty name then [] else text "--vmname" ∷ name ∷ []))

  -- `Ops.ExportOVA`
  unfoldable pub export_vm : Text → Text → M H.State Text
  export_vm vm dest = run H (text "export" ∷ vm ∷ text "-o" ∷ dest ∷ [])

  -- `Ops.SetResources`
  unfoldable pub set_vm_resources : Text → ℤ → ℤ → M H.State Text
  set_vm_resources vm cpus memory = elim (resource_args cpus memory) [
    | [] ↦ fail (message (text "nothing to change"))
    | a ∷ args ↦ run H (text "modifyvm" ∷ vm ∷ a ∷ args)
  ]

  -- `Ops.SetNestedVirt`
  unfoldable pub set_vm_nested : Text → Bool → M H.State Text
  set_vm_nested vm enabled = run H (
      text "modifyvm"
      ∷ vm
      ∷ text "--nested-hw-virt"
      ∷ (if enabled then text "on" else text "off")
      ∷ [])

  -- The medium that is attached; an error if the file is not there.
  unfoldable pub medium_of : H.State → Text → Result Text
  medium_of s [] = ok (text "emptydrive")
  medium_of s (c ∷ path) = elim (H.stat s (c ∷ path)) [
    | none ↦ ok (c ∷ path)
    | some e ↦ err (message (text "iso not found: " ++ (c ∷ path)))
  ]

  -- `Ops.AttachISO`
  unfoldable pub attach_medium : Text → Text → Text → M H.State Text
  attach_medium vm iso_path slot s = elim (slot_of slot) [
    | err e ↦ fail e s
    | ok where_to ↦ elim (medium_of s iso_path) [
      | err e ↦ fail e s
      | ok medium ↦
          run H
            (text "storageattach"
              ∷ vm
              ∷ text "--storagectl"
              ∷ where_to.0
              ∷ text "--port"
              ∷ where_to.1
              ∷ text "--device"
              ∷ text "0"
              ∷ text "--type"
              ∷ text "dvddrive"
              ∷ text "--medium"
              ∷ medium
              ∷ [])
            s
    ]
  ]

  -- `Ops.SnapshotTake`
  unfoldable pub take_snapshot : Text → Text → M H.State Text
  take_snapshot vm name = run H (text "snapshot" ∷ vm ∷ text "take" ∷ name ∷ [])

  -- `Ops.SnapshotRestore`
  unfoldable pub restore_snapshot : Text → Text → M H.State Text
  restore_snapshot vm name =
      if is_empty name
      then run H (text "snapshot" ∷ vm ∷ text "restorecurrent" ∷ [])
      else run H (text "snapshot" ∷ vm ∷ text "restore" ∷ name ∷ [])

  -- `Ops.SnapshotDelete`
  unfoldable pub delete_snapshot : Text → Text → Bool → M H.State Text
  delete_snapshot vm name children =
      if children
      then fail (
          message (
            text
              "VirtualBox cannot cascade-delete snapshots — delete children individually (snapshot list shows the tree)"))
      else run H (text "snapshot" ∷ vm ∷ text "delete" ∷ name ∷ [])

  -- `Ops.SnapshotList`
  unfoldable pub list_snapshots : Text → Bool → M H.State Text
  list_snapshots vm as_tree = run H (text "snapshot" ∷ vm ∷ text "list" ∷ [])
