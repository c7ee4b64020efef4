-- ===== src/Server.antt =====
-- main.go: choosing the provider of a call, and the instructions of the server. The descriptors that
-- the detectors report are an argument.
pub mod Select
pub mod Inputs
pub mod Discover
pub mod Tools
pub mod Images
mod Tests
use desktop_hypervisor_mcp.Base.{Bool, true, false, List, [], ◌∷◌, ◌++◌, if◌then◌else◌, map}
use desktop_hypervisor_mcp.Base.Text.{Text, text, ◌==◌, is_empty, join}
use desktop_hypervisor_mcp.Provider.Contract.{
  Status, ready, status_text, Kind, family, Family, vmware_family, virtualbox_family, Descriptor,
}
use desktop_hypervisor_mcp.Provider.Errors.{Result, ok, err, message, quote}

-- Which package serves a provider: what `ops` returns.
pub data Adapter : Type 0 where
  vmware_ops : Descriptor → Adapter
  virtualbox_ops : Descriptor → Adapter

abbrev pub is_ready : Status → Bool
is_ready ready = true
is_ready _ = false

-- `ready`
unfoldable pub ready_ones : List Descriptor → List Descriptor
ready_ones [] = []
ready_ones (d ∷ ds) = let rest = ready_ones ds in if is_ready d.status then d ∷ rest else rest

-- `ops`
unfoldable pub ops : Descriptor → Adapter
ops d = elim (family d.kind) [ vmware_family ↦ vmware_ops d | virtualbox_family ↦ virtualbox_ops d ]

-- The provider of an id that was given.
unfoldable pub select_id : List Descriptor → Text → Result Adapter
select_id [] id = err (message (text "no such provider " ++ quote id))
select_id (d ∷ ds) id =
    let rest = select_id ds id in
    if d.id == id
    then (if is_ready d.status
        then ok (ops d)
        else err (
            message (
              text "provider "
              ++ (id ++ (text " is " ++ (status_text d.status ++ (text ": " ++ d.remediation)))))))
    else rest

-- The provider of a call that names none, by the ready ones.
unfoldable pub select_only : List Descriptor → Result Adapter
select_only [] =
    err (
      message (text "no hypervisor is ready on this host (provider action=list shows remediation)"))
select_only (d ∷ []) = ok (ops d)
select_only (d ∷ e ∷ ds) =
    let names = join b' ' (map (λ x. x.id) (d ∷ e ∷ ds)) in
    err (
      message
        (text "several providers are ready ([" ++ (names ++ text "]) — pass provider to choose")))

-- `selectOps`
unfoldable pub select_ops : List Descriptor → Text → Result Adapter
select_ops ds [] = select_only (ready_ones ds)
select_ops ds (c ∷ id) = select_id ds (c ∷ id)

-- What `instructions` says of the ready providers.
unfoldable pub readiness : List Descriptor → Text
readiness [] =
    text "No hypervisor is currently ready on this host; provider list reports how to fix that.\n"
readiness (d ∷ []) =
    text "One provider is ready (" ++ (d.id ++ text "); it is selected automatically.\n")
readiness _ =
    text "Several providers are ready — ask the user which to use, then pass its id as provider.\n"

-- `instructions`
unfoldable pub instructions : List Descriptor → Text
instructions ds =
    text "Desktop hypervisor operations across VirtualBox and VMware (Fusion/Workstation).\n"
    ++ (text "provider action=list reports installed hypervisors, capabilities, and remediation. "
        ++ (text
              "Neutral tools express intent; provider-native mechanism goes through execute_command. "
            ++ (text
                  "Guest credentials come from the server environment (HV_GUEST_USER / HV_GUEST_PASSWORD), never parameters.\n"
                ++ (readiness (ready_ones ds)
                    ++ (text
                          "Recipe — VM from an image: artifact fetch (catalog lists images; dry_run previews) → vm_lifecycle import (or create+attach_iso for installers) → vm_config as needed → vm_lifecycle start → vm_info ip.\n"
                        ++ text
                            "Talos on VMware: vm_config guestinfo (guestinfo.talos.config = base64 machine config) BEFORE first start — no maintenance-mode round trip. On VirtualBox: boot, vm_info ip, then apply config over the network.")))))
