-- ===== src/VirtualBox/Run.antt =====
-- provider/virtualbox/detect.go (`Bin`) and provider/virtualbox/ops.go (`Ops.run`).
use desktop_hypervisor_mcp.Base.{none, some, List}
use desktop_hypervisor_mcp.Base.Text.{Text, text}
use desktop_hypervisor_mcp.Provider.Errors.{M}
use desktop_hypervisor_mcp.Provider.Host.{Host}
use desktop_hypervisor_mcp.Provider.RunCmd.{run_cmd}
use desktop_hypervisor_mcp.VMware.Tools.{Platform, darwin, windows, other_os, on_platform}

-- Where `Bin` looks when the PATH has no VBoxManage.
unfoldable pub installed_bin : Platform → Text
installed_bin darwin = text "/usr/local/bin/VBoxManage"
installed_bin windows = text "C:\\Program Files\\Oracle\\VirtualBox\\VBoxManage.exe"
installed_bin other_os = text "/usr/bin/VBoxManage"

module _ (H : Host) where
  -- `Bin`
  unfoldable pub bin : H.State → Text
  bin s = elim (H.look_path s (text "VBoxManage")) [
    | some p ↦ p
    | none ↦ installed_bin (on_platform H)
  ]

  -- `Ops.run`
  unfoldable pub run : List Text → M H.State Text
  run args s = run_cmd H (bin s) args s
