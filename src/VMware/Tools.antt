-- ===== src/VMware/Tools.antt =====
-- provider/vmware/detect.go: the kind of product and where its tools are.
use desktop_hypervisor_mcp.Base.{none, some, List, [], ◌∷◌, ◌++◌, if◌then◌else◌}
use desktop_hypervisor_mcp.Base.Text.{Text, text, ◌==◌, is_empty}
use desktop_hypervisor_mcp.Provider.Contract.{Kind, fusion, workstation}
use desktop_hypervisor_mcp.Provider.Host.{Host}

-- What `runtime.GOOS` is told apart into.
pub data Platform : Type 0 where
  darwin windows other_os : Platform

unfoldable pub platform : Text → Platform
platform goos =
    if goos == text "darwin" then darwin else if goos == text "windows" then windows else other_os

-- `Kind`
unfoldable pub product_kind : Platform → Kind
product_kind darwin = fusion
product_kind _ = workstation

-- `HostType`
unfoldable pub host_type : Platform → Text
host_type darwin = text "fusion"
host_type _ = text "ws"

unfoldable pub fusion_app : Text
fusion_app = text "/Applications/VMware Fusion.app/Contents"

module _ (H : Host) where
  -- The loop over the fallbacks of `lookup`.
  unfoldable pub lookup_fallbacks : H.State → List Text → Text
  lookup_fallbacks s [] = []
  lookup_fallbacks s (f ∷ fs) =
      let rest = lookup_fallbacks s fs in
      if is_empty f then rest else elim (H.look_path s f) [ some p ↦ p | none ↦ rest ]

  -- `lookup`
  unfoldable pub lookup : H.State → Text → List Text → Text
  lookup s name fallbacks = elim (H.look_path s name) [
    | some p ↦ p
    | none ↦ lookup_fallbacks s fallbacks
  ]

  abbrev pub on_platform : Platform
  on_platform = platform H.goos

  -- `VmrunBin`
  unfoldable pub vmrun_bin : H.State → Text
  vmrun_bin s = elim on_platform [
    | darwin ↦ lookup s (text "vmrun") ((fusion_app ++ text "/Public/vmrun") ∷ [])
    | windows ↦
        lookup s (text "vmrun.exe")
          (text "C:\\Program Files (x86)\\VMware\\VMware Workstation\\vmrun.exe" ∷ [])
    | other_os ↦ lookup s (text "vmrun") (text "/usr/bin/vmrun" ∷ [])
  ]

  -- `OvftoolBin`
  unfoldable pub ovftool_bin : H.State → Text
  ovftool_bin s = elim on_platform [
    | darwin ↦
        lookup s (text "ovftool") ((fusion_app ++ text "/Library/VMware OVF Tool/ovftool") ∷ [])
    | windows ↦
        lookup s (text "ovftool.exe")
          (text "C:\\Program Files (x86)\\VMware\\VMware Workstation\\OVFTool\\ovftool.exe" ∷ [])
    | other_os ↦
        lookup s (text "ovftool")
          (text "/usr/bin/ovftool" ∷ text "/usr/lib/vmware-ovftool/ovftool" ∷ [])
  ]

  -- `VdiskmanagerBin`
  unfoldable pub vdiskmanager_bin : H.State → Text
  vdiskmanager_bin s = elim on_platform [
    | darwin ↦
        lookup s (text "vmware-vdiskmanager")
          ((fusion_app ++ text "/Library/vmware-vdiskmanager") ∷ [])
    | windows ↦
        lookup s (text "vmware-vdiskmanager.exe")
          (text "C:\\Program Files (x86)\\VMware\\VMware Workstation\\vmware-vdiskmanager.exe" ∷ [])
    | other_os ↦ lookup s (text "vmware-vdiskmanager") (text "/usr/bin/vmware-vdiskmanager" ∷ [])
  ]

  -- `isoBackend`
  unfoldable pub iso_backend : H.State → Text
  iso_backend s = elim on_platform [
    | darwin ↦ lookup s (text "hdiutil") (text "/usr/bin/hdiutil" ∷ [])
    | windows ↦ lookup s (text "oscdimg.exe") []
    | other_os ↦ lookup s (text "xorriso") (text "genisoimage" ∷ text "mkisofs" ∷ [])
  ]
