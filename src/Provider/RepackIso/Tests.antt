-- ===== src/Provider/RepackIso/Tests.antt =====
-- The GRUB configuration of an installer.
use desktop_hypervisor_mcp.Base.{◌≡◌, refl}
use desktop_hypervisor_mcp.Base.Text.{Text, text, split}
use desktop_hypervisor_mcp.Base.Text.Cut.{lacks→Lacks}
use desktop_hypervisor_mcp.Provider.RepackIso.{patch_content}
use desktop_hypervisor_mcp.Provider.RepackIso.Patched.{
  AllPatched, patch_content-AllPatched, patch_content_settled,
}

abbrev args : Text
args = text "autoinstall"

abbrev cfg : Text
cfg = text "menuentry {\n\tlinux\t/casper/vmlinuz ---\n}"

patch_content-AllPatched_example :
    AllPatched args (split b'\n' cfg) (split b'\n' (patch_content args cfg).0)
unfolding text
patch_content-AllPatched_example = patch_content-AllPatched args cfg (lacks→Lacks b'\n' args refl)

patch_content_settled_example :
    patch_content args (patch_content args cfg).0 ≡ ((patch_content args cfg).0, 0)
unfolding text
patch_content_settled_example = patch_content_settled args cfg (lacks→Lacks b'\n' args refl)
