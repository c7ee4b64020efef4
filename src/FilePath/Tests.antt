-- ===== src/FilePath/Tests.antt =====
-- Runs of the path functions.
use desktop_hypervisor_mcp.Base.{◌≡◌, refl, [], ◌∷◌}
use desktop_hypervisor_mcp.Base.Text.{text, ◌==◌, split, join, trim_left}
use desktop_hypervisor_mcp.FilePath.{
  back, clean_onto, clean_parts, from_parts, clean, join_path, last_or, base, all_but_last,
  up_to_slash, dir, ext_from, ext,
}

clean_runs :
    (clean (text "/a/../../b/./c//d/") ≡ text "/b/c/d")
    × (clean (text "a/../..") ≡ text "..")
    × (clean [] ≡ text ".")
    × (clean (text "../x/../../y") ≡ text "../../y")
unfolding clean clean_parts clean_onto back from_parts split join text ◌==◌
clean_runs = (refl, refl, refl, refl)

join_path_runs :
    (join_path (text "/vms" ∷ text "a" ∷ text "a.vmx" ∷ []) ≡ text "/vms/a/a.vmx")
    × (join_path ([] ∷ text "x" ∷ []) ≡ text "x")
unfolding join_path clean clean_parts clean_onto back from_parts split join text ◌==◌
join_path_runs = (refl, refl)

base_runs : (base (text "/usr/bin/vmrun") ≡ text "vmrun") × (base (text "/") ≡ text "/")
unfolding base last_or split text trim_left
base_runs = (refl, refl)

dir_runs : (dir (text "/vms/a/a.vmx") ≡ text "/vms/a") × (dir (text "a") ≡ text ".")
unfolding dir up_to_slash all_but_last clean clean_parts clean_onto back from_parts split join text
    ◌==◌
dir_runs = (refl, refl)

ext_runs : (ext (text "/a.b/c.ovf") ≡ text ".ovf") × (ext (text "/a.b/c") ≡ [])
unfolding ext ext_from text
ext_runs = (refl, refl)
