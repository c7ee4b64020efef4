-- ===== src/Provider/Env/Tests.antt =====
-- Runs of `normalizeEnv` on the inputs of provider/env_test.go, and the theorems at such inputs.
use desktop_hypervisor_mcp.Base.{◌≡◌, ◌↔◌, refl, none, some, List, [], ◌∷◌, inl, inr}
use desktop_hypervisor_mcp.Base.Text.{Text, text, ◌==◌, cut}
use desktop_hypervisor_mcp.Provider.Env.{
  user_name, entry, read_entry, read_vars, keep_entries, normalize_env, child_env,
}
use desktop_hypervisor_mcp.Provider.Env.Values.{value_of}
use desktop_hypervisor_mcp.Provider.Env.Effective.{
  child_view, child_view_lem, IsConsistent, normalize_env-eq-none, normalize_env-child_view,
  normalize_env-no_stale_user,
}

-- The guest's wrong account: root's USER and LOGNAME.
abbrev stale : List Text
stale =
    text "PATH=/usr/bin" ∷ text "USER=root" ∷ text "LOGNAME=root" ∷ text "HOME=/home/vagrant" ∷ []

abbrev vagrant : Text
vagrant = text "vagrant"

abbrev home : Text
home = text "/home/vagrant"

abbrev fixed : List Text
fixed =
    text "PATH=/usr/bin"
    ∷ text "HOME=/home/vagrant"
    ∷ text "USER=vagrant"
    ∷ text "LOGNAME=vagrant"
    ∷ []

normalize_env_root : normalize_env stale vagrant home ≡ some fixed
unfolding normalize_env read_vars read_entry keep_entries text ◌==◌ cut
normalize_env_root = refl

normalize_env_consistent : normalize_env fixed vagrant home ≡ none
unfolding normalize_env read_vars read_entry keep_entries text ◌==◌ cut
normalize_env_consistent = refl

normalize_env_empty_home :
    normalize_env (text "USER=a" ∷ text "LOGNAME=a" ∷ text "HOME=" ∷ []) (text "a") (text "/home/a")
    ≡ some (text "USER=a" ∷ text "LOGNAME=a" ∷ text "HOME=/home/a" ∷ [])
unfolding normalize_env read_vars read_entry keep_entries text ◌==◌ cut
normalize_env_empty_home = refl

child_env_windows :
    child_env (text "windows") (some (record { username = vagrant; home_dir = home })) stale ≡ none
unfolding child_env text ◌==◌
child_env_windows = refl

child_view_lem_example : value_of user_name (child_view stale vagrant home) ≡ vagrant
unfolding text ◌==◌
child_view_lem_example = child_view_lem stale vagrant home user_name

normalize_env-eq-none_example :
    (normalize_env fixed vagrant home ≡ none) ↔ IsConsistent fixed vagrant
normalize_env-eq-none_example = normalize_env-eq-none fixed vagrant home

normalize_env-child_view_example : normalize_env (child_view stale vagrant home) vagrant home ≡ none
unfolding text
normalize_env-child_view_example = normalize_env-child_view stale vagrant home (inl refl)

normalize_env-no_stale_user_example : text "USER=vagrant" ≡ entry user_name vagrant
unfolding text cut
normalize_env-no_stale_user_example =
    normalize_env-no_stale_user stale vagrant home fixed (text "USER=vagrant") normalize_env_root
      (inr (inr (inl refl))) refl
