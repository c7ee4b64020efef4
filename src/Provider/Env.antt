-- ===== src/Provider/Env.antt =====
-- provider/env.go: the environment of the children. `user.Current()` is an argument, `none` where it
-- fails; a result `none` is the source's nil, with which a child inherits the environment.
pub mod Values
pub mod Effective
mod Tests
use desktop_hypervisor_mcp.Base.{
  Bool, true, false, not, ◌&&◌, ◌||◌, Option, none, some, List, [], ◌∷◌, ◌++◌, if◌then◌else◌,
}
use desktop_hypervisor_mcp.Base.Text.{Text, text, ◌==◌, cut, is_empty}

abbrev pub user_name : Text
user_name = text "USER"

abbrev pub log_name : Text
log_name = text "LOGNAME"

abbrev pub home_name : Text
home_name = text "HOME"

-- The three variables that the first loop of `normalizeEnv` reads.
pub record Vars : Type 0 where
  pub user : Text
  pub logname : Text
  pub home : Text

-- One round of that loop.
unfoldable pub read_entry : Vars → Text → Vars
read_entry vars kv =
    let (k, v, found) = cut b'=' kv in
    if not found
    then vars
    else if k == user_name
    then record vars { user = v }
    else if k == log_name
    then record vars { logname = v }
    else if k == home_name
    then record vars { home = v }
    else vars

unfoldable pub read_vars : Vars → List Text → Vars
read_vars vars [] = vars
read_vars vars (kv ∷ rest) = read_vars (read_entry vars kv) rest

abbrev pub unset : Vars
unset = record { user = []; logname = []; home = [] }

-- The second loop: the entries that are kept.
unfoldable pub keep_entries : Bool → List Text → List Text
keep_entries set_home [] = []
keep_entries set_home (kv ∷ rest) =
    let k = (cut b'=' kv).0 in
    let kept = keep_entries set_home rest in
    if k == user_name || k == log_name || (k == home_name && set_home) then kept else kv ∷ kept

abbrev pub entry : Text → Text → Text
entry name value = name ++ (b'=' ∷ value)

-- `normalizeEnv`
unfoldable pub normalize_env : List Text → Text → Text → Option (List Text)
normalize_env environ username home =
    let vars = read_vars unset environ in
    let set_home = is_empty vars.home && not (is_empty home) in
    let added = entry user_name username ∷ entry log_name username ∷ [] in
    if vars.user == username && vars.logname == username && not (is_empty vars.home)
    then none
    else some (
        keep_entries set_home environ
        ++ (added ++ (if set_home then entry home_name home ∷ [] else [])))

pub record User : Type 0 where
  pub username : Text
  pub home_dir : Text

-- `ChildEnv`
unfoldable pub child_env : Text → Option User → List Text → Option (List Text)
child_env goos none environ = none
child_env goos (some u) environ =
    if goos == text "windows" || is_empty u.username
    then none
    else normalize_env environ u.username u.home_dir
