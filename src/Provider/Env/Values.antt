-- ===== src/Provider/Env/Values.antt =====
-- What a child sees of its environment: the last entry of a name counts, as in `os/exec`.
use desktop_hypervisor_mcp.Base.{
  Bool, false, ◌&&◌, ◌||◌, Option, none, some, List, [], ◌∷◌, ◌++◌, if◌then◌else◌, ◌≡◌, refl, ap,
  ◌∙◌, arith,
}
use desktop_hypervisor_mcp.Base.Text.{Text, text, ◌==◌, cut}
use desktop_hypervisor_mcp.Base.Text.Equal.{eq_iff}
use desktop_hypervisor_mcp.Base.Text.Cut.{Lacks, lacks→Lacks, cut-append}
use desktop_hypervisor_mcp.Provider.Env.{
  user_name, log_name, home_name, Vars, read_entry, read_vars, keep_entries, entry,
}

-- The value of a name, if it is `old` before the entry.
unfoldable pub value_in : Text → Text → Text → Text
value_in name old kv = let (k, v, found) = cut b'=' kv in if found && k == name then v else old

-- The value of a name in an environment, if it is `old` before it.
unfoldable pub value_from : Text → Text → List Text → Text
unfolding value_in
value_from name old [] = old
value_from name old (kv ∷ rest) = value_from name (value_in name old kv) rest

abbrev pub value_of : Text → List Text → Text
value_of name environ = value_from name [] environ

-- The environment of a child: nil inherits.
abbrev pub inherit : List Text → Option (List Text) → List Text
inherit environ none = environ
inherit environ (some changed) = changed

pub user-ne-log : (user_name == log_name) ≡ false
unfolding text ◌==◌
user-ne-log = refl

pub user-ne-home : (user_name == home_name) ≡ false
unfolding text ◌==◌
user-ne-home = refl

pub log-ne-home : (log_name == home_name) ≡ false
unfolding text ◌==◌
log-ne-home = refl

pub two_keys : (k a b : Text) → (a == b) ≡ false → (k == a && k == b) ≡ false
two_keys k a b h = ground (arith, eq_iff k a, eq_iff k b, eq_iff a b)

-- At most one of the three names is the key.
pub distinct_names :
    (k : Text)
    → ((k == user_name && k == log_name) ≡ false)
      × ((k == user_name && k == home_name) ≡ false)
      × ((k == log_name && k == home_name) ≡ false)
distinct_names k =
    (two_keys k _ _ user-ne-log, two_keys k _ _ user-ne-home, two_keys k _ _ log-ne-home)

pub read_entry-value_in :
    (vars : Vars) (kv : Text)
    → read_entry vars kv ≡ record {
      user = value_in user_name vars.user kv;
      logname = value_in log_name vars.logname kv;
      home = value_in home_name vars.home kv;
    }
unfolding read_entry value_in
read_entry-value_in vars kv = ground (arith, distinct_names (cut b'=' kv).0)

pub read_vars-nil : (vars : Vars) → read_vars vars [] ≡ vars
unfolding read_vars
read_vars-nil vars = refl

pub read_vars-cons :
    (vars : Vars) (kv : Text) (rest : List Text)
    → read_vars vars (kv ∷ rest) ≡ read_vars (read_entry vars kv) rest
unfolding read_vars
read_vars-cons vars kv rest = refl

pub read_vars-value_from :
    (environ : List Text) (vars : Vars)
    → read_vars vars environ ≡ record {
      user = value_from user_name vars.user environ;
      logname = value_from log_name vars.logname environ;
      home = value_from home_name vars.home environ;
    }
unfolding value_from
read_vars-value_from [] vars = read_vars-nil vars
read_vars-value_from (kv ∷ rest) vars =
    read_vars-cons vars kv rest
    ∙ ap (λ v. read_vars v rest) (read_entry-value_in vars kv)
    ∙ read_vars-value_from rest _

pub value_from-append :
    (name old : Text) (xs ys : List Text)
    → value_from name old (xs ++ ys) ≡ value_from name (value_from name old xs) ys
unfolding value_from
value_from-append name old [] ys = refl
value_from-append name old (x ∷ xs) ys = value_from-append name (value_in name old x) xs ys

pub value_in-entry :
    (name old key value : Text)
    → Lacks b'=' key
    → value_in name old (entry key value) ≡ (if key == name then value else old)
unfolding value_in
value_in-entry name old key value l = rw (cut-append b'=' key value l)

pub names-Lacks : Lacks b'=' user_name × Lacks b'=' log_name × Lacks b'=' home_name
unfolding text
names-Lacks = (
  lacks→Lacks b'=' user_name refl,
  lacks→Lacks b'=' log_name refl,
  lacks→Lacks b'=' home_name refl,
)

-- Whether the second loop drops the entries of a name.
abbrev pub dropped : Bool → Text → Bool
dropped set_home k = k == user_name || k == log_name || (k == home_name && set_home)

-- The entries that are kept do not change the value of a name that is not dropped.
pub value_from-keep_entries :
    (set_home : Bool) (name old : Text) (environ : List Text)
    → dropped set_home name ≡ false
    → value_from name old (keep_entries set_home environ) ≡ value_from name old environ
unfolding keep_entries value_from
value_from-keep_entries set_home name old [] h = refl
value_from-keep_entries set_home name old (kv ∷ rest) h = ground (
  arith,
  eq_iff (cut b'=' kv).0 name,
  value_from-keep_entries set_home name old rest h,
  value_from-keep_entries set_home name (cut b'=' kv).1 rest h,
)
