-- ===== src/Provider/Env/Effective.antt =====
-- What `normalizeEnv` makes of an environment, as a child sees it.
use desktop_hypervisor_mcp.Base.{
  Bool, true, false, not, ◌&&◌, ◌||◌, none, some, List, [], ◌∷◌, ◌++◌, if◌then◌else◌, ◌≡◌, ◌↔◌, ◌⊎◌,
  refl, ap, ◌∙◌, arith, inl, inr,
}
use desktop_hypervisor_mcp.Provider.Env.{
  user_name, log_name, home_name, unset, read_vars, keep_entries, entry, normalize_env,
}
use desktop_hypervisor_mcp.Base.Text.{Text, ◌==◌, cut, is_empty}
use desktop_hypervisor_mcp.Base.Text.Equal.{eq_iff, eq_refl}
use desktop_hypervisor_mcp.Base.Text.Cut.{Lacks, cut-append}
use desktop_hypervisor_mcp.Provider.Env.{normalize_env}
use desktop_hypervisor_mcp.Base.{In}
use desktop_hypervisor_mcp.Provider.Env.Values.{
  value_from, value_of, inherit, distinct_names, read_vars-value_from, value_from-append,
  value_in-entry, names-Lacks, dropped, user-ne-log, user-ne-home, value_from-keep_entries,
}

abbrev pub child_view : List Text → Text → Text → List Text
child_view environ username home = inherit environ (normalize_env environ username home)

-- The entries that `normalizeEnv` appends.
abbrev added : Text → Text → Bool → List Text
added username home set_home =
    (entry user_name username ∷ entry log_name username ∷ [])
    ++ (if set_home then entry home_name home ∷ [] else [])

value_from-added :
    (name old username home : Text) (set_home : Bool)
    → value_from name old (added username home set_home) ≡ (
        if set_home && home_name == name
        then home
        else if log_name == name || user_name == name
        then username
        else old)
unfolding value_from
value_from-added name old username home set_home = ground (
  arith,
  value_in-entry name old user_name username names-Lacks.0,
  value_in-entry name username log_name username names-Lacks.1,
  value_in-entry name old log_name username names-Lacks.1,
  value_in-entry name username home_name home names-Lacks.2,
  value_in-entry name old home_name home names-Lacks.2,
)

value_of-changed :
    (environ : List Text) (username home name : Text) (set_home : Bool)
    → value_of name (keep_entries set_home environ ++ added username home set_home) ≡ (
        if name == user_name || name == log_name
        then username
        else if name == home_name && set_home
        then home
        else value_of name environ)
value_of-changed environ username home name set_home =
    value_from-append name [] (keep_entries set_home environ) (added username home set_home)
    ∙ value_from-added name _ username home set_home
    ∙ ground (
      arith,
      distinct_names name,
      eq_iff name user_name,
      eq_iff user_name name,
      eq_iff name log_name,
      eq_iff log_name name,
      eq_iff name home_name,
      eq_iff home_name name,
      value_from-keep_entries set_home name [] environ,
    )

-- What a child sees of every variable: USER and LOGNAME are the account, HOME is filled in where it
-- is missing or empty and the account has one, and all else is as it was.
pub child_view_lem :
    (environ : List Text) (username home name : Text)
    → value_of name (child_view environ username home) ≡ (
        if name == user_name || name == log_name
        then username
        else if name == home_name && (is_empty (value_of home_name environ) && not (is_empty home))
        then home
        else value_of name environ)
unfolding normalize_env
child_view_lem environ username home name = rw (read_vars-value_from environ unset) (
    ground (
      arith,
      distinct_names name,
      eq_iff name user_name,
      eq_iff name log_name,
      eq_iff name home_name,
      eq_iff (value_of user_name environ) username,
      eq_iff (value_of log_name environ) username,
      value_of-changed environ username home name
          (is_empty (value_of home_name environ) && not (is_empty home)),
    ))

abbrev pub IsConsistent : List Text → Text → Type 0
IsConsistent environ username =
    (value_of user_name environ ≡ username)
    × (value_of log_name environ ≡ username)
    × (is_empty (value_of home_name environ) ≡ false)

-- `normalizeEnv` returns nil exactly if USER and LOGNAME are the account and HOME is not empty.
pub normalize_env-eq-none :
    (environ : List Text) (username home : Text)
    → (normalize_env environ username home ≡ none) ↔ IsConsistent environ username
unfolding normalize_env
normalize_env-eq-none environ username home = rw (read_vars-value_from environ unset) (
    ground (
      arith,
      eq_iff (value_of user_name environ) username,
      eq_iff (value_of log_name environ) username,
    ))

-- Where a home directory is known, what was normalised once needs no change.
pub normalize_env-child_view :
    (environ : List Text) (username home : Text)
    → (is_empty home ≡ false) ⊎ (is_empty (value_of home_name environ) ≡ false)
    → normalize_env (child_view environ username home) username home ≡ none
normalize_env-child_view environ username home known =
    (normalize_env-eq-none (child_view environ username home) username home).1 (
      ground (
        arith,
        eq_refl user_name,
        eq_refl log_name,
        eq_refl home_name,
        distinct_names home_name,
        child_view_lem environ username home user_name,
        child_view_lem environ username home log_name,
        child_view_lem environ username home home_name,
      ))

-- The key of an entry, as the source cuts it.
abbrev pub key_of : Text → Text
key_of kv = (cut b'=' kv).0

In-if :
    (b : Bool) (kv x : Text) (ys : List Text)
    → In kv (if b then ys else x ∷ ys)
    → ((b ≡ false) × (x ≡ kv)) ⊎ In kv ys
In-if true kv x ys m = inr m
In-if false kv x ys (inl e) = inl (refl, e)
In-if false kv x ys (inr m) = inr m

keep_entries-key :
    (set_home : Bool) (kv : Text) (environ : List Text)
    → In kv (keep_entries set_home environ)
    → dropped set_home (key_of kv) ≡ false
unfolding keep_entries
keep_entries-key set_home kv (x ∷ rest) m =
    elim (In-if (dropped set_home (key_of x)) kv x (keep_entries set_home rest) m) [
      | inl (kept, e) ↦ rw (← e) kept
      | inr later ↦ keep_entries-key set_home kv rest later
    ]
keep_entries-key set_home kv [] m = elim m [ ]

In-append : (a : Text) (xs ys : List Text) → In a (xs ++ ys) → In a xs ⊎ In a ys
In-append a [] ys m = inr m
In-append a (x ∷ xs) ys (inl e) = inl (inl e)
In-append a (x ∷ xs) ys (inr m) = elim (In-append a xs ys m) [ inl l ↦ inl (inr l) | inr r ↦ inr r ]

key_of-entry : (key value : Text) → Lacks b'=' key → key_of (entry key value) ≡ key
key_of-entry key value l = ap (λ t. t.0) (cut-append b'=' key value l)

-- An appended entry of USER is the account's.
added-user :
    (username home kv : Text) (set_home : Bool)
    → In kv (added username home set_home)
    → key_of kv ≡ user_name
    → kv ≡ entry user_name username
added-user username home kv true m h = ground (
  arith,
  key_of-entry log_name username names-Lacks.1,
  key_of-entry home_name home names-Lacks.2,
  eq_iff user_name log_name,
  eq_iff user_name home_name,
  user-ne-log,
  user-ne-home,
)
added-user username home kv false m h =
    ground
      (arith, key_of-entry log_name username names-Lacks.1, eq_iff user_name log_name, user-ne-log)

normalize_env-eq-some :
    (environ : List Text) (username home : Text) (e : List Text)
    → normalize_env environ username home ≡ some e
    → let set_home = is_empty (read_vars unset environ).home && not (is_empty home) in
      keep_entries set_home environ ++ added username home set_home ≡ e
unfolding normalize_env
normalize_env-eq-some environ username home e h = ground arith

-- Where the environment is changed, each entry of USER in it is the account's: none is stale.
pub normalize_env-no_stale_user :
    (environ : List Text) (username home : Text) (e : List Text) (kv : Text)
    → normalize_env environ username home ≡ some e
    → In kv e
    → key_of kv ≡ user_name
    → kv ≡ entry user_name username
normalize_env-no_stale_user environ username home e kv h m k =
    let set_home = is_empty (read_vars unset environ).home && not (is_empty home) in
    let parts =
      In-append kv (keep_entries set_home environ) (added username home set_home)
        (rw (← normalize_env-eq-some environ username home e h) at m) in
    elim parts [
      | inl kept ↦
          ground (arith, eq_iff (key_of kv) user_name, keep_entries-key set_home kv environ kept)
      | inr new ↦ added-user username home kv set_home new k
    ]
