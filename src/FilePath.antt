-- ===== src/FilePath.antt =====
-- What the program uses of package path/filepath, on a host whose separator is the slash.
pub mod Inside
mod Tests
use desktop_hypervisor_mcp.Base.{
  Bool, true, false, ◌&&◌, ◌||◌, List, [], ◌∷◌, ◌++◌, if◌then◌else◌, suc, ℕ, eqb,
}
use mathlib.Core.List.{reverse}
use desktop_hypervisor_mcp.Base.Text.{
  Text, text, ◌==◌, is_empty, split, join, trim_left, has_prefix,
}

abbrev pub dot : Text
dot = b'.' ∷ []

abbrev pub dot_dot : Text
dot_dot = b'.' ∷ b'.' ∷ []

-- `filepath.IsAbs`
abbrev pub is_abs : Text → Bool
is_abs [] = false
is_abs (c ∷ cs) = eqb c b'/'

-- One `..`, on the elements kept so far, the last one first.
unfoldable pub back : Bool → List Text → List Text
back rooted [] = if rooted then [] else dot_dot ∷ []
back rooted (t ∷ kept) = if t == dot_dot then dot_dot ∷ t ∷ kept else kept

-- The elements of a path that `filepath.Clean` keeps, the last one first.
unfoldable pub clean_onto : Bool → List Text → List Text → List Text
clean_onto rooted kept [] = kept
clean_onto rooted kept (t ∷ ts) =
    clean_onto rooted
      (if is_empty t || t == dot then kept else if t == dot_dot then back rooted kept else t ∷ kept)
      ts

unfoldable pub clean_parts : Bool → List Text → List Text
clean_parts rooted ts = reverse (clean_onto rooted [] ts)

unfoldable pub from_parts : Bool → List Text → Text
from_parts true ts = b'/' ∷ join b'/' ts
from_parts false [] = dot
from_parts false (t ∷ ts) = join b'/' (t ∷ ts)

-- `filepath.Clean`
unfoldable pub clean : Text → Text
clean path = from_parts (is_abs path) (clean_parts (is_abs path) (split b'/' path))

-- `filepath.Join`
unfoldable pub join_path : List Text → Text
join_path [] = []
join_path (e ∷ es) = if is_empty e then join_path es else clean (join b'/' (e ∷ es))

unfoldable pub last_or : Text → List Text → Text
last_or t [] = t
last_or t (u ∷ us) = last_or u us

-- `filepath.Base`
unfoldable pub base : Text → Text
base path =
    let trimmed = reverse (trim_left (λ c. eqb c b'/') (reverse path)) in
    if is_empty path
    then dot
    else if is_empty trimmed
    then b'/' ∷ []
    else last_or [] (split b'/' trimmed)

unfoldable pub all_but_last : Text → List Text → List Text
all_but_last t [] = []
all_but_last t (u ∷ us) = t ∷ all_but_last u us

-- What stands up to the last slash, the slash included.
unfoldable pub up_to_slash : List Text → Text
up_to_slash [] = []
up_to_slash (t ∷ []) = []
up_to_slash (t ∷ u ∷ us) = join b'/' (all_but_last t (u ∷ us)) ++ (b'/' ∷ [])

-- `filepath.Dir`
unfoldable pub dir : Text → Text
dir path = clean (up_to_slash (split b'/' path))

-- The characters behind the last dot, if there is one: the text is reversed.
unfoldable pub ext_from : Text → Text → Text
ext_from seen [] = []
ext_from seen (c ∷ cs) =
    if eqb c b'/' then [] else if eqb c b'.' then b'.' ∷ seen else ext_from (c ∷ seen) cs

-- `filepath.Ext`
unfoldable pub ext : Text → Text
ext path = ext_from [] (reverse path)
