-- ===== src/VMware/Vmx.antt =====
-- provider/vmware/ops.go: reading and setting the keys of a .vmx file, on its content. Keys are
-- compared without case, for the ASCII letters.
pub mod Lines
pub mod RoundTrip
pub mod Unique
pub mod History
use desktop_hypervisor_mcp.Base.{
  ℕ, Bool, true, false, ◌&&◌, Option, none, some, List, [], ◌∷◌, ◌++◌, if◌then◌else◌, eqb,
}
use desktop_hypervisor_mcp.Base.Text.{
  Text, text, ◌==◌, equal_fold, trim_space, trim_left, trim_right, cut, split, join,
}

-- A pair of `setVMXKeys`.
abbrev pub Pair : Type 0
Pair = Text × Text

-- Whether a line sets the key.
unfoldable pub line_has : Text → Text → Bool
line_has key line = let (k, v, found) = cut b'=' line in found && equal_fold (trim_space k) key

-- The line that is written: `key = "value"`.
unfoldable pub new_line : Pair → Text
new_line (key, value) = key ++ (text " = \"" ++ (value ++ text "\""))

-- The inner loop of `setVMXKeys`: the first line of the key is replaced, or one is added at the end.
unfoldable pub set_line : Pair → List Text → List Text
set_line pair [] = new_line pair ∷ []
set_line pair (l ∷ ls) = if line_has pair.0 l then new_line pair ∷ ls else l ∷ set_line pair ls

unfoldable pub set_lines : List Pair → List Text → List Text
set_lines [] ls = ls
set_lines (pair ∷ pairs) ls = set_lines pairs (set_line pair ls)

abbrev pub is_newline : ℕ → Bool
is_newline c = eqb c b'\n'

-- What `setVMXKeys` writes for the content that it has read.
unfoldable pub set_content : List Pair → Text → Text
set_content pairs content =
    join b'\n' (set_lines pairs (split b'\n' (trim_right is_newline content))) ++ (b'\n' ∷ [])

abbrev pub is_quote : ℕ → Bool
is_quote c = eqb c b'"'

-- `strings.Trim(s, "\"")`
unfoldable pub unquote : Text → Text
unquote s = trim_right is_quote (trim_left is_quote s)

-- The loop of `vmxKey`; the empty text if no line sets the key.
unfoldable pub value_in_lines : Text → List Text → Text
value_in_lines key [] = []
value_in_lines key (l ∷ ls) =
    if line_has key l then unquote (trim_space (cut b'=' l).1) else value_in_lines key ls

-- What `vmxKey` returns for the content that it has read.
unfoldable pub value_in_content : Text → Text → Text
value_in_content key content = value_in_lines key (split b'\n' content)
