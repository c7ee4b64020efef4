-- ===== src/VMware/Vmx/Unique.antt =====
-- `setVMXKeys` makes no duplicate of a key, in whatever case: the product rejects such a file.
use Prim.Native.Nat.{max}
use desktop_hypervisor_mcp.Base.{
  ℕ, suc, ◌≤◌, List, [], ◌∷◌, ◌++◌, if◌then◌else◌, ◌≡◌, refl, sym, ap, ◌∙◌, arith, All,
}
use desktop_hypervisor_mcp.Base.Text.{Text, equal_fold, to_lower, trim_right, split, cut}
use desktop_hypervisor_mcp.Base.Text.Equal.{eq_iff}
use desktop_hypervisor_mcp.Base.Text.Lines.{split-Lacks, split-ne-nil, split-append_repeated}
use desktop_hypervisor_mcp.Base.Text.Trim.{trim_right-split}
use desktop_hypervisor_mcp.VMware.Vmx.{Pair, line_has, set_line, set_lines, set_content, is_newline}
use desktop_hypervisor_mcp.VMware.Vmx.Lines.{IsPair, line_has-new_line}
use desktop_hypervisor_mcp.VMware.Vmx.RoundTrip.{
  line_has-equal_fold, set_lines-Lacks, set_lines-ne-nil, split-join_line,
}

-- How many lines set the key.
pub count_lines : Text → List Text → ℕ
count_lines key [] = 0
count_lines key (l ∷ ls) = if line_has key l then suc (count_lines key ls) else count_lines key ls

-- How often the key is set in a file.
unfoldable pub count_key : Text → Text → ℕ
count_key key content = count_lines key (split b'\n' content)

count_lines-set_line :
    (pair : Pair) (key : Text) (ls : List Text)
    → IsPair pair
    → count_lines key (set_line pair ls)
      ≡ (if equal_fold pair.0 key then max 1 (count_lines key ls) else count_lines key ls)
unfolding count_lines set_line
count_lines-set_line pair key [] h = ground (arith, line_has-new_line pair key h)
count_lines-set_line pair key (l ∷ ls) h = ground (
  arith,
  line_has-new_line pair key h,
  line_has-equal_fold l pair.0 key,
  line_has-equal_fold l key pair.0,
  eq_iff (to_lower pair.0) (to_lower key),
  eq_iff (to_lower key) (to_lower pair.0),
  count_lines-set_line pair key ls h,
)

count_lines-set_lines :
    (pairs : List Pair) (key : Text) (ls : List Text)
    → All IsPair pairs
    → count_lines key (set_lines pairs ls) ≤ max 1 (count_lines key ls)
unfolding set_lines
count_lines-set_lines [] key ls h = omega arith
count_lines-set_lines (pair ∷ pairs) key ls h = ground (
  arith,
  count_lines-set_lines pairs key (set_line pair ls) h.1,
  count_lines-set_line pair key ls h.0,
)

count_lines-append :
    (key : Text) (ls blank : List Text)
    → All (λ t. t ≡ []) blank
    → count_lines key (ls ++ blank) ≡ count_lines key ls
unfolding count_lines line_has cut
count_lines-append key [] [] a = refl
count_lines-append key [] (t ∷ blank) a = rw a.0 (count_lines-append key [] blank a.1)
count_lines-append key (l ∷ ls) blank a = rw (count_lines-append key ls blank a)

count_lines-trim_right :
    (key content : Text)
    → count_lines key (split b'\n' (trim_right is_newline content))
      ≡ count_lines key (split b'\n' content)
count_lines-trim_right key content =
    let (w, e, a) = trim_right-split is_newline content in
    let (blank, parts, empty) = split-append_repeated b'\n' (trim_right is_newline content) w a in
    sym (
      ap (λ t. count_lines key (split b'\n' t)) e
      ∙ ap (count_lines key) parts
      ∙ count_lines-append key (split b'\n' (trim_right is_newline content)) blank empty)

-- With keys and values that fit a line, a key that a file sets at most once, it sets at most once
-- afterwards, and one that is set several times is set no more often.
pub count_key-set_content :
    (pairs : List Pair) (content key : Text)
    → All IsPair pairs
    → count_key key (set_content pairs content) ≤ max 1 (count_key key content)
unfolding count_key set_content
count_key-set_content pairs content key h =
    let lines = split b'\n' (trim_right is_newline content) in
    let written = set_lines pairs lines in
    let parts =
      split-join_line written
        (set_lines-ne-nil pairs lines (split-ne-nil b'\n' (trim_right is_newline content)))
        (set_lines-Lacks pairs lines h (split-Lacks b'\n' (trim_right is_newline content))) in
    rw parts (
      omega (
        arith,
        count_lines-append key written ([] ∷ []) (refl, tt),
        count_lines-set_lines pairs key lines h,
        count_lines-trim_right key content,
      ))
