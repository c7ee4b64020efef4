-- ===== src/VMware/Vmx/RoundTrip.antt =====
-- What `vmxKey` reads after `setVMXKeys` has written.

use desktop_hypervisor_mcp.Base.{
  true, List, [], ◌∷◌, ◌++◌, if◌then◌else◌, ◌≡◌, ◌≢◌, refl, sym, ap, ◌∙◌, arith, inl, inr,
  Bool-cases, All, append_assoc,
}
use desktop_hypervisor_mcp.Base.Text.{
  Text, equal_fold, to_lower, trim_space, trim_right, cut, split, join,
}
use desktop_hypervisor_mcp.Base.Text.Equal.{eq_iff}
use desktop_hypervisor_mcp.Base.Text.Cut.{Lacks}
use desktop_hypervisor_mcp.Base.Text.Lines.{
  split-Lacks, split-ne-nil, split-append, split-append_repeated,
}
use desktop_hypervisor_mcp.Base.Text.Trim.{trim_right-split}
use desktop_hypervisor_mcp.VMware.Vmx.{
  Pair, line_has, set_line, set_lines, set_content, is_newline, value_in_lines, value_in_content,
}
use desktop_hypervisor_mcp.VMware.Vmx.Lines.{
  IsPair, new_line-Lacks, line_has-new_line, value-new_line,
}

-- The value of a key after the pairs, from its value before them.
abbrev pub after : Text → List Pair → Text → Text
after key [] old = old
after key (pair ∷ pairs) old = after key pairs (if equal_fold pair.0 key then pair.1 else old)

-- Two keys that a line has are the same but for case.
pub line_has-equal_fold :
    (line key other : Text) → line_has key line ≡ true → line_has other line ≡ equal_fold key other
unfolding line_has
line_has-equal_fold line key other h =
    ground (arith, eq_iff (to_lower (trim_space (cut b'=' line).0)) (to_lower key))

value_in_lines-set_line :
    (pair : Pair) (key : Text) (ls : List Text)
    → IsPair pair
    → value_in_lines key (set_line pair ls)
      ≡ (if equal_fold pair.0 key then pair.1 else value_in_lines key ls)
unfolding value_in_lines set_line
value_in_lines-set_line pair key [] h =
    rw (line_has-new_line pair key h, value-new_line pair h) refl
value_in_lines-set_line pair key (l ∷ ls) h = ground (
  arith,
  line_has-new_line pair key h,
  value-new_line pair h,
  line_has-equal_fold l pair.0 key,
  line_has-equal_fold l key pair.0,
  eq_iff (to_lower pair.0) (to_lower key),
  eq_iff (to_lower key) (to_lower pair.0),
  value_in_lines-set_line pair key ls h,
)

value_in_lines-set_lines :
    (pairs : List Pair) (key : Text) (ls : List Text)
    → All IsPair pairs
    → value_in_lines key (set_lines pairs ls) ≡ after key pairs (value_in_lines key ls)
unfolding set_lines
value_in_lines-set_lines [] key ls h = refl
value_in_lines-set_lines (pair ∷ pairs) key ls h =
    value_in_lines-set_lines pairs key (set_line pair ls) h.1
    ∙ ap (after key pairs) (value_in_lines-set_line pair key ls h.0)

set_line-Lacks :
    (pair : Pair) (ls : List Text)
    → IsPair pair
    → All (Lacks b'\n') ls
    → All (Lacks b'\n') (set_line pair ls)
unfolding set_line
set_line-Lacks pair [] h a = (new_line-Lacks pair h, tt)
set_line-Lacks pair (l ∷ ls) h a = elim (Bool-cases (line_has pair.0 l)) [
  | inl e ↦ rw e (new_line-Lacks pair h, a.1)
  | inr e ↦ rw e (a.0, set_line-Lacks pair ls h a.1)
]

pub set_lines-Lacks :
    (pairs : List Pair) (ls : List Text)
    → All IsPair pairs
    → All (Lacks b'\n') ls
    → All (Lacks b'\n') (set_lines pairs ls)
unfolding set_lines
set_lines-Lacks [] ls h a = a
set_lines-Lacks (pair ∷ pairs) ls h a =
    set_lines-Lacks pairs (set_line pair ls) h.1 (set_line-Lacks pair ls h.0 a)

set_line-ne-nil : (pair : Pair) (ls : List Text) → set_line pair ls ≢ []
unfolding set_line
set_line-ne-nil pair [] = λ e. cc
set_line-ne-nil pair (l ∷ ls) = ground arith

pub set_lines-ne-nil : (pairs : List Pair) (ls : List Text) → ls ≢ [] → set_lines pairs ls ≢ []
unfolding set_lines
set_lines-ne-nil [] ls h = h
set_lines-ne-nil (pair ∷ pairs) ls h = set_lines-ne-nil pairs _ (set_line-ne-nil pair ls)

-- A file that ends in a line break splits into its lines and an empty one.
pub split-join_line :
    (ls : List Text)
    → ls ≢ []
    → All (Lacks b'\n') ls
    → split b'\n' (join b'\n' ls ++ (b'\n' ∷ [])) ≡ ls ++ ([] ∷ [])
unfolding join
split-join_line [] h a = absurd (h refl)
split-join_line (t ∷ []) h a = split-append b'\n' t [] a.0 ∙ unfold split in refl
split-join_line (t ∷ u ∷ ts) h a =
    rw (append_assoc t, split-append b'\n' t (join b'\n' (u ∷ ts) ++ (b'\n' ∷ [])) a.0)
      (ap (◌∷◌ t) (split-join_line (u ∷ ts) (λ e. cc) a.1))

-- Empty lines at the end set no key.
value_in_lines-append :
    (key : Text) (ls blank : List Text)
    → All (λ t. t ≡ []) blank
    → value_in_lines key (ls ++ blank) ≡ value_in_lines key ls
unfolding value_in_lines line_has cut
value_in_lines-append key [] [] a = refl
value_in_lines-append key [] (t ∷ blank) a = rw a.0 (value_in_lines-append key [] blank a.1)
value_in_lines-append key (l ∷ ls) blank a = rw (value_in_lines-append key ls blank a)

value_in_content_lines :
    (key content : Text) → value_in_content key content ≡ value_in_lines key (split b'\n' content)
unfolding value_in_content
value_in_content_lines key content = refl

value_in_content-trim_right :
    (key content : Text)
    → value_in_content key (trim_right is_newline content) ≡ value_in_content key content
unfolding value_in_content
value_in_content-trim_right key content =
    let (w, e, a) = trim_right-split is_newline content in
    let (blank, parts, empty) = split-append_repeated b'\n' (trim_right is_newline content) w a in
    sym (
      ap (λ t. value_in_lines key (split b'\n' t)) e
      ∙ ap (value_in_lines key) parts
      ∙ value_in_lines-append key (split b'\n' (trim_right is_newline content)) blank empty)

-- `vmxKey` reads back what `setVMXKeys` has written: for every key, the value of the last pair with
-- that key, without regard to case, and the value of before where no pair has it. The pairs have
-- keys and values that fit a line.
pub value_in_content-set_content :
    (pairs : List Pair) (content key : Text)
    → All IsPair pairs
    → value_in_content key (set_content pairs content)
      ≡ after key pairs (value_in_content key content)
unfolding set_content
value_in_content-set_content pairs content key h =
    let lines = split b'\n' (trim_right is_newline content) in
    let written = set_lines pairs lines in
    let parts =
      split-join_line written
        (set_lines-ne-nil pairs lines (split-ne-nil b'\n' (trim_right is_newline content)))
        (set_lines-Lacks pairs lines h (split-Lacks b'\n' (trim_right is_newline content))) in
    value_in_content_lines key _
    ∙ ap (value_in_lines key) parts
    ∙ value_in_lines-append key written ([] ∷ []) (refl, tt)
    ∙ value_in_lines-set_lines pairs key lines h
    ∙ ap (after key pairs) (
        sym (value_in_content_lines key (trim_right is_newline content))
        ∙ value_in_content-trim_right key content)
