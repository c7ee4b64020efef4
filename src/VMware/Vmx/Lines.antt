-- ===== src/VMware/Vmx/Lines.antt =====
-- The lines of a .vmx file under `setVMXKeys`.
use desktop_hypervisor_mcp.Base.{true, false, [], ◌∷◌, ◌++◌, ◌≡◌, refl, sym, ap, ◌∙◌, append_assoc}
use mathlib.Core.List.{reverse-append}
use desktop_hypervisor_mcp.Base.Text.{
  Text, text, equal_fold, trim_space, trim_left, trim_right, cut, is_space,
}
use desktop_hypervisor_mcp.Base.Text.Cut.{Lacks, Lacks-append, cut-append}
use desktop_hypervisor_mcp.Base.Text.Trim.{
  EndsNot, trim_left_first, trim_left-HeadNot, trim_right-HeadNot, trim_right_last,
}
use desktop_hypervisor_mcp.VMware.Vmx.{Pair, line_has, new_line, is_quote, unquote}

-- A pair whose line is read back: a key without `=` and with no space at its ends, a value with no
-- quote at its ends, and no line break in either.
pub record IsPair (pair : Pair) : Type 0 where
  pub key_plain : Lacks b'=' pair.0
  pub key_one_line : Lacks b'\n' pair.0
  pub key_trimmed : EndsNot is_space pair.0
  pub value_one_line : Lacks b'\n' pair.1
  pub value_bare : EndsNot is_quote pair.1

-- What stands behind `=` in the line of a value.
abbrev quoted : Text → Text
quoted v = b' ' ∷ b'"' ∷ (v ++ (b'"' ∷ []))

new_line_parts : (k v : Text) → new_line (k, v) ≡ (k ++ (b' ' ∷ [])) ++ (b'=' ∷ quoted v)
unfolding new_line text
new_line_parts k v = sym (append_assoc k (b' ' ∷ []) _)

space_is_space : is_space b' ' ≡ true
unfolding is_space
space_is_space = refl

trim_space-spaced : (k : Text) → EndsNot is_space k → trim_space (k ++ (b' ' ∷ [])) ≡ k
unfolding trim_space
trim_space-spaced [] e = unfold trim_left trim_right is_space in refl
trim_space-spaced (x ∷ k) e =
    rw (trim_left-HeadNot is_space (x ∷ (k ++ (b' ' ∷ []))) e.0)
      (trim_right_last is_space (x ∷ k) b' ' space_is_space e.1)

quote_not_space : is_space b'"' ≡ false
unfolding is_space
quote_not_space = refl

trim_space-quoted : (v : Text) → trim_space (quoted v) ≡ b'"' ∷ (v ++ (b'"' ∷ []))
unfolding trim_space
trim_space-quoted v =
    let body : Text = b'"' ∷ (v ++ (b'"' ∷ [])) in
    ap (trim_right is_space) (
      trim_left_first is_space b' ' body space_is_space
      ∙ trim_left-HeadNot is_space body quote_not_space)
    ∙ trim_right-HeadNot is_space body (rw (reverse-append (b'"' ∷ v) (b'"' ∷ [])) quote_not_space)

unquote_both :
    (v : Text)
    → EndsNot is_quote v
    → trim_right is_quote (trim_left is_quote (b'"' ∷ (v ++ (b'"' ∷ [])))) ≡ v
unquote_both [] e = unfold trim_left trim_right in refl
unquote_both (x ∷ v) e =
    ap (trim_right is_quote) (
      trim_left_first is_quote b'"' ((x ∷ v) ++ (b'"' ∷ [])) refl
      ∙ trim_left-HeadNot is_quote ((x ∷ v) ++ (b'"' ∷ [])) e.0)
    ∙ trim_right_last is_quote (x ∷ v) b'"' refl e.1

unquote-quoted : (v : Text) → EndsNot is_quote v → unquote (trim_space (quoted v)) ≡ v
unfolding unquote
unquote-quoted v e = rw (trim_space-quoted v) (unquote_both v e)

cut-new_line :
    (k v : Text) → Lacks b'=' k → cut b'=' (new_line (k, v)) ≡ (k ++ (b' ' ∷ []), quoted v, true)
cut-new_line k v l =
    rw (new_line_parts k v)
      (cut-append b'=' (k ++ (b' ' ∷ [])) (quoted v) (Lacks-append b'=' k (b' ' ∷ []) l (refl, tt)))

pub new_line-Lacks : (pair : Pair) → IsPair pair → Lacks b'\n' (new_line pair)
new_line-Lacks (k, v) h =
    let end = Lacks-append b'\n' v (b'"' ∷ []) h.value_one_line (refl, tt) in
    let front = Lacks-append b'\n' k (b' ' ∷ []) h.key_one_line (refl, tt) in
    rw (new_line_parts k v)
      (Lacks-append b'\n' (k ++ (b' ' ∷ [])) (b'=' ∷ quoted v) front (refl, (refl, (refl, end))))

-- The line that is written sets its own key, without regard to case, and no other.
pub line_has-new_line :
    (pair : Pair) (key : Text) → IsPair pair → line_has key (new_line pair) ≡ equal_fold pair.0 key
unfolding line_has
line_has-new_line (k, v) key h =
    rw (cut-new_line k v h.key_plain, trim_space-spaced k h.key_trimmed)

-- Its value is read back.
pub value-new_line :
    (pair : Pair) → IsPair pair → unquote (trim_space (cut b'=' (new_line pair)).1) ≡ pair.1
value-new_line (k, v) h = rw (cut-new_line k v h.key_plain) (unquote-quoted v h.value_bare)
