-- ===== src/Provider/RepackIso/Patched.antt =====
-- What the loop of `RepackISO` does to the lines, and that a second repack finds nothing to do.
use desktop_hypervisor_mcp.Base.{
  true, false, some, List, [], ◌∷◌, ◌++◌, ◌≡◌, ◌≢◌, refl, sym, ap, ◌∙◌, ◌⊎◌, arith, inl, inr,
  Bool-cases, Option-cases, All, append_assoc, append-nil, subst,
}
use desktop_hypervisor_mcp.Base.Text.{
  Text, text, contains, before_last, drop, size, split, join, has_prefix,
}
use desktop_hypervisor_mcp.Base.Text.Cut.{Lacks, Lacks-append, Lacks-split}
use desktop_hypervisor_mcp.Base.Text.Lines.{split-ne-nil, split-Lacks, split-join}
use desktop_hypervisor_mcp.Base.Text.Search.{
  contains-append, before_last_lem, before_last-none, before_last-tail, prefix_rest, tail,
}
use desktop_hypervisor_mcp.Provider.RepackIso.Kernel.{IsKernel, needs_args-cases}
use desktop_hypervisor_mcp.Provider.RepackIso.{
  separator, with_args, needs_args, patch_lines, patch_content,
}

-- A line and what becomes of it. A kernel line without the arguments has them, behind a space, in
-- front of its last ` ---`, or at its end where it has none; any other line is as it was.
pub data Patched (args line line' : Text) : Type 0 where
  same : (IsKernel line → contains line args ≡ true) → line' ≡ line → Patched args line line'
  appended :
      IsKernel line
      → contains line args ≡ false
      → contains line (text " ---") ≡ false
      → line' ≡ line ++ (b' ' ∷ args)
      → Patched args line line'
  inserted :
      (a b : Text)
      → IsKernel line
      → contains line args ≡ false
      → line ≡ a ++ (text " ---" ++ b)
      → contains (text "---" ++ b) (text " ---") ≡ false
      → line' ≡ a ++ (b' ' ∷ (args ++ (text " ---" ++ b)))
      → Patched args line line'

pub data AllPatched (args : Text) : List Text → List Text → Type 0 where
  none_left : AllPatched args [] []
  next :
      {line line' : Text} {lines lines' : List Text}
      → Patched args line line'
      → AllPatched args lines lines'
      → AllPatched args (line ∷ lines) (line' ∷ lines')

with_args_parts :
    (args line : Text)
    → (a : Text) × (b : Text) × (line ≡ a ++ b)
      × (with_args args line ≡ a ++ (b' ' ∷ (args ++ b)))
      × ((b ≡ []) ⊎ (has_prefix b separator ≡ true))
unfolding with_args
with_args_parts args line = elim (Option-cases (before_last line separator)) [
  | inl e ↦ (line, [], sym (append-nil line), rw (with_args, e, append-nil args) refl, inl refl)
  | inr (before, e) ↦
      let (parts, starts) = before_last_lem line separator before e in
      (before, drop (size before) line, parts, rw (with_args, e) refl, inr starts)
]

last_one :
    (line before : Text)
    → before_last line (text " ---") ≡ some before
    → contains (tail (drop (size before) line)) (text " ---") ≡ false
unfolding text
last_one line before e = before_last-tail line b' ' (text "---") before e

with_args-Patched :
    (args line : Text)
    → IsKernel line
    → contains line args ≡ false
    → Patched args line (with_args args line)
unfolding with_args separator text
with_args-Patched args line kernel without_them =
    elim (Option-cases (before_last line (text " ---"))) [
      | inl e ↦
          appended kernel without_them (before_last-none line (text " ---") e)
            (rw (with_args, e) refl)
      | inr (before, e) ↦
          let (parts, starts) = before_last_lem line (text " ---") before e in
          let rest = drop (size before) line in
          let opened = prefix_rest rest (text " ---") starts in
          let b = drop (size (text " ---")) rest in
          inserted before b kernel without_them (parts ∙ ap (λ x. before ++ x) opened)
            (ap (λ x. contains x (text " ---")) (ap tail (sym opened)) ∙ last_one line before e)
            (rw (with_args, e) (ap (λ x. before ++ (b' ' ∷ (args ++ x))) opened))
    ]

with_args-contains : (args line : Text) → contains (with_args args line) args ≡ true
with_args-contains args line =
    let (a, b, parts, changed, where_to) = with_args_parts args line in
    ap (λ t. contains t args) (changed ∙ sym (append_assoc a (b' ' ∷ []) (args ++ b)))
    ∙ contains-append (a ++ (b' ' ∷ [])) args b

with_args_settled : (args line : Text) → needs_args args (with_args args line) ≡ false
unfolding needs_args
with_args_settled args line = ground (arith, with_args-contains args line)

patch_lines_settled :
    (args : Text) (lines : List Text)
    → patch_lines args (patch_lines args lines).0 ≡ ((patch_lines args lines).0, 0)
unfolding patch_lines
patch_lines_settled args [] = refl
patch_lines_settled args (line ∷ lines) = elim (Bool-cases (needs_args args line)) [
  | inl e ↦ rw (e, with_args_settled args line, patch_lines_settled args lines) refl
  | inr e ↦ rw (e, e, patch_lines_settled args lines) refl
]

patch_lines-AllPatched :
    (args : Text) (lines : List Text) → AllPatched args lines (patch_lines args lines).0
unfolding patch_lines
patch_lines-AllPatched args [] = none_left
patch_lines-AllPatched args (line ∷ lines) = elim (needs_args-cases args line) [
  | inl (e, kernel, without_them) ↦
      rw e
        (next (with_args-Patched args line kernel without_them) (patch_lines-AllPatched args lines))
  | inr (e, settled) ↦ rw e (next (same settled refl) (patch_lines-AllPatched args lines))
]

with_args-Lacks :
    (args line : Text) → Lacks b'\n' args → Lacks b'\n' line → Lacks b'\n' (with_args args line)
with_args-Lacks args line la ll =
    let (a, b, parts, changed, where_to) = with_args_parts args line in
    let (left, right) = Lacks-split b'\n' a b (subst (Lacks b'\n') parts ll) in
    subst (Lacks b'\n') (sym changed)
      (Lacks-append b'\n' a (b' ' ∷ (args ++ b)) left (refl, Lacks-append b'\n' args b la right))

patch_lines-Lacks :
    (args : Text) (lines : List Text)
    → Lacks b'\n' args
    → All (Lacks b'\n') lines
    → All (Lacks b'\n') (patch_lines args lines).0
unfolding patch_lines
patch_lines-Lacks args [] la h = tt
patch_lines-Lacks args (line ∷ lines) la h = elim (Bool-cases (needs_args args line)) [
  | inl e ↦ rw e (with_args-Lacks args line la h.0, patch_lines-Lacks args lines la h.1)
  | inr e ↦ rw e (h.0, patch_lines-Lacks args lines la h.1)
]

patch_lines-ne-nil :
    (args : Text) (lines : List Text) → lines ≢ [] → (patch_lines args lines).0 ≢ []
unfolding patch_lines
patch_lines-ne-nil args [] h = h
patch_lines-ne-nil args (line ∷ lines) h = ground arith

split-join_lines :
    (ts : List Text) → ts ≢ [] → All (Lacks b'\n') ts → split b'\n' (join b'\n' ts) ≡ ts
split-join_lines [] h a = absurd (h refl)
split-join_lines (t ∷ ts) h a = split-join b'\n' t ts a.0 a.1

patch_content-split :
    (args content : Text)
    → Lacks b'\n' args
    → split b'\n' (patch_content args content).0 ≡ (patch_lines args (split b'\n' content)).0
unfolding patch_content
patch_content-split args content la =
    split-join_lines _ (patch_lines-ne-nil args _ (split-ne-nil b'\n' content))
      (patch_lines-Lacks args _ la (split-Lacks b'\n' content))

-- With arguments of one line, each line of the configuration afterwards comes from the line of
-- before: a kernel line without the arguments, one whose first word is `linux` or `linuxefi`, has
-- them in front of its last ` ---`, or at its end where it has none, and any other line is as it was.
pub patch_content-AllPatched :
    (args content : Text)
    → Lacks b'\n' args
    → AllPatched args (split b'\n' content) (split b'\n' (patch_content args content).0)
patch_content-AllPatched args content la =
    subst (AllPatched args (split b'\n' content)) (sym (patch_content-split args content la))
      (patch_lines-AllPatched args (split b'\n' content))

-- With arguments of one line, a configuration that was patched once has no line left to patch and
-- stays as it is.
pub patch_content_settled :
    (args content : Text)
    → Lacks b'\n' args
    → let once = (patch_content args content).0 in patch_content args once ≡ (once, 0)
patch_content_settled args content la =
    let e =
      ap (patch_lines args) (patch_content-split args content la)
      ∙ patch_lines_settled args (split b'\n' content) in
    unfold patch_content in ap (λ p. (join b'\n' p.0, p.1)) e
