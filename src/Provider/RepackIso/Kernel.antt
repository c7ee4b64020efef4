-- ===== src/Provider/RepackIso/Kernel.antt =====
-- The lines of a GRUB configuration that start a kernel.
use desktop_hypervisor_mcp.Base.{
  true, false, List, [], ◌∷◌, ◌≡◌, refl, sym, ap, ◌∙◌, ◌⊎◌, ◌↔◌, arith, inl, inr, Bool-cases,
}
use desktop_hypervisor_mcp.Base.Text.{Text, text, ◌==◌, contains, fields}
use desktop_hypervisor_mcp.Base.Text.Equal.{eq_iff}
use desktop_hypervisor_mcp.Base.Text.Fields.{IsFields, fields_iff}
use desktop_hypervisor_mcp.Provider.RepackIso.{is_directive, is_kernel, needs_args}

-- The first word of the line is `linux` or `linuxefi`.
abbrev pub IsKernel : Text → Type 0
IsKernel line =
    (w : Text) × (ws : List Text) × IsFields line (w ∷ ws)
    × ((w ≡ text "linux") ⊎ (w ≡ text "linuxefi"))

directive :
    (line w : Text) (ws : List Text)
    → fields line ≡ w ∷ ws
    → (w ≡ text "linux") ⊎ (w ≡ text "linuxefi")
    → is_kernel line ≡ true
unfolding is_kernel
directive line w ws e (inl named) =
    ap is_directive e ∙ (let q = (eq_iff w (text "linux")).1 named in ground arith)
directive line w ws e (inr named) =
    ap is_directive e ∙ (let q = (eq_iff w (text "linuxefi")).1 named in ground arith)

first_word :
    (line : Text) (fs : List Text) → fields line ≡ fs → is_directive fs ≡ true → IsKernel line
first_word line [] e h = absurd (cc h)
first_word line (w ∷ ws) e h = (
  w,
  ws,
  (fields_iff line (w ∷ ws)).0 e,
  elim (Bool-cases (w == text "linux")) [
    | inl q ↦ inl ((eq_iff w (text "linux")).0 q)
    | inr q ↦ inr ((eq_iff w (text "linuxefi")).0 (ground arith))
  ],
)

is_kernel_iff : (line : Text) → (is_kernel line ≡ true) ↔ IsKernel line
unfolding is_kernel
is_kernel_iff line = (
  (λ h. first_word line (fields line) refl h),
  λ (w, ws, split_up, named). directive line w ws ((fields_iff line (w ∷ ws)).1 split_up) named,
)

-- Whether a line is changed.
pub needs_args-cases :
    (args line : Text)
    → (needs_args args line ≡ true) × IsKernel line × (contains line args ≡ false)
      ⊎ (needs_args args line ≡ false) × (IsKernel line → contains line args ≡ true)
unfolding needs_args
needs_args-cases args line =
    let (there, back) = is_kernel_iff line in
    elim (Bool-cases (is_kernel line)) [
      | inr e ↦ inr (ground arith, λ k. absurd (cc (sym e ∙ back k)))
      | inl e ↦ elim (Bool-cases (contains line args)) [
        | inl c ↦ inr (ground arith, λ k. c)
        | inr c ↦ inl (ground arith, there e, c)
      ]
    ]
