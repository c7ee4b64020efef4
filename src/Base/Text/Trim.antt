-- ===== src/Base/Text/Trim.antt =====
-- Trimming a text at its ends.
use Prim.Native.Nat.{ℕ}
use mathlib.Core.Path.{◌≡◌, refl, ap, sym, ◌∙◌}
use mathlib.Core.Bool.{Bool, true, false}
use mathlib.Core.List.{[], ◌∷◌, ◌++◌, reverse, reverse-append, reverse-reverse, reverse-cons}
use desktop_hypervisor_mcp.Base.Tests.{Bool-cases}
use mathlib.Core.Logic.{inl, inr}
use desktop_hypervisor_mcp.Base.Lists.{All}
use desktop_hypervisor_mcp.Base.Text.Defs.{Text, trim_left, trim_right}

module _ (p : ℕ → Bool) where
  -- A text that does not begin with a character of the set.
  abbrev pub HeadNot : Text → Type 0
  HeadNot [] = Unit
  HeadNot (x ∷ xs) = p x ≡ false

  -- Nor ends with one.
  abbrev pub EndsNot : Text → Type 0
  EndsNot t = HeadNot t × HeadNot (reverse t)

  pub trim_left-HeadNot : (t : Text) → HeadNot t → trim_left p t ≡ t
  unfolding trim_left
  trim_left-HeadNot [] h = refl
  trim_left-HeadNot (x ∷ t) h = rw h

  All-concat :
      (t : Text) (c : ℕ)
      → All (λ c. p c ≡ true) t
      → p c ≡ true
      → All (λ c. p c ≡ true) (t ++ (c ∷ []))
  All-concat [] c a h = (h, tt)
  All-concat (x ∷ t) c a h = (a.0, All-concat t c a.1 h)

  pub trim_left_first : (c : ℕ) (t : Text) → p c ≡ true → trim_left p (c ∷ t) ≡ trim_left p t
  unfolding trim_left
  trim_left_first c t h = rw h

  pub trim_right-HeadNot : (t : Text) → HeadNot (reverse t) → trim_right p t ≡ t
  unfolding trim_right
  trim_right-HeadNot t e = rw (trim_left-HeadNot (reverse t) e) (reverse-reverse t)

  -- One character of the set at the end is taken off.
  pub trim_right_last :
      (t : Text) (c : ℕ) → p c ≡ true → HeadNot (reverse t) → trim_right p (t ++ (c ∷ [])) ≡ t
  unfolding trim_right
  trim_right_last t c h e = rw (reverse-append t (c ∷ [])) (
      ap reverse (trim_left_first c (reverse t) h ∙ trim_left-HeadNot (reverse t) e)
      ∙ reverse-reverse t)

  -- What is taken off at the left: only characters of the set.
  trim_left-split : (t : Text) → (w : Text) × (t ≡ w ++ trim_left p t) × All (λ c. p c ≡ true) w
  unfolding trim_left
  trim_left-split [] = ([], refl, tt)
  trim_left-split (x ∷ t) = elim (Bool-cases (p x)) [
    | inl h ↦ let (w, e, a) = trim_left-split t in (x ∷ w, rw h (ap (◌∷◌ x) e), (h, a))
    | inr h ↦ ([], rw h, tt)
  ]

  pub All-reverse : (t : Text) → All (λ c. p c ≡ true) t → All (λ c. p c ≡ true) (reverse t)
  All-reverse [] a = tt
  All-reverse (x ∷ t) a = rw (reverse-cons x t) (All-concat (reverse t) x (All-reverse t a.1) a.0)

  pub trim_right-split :
      (t : Text) → (w : Text) × (t ≡ trim_right p t ++ w) × All (λ c. p c ≡ true) w
  unfolding trim_right
  trim_right-split t =
      let (w, e, a) = trim_left-split (reverse t) in
      (reverse w, sym (reverse-reverse t) ∙ ap reverse e ∙ reverse-append w _, All-reverse w a)
