-- ===== src/Base/Text/Search.antt =====
-- Searching a text for another.

use mathlib.Core.Path.{◌≡◌, refl}
use mathlib.Core.Logic.{inl, inr}
use mathlib.Core.Bool.{true, false}
use mathlib.Core.Option.{none, some}
use mathlib.Core.List.{[], ◌∷◌, ◌++◌}
use Prim.Native.Nat.{ℕ}
use native.Mathlib.Omega.{arith}
use desktop_hypervisor_mcp.Base.Tests.{Option-cases}
use desktop_hypervisor_mcp.Base.Text.Defs.{
  Text, has_prefix, contains, before_last, drop, size, trim_prefix,
}
use desktop_hypervisor_mcp.Base.Text.Equal.{has_prefix-append}

pub prefix_rest : (s p : Text) → has_prefix s p ≡ true → s ≡ p ++ drop (size p) s
unfolding has_prefix
prefix_rest s [] h = refl
prefix_rest [] (x ∷ p) h = cc
prefix_rest (y ∷ s) (x ∷ p) h = ground (arith, prefix_rest s p)

drop-size : (p s : Text) → drop (size p) (p ++ s) ≡ s
drop-size [] s = refl
drop-size (x ∷ p) s = drop-size p s

pub trim_prefix-append : (p s : Text) → trim_prefix (p ++ s) p ≡ s
unfolding trim_prefix
trim_prefix-append p s = rw (has_prefix-append p s, drop-size p s)

contains_front : (t b : Text) → contains (t ++ b) t ≡ true
contains_front [] [] = unfold contains in refl
contains_front [] (x ∷ b) = unfold contains in refl
contains_front (x ∷ t) b = unfold contains in rw (has_prefix-append (x ∷ t) b)

pub contains-append : (a t b : Text) → contains (a ++ (t ++ b)) t ≡ true
unfolding contains
contains-append [] t b = contains_front t b
contains-append (x ∷ a) t b = ground (arith, contains-append a t b)

-- What is returned stands before an occurrence of the text that was searched for.
pub before_last_lem :
    (s t b : Text)
    → before_last s t ≡ some b
    → (s ≡ b ++ drop (size b) s) × (has_prefix (drop (size b) s) t ≡ true)
unfolding before_last
before_last_lem [] t b h = ground arith
before_last_lem (x ∷ s) t b h = elim (Option-cases (before_last s t)) [
  | inl e ↦ ground arith
  | inr (c, e) ↦ ground (arith, before_last_lem s t c)
]

pub before_last-none : (s t : Text) → before_last s t ≡ none → contains s t ≡ false
unfolding before_last contains
before_last-none [] t h = ground arith
before_last-none (x ∷ s) t h = elim (Option-cases (before_last s t)) [
  | inl e ↦ ground (arith, before_last-none s t)
  | inr (c, e) ↦ absurd (ground arith)
]

abbrev pub tail : Text → Text
tail [] = []
tail (x ∷ s) = s

-- No occurrence starts behind the one that was found.
pub before_last-tail :
    (s : Text) (c : ℕ) (t b : Text)
    → before_last s (c ∷ t) ≡ some b
    → contains (tail (drop (size b) s)) (c ∷ t) ≡ false
unfolding before_last
before_last-tail [] c t b h = ground arith
before_last-tail (x ∷ s) c t b h = elim (Option-cases (before_last s (c ∷ t))) [
  | inl e ↦ let last = before_last-none s (c ∷ t) e in ground arith
  | inr (d, e) ↦ ground (arith, before_last-tail s c t d)
]
