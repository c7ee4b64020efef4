-- ===== src/Base/Text/Cut.antt =====
-- Cutting a text at a character.
use Prim.Native.Nat.{ℕ}
use mathlib.Core.Path.{◌≡◌, refl}
use mathlib.Core.Bool.{Bool, true, false, not, ◌&&◌}
use mathlib.Core.List.{[], ◌∷◌, ◌++◌}
use native.Mathlib.Omega.{arith}
use desktop_hypervisor_mcp.Base.Tests.{eqb}
use desktop_hypervisor_mcp.Base.Text.Defs.{Text, cut}

-- The character does not occur in the text.
abbrev pub Lacks : ℕ → Text → Type 0
Lacks c [] = Unit
Lacks c (x ∷ xs) = (eqb x c ≡ false) × Lacks c xs

-- The same as a test, for concrete texts.
abbrev pub lacks : ℕ → Text → Bool
lacks c [] = true
lacks c (x ∷ xs) = not (eqb x c) && lacks c xs

pub lacks→Lacks : (c : ℕ) (t : Text) → lacks c t ≡ true → Lacks c t
lacks→Lacks c [] h = tt
lacks→Lacks c (x ∷ t) h = (ground arith, lacks→Lacks c t (ground arith))

pub cut-append : (c : ℕ) (k v : Text) → Lacks c k → cut c (k ++ (c ∷ v)) ≡ (k, v, true)
unfolding cut
cut-append c [] v l = ground arith
cut-append c (x ∷ k) v l = ground (arith, cut-append c k v l.1)

pub Lacks-append : (c : ℕ) (a b : Text) → Lacks c a → Lacks c b → Lacks c (a ++ b)
Lacks-append c [] b l m = m
Lacks-append c (x ∷ a) b l m = (l.0, Lacks-append c a b l.1 m)

pub Lacks-split : (c : ℕ) (a b : Text) → Lacks c (a ++ b) → Lacks c a × Lacks c b
Lacks-split c [] b l = (tt, l)
Lacks-split c (x ∷ a) b l = let (left, right) = Lacks-split c a b l.1 in ((l.0, left), right)

-- Without the character, the whole text stands before the cut.
pub cut_missing : (c : ℕ) (s : Text) → Lacks c s → cut c s ≡ (s, [], false)
unfolding cut
cut_missing c [] l = refl
cut_missing c (x ∷ s) l = ground (arith, cut_missing c s l.1)
