-- ===== src/Base/Text/Equal.antt =====
-- Equality of texts and its test.

use mathlib.Core.Path.{◌≡◌, refl}
use mathlib.Core.Logic.{◌↔◌, ◌≢◌}
use mathlib.Core.Bool.{true, false}
use mathlib.Core.List.{[], ◌∷◌, ◌++◌}
use native.Mathlib.Omega.{arith}
use desktop_hypervisor_mcp.Base.Text.Defs.{Text, ◌==◌, has_prefix}

pub eq_iff : (a b : Text) → ((a == b) ≡ true) ↔ (a ≡ b)
unfolding ◌==◌
eq_iff (x ∷ a) (y ∷ b) = ground (arith, eq_iff a b)
eq_iff _ _ = ground arith

pub eq_refl : (a : Text) → (a == a) ≡ true
eq_refl a = (eq_iff a a).1 refl

pub ne_of_test : (a b : Text) → (a == b) ≡ false → a ≢ b
ne_of_test a b h e = ground (arith, eq_iff a b)

pub has_prefix-append : (p s : Text) → has_prefix (p ++ s) p ≡ true
unfolding has_prefix
has_prefix-append [] [] = refl
has_prefix-append [] (x ∷ s) = refl
has_prefix-append (x ∷ p) s = ground (arith, has_prefix-append p s)
