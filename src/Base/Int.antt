-- ===== src/Base/Int.antt =====
-- Go's `int` as the program uses it: compared with 0 and printed. `negsuc n` is -(n + 1).
use Prim.Native.Nat.{ℕ, zero, suc, ◌+◌, ◌/◌, ◌%◌, ◌<◌}
use mathlib.Core.Path.{◌≡◌, ap}
use mathlib.Core.Logic.{inl, inr}
use mathlib.Core.Bool.{Bool, true, false, ◌&&◌}
use mathlib.Core.List.{[], ◌∷◌, ◌++◌}
use native.Mathlib.Omega.{arith}
use desktop_hypervisor_mcp.Base.Tests.{leb, if◌then◌else◌, Bool-cases}
use desktop_hypervisor_mcp.Base.Lists.{All}
use desktop_hypervisor_mcp.Base.Text.{Text}

pub data ℤ : Type 0 where
  pos : ℕ → ℤ
  negsuc : ℕ → ℤ

-- `n > 0`
abbrev pub is_pos : ℤ → Bool
is_pos (pos zero) = false
is_pos (pos (suc n)) = true
is_pos (negsuc n) = false

-- `n == 0`
abbrev pub is_zero : ℤ → Bool
is_zero (pos zero) = true
is_zero (pos (suc n)) = false
is_zero (negsuc n) = false

-- The decimal digits of a number, on fuel: one more than the number is enough.
unfoldable pub digits : ℕ → ℕ → Text
digits zero n = []
digits (suc fuel) n =
    let more = digits fuel (n / 10) ++ ((b'0' + n % 10) ∷ []) in
    if leb n 9 then (b'0' + n) ∷ [] else more

-- `strconv.Itoa`
unfoldable pub itoa : ℤ → Text
unfolding digits
itoa (pos n) = digits (suc n) n
itoa (negsuc n) = b'-' ∷ digits (suc (suc n)) (suc n)

-- Any fuel above the number gives the same digits.
pub digits_fuel : (f g n : ℕ) → n < f → n < g → digits f n ≡ digits g n
unfolding digits
digits_fuel zero g n h k = elim h [ ]
digits_fuel (suc f) zero n h k = elim k [ ]
digits_fuel (suc f) (suc g) n h k = elim (Bool-cases (leb n 9)) [
  | inl small ↦ rw small
  | inr large ↦ rw large (
      ap (λ t. t ++ ((b'0' + n % 10) ∷ []))
        (digits_fuel f g (n / 10) (ground arith) (ground arith)))
]

abbrev pub is_digit : ℕ → Bool
is_digit c = leb b'0' c && leb c b'9'

All-append :
    (a b : Text)
    → All (λ c. is_digit c ≡ true) a
    → All (λ c. is_digit c ≡ true) b
    → All (λ c. is_digit c ≡ true) (a ++ b)
All-append [] b h k = k
All-append (x ∷ a) b h k = (h.0, All-append a b h.1 k)

small_digit : (f n : ℕ) → leb n 9 ≡ true → All (λ c. is_digit c ≡ true) (digits (suc f) n)
unfolding digits
small_digit f n h = rw h (ground arith, tt)

-- A number is printed with digits alone.
pub digits-is_digit : (f n : ℕ) → All (λ c. is_digit c ≡ true) (digits f n)
unfolding digits
digits-is_digit zero n = tt
digits-is_digit (suc f) n = elim (Bool-cases (leb n 9)) [
  | inl small ↦ small_digit f n small
  | inr large ↦
      rw large (All-append (digits f (n / 10)) _ (digits-is_digit f (n / 10)) (ground arith, tt))
]
