-- ===== src/Base/Text/Defs.antt =====
-- The functions of package strings that the program calls, on code points.
use Prim.Native.Nat.{ℕ, zero, suc, ◌+◌, ◌-◌}
use Prim.Native.Char.{code}
use Prim.Native.String.{String}
use mathlib.Core.Bool.{Bool, true, false, ◌&&◌, ◌||◌}
use mathlib.Core.Option.{Option, none, some}
use mathlib.Core.List.{List, [], ◌∷◌, ◌++◌, map, reverse}
use desktop_hypervisor_mcp.Base.Tests.{leb, eqb, if◌then◌else◌}

abbrev pub Text : Type 0
Text = List ℕ

-- A literal of the source.
unfoldable pub text : String → Text
text String.[] = []
text (String.◌∷◌ c s) = code c ∷ text s

infix 50 ◌==◌
unfoldable pub ◌==◌ : Text → Text → Bool
[] == [] = true
(x ∷ xs) == (y ∷ ys) = eqb x y && xs == ys
_ == _ = false

abbrev pub is_empty : Text → Bool
is_empty [] = true
is_empty (x ∷ xs) = false

-- The first text, or the second one where it is empty.
abbrev pub or_text : Text → Text → Text
or_text a b = if is_empty a then b else a

-- `strings.HasPrefix(s, p)`
unfoldable pub has_prefix : Text → Text → Bool
has_prefix s [] = true
has_prefix [] (p ∷ ps) = false
has_prefix (x ∷ xs) (p ∷ ps) = eqb x p && has_prefix xs ps

abbrev pub drop : ℕ → Text → Text
drop zero xs = xs
drop (suc n) [] = []
drop (suc n) (x ∷ xs) = drop n xs

abbrev pub size : Text → ℕ
size [] = 0
size (x ∷ xs) = suc (size xs)

-- `strings.TrimPrefix(s, p)`
unfoldable pub trim_prefix : Text → Text → Text
unfolding has_prefix
trim_prefix s p = if has_prefix s p then drop (size p) s else s

-- `strings.HasSuffix(s, p)`
unfoldable pub has_suffix : Text → Text → Bool
unfolding has_prefix
has_suffix s p = has_prefix (reverse s) (reverse p)

-- `strings.TrimSuffix(s, p)`
unfoldable pub trim_suffix : Text → Text → Text
unfolding trim_prefix
trim_suffix s p = reverse (trim_prefix (reverse s) (reverse p))

-- `strings.Contains(s, t)`
unfoldable pub contains : Text → Text → Bool
unfolding has_prefix
contains [] t = has_prefix [] t
contains (x ∷ xs) t = has_prefix (x ∷ xs) t || contains xs t

-- What stands before the last occurrence of `t` in `s`: `s[:strings.LastIndex(s, t)]`.
unfoldable pub before_last : Text → Text → Option Text
unfolding has_prefix
before_last [] t = if has_prefix [] t then some [] else none
before_last (x ∷ xs) t = elim (before_last xs t) [
  | some before ↦ some (x ∷ before)
  | none ↦ if has_prefix (x ∷ xs) t then some [] else none
]

-- `strings.Cut` at one byte: what stands before it, what stands behind it, and whether it occurs.
unfoldable pub cut : ℕ → Text → Text × Text × Bool
cut c [] = ([], [], false)
cut c (x ∷ xs) =
    let rest = cut c xs in if eqb x c then ([], xs, true) else (x ∷ rest.0, rest.1, rest.2)

abbrev pub cons_first : ℕ → List Text → List Text
cons_first c [] = (c ∷ []) ∷ []
cons_first c (t ∷ ts) = (c ∷ t) ∷ ts

-- `strings.Split` at one byte.
unfoldable pub split : ℕ → Text → List Text
split c [] = [] ∷ []
split c (x ∷ xs) = if eqb x c then [] ∷ split c xs else cons_first x (split c xs)

-- `strings.Join` with one byte.
unfoldable pub join : ℕ → List Text → Text
join c [] = []
join c (t ∷ []) = t
join c (t ∷ u ∷ ts) = t ++ (c ∷ join c (u ∷ ts))

-- `unicode.IsSpace`
unfoldable pub is_space : ℕ → Bool
is_space c =
    leb 9 c && leb c 13
    || eqb c 32
    || eqb c 0x85
    || eqb c 0xa0
    || eqb c 0x1680
    || leb 0x2000 c && leb c 0x200a
    || eqb c 0x2028
    || eqb c 0x2029
    || eqb c 0x202f
    || eqb c 0x205f
    || eqb c 0x3000

unfoldable pub trim_left : (ℕ → Bool) → Text → Text
trim_left p [] = []
trim_left p (x ∷ xs) = let rest = trim_left p xs in if p x then rest else x ∷ xs

unfoldable pub trim_right : (ℕ → Bool) → Text → Text
trim_right p s = reverse (trim_left p (reverse s))

-- `strings.TrimSpace(s)`
unfoldable pub trim_space : Text → Text
trim_space s = trim_right is_space (trim_left is_space s)

-- The fields of a text whose first characters, up to a space, are `word`.
unfoldable pub fields_from : Text → Text → List Text
unfolding is_space
fields_from word [] = if is_empty word then [] else word ∷ []
fields_from word (x ∷ xs) = elim (is_space x) [
  | true ↦ if is_empty word then fields_from [] xs else word ∷ fields_from [] xs
  | false ↦ fields_from (word ++ (x ∷ [])) xs
]

-- `strings.Fields(s)`
abbrev pub fields : Text → List Text
fields s = fields_from [] s

unfoldable pub lower_char : ℕ → ℕ
lower_char c = if leb b'A' c && leb c b'Z' then c + 32 else c

-- `strings.ToLower(s)`
abbrev pub to_lower : Text → Text
to_lower s = map lower_char s

-- `strings.EqualFold(s, t)`
abbrev pub equal_fold : Text → Text → Bool
equal_fold s t = to_lower s == to_lower t

-- `strings.ReplaceAll(s, old, new)` for an `old` that is not empty, with the number of characters
-- that a replacement has still to skip.
unfoldable pub replace_from : Text → Text → ℕ → Text → Text
unfolding has_prefix
replace_from old new skip [] = []
replace_from old new (suc skip) (x ∷ xs) = replace_from old new skip xs
replace_from old new zero (x ∷ xs) = elim (has_prefix (x ∷ xs) old) [
  | true ↦ new ++ replace_from old new (size old - 1) xs
  | false ↦ x ∷ replace_from old new zero xs
]

abbrev pub replace_all : Text → Text → Text → Text
replace_all s old new = replace_from old new 0 s
