-- ===== src/Base/Text/Lines.antt =====
-- Splitting a text at a character and joining the parts again.
use Prim.Native.Nat.{ℕ}
use mathlib.Core.Path.{◌≡◌, refl, ap, ◌∙◌}
use mathlib.Core.Logic.{◌≢◌, inl, inr}
use mathlib.Core.Bool.{Bool, true, false}
use mathlib.Core.List.{List, [], ◌∷◌, ◌++◌}
use native.Mathlib.Omega.{arith}
use desktop_hypervisor_mcp.Base.Tests.{eqb, if◌then◌else◌, Bool-cases}
use desktop_hypervisor_mcp.Base.Lists.{All}
use desktop_hypervisor_mcp.Base.Text.Defs.{Text, split, join, cons_first}
use desktop_hypervisor_mcp.Base.Text.Cut.{Lacks}

pub split-ne-nil : (c : ℕ) (s : Text) → split c s ≢ []
unfolding split
split-ne-nil c [] = λ e. cc
split-ne-nil c (x ∷ s) = ground (arith, split-ne-nil c s)

join-cons_first : (c x : ℕ) (ts : List Text) → ts ≢ [] → join c (cons_first x ts) ≡ x ∷ join c ts
unfolding join
join-cons_first c x [] h = absurd (h refl)
join-cons_first c x (t ∷ []) h = refl
join-cons_first c x (t ∷ u ∷ ts) h = refl

join-nil-cons : (c : ℕ) (ts : List Text) → ts ≢ [] → join c ([] ∷ ts) ≡ c ∷ join c ts
unfolding join
join-nil-cons c [] h = absurd (h refl)
join-nil-cons c (t ∷ ts) h = refl

pub join-split : (c : ℕ) (s : Text) → join c (split c s) ≡ s
unfolding split
join-split c [] = unfold join in refl
join-split c (x ∷ s) = elim (Bool-cases (eqb x c)) [
  | inl here ↦
      rw (here, join-nil-cons c (split c s) (split-ne-nil c s), join-split c s) (ground arith)
  | inr there ↦ rw (there, join-cons_first c x (split c s) (split-ne-nil c s), join-split c s)
]

cons_first-Lacks :
    (c x : ℕ) (ts : List Text)
    → eqb x c ≡ false
    → All (Lacks c) ts
    → All (Lacks c) (cons_first x ts)
cons_first-Lacks c x [] h a = ((h, tt), tt)
cons_first-Lacks c x (t ∷ ts) h a = ((h, a.0), a.1)

if-Lacks :
    (c x : ℕ) (ts : List Text) (b : Bool)
    → All (Lacks c) ts
    → eqb x c ≡ b
    → All (Lacks c) (if b then [] ∷ ts else cons_first x ts)
if-Lacks c x ts true a e = (tt, a)
if-Lacks c x ts false a e = cons_first-Lacks c x ts e a

-- No part of a split holds the character.
pub split-Lacks : (c : ℕ) (s : Text) → All (Lacks c) (split c s)
unfolding split
split-Lacks c [] = (tt, tt)
split-Lacks c (x ∷ s) = if-Lacks c x (split c s) (eqb x c) (split-Lacks c s) refl

pub split-append : (c : ℕ) (t s : Text) → Lacks c t → split c (t ++ (c ∷ s)) ≡ t ∷ split c s
unfolding split
split-append c [] s l = ground arith
split-append c (x ∷ t) s l = rw (l.0, split-append c t s l.1)

split_whole : (c : ℕ) (t : Text) → Lacks c t → split c t ≡ t ∷ []
unfolding split
split_whole c [] l = refl
split_whole c (x ∷ t) l = rw (l.0, split_whole c t l.1)

-- Parts that lack the character are found again.
pub split-join :
    (c : ℕ) (t : Text) (ts : List Text)
    → Lacks c t
    → All (Lacks c) ts
    → split c (join c (t ∷ ts)) ≡ t ∷ ts
unfolding join
split-join c t [] l a = split_whole c t l
split-join c t (u ∷ ts) l a = rw (split-append c t (join c (u ∷ ts)) l, split-join c u ts a.0 a.1)

cons_first-append :
    (x : ℕ) (ts us : List Text) → ts ≢ [] → cons_first x (ts ++ us) ≡ cons_first x ts ++ us
cons_first-append x [] us h = absurd (h refl)
cons_first-append x (t ∷ ts) us h = refl

pub split-append_char : (c : ℕ) (t s : Text) → split c (t ++ (c ∷ s)) ≡ split c t ++ split c s
unfolding split
split-append_char c [] s = ground arith
split-append_char c (x ∷ t) s = elim (Bool-cases (eqb x c)) [
  | inl here ↦ rw here (ap (◌∷◌ []) (split-append_char c t s))
  | inr there ↦ rw there (
      ap (cons_first x) (split-append_char c t s)
      ∙ cons_first-append x (split c t) (split c s) (split-ne-nil c t))
]

-- The character, repeated at the end, adds empty parts.
pub split-append_repeated :
    (c : ℕ) (t w : Text)
    → All (λ x. eqb x c ≡ true) w
    → (blank : List Text) × (split c (t ++ w) ≡ split c t ++ blank) × All (λ u. u ≡ []) blank
unfolding split
split-append_repeated c [] [] a = ([], refl, tt)
split-append_repeated c [] (x ∷ w) a =
    let (blank, e, empty) = split-append_repeated c [] w a.1 in
    ([] ∷ blank, rw a.0 (ap (◌∷◌ []) e), (refl, empty))
split-append_repeated c (x ∷ t) w a =
    let (blank, e, empty) = split-append_repeated c t w a in
    (
      blank,
      elim (Bool-cases (eqb x c)) [
        | inl here ↦ rw here (ap (◌∷◌ []) e)
        | inr there ↦
            rw there
              (ap (cons_first x) e ∙ cons_first-append x (split c t) blank (split-ne-nil c t))
      ],
      empty,
    )
