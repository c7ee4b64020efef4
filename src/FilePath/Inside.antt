-- ===== src/FilePath/Inside.antt =====
-- Where a path lies that `filepath.Join` makes of a folder and a cleaned name.

use mathlib.Core.List.{reverse, reverse-append, reverse-reverse, reverse-cons}
use desktop_hypervisor_mcp.Base.{
  Bool, true, false, ◌||◌, List, [], ◌∷◌, ◌++◌, ◌≡◌, refl, sym, ap, ◌∙◌, subst, ◌⊎◌, inl, inr,
  arith, append-nil, append_assoc, All, Bool-cases,
}
use desktop_hypervisor_mcp.Base.Text.{Text, ◌==◌, is_empty, has_prefix, split, join}
use desktop_hypervisor_mcp.Base.Text.Cut.{Lacks}
use desktop_hypervisor_mcp.Base.Text.Equal.{eq_refl, has_prefix-append}
use desktop_hypervisor_mcp.Base.Text.Lines.{split-Lacks, split-join, split-append_char}
use desktop_hypervisor_mcp.FilePath.{
  dot, dot_dot, is_abs, back, clean_onto, clean_parts, from_parts, clean, join_path,
}

-- The name of a file or a folder that is not `.` or `..`.
abbrev pub IsPlain : Text → Type 0
IsPlain t = (is_empty t ≡ false) × ((t == dot) ≡ false) × ((t == dot_dot) ≡ false) × Lacks b'/' t

-- The path is the folder's, or one below it.
abbrev pub IsInside : Text → Text → Type 0
IsInside folder path =
    (names : List Text) × All IsPlain names
    × (path ≡ from_parts (is_abs folder) (clean_parts (is_abs folder) (split b'/' folder) ++ names))

abbrev AllDots : List Text → Type 0
AllDots ts = All (λ t. t ≡ dot_dot) ts

-- What cleaning keeps, the last one first: names, above steps out of the folder.
abbrev IsReduced : List Text → Type 0
IsReduced [] = Unit
IsReduced (t ∷ kept) = IsPlain t × IsReduced kept ⊎ (t ≡ dot_dot) × AllDots kept

back-IsReduced : (kept : List Text) → IsReduced kept → IsReduced (back false kept)
unfolding back
back-IsReduced [] h = inr (refl, tt)
back-IsReduced (t ∷ kept) (inl (plain, h)) = rw (plain.2) h
back-IsReduced (t ∷ kept) (inr (same, dots)) =
    rw (ap (λ u. u == dot_dot) same ∙ eq_refl dot_dot) (inr (refl, (same, dots)))

clean_onto-IsReduced :
    (kept ts : List Text)
    → IsReduced kept
    → All (Lacks b'/') ts
    → IsReduced (clean_onto false kept ts)
unfolding clean_onto
clean_onto-IsReduced kept [] h a = h
clean_onto-IsReduced kept (t ∷ ts) h a = elim (Bool-cases (is_empty t || t == dot)) [
  | inl e ↦ rw e (clean_onto-IsReduced kept ts h a.1)
  | inr e ↦ elim (Bool-cases (t == dot_dot)) [
    | inl f ↦ rw (e, f) (clean_onto-IsReduced (back false kept) ts (back-IsReduced kept h) a.1)
    | inr f ↦
        rw (e, f)
          (clean_onto-IsReduced (t ∷ kept) ts (inl ((ground arith, ground arith, f, a.0), h)) a.1)
  ]
]

ends_out :
    (t : Text) (kept : List Text)
    → t ≡ dot_dot
    → AllDots kept
    → (above : List Text) × (t ∷ kept ≡ above ++ (dot_dot ∷ []))
ends_out t [] same dots = ([], ap (λ u. u ∷ []) same)
ends_out t (u ∷ kept) same dots =
    let (above, e) = ends_out u kept dots.0 dots.1 in (t ∷ above, ap (λ l. t ∷ l) e)

-- Either all are names, or the first one is a step out.
IsReduced-cases :
    (kept : List Text)
    → IsReduced kept
    → All IsPlain kept ⊎ ((above : List Text) × (kept ≡ above ++ (dot_dot ∷ [])))
IsReduced-cases [] h = inl tt
IsReduced-cases (t ∷ kept) (inl (plain, h)) = elim (IsReduced-cases kept h) [
  | inl a ↦ inl (plain, a)
  | inr (above, e) ↦ inr (t ∷ above, ap (λ l. t ∷ l) e)
]
IsReduced-cases (t ∷ kept) (inr (same, dots)) = inr (ends_out t kept same dots)

clean_onto-append :
    (rooted : Bool) (ts us kept : List Text)
    → clean_onto rooted kept (ts ++ us) ≡ clean_onto rooted (clean_onto rooted kept ts) us
unfolding clean_onto
clean_onto-append rooted [] us kept = refl
clean_onto-append rooted (t ∷ ts) us kept = clean_onto-append rooted ts us _

clean_onto-plain :
    (rooted : Bool) (kept ts : List Text)
    → All IsPlain ts
    → clean_onto rooted kept ts ≡ reverse ts ++ kept
unfolding clean_onto
clean_onto-plain rooted kept [] a = refl
clean_onto-plain rooted kept (t ∷ ts) a =
    rw (a.0.0, a.0.1, a.0.2)
      (clean_onto-plain rooted (t ∷ kept) ts a.1
        ∙ sym (append_assoc (reverse ts) (t ∷ []) kept)
        ∙ ap (λ l. l ++ kept) (sym (reverse-cons t ts)))

-- Cleaning a path and names below it keeps the names.
clean_parts-plain :
    (rooted : Bool) (ts us : List Text)
    → All IsPlain us
    → clean_parts rooted (ts ++ us) ≡ clean_parts rooted ts ++ us
unfolding clean_parts
clean_parts-plain rooted ts us a =
    ap reverse (clean_onto-append rooted ts us [] ∙ clean_onto-plain rooted _ us a)
    ∙ reverse-append (reverse us) (clean_onto rooted [] ts)
    ∙ ap (λ l. reverse (clean_onto rooted [] ts) ++ l) (reverse-reverse us)

All-append : (ts us : List Text) → All IsPlain ts → All IsPlain us → All IsPlain (ts ++ us)
All-append [] us a b = b
All-append (t ∷ ts) us a b = (a.0, All-append ts us a.1 b)

All-reverse : (ts : List Text) → All IsPlain ts → All IsPlain (reverse ts)
All-reverse [] a = tt
All-reverse (t ∷ ts) a =
    rw (reverse-cons t ts) (All-append (reverse ts) (t ∷ []) (All-reverse ts a.1) (a.0, tt))

plain-Lacks : (ts : List Text) → All IsPlain ts → All (Lacks b'/') ts
plain-Lacks [] a = tt
plain-Lacks (t ∷ ts) a = (a.0.3, plain-Lacks ts a.1)

from_parts-dot_dot : (ts : List Text) → has_prefix (from_parts false (dot_dot ∷ ts)) dot_dot ≡ true
unfolding from_parts join
from_parts-dot_dot [] = unfold has_prefix in refl
from_parts-dot_dot (t ∷ ts) = has_prefix-append dot_dot _

names_of :
    (rooted : Bool) (kept : List Text)
    → (rooted ≡ false → IsReduced kept)
    → has_prefix (from_parts rooted (reverse kept)) dot_dot ≡ false
    → is_abs (from_parts rooted (reverse kept)) ≡ false
    → (names : List Text) × All IsPlain names
      × (from_parts rooted (reverse kept) ≡ from_parts false names)
names_of true kept reduced no_dots relative = absurd (unfold from_parts in cc relative)
names_of false kept reduced no_dots relative = elim (IsReduced-cases kept (reduced refl)) [
  | inl a ↦ (reverse kept, All-reverse kept a, refl)
  | inr (above, e) ↦
      let turned = ap reverse e ∙ reverse-append above (dot_dot ∷ []) in
      let dots =
        ap (λ l. has_prefix (from_parts false l) dot_dot) turned
        ∙ from_parts-dot_dot (reverse above) in
      absurd (cc (sym no_dots ∙ dots))
]

-- A cleaned relative path that does not start with two dots is made of names.
clean-names :
    (path : Text)
    → has_prefix (clean path) dot_dot ≡ false
    → is_abs (clean path) ≡ false
    → (names : List Text) × All IsPlain names × (clean path ≡ from_parts false names)
unfolding clean clean_parts
clean-names path = names_of (is_abs path) (clean_onto (is_abs path) [] (split b'/' path)) (λ e.
    subst (λ b. IsReduced (clean_onto b [] (split b'/' path))) (sym e)
      (clean_onto-IsReduced [] (split b'/' path) tt (split-Lacks b'/' path)))

-- The parts of such a path, behind others.
clean_parts-names :
    (rooted : Bool) (ts names : List Text)
    → All IsPlain names
    → clean_parts rooted (ts ++ split b'/' (from_parts false names))
      ≡ clean_parts rooted ts ++ names
unfolding from_parts clean_parts
clean_parts-names rooted ts [] a =
    unfold clean_onto split ◌==◌ in
    ap reverse (clean_onto-append rooted ts (dot ∷ []) []) ∙ sym (append-nil _)
clean_parts-names rooted ts (n ∷ names) a =
    ap (λ l. clean_parts rooted (ts ++ l)) (split-join b'/' n names (a.0.3) (plain-Lacks names a.1))
    ∙ clean_parts-plain rooted ts (n ∷ names) a

-- What `filepath.Join` makes of a folder and a cleaned name that is safe lies in the folder.
pub join_path-IsInside :
    (folder name : Text)
    → is_empty folder ≡ false
    → has_prefix (clean name) dot_dot ≡ false
    → is_abs (clean name) ≡ false
    → IsInside folder (join_path (folder ∷ clean name ∷ []))
unfolding join_path join clean
join_path-IsInside [] name given no_dots relative = absurd cc
join_path-IsInside (c ∷ folder) name given no_dots relative =
    let (names, plain, e) = clean-names name no_dots relative in
    let rooted = is_abs (c ∷ folder) in
    (
      names,
      plain,
      ap (from_parts rooted) (
          ap (clean_parts rooted) (split-append_char b'/' (c ∷ folder) (clean name))
          ∙ ap (λ n. clean_parts rooted (split b'/' (c ∷ folder) ++ split b'/' n)) e
          ∙ clean_parts-names rooted (split b'/' (c ∷ folder)) names plain),
    )
