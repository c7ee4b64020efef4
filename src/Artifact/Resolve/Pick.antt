-- ===== src/Artifact/Resolve/Pick.antt =====
-- `pick` against an independent description: the most specific variant that is usable.
use desktop_hypervisor_mcp.Base.{
  ℕ, ◌≤◌, Bool, true, false, ◌&&◌, ◌||◌, Option, none, some, List, [], ◌∷◌, if◌then◌else◌, ◌≡◌,
  refl, inl, inr, arith, In,
}
use desktop_hypervisor_mcp.Base.Text.{Text, ◌==◌}
use desktop_hypervisor_mcp.Artifact.Catalog.{Variant}
use desktop_hypervisor_mcp.Artifact.Resolve.{keep_first, or_else, pick_from, pick}

-- The first element that passes a test.
first : (Variant → Bool) → List Variant → Option Variant
first p [] = none
first p (x ∷ xs) = if p x then some x else first p xs

module _ (p : Variant → Bool) where
  first-eq-some : (xs : List Variant) (v : Variant) → first p xs ≡ some v → (p v ≡ true) × In v xs
  unfolding first
  first-eq-some [] v h = cc
  first-eq-some (x ∷ xs) v h = ground (arith, first-eq-some xs v)

  first-eq-none : (xs : List Variant) (w : Variant) → first p xs ≡ none → In w xs → p w ≡ false
  unfolding first
  first-eq-none [] w h m = elim m [ ]
  first-eq-none (x ∷ xs) w h (inl e) = ground arith
  first-eq-none (x ∷ xs) w h (inr m) = first-eq-none xs w (ground arith) m

-- One round of the loop, on the outcomes of the four comparisons.
combine :
    (same_family same_arch no_arch no_family : Bool) (v : Variant)
    (f a n exact_rest family_rest arch_rest any_rest : Option Variant)
    → (if same_family && same_arch
        then some v
        else or_else exact_rest (
            or_else (or_else (if same_family && no_arch then keep_first f v else f) family_rest) (
              or_else
                (or_else
                  (if same_family && no_arch
                    then a
                    else if no_family && same_arch
                    then keep_first a v
                    else a)
                  arch_rest)
                (or_else
                  (if same_family && no_arch || no_family && same_arch
                    then n
                    else if no_family && no_arch
                    then keep_first n v
                    else n)
                  any_rest))))
      ≡ or_else (if same_family && same_arch then some v else exact_rest) (
          or_else (or_else f (if same_family && no_arch then some v else family_rest)) (
            or_else
              (or_else a (if no_family && same_arch then some v else arch_rest))
              (or_else n (if no_family && no_arch then some v else any_rest))))
combine true true no_arch no_family v f a n er fr ar nr = refl
combine true false true no_family v none a n none fr ar nr = refl
combine _ _ _ _ v f a n er fr ar nr = ground arith

module _ (family arch : Text) where
  abbrev exact : Variant → Bool
  exact v = v.family == family && v.arch == arch

  abbrev of_family : Variant → Bool
  of_family v = v.family == family && v.arch == []

  abbrev of_arch : Variant → Bool
  of_arch v = v.family == [] && v.arch == arch

  abbrev of_any : Variant → Bool
  of_any v = v.family == [] && v.arch == []

  -- How specific a variant is: 4 if family and arch are both named, 3 for the family only, 2 for the
  -- arch only, 1 for neither, and 0 for one that names another family or arch.
  abbrev pub rank : Variant → ℕ
  rank v =
      if exact v
      then 4
      else if of_family v
      then 3
      else if of_arch v
      then 2
      else if of_any v
      then 1
      else 0

  ladder : List Variant → Option Variant
  unfolding first
  ladder vs =
      or_else (first exact vs)
        (or_else (first of_family vs) (or_else (first of_arch vs) (first of_any vs)))

  pick_from-ladder :
      (vs : List Variant) (f a n : Option Variant)
      → pick_from family arch f a n vs
        ≡ or_else (first exact vs) (
            or_else
              (or_else f (first of_family vs))
              (or_else (or_else a (first of_arch vs)) (or_else n (first of_any vs))))
  unfolding pick_from first
  pick_from-ladder [] f a n = ground arith
  pick_from-ladder (v ∷ vs) f a n = rw (pick_from-ladder vs _ _ _) (
      combine (v.family == family) (v.arch == arch) (v.arch == []) (v.family == []) v f a n
        (first exact vs) (first of_family vs) (first of_arch vs) (first of_any vs))

  ladder-rank :
      (vs : List Variant) (v w : Variant)
      → ladder vs ≡ some v
      → In w vs
      → In v vs × (1 ≤ rank v) × (rank w ≤ rank v)
  unfolding ladder
  ladder-rank vs v w h m = ground (
    arith,
    first-eq-some exact vs v,
    first-eq-none exact vs w,
    first-eq-none exact vs v,
    first-eq-some of_family vs v,
    first-eq-none of_family vs w,
    first-eq-none of_family vs v,
    first-eq-some of_arch vs v,
    first-eq-none of_arch vs w,
    first-eq-none of_arch vs v,
    first-eq-some of_any vs v,
    first-eq-none of_any vs w,
  )

  ladder-In : (vs : List Variant) (v : Variant) → ladder vs ≡ some v → In v vs
  unfolding ladder
  ladder-In vs v h = ground (
    arith,
    first-eq-some exact vs v,
    first-eq-some of_family vs v,
    first-eq-some of_arch vs v,
    first-eq-some of_any vs v,
  )

  pick-ladder : (vs : List Variant) → pick vs family arch ≡ ladder vs
  unfolding pick ladder
  pick-ladder vs = pick_from-ladder vs none none none

  -- What is picked is one of the variants, is usable, and no variant is more specific.
  pub pick-best :
      (vs : List Variant) (v : Variant)
      → pick vs family arch ≡ some v
      → In v vs × (1 ≤ rank v) × ((w : Variant) → In w vs → rank w ≤ rank v)
  pick-best vs v h =
      let e = rw pick-ladder at h in
      let m = ladder-In vs v e in (m, (ladder-rank vs v v e m).1, λ w k. (ladder-rank vs v w e k).2)

  -- Nothing is picked only if no variant is usable.
  pub pick-none :
      (vs : List Variant) (w : Variant) → pick vs family arch ≡ none → In w vs → rank w ≡ 0
  unfolding ladder
  pick-none vs w h m =
      let e = rw pick-ladder at h in
      ground (
        arith,
        first-eq-none exact vs w,
        first-eq-none of_family vs w,
        first-eq-none of_arch vs w,
        first-eq-none of_any vs w,
      )
