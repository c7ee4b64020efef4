-- ===== src/Artifact/Registry/Entry.antt =====
-- Which entry of a box `vagrantVersion.provider` selects.
use desktop_hypervisor_mcp.Base.{
  Bool, true, ◌&&◌, Option, none, some, List, [], ◌∷◌, if◌then◌else◌, ◌≡◌, refl, sym, ◌∙◌, ◌⊎◌, ◌↔◌,
  arith, inl, inr, In, Bool-cases,
}
use desktop_hypervisor_mcp.Base.Text.{Text, text, ◌==◌, is_empty}
use desktop_hypervisor_mcp.Base.Text.Equal.{eq_iff}
use desktop_hypervisor_mcp.Artifact.Registry.{
  BoxEntry, BoxVersion, is_legacy, entry_from, box_provider,
}

-- The first entry of a list with a property.
abbrev pub first_where : (BoxEntry → Bool) → List BoxEntry → Option BoxEntry
first_where test [] = none
first_where test (p ∷ ps) = let rest = first_where test ps in if test p then some p else rest

abbrev pub or_else : Option BoxEntry → Option BoxEntry → Option BoxEntry
or_else (some p) q = some p
or_else none q = q

abbrev pub exact : Text → Text → BoxEntry → Bool
exact name arch p = p.name == name && p.architecture == arch

abbrev pub legacy : Text → BoxEntry → Bool
legacy name p = p.name == name && is_legacy p.architecture

entry_from_lem :
    (name arch : Text) (fallback : Option BoxEntry) (ps : List BoxEntry)
    → entry_from name arch fallback ps
      ≡ or_else (first_where (exact name arch) ps) (or_else fallback (first_where (legacy name) ps))
unfolding entry_from
entry_from_lem name arch none [] = refl
entry_from_lem name arch (some f) [] = refl
entry_from_lem name arch none (p ∷ ps) =
    ground (arith, entry_from_lem name arch none ps, entry_from_lem name arch (some p) ps)
entry_from_lem name arch (some f) (p ∷ ps) = ground (arith, entry_from_lem name arch (some f) ps)

-- The first entry of the provider for the architecture of the host is selected, and where there is
-- none, the first entry of the provider from before boxes had an architecture.
pub box_provider_lem :
    (v : BoxVersion) (name arch : Text)
    → box_provider v name arch
      ≡ or_else (first_where (exact name arch) v.providers) (first_where (legacy name) v.providers)
unfolding box_provider
box_provider_lem v name arch = entry_from_lem name arch none v.providers

first_where-test :
    (test : BoxEntry → Bool) (ps : List BoxEntry) (p : BoxEntry)
    → first_where test ps ≡ some p
    → In p ps × (test p ≡ true)
first_where-test test [] p h = cc
first_where-test test (q ∷ ps) p h = elim (Bool-cases (test q)) [
  | inl t ↦ ground arith
  | inr t ↦ let (there, good) = first_where-test test ps p cc in (inr there, good)
]

is_empty_iff : (t : Text) → (is_empty t ≡ true) ↔ (t ≡ [])
is_empty_iff [] = ((λ h. refl), λ h. refl)
is_empty_iff (x ∷ t) = ((λ h. cc), λ h. cc)

or_else-eq-some :
    (a b : Option BoxEntry) (p : BoxEntry) → or_else a b ≡ some p → (a ≡ some p) ⊎ (b ≡ some p)
or_else-eq-some (some q) b p h = inl h
or_else-eq-some none b p h = inr h

-- No entry for another architecture is selected: the selected entry is one of the version, of the
-- provider, and for the architecture of the host or with none or `unknown`.
pub box_provider-arch :
    (v : BoxVersion) (name arch : Text) (p : BoxEntry)
    → box_provider v name arch ≡ some p
    → In p v.providers
      × (p.name ≡ name)
      × ((p.architecture ≡ arch) ⊎ (p.architecture ≡ []) ⊎ (p.architecture ≡ text "unknown"))
unfolding is_legacy
box_provider-arch v name arch p h =
    elim (or_else-eq-some _ _ p (sym (box_provider_lem v name arch) ∙ h)) [
      | inl e ↦
          let (there, good) = first_where-test (exact name arch) v.providers p e in
          (there, ground (arith, eq_iff p.name name), ground (arith, eq_iff p.architecture arch))
      | inr e ↦
          let (there, good) = first_where-test (legacy name) v.providers p e in
          (
            there,
            ground (arith, eq_iff p.name name),
            ground (arith, eq_iff p.architecture (text "unknown"), is_empty_iff p.architecture),
          )
    ]
