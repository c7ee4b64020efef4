-- ===== src/Server/Select.antt =====
-- Which provider `selectOps` chooses.
use desktop_hypervisor_mcp.Base.{
  true, false, List, [], ◌∷◌, ◌≡◌, ◌≢◌, refl, ap, ◌⊎◌, ◌↔◌, arith, inl, inr, Bool-cases, All,
}
use desktop_hypervisor_mcp.Base.Text.{Text, ◌==◌}
use desktop_hypervisor_mcp.Base.Text.Equal.{eq_iff}
use desktop_hypervisor_mcp.Provider.Contract.{Descriptor}
use desktop_hypervisor_mcp.Provider.Errors.{ok}
use desktop_hypervisor_mcp.Server.{
  Adapter, ops, is_ready, ready_ones, select_id, select_only, select_ops,
}

abbrev pub NoneReady : List Descriptor → Type 0
NoneReady ds = All (λ d. is_ready d.status ≡ false) ds

-- The descriptor stands in the list and is ready, and no other place of the list has a ready one.
abbrev pub IsSole : Descriptor → List Descriptor → Type 0
IsSole d [] = ⊥
IsSole d (x ∷ xs) =
    (x ≡ d) × (is_ready x.status ≡ true) × NoneReady xs ⊎ (is_ready x.status ≡ false) × IsSole d xs

-- The first of the list with the id.
abbrev pub IsFirst : Text → Descriptor → List Descriptor → Type 0
IsFirst id d [] = ⊥
IsFirst id d (x ∷ xs) = (x ≡ d) × (x.id ≡ id) ⊎ (x.id ≢ id) × IsFirst id d xs

NoneReady-ready_ones : (ds : List Descriptor) → NoneReady ds → ready_ones ds ≡ []
unfolding ready_ones
NoneReady-ready_ones [] h = refl
NoneReady-ready_ones (x ∷ ds) h = rw (h.0) (NoneReady-ready_ones ds h.1)

ready_ones-eq-nil : (ds : List Descriptor) → ready_ones ds ≡ [] → NoneReady ds
unfolding ready_ones
ready_ones-eq-nil [] h = tt
ready_ones-eq-nil (x ∷ ds) h = (ground arith, ready_ones-eq-nil ds (ground arith))

IsSole-ready_ones : (ds : List Descriptor) (d : Descriptor) → IsSole d ds → ready_ones ds ≡ d ∷ []
unfolding ready_ones
IsSole-ready_ones [] d h = absurd h
IsSole-ready_ones (x ∷ ds) d (inl (same, r, none_else)) =
    rw r (rw (NoneReady-ready_ones ds none_else) (ap (λ y. y ∷ []) same))
IsSole-ready_ones (x ∷ ds) d (inr (r, h)) = rw r (IsSole-ready_ones ds d h)

ready_ones-eq-one : (ds : List Descriptor) (d : Descriptor) → ready_ones ds ≡ d ∷ [] → IsSole d ds
unfolding ready_ones
ready_ones-eq-one [] d h = cc
ready_ones-eq-one (x ∷ ds) d h = elim (Bool-cases (is_ready x.status)) [
  | inl r ↦ inl (cc, r, ready_ones-eq-nil ds cc)
  | inr r ↦ inr (r, ready_ones-eq-one ds d cc)
]

select_only-eq-ok :
    (ds : List Descriptor) (a : Adapter)
    → select_only ds ≡ ok a
    → (d : Descriptor) × (ds ≡ d ∷ []) × (a ≡ ops d)
unfolding select_only
select_only-eq-ok [] a h = cc
select_only-eq-ok (d ∷ []) a h = (d, refl, cc)
select_only-eq-ok (d ∷ e ∷ ds) a h = cc

only_one : (d : Descriptor) (a : Adapter) → a ≡ ops d → select_only (d ∷ []) ≡ ok a
unfolding select_only
only_one d a h = cc

select_id_iff :
    (ds : List Descriptor) (id : Text) (a : Adapter)
    → (select_id ds id ≡ ok a)
      ↔ ((d : Descriptor) × IsFirst id d ds × (is_ready d.status ≡ true) × (a ≡ ops d))
unfolding select_id
select_id_iff [] id a = ((λ h. cc), λ p. absurd p.1)
select_id_iff (x ∷ ds) id a = elim (Bool-cases (x.id == id)) [
  | inl same ↦ (
    (λ h. elim (Bool-cases (is_ready x.status)) [
      | inl r ↦ (x, inl (refl, (eq_iff x.id id).0 same), r, cc)
      | inr r ↦ absurd cc
    ]),
    (λ (d, first, r, served). elim first [
      | inl (here, named) ↦ ground arith
      | inr (other, later) ↦ absurd (other ((eq_iff x.id id).0 same))
    ]),
  )
  | inr other ↦ (
    (λ h.
        let (d, first, r, served) = (select_id_iff ds id a).0 cc in
        (d, inr (ground (arith, eq_iff x.id id), first), r, served)),
    (λ (d, first, r, served). elim first [
      | inl (here, named) ↦ absurd (ground (arith, eq_iff x.id id))
      | inr (differs, later) ↦ rw other ((select_id_iff ds id a).1 (d, later, r, served))
    ]),
  )
]

-- A call that names no provider is served exactly if one provider of the host is ready and no
-- other, and then by that one.
pub select_ops-auto :
    (ds : List Descriptor) (a : Adapter)
    → (select_ops ds [] ≡ ok a) ↔ ((d : Descriptor) × IsSole d ds × (a ≡ ops d))
unfolding select_ops
select_ops-auto ds a = (
  (λ h.
      let (d, one, same) = select_only-eq-ok (ready_ones ds) a h in
      (d, ready_ones-eq-one ds d one, same)),
  (λ p. rw (IsSole-ready_ones ds p.0 p.1) (only_one p.0 a p.2)),
)

-- A call that names a provider is served exactly if the first provider with that id is ready, and
-- then by that one.
pub select_ops-named :
    (ds : List Descriptor) (id : Text) (a : Adapter)
    → id ≢ []
    → (select_ops ds id ≡ ok a)
      ↔ ((d : Descriptor) × IsFirst id d ds × (is_ready d.status ≡ true) × (a ≡ ops d))
unfolding select_ops
select_ops-named ds [] a h = absurd (h refl)
select_ops-named ds (c ∷ id) a h = select_id_iff ds (c ∷ id) a
