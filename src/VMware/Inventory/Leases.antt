-- ===== src/VMware/Inventory/Leases.antt =====
-- Which lease `Ops.IP` reads from a file.
use desktop_hypervisor_mcp.Base.{
  Bool, true, false, List, [], ◌∷◌, ◌++◌, if◌then◌else◌, ◌≡◌, ◌⊎◌, refl, sym, ap, ◌∙◌, subst, inl,
  inr, All, Bool-cases,
}
use desktop_hypervisor_mcp.Base.Text.{Text, text, contains, to_lower}
use desktop_hypervisor_mcp.VMware.Inventory.{lease_in}

-- A block of the leases is for the MAC.
abbrev pub is_lease : Text → Text × Text → Bool
is_lease mac block = contains (to_lower block.1) (text "hardware ethernet " ++ mac)

-- The address is that of the last block for the MAC, which has no block for it behind it.
abbrev pub IsLast : Text → Text → List (Text × Text) → Type 0
IsLast mac ip [] = ⊥
IsLast mac ip (block ∷ blocks) =
    (is_lease mac block ≡ true) × (block.0 ≡ ip) × All (λ b. is_lease mac b ≡ false) blocks
    ⊎ IsLast mac ip blocks

-- The address of the last block for the MAC; where there is none, the one of before.
abbrev pub IsFound : Text → Text → Text → List (Text × Text) → Type 0
IsFound mac before ip blocks =
    IsLast mac ip blocks ⊎ (ip ≡ before) × All (λ b. is_lease mac b ≡ false) blocks

IsFound-hit :
    (mac before ip : Text) (b : Text × Text) (blocks : List (Text × Text))
    → is_lease mac b ≡ true
    → IsFound mac b.0 ip blocks
    → IsFound mac before ip (b ∷ blocks)
IsFound-hit mac before ip b blocks e (inl last) = inl (inr last)
IsFound-hit mac before ip b blocks e (inr (same, none_behind)) =
    inl (inl (e, sym same, none_behind))

IsFound-miss :
    (mac before ip : Text) (b : Text × Text) (blocks : List (Text × Text))
    → is_lease mac b ≡ false
    → IsFound mac before ip blocks
    → IsFound mac before ip (b ∷ blocks)
IsFound-miss mac before ip b blocks e (inl last) = inl (inr last)
IsFound-miss mac before ip b blocks e (inr (same, none_behind)) = inr (same, (e, none_behind))

lease_in-step :
    (mac before : Text) (b : Text × Text) (blocks : List (Text × Text))
    → lease_in mac before (b ∷ blocks)
      ≡ lease_in mac (if is_lease mac b then b.0 else before) blocks
unfolding lease_in
lease_in-step mac before b blocks = refl

-- The address that is read is that of the last block for the MAC; where there is none, it is the
-- one of before.
pub lease_in-IsFound :
    (mac before : Text) (blocks : List (Text × Text))
    → IsFound mac before (lease_in mac before blocks) blocks
lease_in-IsFound mac before [] = inr (unfold lease_in in refl, tt)
lease_in-IsFound mac before (b ∷ blocks) = elim (Bool-cases (is_lease mac b)) [
  | inl e ↦
      let step =
        lease_in-step mac before b blocks
        ∙ ap (λ t. lease_in mac (if t then b.0 else before) blocks) e in
      subst (λ ip. IsFound mac before ip (b ∷ blocks)) (sym step)
        (IsFound-hit mac before _ b blocks e (lease_in-IsFound mac b.0 blocks))
  | inr e ↦
      let step =
        lease_in-step mac before b blocks
        ∙ ap (λ t. lease_in mac (if t then b.0 else before) blocks) e in
      subst (λ ip. IsFound mac before ip (b ∷ blocks)) (sym step)
        (IsFound-miss mac before _ b blocks e (lease_in-IsFound mac before blocks))
]
